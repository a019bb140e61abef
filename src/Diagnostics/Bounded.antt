-- ===== src/Diagnostics/Bounded.antt =====
-- The log lines come from finite sets.
use amazon_echo_home_voice.Prelude.{
  List, Option, String, [], arith, eq_iff, map, none, one_of, refl, some, true, ℕ, ◌∷◌, ◌≡◌, ◌≤◌,
}
use amazon_echo_home_voice.Python.{
  Exn, Foreign, attribute_error, certificate_error, connection_error, connection_refused,
  connection_reset, gai_error, http_error, http_exception, import_error, key_error, os_error,
  other_error, recursion_error, runtime_error, ssl_error, timeout_error, type_error, unicode_error,
  url_error, url_error_text, value_error,
}
use amazon_echo_home_voice.Diagnostics.{
  category_of, cause_name, cause_of, failure, failure_categories, gateway_failure, http_status,
  message_of, unwrap, Line,
}

abbrev pub categories : List String
categories = "unknown" ∷ map (λ p. p.0) failure_categories

abbrev pub cause_names : List String
cause_names =
    "none" ∷ "HTTPError" ∷ "TimeoutError" ∷ "SSLCertVerificationError" ∷ "SSLError"
    ∷ "ConnectionRefusedError" ∷ "ConnectionResetError" ∷ "gaierror" ∷ "URLError" ∷ "HTTPException"
    ∷ "UnicodeError" ∷ "ValueError" ∷ "OSError" ∷ "other" ∷ []

cause_name-known : (cause : Option Foreign) → one_of cause_names (cause_name cause) ≡ true
unfolding cause_name
cause_name-known none = refl
cause_name-known (some (http_error code)) = refl
cause_name-known (some (url_error reason)) = refl
cause_name-known (some url_error_text) = refl
cause_name-known (some timeout_error) = refl
cause_name-known (some connection_refused) = refl
cause_name-known (some connection_reset) = refl
cause_name-known (some connection_error) = refl
cause_name-known (some certificate_error) = refl
cause_name-known (some ssl_error) = refl
cause_name-known (some gai_error) = refl
cause_name-known (some os_error) = refl
cause_name-known (some http_exception) = refl
cause_name-known (some unicode_error) = refl
cause_name-known (some value_error) = refl
cause_name-known (some recursion_error) = refl
cause_name-known (some key_error) = refl
cause_name-known (some type_error) = refl
cause_name-known (some attribute_error) = refl
cause_name-known (some import_error) = refl
cause_name-known (some other_error) = refl
cause_name-known (some runtime_error) = refl

-- A message of the table has the category of its row, and every other message is unknown.
category_of-known :
    (table : List (String × List String)) (message : String)
    → one_of ("unknown" ∷ map (λ p. p.0) table) (category_of table message) ≡ true
unfolding category_of
category_of-known [] message = refl
category_of-known ((category, messages) ∷ rest) message =
    ground (arith, category_of-known rest message, eq_iff category category)

http_status-bounded :
    (cause : Option Foreign) (code : ℕ)
    → http_status cause ≡ some code
    → (100 ≤ code) × (code ≤ 599)
http_status-bounded (some (http_error c)) code h = ground arith
http_status-bounded _ code h = cc

-- The fields of a failure's line: each is from a finite set.
pub data IsBounded : Line → Type 0 where
  bounded :
      (category cause : String) (status : Option ℕ)
      → one_of categories category ≡ true
      → one_of cause_names cause ≡ true
      → ((code : ℕ) → status ≡ some code → (100 ≤ code) × (code ≤ 599))
      → IsBounded (failure category cause status)

-- The log line of every exception has a category and a cause of the fixed lists, and a status
-- between 100 and 599 if it has one.
pub gateway_failure-IsBounded : (error : Exn) → IsBounded (gateway_failure error)
unfolding gateway_failure
gateway_failure-IsBounded error =
    bounded _ _ _ (category_of-known failure_categories (message_of error))
      (cause_name-known (unwrap (cause_of error))) (http_status-bounded (unwrap (cause_of error)))
