-- ===== src/Oauth/Identity.antt =====
-- What `_introspect` of oauth.py accepts as an identity, given the provider's answer.
use amazon_echo_home_voice.Python.{
  Fields, Float, Json, Number, Python, Result, all_chars, arr, as_number, as_str, between, bool,
  ensure, find, float, foreign, get, invalid_token, items, key_error, len, num, num_lt, ok,
  required, split, str, ◌>>=◌, ◌>>◌,
}
use amazon_echo_home_voice.Prelude.{
  Bool, List, Option, String, [], all, any, false, leb, none, not, one_of, some, str_eq, true, ◌&&◌,
  ◌++◌, ◌∷◌,
}
use amazon_echo_home_voice.Oauth.{visible_string, finite_number}

pub record Identity : Type 0 where
  pub subject : String
  pub issuer : String
  pub expires_at : Number

-- A claim that is the text s.
abbrev pub is_text : String → Json → Bool
is_text s (str t) = str_eq t s
is_text s _ = false

-- audience: one text stands for a list of it
abbrev pub audience : Json → Option (List Json)
audience (str s) = some (str s ∷ [])
audience (arr vs) = some (items vs)
audience _ = none

abbrev pub claim : Option Json → List Json
claim none = []
claim (some v) = v ∷ []

-- [payload[name] for name in ("client_id", "azp") if name in payload]
abbrev pub clients : Fields → List Json
clients payload = claim (find "client_id" payload) ++ claim (find "azp" payload)

abbrev pub some_item : List Json → Bool
some_item [] = false
some_item (v ∷ vs) = true

abbrev pub is_active : Json → Bool
is_active (bool b) = b
is_active _ = false

-- The scope claim: printable, bounded, and with the wanted scope among its words.
unfoldable pub has_scope : String → String → Bool
has_scope scope token_scope =
    leb (len token_scope) 4096
    && all_chars (between 32 126) token_scope
    && one_of (split b' ' token_scope) scope

abbrev pub scope_claim : String → Json → Bool
scope_claim scope (str s) = has_scope scope s
scope_claim scope _ = false

abbrev pub is_later : Float → Json → Bool
is_later now (num n) = num_lt (float now) n
is_later now _ = false

unfoldable pub audience_claim : String → Option (List Json) → Bool
audience_claim client_id none = false
audience_claim client_id (some vs) = all (visible_string 255) vs && any (is_text client_id) vs

module _ (py : Python) where
  -- The conjunction `valid`.
  unfoldable pub valid_claims : (issuer client_id scope : String) → (now : Float) → Fields → Bool
  valid_claims issuer client_id scope now payload =
      is_active (get "active" payload)
      && is_text issuer (get "iss" payload)
      && audience_claim client_id (audience (get "aud" payload))
      && some_item (clients payload)
      && all (is_text client_id) (clients payload)
      && visible_string 255 (get "sub" payload)
      && finite_number py (get "exp" payload)
      && is_later now (get "exp" payload)
      && scope_claim scope (get "scope" payload)

  -- The test of `nbf`: `payload["nbf"] > self._clock()` refuses.
  unfoldable pub may_start : Float → Option Json → Bool
  may_start now none = true
  may_start now (some v) = finite_number py v && not (is_later now v)

  -- The end of `_introspect`, at two readings of the clock.
  unfoldable pub identity_of :
      (issuer client_id scope : String) → (now later : Float) → Fields → Result Identity
  identity_of issuer client_id scope now later payload = do
    ensure (valid_claims issuer client_id scope now payload) invalid_token
    ensure (may_start later (find "nbf" payload)) invalid_token
    subject ← required (as_str (get "sub" payload)) (foreign key_error)
    expires ← required (as_number (get "exp" payload)) (foreign key_error)
    ok (record { subject = subject; issuer = issuer; expires_at = expires })
