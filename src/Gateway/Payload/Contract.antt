-- ===== src/Gateway/Payload/Contract.antt =====
-- The gateway contract of README.md ("Gateway contract"), stated without reference to the checks.
use amazon_echo_home_voice.Prelude.{
  ℕ, String, Bool, true, ◌≡◌, ◌≢◌, ◌≤◌, ◌==◌, List, [], ◌∷◌, any, false, arith, eq_iff, refl,
  ==_iff, str_eq, not, ◌&&◌, OneOf-one_of, inl, inr, ap, some, one_of-OneOf, OneOf, All, Bool-cases,
}
use amazon_echo_home_voice.Python.{
  Python, Json, obj, str, Fields, find, get, as_str, ok, nonempty, len, codes, required->>=-eq-ok,
  ensure->>=-eq-ok, ensure-eq-ok, find_fields, find_str,
}
use amazon_echo_home_voice.Gateway.Payload.{
  valid_chars, valid_text, check_report, statuses, max_text_length,
}
use mathlib.Core.Bool.{false≢true}

module _ (py : Python) where
  -- What Alexa can be given to say: some text, bounded, with no control character and no markup.
  pub record IsSpeech (maximum : ℕ) (s : String) : Type 0 where
    pub some_text : nonempty (py.strip s) ≡ true
    pub short : len s ≤ maximum
    pub plain : All (λ c. (py.is_control c ≡ false) × (c ≢ b'<') × (c ≢ b'>')) (codes s)

  pub record IsReport (reports : Fields) (connected : Bool) (name : String) : Type 0 where
    pub report : Fields
    pub status : String
    pub text : String
    pub is_object : find name reports ≡ some (obj report)
    pub has_status : find "status" report ≡ some (str status)
    pub known : OneOf statuses status
    pub live : status ≡ "fresh" → connected ≡ true
    pub has_text : find "text" report ≡ some (str text)
    pub speech : IsSpeech max_text_length text

  plain_chars :
      (cs : List ℕ)
      → any py.is_control cs ≡ false
      → any (λ c. c == b'<') cs ≡ false
      → any (λ c. c == b'>') cs ≡ false
      → All (λ c. (py.is_control c ≡ false) × (c ≢ b'<') × (c ≢ b'>')) cs
  plain_chars [] a b c = tt
  plain_chars (x ∷ cs) a b c = (
    (ground arith, ground arith, ground arith),
    plain_chars cs (ground arith) (ground arith) (ground arith),
  )

  pub valid_chars-IsSpeech : (n : ℕ) (s : String) → valid_chars py n s ≡ true → IsSpeech n s
  unfolding valid_chars
  valid_chars-IsSpeech n s h = record {
    some_text = ground arith;
    short = ground arith;
    plain = plain_chars (codes s) (ground arith) (ground arith) (ground arith);
  }

  pub valid_text-IsSpeech :
      (n : ℕ) (v : Json) → valid_text py n v ≡ true → (s : String) × (v ≡ str s) × IsSpeech n s
  valid_text-IsSpeech n (str s) h = (s, refl, valid_chars-IsSpeech n s h)
  valid_text-IsSpeech n _ h = cc

  pub check_report-IsReport :
      (reports : Fields) (connected : Bool) (name : String)
      → check_report py reports connected name ≡ ok tt
      → IsReport reports connected name
  unfolding check_report
  check_report-IsReport reports connected name h =
      let (report, is_object, h₁) = required->>=-eq-ok _ _ _ h in
      let (status, has_status, h₂) = required->>=-eq-ok _ _ _ h₁ in
      let (known, h₃) = ensure->>=-eq-ok _ _ _ h₂ in
      let (live, h₄) = ensure->>=-eq-ok _ _ _ h₃ in
      let (text, has_text, speech) =
        valid_text-IsSpeech max_text_length (get "text" report) (ensure-eq-ok _ _ h₄) in
      record {
        report = report;
        status = status;
        text = text;
        is_object = find_fields name reports is_object;
        has_status = find_str "status" report has_status;
        known = one_of-OneOf statuses status known;
        live = λ e. ground (arith, eq_iff status "fresh");
        has_text = find_str "text" report (ap as_str has_text);
        speech = speech;
      }

  chars_plain :
      (cs : List ℕ)
      → All (λ c. (py.is_control c ≡ false) × (c ≢ b'<') × (c ≢ b'>')) cs
      → (any py.is_control cs ≡ false)
        × (any (λ c. c == b'<') cs ≡ false)
        × (any (λ c. c == b'>') cs ≡ false)
  chars_plain [] h = (refl, refl, refl)
  chars_plain (x ∷ cs) h = ground (arith, chars_plain cs h.1, ==_iff x b'<', ==_iff x b'>')

  pub IsSpeech-valid_chars : (n : ℕ) (s : String) → IsSpeech n s → valid_chars py n s ≡ true
  unfolding valid_chars
  IsSpeech-valid_chars n s h = ground (arith, chars_plain (codes s) h.plain, h.some_text, h.short)

  -- A status that may be announced over this connection passes the test on it.
  live_status :
      (status : String) (connected : Bool)
      → (status ≡ "fresh" → connected ≡ true)
      → not (str_eq status "fresh" && not connected) ≡ true
  live_status status true h = ground arith
  live_status status false h = elim (Bool-cases (str_eq status "fresh")) [
    | inl e ↦ absurd (false≢true (h ((eq_iff status "fresh").0 e)))
    | inr e ↦ rw e
  ]

  pub IsReport-check_report :
      (reports : Fields) (connected : Bool) (name : String)
      → IsReport reports connected name
      → check_report py reports connected name ≡ ok tt
  unfolding check_report
  IsReport-check_report reports connected name r = ground (
    arith,
    r.is_object,
    r.has_status,
    r.has_text,
    OneOf-one_of statuses r.status r.known,
    live_status r.status connected r.live,
    IsSpeech-valid_chars max_text_length r.text r.speech,
  )
