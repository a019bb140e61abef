-- ===== src/Portal/Input.antt =====
-- What the portal reads of a browser's request: `_cookies`, `_params` and `_form` of portal.py.
use amazon_echo_home_voice.Prelude.{
  Bool, List, Option, String, [], all, if◌then◌else◌, leb, length, ltb, none, one_of, or_else, some,
  str_eq, take, ℕ, ◌&&◌, ◌==◌, ◌∷◌,
}
use amazon_echo_home_voice.Python.{
  Python, Result, bad_request, before, ensure, len, ok, raised, required, ◌>>=◌, ◌>>◌,
}

-- The members of the WSGI environment that are read, with the defaults of `environ.get`, and the
-- bytes that `wsgi.input` has.
pub record Browser : Type 0 where
  pub host : String
  pub path : String
  pub method : String
  pub query : String
  pub cookie : String
  pub origin : Option String
  pub content_type : String
  pub content_length : String
  pub input : List ℕ

abbrev pub Pairs : Type 0
Pairs = List (String × String)

-- pairs.get(key)
unfoldable pub value_of : String → Pairs → Option String
value_of k [] = none
value_of k ((j, v) ∷ rest) = let other = value_of k rest in if str_eq j k then some v else other

-- pairs.get(key, "")
abbrev pub text_of : String → Pairs → String
text_of k pairs = or_else (value_of k pairs) ""

-- set(pairs) <= keys
abbrev pub only_keys : List String → Pairs → Bool
only_keys keys pairs = all (λ p. one_of keys p.0) pairs

abbrev pub max_form_bytes : ℕ
max_form_bytes = 16384

-- Every key has one value.
unfoldable pub single_values : List (String × List String) → Result Pairs
single_values [] = ok []
single_values ((k, v ∷ []) ∷ rest) = single_values rest >>= λ pairs. ok ((k, v) ∷ pairs)
single_values _ = raised bad_request

module _ (py : Python) where
  -- _cookies
  unfoldable pub cookies_of : Browser → Result Pairs
  cookies_of r = do
    ensure (leb (len r.cookie) 4096) bad_request
    required (py.load_cookies r.cookie) bad_request

  -- _params
  unfoldable pub params : String → Result Pairs
  params value = do
    ensure (leb (len value) max_form_bytes) bad_request
    pairs ← required (py.parse_qs value) bad_request
    single_values pairs

  -- _form
  unfoldable pub form_of : (origin : String) → Browser → Result Pairs
  form_of origin r = do
    sent_from ← required r.origin bad_request
    ensure (str_eq sent_from origin) bad_request
    ensure
        (str_eq (py.lower (py.strip (before b';' r.content_type)))
          "application/x-www-form-urlencoded")
        bad_request
    content_length ← required (py.parse_int r.content_length) bad_request
    ensure (ltb 0 content_length && leb content_length max_form_bytes) bad_request
    let raw = take content_length r.input
    ensure (length raw == content_length) bad_request
    text ← required (py.decode raw) bad_request
    params text
