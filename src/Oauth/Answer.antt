-- ===== src/Oauth/Answer.antt =====
-- Reading one answer of the identity provider: `_read_json` and `_request_json` of oauth.py.
use amazon_echo_home_voice.Python.{
  Fields, Python, Result, as_fields, as_str, ensure, foreign, get, invalid_token, oauth_unavailable,
  ok, raised, required, unicode_error, value_error, ◌>>=◌, ◌>>◌,
}
use amazon_echo_home_voice.Prelude.{
  Bool, false, if◌then◌else◌, leb, length, none, not, some, str_eq, take, true, ℕ, ◌&&◌, ◌+◌, ◌==◌,
}
use amazon_echo_home_voice.UniqueKeys.{unique_object, with_hook}
use amazon_echo_home_voice.World.{Reply, responded, http_failure}
use amazon_echo_home_voice.Gateway.Response.{Response, media_type}

abbrev pub max_oauth_response : ℕ
max_oauth_response = 16384

-- Whether a posted request is the exchange of an authorization code.
pub data Purpose : Type 0 where
  introspection authorization_code : Purpose

module _ (py : Python) where
  -- _read_json
  unfoldable pub read_json : Response → Result Fields
  read_json response = do
    ensure (str_eq (media_type py response.content_type) "application/json") oauth_unavailable
    let body = take (max_oauth_response + 1) response.body
    ensure (leb (length body) max_oauth_response) oauth_unavailable
    text ← required (py.decode body) (foreign unicode_error)
    value ← required (py.loads text) (foreign value_error)
    ensure (not (py.has_constant text)) oauth_unavailable
    kept ← with_hook (unique_object oauth_unavailable) value
    required (as_fields kept) oauth_unavailable

  abbrev unavailable_on_error : Result Fields → Result Fields
  unavailable_on_error (raised (foreign f)) = raised oauth_unavailable
  unavailable_on_error r = r

  abbrev is_invalid_grant : Result Fields → Bool
  is_invalid_grant (ok payload) = elim (as_str (get "error" payload)) [
    | none ↦ false
    | some s ↦ str_eq s "invalid_grant"
  ]
  is_invalid_grant (raised e) = false

  abbrev exchanges_code : Purpose → Bool
  exchanges_code introspection = false
  exchanges_code authorization_code = true

  -- _request_json, with the last handler of `run`, which hides an exception of a library
  unfoldable pub request_json : Purpose → Reply → Result Fields
  request_json purpose (responded r) =
      if r.status == 200 then unavailable_on_error (read_json r) else raised oauth_unavailable
  request_json purpose (http_failure r) =
      if exchanges_code purpose && r.status == 400 && is_invalid_grant (read_json r)
      then raised invalid_token
      else raised oauth_unavailable
  request_json purpose _ = raised oauth_unavailable
