-- ===== src/Gateway/Response.antt =====
-- Reading one gateway response: `_response_body`, the JSON reader, and the classification of errors
-- at the end of `_fetch_once` in gateway.py.
use amazon_echo_home_voice.Prelude.{
  ℕ, ◌+◌, String, Bool, true, false, Option, none, some, List, [], ◌∷◌, ◌==◌, leb, length, take,
  any, str_eq, or_else, if◌then◌else◌,
}
use amazon_echo_home_voice.Python.{
  Python, Json, Result, ok, Exn, gateway_error, transient_gateway_error, foreign, Foreign,
  http_error, url_error, url_error_text, timeout_error, connection_refused, connection_reset,
  connection_error, certificate_error, ssl_error, gai_error, os_error, http_exception,
  unicode_error, value_error, recursion_error, ensure, required, gateway, before, ◌>>=◌, ◌>>◌,
}
use amazon_echo_home_voice.UniqueKeys.{unique_object, with_hook}

abbrev pub max_response_bytes : ℕ
max_response_bytes = 32768

abbrev pub transient_http_statuses : List ℕ
transient_http_statuses = 502 ∷ 503 ∷ 504 ∷ []

abbrev pub is_transient_status : ℕ → Bool
is_transient_status code = any (λ c. code == c) transient_http_statuses

-- An HTTP response whose body has not been read.
pub record Response : Type 0 where
  pub status : ℕ
  pub content_type : Option String
  pub body : List ℕ

-- raise error("Gateway request failed") from cause
abbrev pub request_failed : Bool → Option Foreign → Exn
request_failed transient cause =
    if transient
    then transient_gateway_error "Gateway request failed" cause
    else gateway_error "Gateway request failed" cause

-- isinstance(reason, (TimeoutError, ConnectionError))
abbrev pub is_transient_reason : Foreign → Bool
is_transient_reason timeout_error = true
is_transient_reason connection_refused = true
is_transient_reason connection_reset = true
is_transient_reason connection_error = true
is_transient_reason _ = false

-- isinstance(exc, (URLError, OSError, HTTPException))
abbrev pub is_transport_error : Foreign → Bool
is_transport_error (http_error code) = true
is_transport_error (url_error reason) = true
is_transport_error url_error_text = true
is_transport_error timeout_error = true
is_transport_error connection_refused = true
is_transport_error connection_reset = true
is_transport_error connection_error = true
is_transport_error certificate_error = true
is_transport_error ssl_error = true
is_transport_error gai_error = true
is_transport_error os_error = true
is_transport_error http_exception = true
is_transport_error _ = false

-- The `except` clauses of `_fetch_once`, for an exception of a library.
unfoldable pub classify : Foreign → Exn
classify (http_error code) = request_failed (is_transient_status code) (some (http_error code))
classify (url_error reason) = request_failed (is_transient_reason reason) (some (url_error reason))
classify unicode_error = gateway_error "Invalid gateway response" (some unicode_error)
classify value_error = gateway_error "Invalid gateway response" (some value_error)
classify recursion_error = gateway_error "Invalid gateway response" (some recursion_error)
classify f =
    if is_transport_error f then request_failed (is_transient_reason f) (some f) else foreign f

module _ (py : Python) where
  -- .split(";", 1)[0].strip().lower()
  abbrev pub media_type : Option String → String
  media_type header = py.lower (py.strip (before b';' (or_else header "")))

  -- _response_body: at most one byte more than the limit is read
  unfoldable pub response_body : Response → Result (List ℕ)
  response_body response = do
    ensure (response.status == 200) (request_failed (is_transient_status response.status) none)
    ensure (str_eq (media_type response.content_type) "application/json")
        (gateway "Gateway returned an invalid content type")
    let body = take (max_response_bytes + 1) response.body
    ensure (leb (length body) max_response_bytes) (gateway "Gateway response is too large")
    ok body

  -- json.loads(body.decode("utf-8"), object_pairs_hook=_unique_object)
  unfoldable pub parse_body : List ℕ → Result Json
  parse_body body = do
    text ← required (py.decode body) (foreign unicode_error)
    value ← required (py.loads text) (foreign value_error)
    with_hook (unique_object (gateway "Invalid gateway response")) value
