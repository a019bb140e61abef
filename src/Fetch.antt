-- ===== src/Fetch.antt =====
-- The gateway requests of gateway.py: `_remaining`, `_public_body`, `_personal_body`, `_fetch_once`
-- and `fetch_energy`. No caller of the application passes an `opener` or `now`, which tests use.
pub mod Retry
pub mod Keeps
pub mod Current
pub mod Deadline
use amazon_echo_home_voice.Prelude.{
  Bool, List, false, if◌then◌else◌, leb, ltb, min, true, ℕ, ◌+◌, ◌-◌,
}
use amazon_echo_home_voice.Python.{
  Exn, Fields, Foreign, Python, Result, foreign, gateway, gateway_error, http_error, ok, raised,
  transient_gateway_error,
}
use amazon_echo_home_voice.Gateway.Payload.{validate_payload}
use amazon_echo_home_voice.Gateway.Address.{public_hostname}
use amazon_echo_home_voice.Gateway.Config.{GatewayConfig, post_init, min_timeout}
use amazon_echo_home_voice.Gateway.Resolve.{resolve_public}
use amazon_echo_home_voice.Gateway.Response.{
  Response, response_body, parse_body, classify, is_transport_error,
}
use amazon_echo_home_voice.World.{
  Exec, Reply, catch, check, failed, http_failure, late, lift, monotonic, next_exchange, pure,
  raise, responded, send, too_large, wall_clock, ◌>>=◌, ◌>>◌,
}

-- _remaining
unfoldable pub remaining : ℕ → Exec ℕ
remaining deadline = do
  now ← monotonic
  if leb deadline now then raise (gateway "Gateway request timed out") else pure (deadline - now)

abbrev pub in_time : Reply → Bool
in_time late = false
in_time _ = true

-- The `except` clauses of `_fetch_once`.
unfoldable pub rethrow : Exn → Exec Fields
rethrow (foreign f) = raise (classify f)
rethrow e = raise e

module _ (py : Python) where
  -- What the pinned connection makes of the answer.
  unfoldable pub public_reply : Reply → Result (List ℕ)
  public_reply late = raised (gateway "Gateway request timed out")
  public_reply too_large = raised (gateway "Gateway response is too large")
  public_reply (responded r) = response_body py r
  public_reply (http_failure r) = response_body py r
  public_reply (failed f) = raised (foreign f)

  -- _public_body
  unfoldable pub public_body : GatewayConfig → Exec (List ℕ)
  public_body config = do
    start ← monotonic
    hostname ← lift (public_hostname py config.url)
    exchange ← next_exchange
    endpoint ← lift (resolve_public py hostname exchange.lookup)
    left ← remaining (start + config.timeout_seconds)
    send config
    lift (public_reply exchange.reply)

  -- What the worker `run` of `_personal_body` puts in the queue; its transport has no wire limit.
  unfoldable pub personal_reply : Reply → Result (List ℕ)
  personal_reply (responded r) = response_body py r
  personal_reply (http_failure r) = raised (foreign (http_error r.status))
  personal_reply (failed f) =
      if is_transport_error f then raised (foreign f) else raised (gateway "Gateway request failed")
  personal_reply _ = raised (gateway "Gateway request failed")

  -- _personal_body
  unfoldable pub personal_body : GatewayConfig → Exec (List ℕ)
  personal_body config = do
    start ← monotonic
    exchange ← next_exchange
    check exchange.slot (gateway "Gateway transport is busy")
    send config
    waited ← remaining (start + config.timeout_seconds)
    check (in_time exchange.reply) (gateway "Gateway request timed out")
    left ← remaining (start + config.timeout_seconds)
    lift (personal_reply exchange.reply)

  abbrev pub body_of : GatewayConfig → Exec (List ℕ)
  body_of config = if config.public_only then public_body config else personal_body config

  -- The `try` block of `_fetch_once`.
  unfoldable pub attempt : GatewayConfig → Exec Fields
  attempt config = do
    body ← body_of config
    value ← lift (parse_body py body)
    now ← wall_clock
    lift (validate_payload py value now config.max_age_seconds)

  -- _fetch_once
  unfoldable pub fetch_once : GatewayConfig → Exec Fields
  fetch_once config = catch (attempt config) rethrow

  -- The `except TransientGatewayError` of `fetch_energy`.
  unfoldable pub retry : GatewayConfig → ℕ → Exn → Exec Fields
  retry config deadline (transient_gateway_error message cause) = do
    now ← monotonic
    let left = deadline - now
    let again = record config { timeout_seconds = min config.timeout_seconds left }
    if ltb left min_timeout
        then raise (transient_gateway_error message cause)
        else (lift (post_init py again) >>= λ shorter. fetch_once shorter)
  retry config deadline e = raise e

  -- fetch_energy
  unfoldable pub fetch_energy : GatewayConfig → Exec Fields
  fetch_energy config = do
    start ← monotonic
    result ← catch (fetch_once config) (retry config (start + config.timeout_seconds))
    left ← remaining (start + config.timeout_seconds)
    pure result
