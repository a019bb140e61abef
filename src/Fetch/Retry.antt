-- ===== src/Fetch/Retry.antt =====
-- How many requests a fetch may send, and when it sends a second one.
use amazon_echo_home_voice.Python.{
  Exn, Fields, Python, Result, foreign, ok, raised, transient_gateway_error,
}
use amazon_echo_home_voice.Prelude.{
  Bool, arith, false, leb, ltb, min, refl, true, ℕ, ◌+◌, ◌-◌, ◌≡◌, ◌≤◌,
}
use amazon_echo_home_voice.World.{Exec, World, handle, monotonic, pure, ◌>>=◌}
use amazon_echo_home_voice.World.Growth.{
  Grows, Grows-lift, Grows-mono, Grows-catch, Grows-if, Grows-bind, continue_at, requests,
  requests-monotonic, requests-wall_clock, requests-next_exchange, requests-send,
}
use amazon_echo_home_voice.World.Returns.{monotonic-reads}
use amazon_echo_home_voice.Gateway.Config.{GatewayConfig, post_init, min_timeout}
use amazon_echo_home_voice.Fetch.{
  remaining, rethrow, public_body, personal_body, attempt, fetch_once, retry, fetch_energy,
}

requests-remaining : (deadline : ℕ) → Grows requests 0 (remaining deadline)
unfolding remaining
requests-remaining deadline =
    Grows-bind requests 0 0 requests-monotonic
      λ now. Grows-if requests (leb deadline now) (Grows-lift requests _) (Grows-lift requests _)

requests-rethrow : (e : Exn) → Grows requests 0 (rethrow e)
unfolding rethrow
requests-rethrow (foreign f) = Grows-lift requests _
requests-rethrow _ = Grows-lift requests _

module _ (py : Python) where
  requests-public_body : (c : GatewayConfig) → Grows requests 1 (public_body py c)
  unfolding public_body
  requests-public_body c = Grows-bind requests 0 1 requests-monotonic λ start.
      Grows-bind requests 0 1 (Grows-lift requests _) λ hostname.
        Grows-bind requests 0 1 requests-next_exchange λ exchange.
          Grows-bind requests 0 1 (Grows-lift requests _) λ endpoint.
            Grows-bind requests 0 1 (requests-remaining _)
              λ left. Grows-bind requests 1 0 (requests-send c) λ done. Grows-lift requests _

  requests-personal_body : (c : GatewayConfig) → Grows requests 1 (personal_body py c)
  unfolding personal_body
  requests-personal_body c = Grows-bind requests 0 1 requests-monotonic λ start.
      Grows-bind requests 0 1 requests-next_exchange λ exchange.
        Grows-bind requests 0 1 (Grows-lift requests _) λ slot.
          Grows-bind requests 1 0 (requests-send c) λ done.
            Grows-bind requests 0 0 (requests-remaining _) λ waited.
              Grows-bind requests 0 0 (Grows-lift requests _) λ in_time.
                Grows-bind requests 0 0 (requests-remaining _) λ left. Grows-lift requests _

  requests-fetch_once : (c : GatewayConfig) → Grows requests 1 (fetch_once py c)
  unfolding fetch_once attempt
  requests-fetch_once c =
      Grows-catch requests 1 0
        (Grows-bind requests 1 0
          (Grows-if requests c.public_only (requests-public_body c) (requests-personal_body c))
          λ body.
            Grows-bind requests 0 0 (Grows-lift requests _)
              λ value. Grows-bind requests 0 0 requests-wall_clock λ now. Grows-lift requests _)
        requests-rethrow

  requests-retry :
      (c : GatewayConfig) (deadline : ℕ) (e : Exn) → Grows requests 1 (retry py c deadline e)
  unfolding retry
  requests-retry c deadline (transient_gateway_error message cause) =
      Grows-bind requests 0 1 requests-monotonic λ now.
        let again = record c { timeout_seconds = min c.timeout_seconds (deadline - now) } in
        Grows-if requests (ltb (deadline - now) min_timeout)
          (Grows-mono requests 1 (omega arith)
            (Grows-lift requests (raised (transient_gateway_error message cause))))
          (Grows-bind requests 0 1 (Grows-lift requests (post_init py again))
            λ shorter. requests-fetch_once shorter)
  requests-retry c deadline _ = Grows-mono requests 1 (omega arith) (Grows-lift requests _)

  -- One fetch sends at most two requests, whatever the gateway answers and however it ends.
  pub fetch_energy-requests :
      (c : GatewayConfig) (w : World) → requests (fetch_energy py c w).1 ≤ requests w + 2
  unfolding fetch_energy
  fetch_energy-requests c w =
      (Grows-bind requests 0 2 requests-monotonic λ start.
          Grows-bind requests 2 0
            (Grows-catch requests 1 1 (requests-fetch_once c) (requests-retry c _))
            λ result.
              Grows-bind requests 0 0 (requests-remaining _) λ left. Grows-lift requests _).at
        w

  abbrev pub is_transient : Result Fields → Bool
  is_transient (raised (transient_gateway_error message cause)) = true
  is_transient _ = false

  retry-other :
      (c : GatewayConfig) (deadline : ℕ) (r : Result Fields) (w : World)
      → is_transient r ≡ false
      → handle r (retry py c deadline) w ≡ (r, w)
  unfolding retry
  retry-other c deadline (ok p) w h = refl
  retry-other c deadline (raised (transient_gateway_error m k)) w h = cc
  retry-other c deadline (raised e) w h = refl

  finish : ℕ → Fields → Exec Fields
  finish deadline result = remaining deadline >>= λ left. pure result

  requests-finish : (deadline : ℕ) (p : Fields) → Grows requests 0 (finish deadline p)
  unfolding finish
  requests-finish deadline p =
      Grows-bind requests 0 0 (requests-remaining deadline) λ left. Grows-lift requests (ok p)

  -- Only a transient transport failure is retried: after any other outcome of the first attempt no
  -- second request is sent.
  pub fetch_energy-one_request :
      (c : GatewayConfig) (w : World)
      → is_transient (fetch_once py c (monotonic w).1).0 ≡ false
      → requests (fetch_energy py c w).1 ≤ requests w + 1
  unfolding fetch_energy finish
  fetch_energy-one_request c w h =
      let v = (monotonic w).1 in
      let deadline = v.now + c.timeout_seconds in
      let u = (fetch_once py c v).1 in
      rw (monotonic-reads w) (
        rw (retry-other c deadline (fetch_once py c v).0 u h) (
          omega (
            arith,
            requests-monotonic.at w,
            (requests-fetch_once c).at v,
            continue_at requests (fetch_once py c v).0 (finish deadline) 0
                (requests-finish deadline) u,
          )))
