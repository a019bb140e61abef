-- ===== src/Fetch/Keeps.antt =====
-- A fetch reads and writes nothing of the store.
use amazon_echo_home_voice.Prelude.{leb, ltb, min, ℕ, ◌-◌}
use amazon_echo_home_voice.Python.{Exn, Python, foreign, raised, transient_gateway_error}
use amazon_echo_home_voice.World.Keeps.{
  Keeps, Keeps-bind, Keeps-catch, Keeps-if, Keeps-lift, Keeps-monotonic, Keeps-next_exchange,
  Keeps-send, Keeps-wall_clock,
}
use amazon_echo_home_voice.Gateway.Config.{GatewayConfig, min_timeout, post_init}
use amazon_echo_home_voice.Fetch.{
  attempt, fetch_energy, fetch_once, personal_body, public_body, remaining, rethrow, retry,
}

Keeps-remaining : (deadline : ℕ) → Keeps (remaining deadline)
unfolding remaining
Keeps-remaining deadline =
    Keeps-bind Keeps-monotonic λ now. Keeps-if (leb deadline now) (Keeps-lift _) (Keeps-lift _)

Keeps-rethrow : (e : Exn) → Keeps (rethrow e)
unfolding rethrow
Keeps-rethrow (foreign f) = Keeps-lift _
Keeps-rethrow _ = Keeps-lift _

module _ (py : Python) where
  Keeps-public_body : (c : GatewayConfig) → Keeps (public_body py c)
  unfolding public_body
  Keeps-public_body c = Keeps-bind Keeps-monotonic λ start. Keeps-bind (Keeps-lift _) λ hostname.
      Keeps-bind Keeps-next_exchange λ exchange. Keeps-bind (Keeps-lift _) λ endpoint.
        Keeps-bind (Keeps-remaining _) λ left. Keeps-bind (Keeps-send c) λ done. Keeps-lift _

  Keeps-personal_body : (c : GatewayConfig) → Keeps (personal_body py c)
  unfolding personal_body
  Keeps-personal_body c = Keeps-bind Keeps-monotonic λ start.
      Keeps-bind Keeps-next_exchange λ exchange. Keeps-bind (Keeps-lift _) λ slot.
        Keeps-bind (Keeps-send c) λ done. Keeps-bind (Keeps-remaining _) λ waited.
          Keeps-bind (Keeps-lift _) λ in_time. Keeps-bind (Keeps-remaining _) λ left. Keeps-lift _

  Keeps-fetch_once : (c : GatewayConfig) → Keeps (fetch_once py c)
  unfolding fetch_once attempt
  Keeps-fetch_once c =
      Keeps-catch
        (Keeps-bind (Keeps-if c.public_only (Keeps-public_body c) (Keeps-personal_body c)) λ body.
          Keeps-bind (Keeps-lift _) λ value. Keeps-bind Keeps-wall_clock λ now. Keeps-lift _)
        Keeps-rethrow

  Keeps-retry : (c : GatewayConfig) (deadline : ℕ) (e : Exn) → Keeps (retry py c deadline e)
  unfolding retry
  Keeps-retry c deadline (transient_gateway_error message cause) = Keeps-bind Keeps-monotonic λ now.
      let again = record c { timeout_seconds = min c.timeout_seconds (deadline - now) } in
      Keeps-if (ltb (deadline - now) min_timeout)
        (Keeps-lift (raised (transient_gateway_error message cause)))
        (Keeps-bind (Keeps-lift (post_init py again)) λ shorter. Keeps-fetch_once shorter)
  Keeps-retry c deadline _ = Keeps-lift _

  pub Keeps-fetch_energy : (c : GatewayConfig) → Keeps (fetch_energy py c)
  unfolding fetch_energy
  Keeps-fetch_energy c = Keeps-bind Keeps-monotonic λ start.
      Keeps-bind (Keeps-catch (Keeps-fetch_once c) (Keeps-retry c _))
        λ result. Keeps-bind (Keeps-remaining _) λ left. Keeps-lift _
