-- ===== src/Fetch/Deadline.antt =====
-- A fetch that returns does so before its deadline, with a payload of the gateway contract.
use amazon_echo_home_voice.Python.{
  Exn, Fields, Python, foreign, ok, ok-injective, raised, transient_gateway_error,
}
use amazon_echo_home_voice.Prelude.{
  Bool, Bool-cases, ap, arith, false, if◌then◌else◌, inl, inr, ltb, min, refl, subst, sym, ℕ, ◌+◌,
  ◌-◌, ◌<◌, ◌∙◌, ◌≡◌,
}
use amazon_echo_home_voice.World.{Exec, World, catch, lift, monotonic, pure, wall_clock, ◌>>=◌}
use amazon_echo_home_voice.World.Returns.{bind-Ran, catch-ran, monotonic-reads}
use amazon_echo_home_voice.Gateway.Config.{GatewayConfig, post_init, min_timeout}
use amazon_echo_home_voice.Gateway.Config.Safe.{post_init-IsUsable}
use amazon_echo_home_voice.Gateway.Payload.Accepted.{IsPayload}
use amazon_echo_home_voice.Gateway.Payload.Kept.{validate_payload-IsPayload}
use amazon_echo_home_voice.Gateway.Response.{parse_body}
use amazon_echo_home_voice.Gateway.Payload.{validate_payload}
use amazon_echo_home_voice.World.Follows.{
  Advances, Advances-bind, Advances-catch, Advances-if, Advances-lift, Advances-monotonic,
  Follows-refl, wall_clock-reads,
}
use amazon_echo_home_voice.Fetch.Current.{
  Advances-fetch_once, Advances-body_of, Advances-remaining, IsCurrent, IsCurrent-widen, IsRead,
  body_of-IsRead, reply_of,
}
use amazon_echo_home_voice.Fetch.{
  remaining, rethrow, body_of, attempt, fetch_once, retry, fetch_energy,
}

-- The clock as it is read.
abbrev pub reading : World → ℕ
reading w = (monotonic w).1.now

-- `_remaining` returns only before the deadline, and leaves the clock at its reading.
pub remaining-lt :
    (deadline : ℕ) (w : World) {left : ℕ}
    → (remaining deadline w).0 ≡ ok left
    → (remaining deadline w).1.now < deadline
unfolding remaining
remaining-lt deadline w h = ground (arith, monotonic-reads w)

if_false :
    {A : Type 0} (t : Bool) (m k : Exec A)
    → t ≡ false
    → (w : World) → ((if t then m else k) w).1 ≡ (k w).1
if_false t m k e w = rw (e) refl

module _ (py : Python) where
  attempt-IsCurrent :
      (c : GatewayConfig) (w : World) {p : Fields}
      → (attempt py c w).0 ≡ ok p
      → IsCurrent py c w (attempt py c w).1 p
  unfolding attempt
  attempt-IsCurrent c w {p} h =
      let a = bind-Ran (body_of py c) _ w h in
      let u = (body_of py c w).1 in
      let b = bind-Ran (lift (parse_body py a.value)) _ u a.rest in
      let d = bind-Ran wall_clock _ u b.rest in
      let f = (Advances-body_of py c).at w in
      let same : u.wall u.now ≡ w.wall u.now = ap (λ wall. wall u.now) f.wall in
      let reads = wall_clock-reads u in
      let read_at : d.value ≡ w.wall u.now = ok-injective (sym d.first ∙ reads.0) ∙ same in
      let validated : validate_payload py b.value (w.wall u.now) c.max_age_seconds ≡ ok p =
        subst (λ t. validate_payload py b.value t c.max_age_seconds ≡ ok p) read_at d.rest in
      subst (λ v. IsCurrent py c w v p) (sym (a.final ∙ b.final ∙ d.final ∙ reads.1))
        (record {
          request = c;
          same = refl;
          body = a.value;
          read = body_of-IsRead py c w a.first;
          value = b.value;
          parsed = b.first;
          at = u.now;
          started = f.later;
          ended = omega arith;
          validated = validated;
          payload = validate_payload-IsPayload py _ c.max_age_seconds b.value p validated;
        })

  rethrow-raises : (e : Exn) (w : World) {p : Fields} → (rethrow e w).0 ≡ ok p → ⊥
  unfolding rethrow
  rethrow-raises (foreign f) w h = cc
  rethrow-raises _ w h = cc

  fetch_once-IsCurrent :
      (c : GatewayConfig) (w : World) {p : Fields}
      → (fetch_once py c w).0 ≡ ok p
      → IsCurrent py c w (fetch_once py c w).1 p
  unfolding fetch_once
  fetch_once-IsCurrent c w {p} h = elim (catch-ran (attempt py c) rethrow w p h) [
    | inl (k, e) ↦ subst (λ v. IsCurrent py c w v p) (sym e) (attempt-IsCurrent c w k)
    | inr (e, k, f) ↦ absurd (rethrow-raises e _ k)
  ]

  -- What is current for the configuration of the retry is so for that of the fetch.
  shorter-IsCurrent :
      (c d : GatewayConfig) (timeout : ℕ) (w u : World) (p : Fields)
      → record c { timeout_seconds = timeout } ≡ d
      → IsCurrent py d w u p
      → IsCurrent py c w u p
  shorter-IsCurrent c d timeout w u p e r = record {
    request = r.request;
    same =
        ap {A = GatewayConfig} (λ x. record x { timeout_seconds = c.timeout_seconds })
          (r.same ∙ sym e);
    body = r.body;
    read = subst (λ x. IsRead (reply_of py x.public_only) r.request w u r.body) (sym e) r.read;
    value = r.value;
    parsed = r.parsed;
    at = r.at;
    started = r.started;
    ended = r.ended;
    validated =
        subst (λ x. validate_payload py r.value (w.wall r.at) x.max_age_seconds ≡ ok p) (sym e)
          r.validated;
    payload = subst (λ x. IsPayload py (w.wall r.at) x.max_age_seconds p) (sym e) r.payload;
  }

  retry-IsCurrent :
      (c : GatewayConfig) (deadline : ℕ) (e : Exn) (w : World) {p : Fields}
      → (retry py c deadline e w).0 ≡ ok p
      → IsCurrent py c w (retry py c deadline e w).1 p
  unfolding retry
  retry-IsCurrent c deadline (transient_gateway_error message cause) w {p} h =
      let a = bind-Ran monotonic _ w h in
      elim (Bool-cases (ltb (deadline - a.value) min_timeout)) [
        | inl e ↦ absurd (ground (arith, a.rest))
        | inr e ↦
            let v = (monotonic w).1 in
            let timeout = min c.timeout_seconds (deadline - a.value) in
            let again = record c { timeout_seconds = timeout } in
            let m = lift (post_init py again) >>= λ d. fetch_once py d in
            let rest : (m v).0 ≡ ok p = rw e at a.rest in
            let d = bind-Ran (lift (post_init py again)) _ _ rest in
            let last : (retry py c deadline (transient_gateway_error message cause) w).1
                ≡ (fetch_once py d.value v).1 =
              a.final ∙ if_false _ _ m e v ∙ d.final in
            subst (λ u. IsCurrent py c w u p) (sym last)
              (IsCurrent-widen py (Advances-monotonic.at w)
                (shorter-IsCurrent c d.value timeout v _ p
                  (post_init-IsUsable py again d.value d.first).0
                  (fetch_once-IsCurrent d.value v d.rest))
                (Follows-refl _))
      ]
  retry-IsCurrent c deadline _ w h = cc

  catch-IsCurrent :
      (c : GatewayConfig) (deadline : ℕ) (w : World) {p : Fields}
      → (catch (fetch_once py c) (retry py c deadline) w).0 ≡ ok p
      → IsCurrent py c w (catch (fetch_once py c) (retry py c deadline) w).1 p
  catch-IsCurrent c deadline w {p} h =
      elim (catch-ran (fetch_once py c) (retry py c deadline) w p h) [
        | inl (k, e) ↦ subst (λ v. IsCurrent py c w v p) (sym e) (fetch_once-IsCurrent c w k)
        | inr (e, k, f) ↦
            subst (λ v. IsCurrent py c w v p) (sym f)
              (IsCurrent-widen py ((Advances-fetch_once py c).at w)
                (retry-IsCurrent c deadline e _ k) (Follows-refl _))
      ]

  Advances-retry : (c : GatewayConfig) (deadline : ℕ) (e : Exn) → Advances (retry py c deadline e)
  unfolding retry
  Advances-retry c deadline (transient_gateway_error message cause) =
      Advances-bind Advances-monotonic λ now.
        let again = record c { timeout_seconds = min c.timeout_seconds (deadline - now) } in
        Advances-if (ltb (deadline - now) min_timeout)
          (Advances-lift (raised (transient_gateway_error message cause)))
          (Advances-bind (Advances-lift (post_init py again)) λ d. Advances-fetch_once py d)
  Advances-retry c deadline _ = Advances-lift _

  pub Advances-fetch_energy : (c : GatewayConfig) → Advances (fetch_energy py c)
  unfolding fetch_energy
  Advances-fetch_energy c = Advances-bind Advances-monotonic λ start.
      Advances-bind (Advances-catch (Advances-fetch_once py c) (Advances-retry c _))
        λ result. Advances-bind (Advances-remaining _) λ left. Advances-lift _

  -- A fetch that returns, retried or not, returns before its deadline, counted from the first
  -- reading of the clock. Its payload is what validate_payload made of the answer of an exchange with
  -- the gateway, at a reading of the wall clock during the fetch, with the age limit of the
  -- configuration, and it fits the gateway contract at that reading; a request with the credentials of
  -- the configuration was sent during the fetch.
  pub fetch_energy-returns :
      (c : GatewayConfig) (w : World) (p : Fields)
      → (fetch_energy py c w).0 ≡ ok p
      → ((fetch_energy py c w).1.now < reading w + c.timeout_seconds)
        × IsCurrent py c w (fetch_energy py c w).1 p
  unfolding fetch_energy
  fetch_energy-returns c w p h =
      let a = bind-Ran monotonic _ w h in
      let b =
        bind-Ran (catch (fetch_once py c) (retry py c (a.value + c.timeout_seconds))) _ _ a.rest in
      let d = bind-Ran (remaining (a.value + c.timeout_seconds)) (λ left. pure b.value) _ b.rest in
      let start : a.value ≡ reading w = ok-injective (sym a.first ∙ monotonic-reads w) in
      let u : World =
        (catch (fetch_once py c) (retry py c (a.value + c.timeout_seconds)) (monotonic w).1).1 in
      let final = sym (a.final ∙ b.final ∙ d.final) in
      let same : b.value ≡ p = ok-injective d.rest in
      (
        subst (λ x. x.now < reading w + c.timeout_seconds) final
            (subst (λ t. (remaining (a.value + c.timeout_seconds) u).1.now < t + c.timeout_seconds)
              start (remaining-lt (a.value + c.timeout_seconds) u d.first)),
        subst (λ x. IsCurrent py c w x p) final
            (subst (IsCurrent py c w _) same (
              IsCurrent-widen py (Advances-monotonic.at w)
                (catch-IsCurrent c (a.value + c.timeout_seconds) _ b.first)
                ((Advances-remaining _).at u))),
      )
