-- ===== src/Handler/Energy/Outcome.antt =====
-- The deadline of a request with the configuration that it is read with.
use amazon_echo_home_voice.Prelude.{
  Bool, Option, String, ap, arith, none, some, subst, sym, ℕ, ◌+◌, ◌∙◌, ◌≡◌, ◌≤◌,
}
use amazon_echo_home_voice.Python.{Fields, Json, Python, ok, ok-injective}
use amazon_echo_home_voice.World.{World, lift}
use amazon_echo_home_voice.World.Returns.{bind-Ran}
use amazon_echo_home_voice.Visuals as V
use amazon_echo_home_voice.Store.Tables.{Crypto}
use amazon_echo_home_voice.Accounts.{Mode, default_reserve, one_second, request_timeout}
use amazon_echo_home_voice.Accounts.Budget.{request_timeout-IsShare}
use amazon_echo_home_voice.Fetch.{fetch_energy}
use amazon_echo_home_voice.Gateway.Config.{GatewayConfig}
use amazon_echo_home_voice.Fetch.Current.{IsCurrent, IsCurrent-widen}
use amazon_echo_home_voice.Gateway.Config.Safe.{post_init-IsUsable}
use amazon_echo_home_voice.World.Follows.{
  Advances, Advances-bind, Advances-lift, Advances-monotonic,
}
use amazon_echo_home_voice.Fetch.Deadline.{fetch_energy-returns}
use amazon_echo_home_voice.Handler.Energy.{home_of, read_report, within}
use amazon_echo_home_voice.Handler.Text.{report_in}

Advances-request_timeout :
    (deadline : Option ℕ) (maximum reserve : ℕ)
    → Advances (request_timeout deadline maximum reserve)
unfolding request_timeout
Advances-request_timeout none maximum reserve = Advances-lift _
Advances-request_timeout (some deadline) maximum reserve =
    Advances-bind Advances-monotonic λ now. Advances-lift _

module _ (py : Python) (crypto : Crypto) (size : V.Reply → ℕ) where
  -- A report that is read: with the configuration of the home that the event is for, its timeout
  -- alone changed, from an answer that came once the home was known, and in time.
  pub record IsInTime (current : Mode) (event : Json) (deadline : ℕ) (payload : Fields)
      (before after : World) : Type 0 where
    pub home : GatewayConfig
    pub named : (home_of py crypto size current event (some deadline) before).0 ≡ ok home
    pub timeout : ℕ
    pub answered :
        IsCurrent py
          (record home { timeout_seconds = timeout })
          (home_of py crypto size current event (some deadline) before).1
          after
          payload
    pub in_time : after.now + 100_000 ≤ deadline

  within-home :
      (deadline : ℕ) (home config : GatewayConfig) (w : World)
      → (within py crypto size (some deadline) home w).0 ≡ ok config
      → (timeout : ℕ) × (record home { timeout_seconds = timeout } ≡ config)
  unfolding within
  within-home deadline home config w h =
      let a =
        bind-Ran (request_timeout (some deadline) home.timeout_seconds default_reserve) _ w h in
      (a.value, (post_init-IsUsable py (record home { timeout_seconds = a.value }) config a.rest).0)

  Advances-within :
      (deadline : ℕ) (home : GatewayConfig) → Advances (within py crypto size (some deadline) home)
  unfolding within
  Advances-within deadline home =
      Advances-bind (Advances-request_timeout _ _ _) λ timeout. Advances-lift _

  -- A report is read for a request with a deadline only if a tenth of a second is left after its
  -- payload has come. The payload is what validate_payload made, at a reading of the wall clock after
  -- the home was known, of an answer to a request with the credentials of the home that the event is
  -- for, with that home's own age limit, and it fits the gateway contract.
  pub read_report-IsInTime :
      (current : Mode) (event : Json) (deadline : ℕ) (selected : String) (detailed : Bool)
      (w : World) (payload : Fields) (text : Option String)
      → (read_report py crypto size current event (some deadline) selected detailed w).0
        ≡ ok (payload, text)
      → IsInTime current event deadline payload w
          (read_report py crypto size current event (some deadline) selected detailed w).1
  unfolding read_report
  read_report-IsInTime current event deadline selected detailed w payload text h =
      let a = bind-Ran (home_of py crypto size current event (some deadline)) _ w h in
      let v = (home_of py crypto size current event (some deadline) w).1 in
      let b = bind-Ran (within py crypto size (some deadline) a.value) _ v a.rest in
      let u = (within py crypto size (some deadline) a.value v).1 in
      let c = bind-Ran (fetch_energy py b.value) _ u b.rest in
      let x = (fetch_energy py b.value u).1 in
      let d = bind-Ran (request_timeout (some deadline) one_second 0) _ x c.rest in
      let left = (request_timeout (some deadline) one_second 0 x).1 in
      let e = bind-Ran (lift (report_in selected detailed c.value)) _ left d.rest in
      let share = request_timeout-IsShare deadline one_second 0 d.value x d.first in
      let final = sym (a.final ∙ b.final ∙ c.final ∙ d.final ∙ e.final) in
      let (timeout, same) = within-home deadline a.value b.value v b.first in
      let fetched =
        IsCurrent-widen py ((Advances-within deadline a.value).at v)
          (fetch_energy-returns py b.value u c.value c.first).1
          ((Advances-request_timeout (some deadline) one_second 0).at x) in
      record {
        home = a.value;
        named = a.first;
        timeout = timeout;
        answered =
            subst (λ t. IsCurrent py (record a.value { timeout_seconds = timeout }) v t payload)
              final
              (subst (λ p. IsCurrent py (record a.value { timeout_seconds = timeout }) v left p)
                (ap (λ y. y.0) (ok-injective e.rest))
                (subst (λ k. IsCurrent py k v left c.value) (sym same) fetched));
        in_time = subst (λ y. y.now + 100_000 ≤ deadline) final (omega (arith, share.enough));
      }
