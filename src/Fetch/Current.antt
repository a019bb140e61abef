-- ===== src/Fetch/Current.antt =====
-- Where the payload of a fetch comes from: the answer to a request that it sent.
use amazon_echo_home_voice.Prelude.{
  Bool, List, [], ap, arith, false, if◌then◌else◌, inl, inr, leb, subst, sym, true, ℕ, ◌++◌, ◌+◌,
  ◌∙◌, ◌∷◌, ◌≡◌, ◌≤◌,
}
use amazon_echo_home_voice.Python.{gateway, Exn, Fields, Json, Python, Result, foreign, ok}
use amazon_echo_home_voice.World.{
  World, Exchange, Reply, check, late, lift, monotonic, next_exchange, send,
}
use amazon_echo_home_voice.World.Returns.{bind-Ran, check-eq-ok}
use amazon_echo_home_voice.World.Follows.{
  Advances, Advances-bind, Advances-catch, Advances-send, Advances-wall_clock, Advances-if,
  Advances-lift, Advances-monotonic, Advances-next_exchange, Follows, Follows-refl, Follows-trans,
  append_assoc, next_exchange-gateway, send-sent,
}
use amazon_echo_home_voice.Gateway.Config.{GatewayConfig}
use amazon_echo_home_voice.Gateway.Address.{public_hostname}
use amazon_echo_home_voice.Gateway.Resolve.{resolve_public}
use amazon_echo_home_voice.Gateway.Response.{parse_body}
use amazon_echo_home_voice.Gateway.Payload.{validate_payload}
use amazon_echo_home_voice.Gateway.Payload.Accepted.{IsPayload}
use amazon_echo_home_voice.Fetch.{
  attempt, body_of, fetch_once, in_time, rethrow, personal_body, personal_reply, public_body,
  public_reply, remaining,
}

pub Advances-remaining : (deadline : ℕ) → Advances (remaining deadline)
unfolding remaining
Advances-remaining deadline =
    Advances-bind Advances-monotonic
      λ now. Advances-if (leb deadline now) (Advances-lift _) (Advances-lift _)

Advances-rethrow : (e : Exn) → Advances (rethrow e)
unfolding rethrow
Advances-rethrow (foreign f) = Advances-lift _
Advances-rethrow _ = Advances-lift _

abbrev pub reply_of : Python → Bool → Reply → Result (List ℕ)
reply_of py true = public_reply py
reply_of py false = personal_reply py

-- Between the states w and u, a request with the credentials of the configuration was sent, and an
-- exchange that the network has in w and no longer has in u answered with this body.
pub record IsRead (answer : Reply → Result (List ℕ)) (c : GatewayConfig) (w u : World)
    (body : List ℕ) : Type 0 where
  pub exchange : Exchange
  pub taken : List Exchange
  pub rest : List Exchange
  pub gateway : w.gateway ≡ taken ++ exchange ∷ (rest ++ u.gateway)
  pub reads : answer exchange.reply ≡ ok body
  pub earlier : List GatewayConfig
  pub later : List GatewayConfig
  pub sent : u.sent ≡ (w.sent ++ earlier) ++ c ∷ later

module _ (py : Python) where
  -- The payload is what the gateway contract makes of an answer that came between the states w and u,
  -- at a reading of the wall clock between them. The request had the credentials of the configuration
  -- and maybe a shorter timeout.
  pub record IsCurrent (c : GatewayConfig) (w u : World) (p : Fields) : Type 0 where
    pub request : GatewayConfig
    pub same : record request { timeout_seconds = c.timeout_seconds } ≡ c
    pub body : List ℕ
    pub read : IsRead (reply_of py c.public_only) request w u body
    pub value : Json
    pub parsed : parse_body py body ≡ ok value
    pub at : ℕ
    pub started : w.now ≤ at
    pub ended : at ≤ u.now
    pub validated : validate_payload py value (w.wall at) c.max_age_seconds ≡ ok p
    pub payload : IsPayload py (w.wall at) c.max_age_seconds p

  pub IsRead-widen :
      {answer : Reply → Result (List ℕ)} {c : GatewayConfig} {w v u x : World} {body : List ℕ}
      → Follows w v
      → IsRead answer c v u body
      → Follows u x
      → IsRead answer c w x body
  IsRead-widen {c = c} {w = w} f r g = record {
    exchange = r.exchange;
    taken = f.taken ++ r.taken;
    rest = r.rest ++ g.taken;
    gateway =
        f.gateway
        ∙ ap (λ xs. f.taken ++ xs) r.gateway
        ∙ sym (append_assoc f.taken r.taken _)
        ∙ ap (λ xs. (f.taken ++ r.taken) ++ r.exchange ∷ (r.rest ++ xs)) g.gateway
        ∙ ap (λ xs. (f.taken ++ r.taken) ++ r.exchange ∷ xs) (sym (append_assoc r.rest g.taken _));
    reads = r.reads;
    earlier = f.added ++ r.earlier;
    later = r.later ++ g.added;
    sent =
        g.sent
        ∙ ap (λ xs. xs ++ g.added) r.sent
        ∙ append_assoc _ (c ∷ r.later) g.added
        ∙ ap (λ xs. (xs ++ r.earlier) ++ c ∷ (r.later ++ g.added)) f.sent
        ∙ ap (λ xs. xs ++ c ∷ (r.later ++ g.added)) (append_assoc w.sent f.added r.earlier);
  }

  pub IsCurrent-widen :
      {c : GatewayConfig} {w v u x : World} {p : Fields}
      → Follows w v
      → IsCurrent c v u p
      → Follows u x
      → IsCurrent c w x p
  IsCurrent-widen {c} {p = p} f r g = record {
    request = r.request;
    same = r.same;
    body = r.body;
    read = IsRead-widen f r.read g;
    value = r.value;
    parsed = r.parsed;
    at = r.at;
    started = omega (arith, f.later, r.started);
    ended = omega (arith, g.later, r.ended);
    validated =
        subst (λ wall. validate_payload py r.value (wall r.at) c.max_age_seconds ≡ ok p) f.wall
          r.validated;
    payload = subst (λ wall. IsPayload py (wall r.at) c.max_age_seconds p) f.wall r.payload;
  }

  -- The first exchange behind v answers, and the request goes out in the state s.
  sent-IsRead :
      {answer : Reply → Result (List ℕ)} {c : GatewayConfig} {w v after s u : World} {body : List ℕ}
      (x : Exchange)
      → Follows w v
      → v.gateway ≡ x ∷ after.gateway
      → Follows after u
      → Follows w s
      → u.sent ≡ s.sent ++ c ∷ []
      → answer x.reply ≡ ok body
      → IsRead answer c w u body
  sent-IsRead {c = c} x f g l k e reads = record {
    exchange = x;
    taken = f.taken;
    rest = l.taken;
    gateway = f.gateway ∙ ap (λ xs. f.taken ++ xs) (g ∙ ap (λ xs. x ∷ xs) l.gateway);
    reads = reads;
    earlier = k.added;
    later = [];
    sent = e ∙ ap (λ xs. xs ++ c ∷ []) k.sent;
  }

  public_reply-late : (r : Reply) {body : List ℕ} → r ≡ late → public_reply py r ≡ ok body → ⊥
  unfolding public_reply
  public_reply-late late e h = cc
  public_reply-late r e h = cc

  public_body-IsRead :
      (c : GatewayConfig) (w : World) {body : List ℕ}
      → (public_body py c w).0 ≡ ok body
      → IsRead (public_reply py) c w (public_body py c w).1 body
  unfolding public_body
  public_body-IsRead c w {body} h =
      let a = bind-Ran monotonic _ w h in
      let b = bind-Ran (lift (public_hostname py c.url)) _ _ a.rest in
      let d = bind-Ran next_exchange _ _ b.rest in
      let e = bind-Ran (lift (resolve_public py b.value d.value.lookup)) _ _ d.rest in
      let f = bind-Ran (remaining (a.value + c.timeout_seconds)) _ _ e.rest in
      let start = (monotonic w).1 in
      let after = (next_exchange start).1 in
      let left = (remaining (a.value + c.timeout_seconds) after).1 in
      let k = bind-Ran (send c) _ left f.rest in
      let behind = (Advances-remaining (a.value + c.timeout_seconds)).at after in
      let before_ =
        Follows-trans (Advances-monotonic.at w)
          (Follows-trans (Advances-next_exchange.at start) behind) in
      elim (next_exchange-gateway start d.value d.first) [
        | inl l ↦ absurd (public_reply-late d.value.reply l k.rest)
        | inr g ↦
            subst (λ u. IsRead (public_reply py) c w u body)
              (sym (a.final ∙ b.final ∙ d.final ∙ e.final ∙ f.final ∙ k.final))
              (sent-IsRead d.value (Advances-monotonic.at w) g
                (Follows-trans behind ((Advances-send c).at left)) before_ (send-sent c left)
                k.rest)
      ]

  personal_body-IsRead :
      (c : GatewayConfig) (w : World) {body : List ℕ}
      → (personal_body py c w).0 ≡ ok body
      → IsRead (personal_reply py) c w (personal_body py c w).1 body
  unfolding personal_body
  personal_body-IsRead c w {body} h =
      let a = bind-Ran monotonic _ w h in
      let b = bind-Ran next_exchange _ _ a.rest in
      let late_error = gateway "Gateway request timed out" in
      let start = (monotonic w).1 in
      let after = (next_exchange start).1 in
      let asked = (send c after).1 in
      let left = (remaining (a.value + c.timeout_seconds) asked).1 in
      let s = bind-Ran (check b.value.slot (gateway "Gateway transport is busy")) _ after b.rest in
      let k = bind-Ran (send c) _ after s.rest in
      let d = bind-Ran (remaining (a.value + c.timeout_seconds)) _ asked k.rest in
      let i = bind-Ran (check (in_time b.value.reply) late_error) _ left d.rest in
      let e = bind-Ran (remaining (a.value + c.timeout_seconds)) _ left i.rest in
      let final = a.final ∙ b.final ∙ s.final ∙ k.final ∙ d.final ∙ i.final ∙ e.final in
      let before_ = Follows-trans (Advances-monotonic.at w) (Advances-next_exchange.at start) in
      elim (next_exchange-gateway start b.value b.first) [
        | inl l ↦ absurd (
            in_time-late b.value.reply l
              (check-eq-ok (in_time b.value.reply) late_error _ left d.rest).0)
        | inr g ↦
            subst (λ u. IsRead (personal_reply py) c w u body) (sym final)
              (IsRead-widen (Follows-refl w)
                (sent-IsRead {u = asked} b.value (Advances-monotonic.at w) g
                  ((Advances-send c).at after) before_ (send-sent c after) e.rest)
                (Follows-trans ((Advances-remaining _).at asked) ((Advances-remaining _).at left)))
      ]
    where
      in_time-late : (r : Reply) → r ≡ late → in_time r ≡ true → ⊥
      in_time-late late e h = cc
      in_time-late r e h = cc

  pub body_of-IsRead :
      (c : GatewayConfig) (w : World) {body : List ℕ}
      → (body_of py c w).0 ≡ ok body
      → IsRead (reply_of py c.public_only) c w (body_of py c w).1 body
  body_of-IsRead c w {body} h = by_mode c.public_only h
    where
      by_mode :
          (b : Bool)
          → ((if b then public_body py c else personal_body py c) w).0 ≡ ok body
          → IsRead
              (reply_of py b)
              c
              w
              ((if b then public_body py c else personal_body py c) w).1
              body
      by_mode true k = public_body-IsRead c w k
      by_mode false k = personal_body-IsRead c w k

  Advances-public_body : (c : GatewayConfig) → Advances (public_body py c)
  unfolding public_body
  Advances-public_body c = Advances-bind Advances-monotonic λ start.
      Advances-bind (Advances-lift _) λ hostname. Advances-bind Advances-next_exchange λ exchange.
        Advances-bind (Advances-lift _) λ endpoint.
          Advances-bind (Advances-remaining _)
            λ left. Advances-bind (Advances-send c) λ done. Advances-lift _

  Advances-personal_body : (c : GatewayConfig) → Advances (personal_body py c)
  unfolding personal_body
  Advances-personal_body c = Advances-bind Advances-monotonic λ start.
      Advances-bind Advances-next_exchange λ exchange. Advances-bind (Advances-lift _) λ slot.
        Advances-bind (Advances-send c) λ done. Advances-bind (Advances-remaining _) λ waited.
          Advances-bind (Advances-lift _)
            λ in_time. Advances-bind (Advances-remaining _) λ left. Advances-lift _

  pub Advances-body_of : (c : GatewayConfig) → Advances (body_of py c)
  Advances-body_of c = Advances-if c.public_only (Advances-public_body c) (Advances-personal_body c)

  pub Advances-fetch_once : (c : GatewayConfig) → Advances (fetch_once py c)
  unfolding fetch_once attempt
  Advances-fetch_once c =
      Advances-catch
        (Advances-bind (Advances-body_of c) λ body.
          Advances-bind (Advances-lift _)
            λ value. Advances-bind Advances-wall_clock λ now. Advances-lift _)
        Advances-rethrow
