-- ===== src/World/Follows.antt =====
-- What is true of the clocks and the network after an action: a rule for each way to build one.
use amazon_echo_home_voice.Prelude.{
  Bool, List, [], ap, arith, false, if◌then◌else◌, inl, inr, refl, sym, true, ◌++◌, ◌∙◌, ◌∷◌, ◌≡◌,
  ◌≤◌, ◌⊎◌,
}
use amazon_echo_home_voice.Python.{Exn, Result, ok, raised, store_error}
use amazon_echo_home_voice.Gateway.Config.{GatewayConfig}
use amazon_echo_home_voice.Store.Tables.{Tables}
use amazon_echo_home_voice.World.{
  Exchange, Exec, World, catch, continue, handle, late, lift, monotonic, next_exchange, seconds,
  send, transaction, wall_clock, ◌>>=◌,
}

-- A later state: the monotonic clock has not gone back, the wall clock is the same one, exchanges
-- are taken in their order, and what was sent stays sent.
pub record Follows (w v : World) : Type 0 where
  pub later : w.now ≤ v.now
  pub wall : v.wall ≡ w.wall
  pub taken : List Exchange
  pub gateway : w.gateway ≡ taken ++ v.gateway
  pub added : List GatewayConfig
  pub sent : v.sent ≡ w.sent ++ added

module _ {ℓ} {A : Type ℓ} where
  pub append_nil : (xs : List A) → xs ++ [] ≡ xs
  append_nil [] = refl
  append_nil (x ∷ xs) = ap (λ ys. x ∷ ys) (append_nil xs)

  pub append_assoc : (xs ys zs : List A) → (xs ++ ys) ++ zs ≡ xs ++ (ys ++ zs)
  append_assoc [] ys zs = refl
  append_assoc (x ∷ xs) ys zs = ap (λ t. x ∷ t) (append_assoc xs ys zs)

  pub list_cases : (xs : List A) → (xs ≡ []) ⊎ ((x : A) × (rest : List A) × (xs ≡ x ∷ rest))
  list_cases [] = inl refl
  list_cases (x ∷ xs) = inr (x, xs, refl)

pub Follows-refl : (w : World) → Follows w w
Follows-refl w = record {
  later = omega arith;
  wall = refl;
  taken = [];
  gateway = refl;
  added = [];
  sent = sym (append_nil w.sent);
}

pub Follows-trans : {w v u : World} → Follows w v → Follows v u → Follows w u
Follows-trans {w} f g = record {
  later = omega (arith, f.later, g.later);
  wall = g.wall ∙ f.wall;
  taken = f.taken ++ g.taken;
  gateway = f.gateway ∙ ap (λ xs. f.taken ++ xs) g.gateway ∙ sym (append_assoc f.taken g.taken _);
  added = f.added ++ g.added;
  sent = g.sent ∙ ap (λ xs. xs ++ g.added) f.sent ∙ append_assoc w.sent f.added g.added;
}

-- What the store has is no part of it.
Follows-tables : (w : World) (tables : Tables) → Follows w (record w { tables = tables })
Follows-tables w tables = record {
  later = omega arith;
  wall = refl;
  taken = [];
  gateway = refl;
  added = [];
  sent = sym (append_nil w.sent);
}

-- The state that the action leaves is a later one, whether it returns or raises.
pub record Advances {ℓ} {A : Type ℓ} (m : Exec A) : Type 0 where
  pub at : (w : World) → Follows w (m w).1

module _ {ℓ} {A : Type ℓ} where
  pub Advances-lift : (r : Result A) → Advances (lift r)
  Advances-lift r = record { at = Follows-refl }

  handle-Follows :
      (r : Result A) (handler : Exn → Exec A)
      → ((e : Exn) → Advances (handler e))
      → (w : World) → Follows w (handle r handler w).1
  handle-Follows (ok a) handler h w = Follows-refl w
  handle-Follows (raised e) handler h w = (h e).at w

  pub Advances-catch :
      {m : Exec A} {handler : Exn → Exec A}
      → Advances m
      → ((e : Exn) → Advances (handler e))
      → Advances (catch m handler)
  Advances-catch {m} {handler} g h = record {
    at = λ w. Follows-trans (g.at w) (handle-Follows (m w).0 handler h (m w).1);
  }

  pub Advances-if :
      (t : Bool) {m k : Exec A} → Advances m → Advances k → Advances (if t then m else k)
  Advances-if true g h = g
  Advances-if false g h = h

module _ {ℓ κ} {A : Type ℓ} {B : Type κ} where
  continue-Follows :
      (r : Result A) (f : A → Exec B)
      → ((a : A) → Advances (f a))
      → (w : World) → Follows w (continue r f w).1
  continue-Follows (ok a) f h w = (h a).at w
  continue-Follows (raised e) f h w = Follows-refl w

  pub Advances-bind :
      {m : Exec A} {f : A → Exec B} → Advances m → ((a : A) → Advances (f a)) → Advances (m >>= f)
  Advances-bind {m} {f} g h = record {
    at = λ w. Follows-trans (g.at w) (continue-Follows (m w).0 f h (m w).1);
  }

pub Advances-monotonic : Advances monotonic
unfolding monotonic
Advances-monotonic = record {
  at = λ w. record {
    later = ground arith;
    wall = ground arith;
    taken = [];
    gateway = ground arith;
    added = [];
    sent = ground (arith, append_nil w.sent);
  };
}

pub Advances-wall_clock : Advances wall_clock
unfolding wall_clock
Advances-wall_clock = record { at = Follows-refl }

-- The wall clock is read at the time of the monotonic one.
pub wall_clock-reads : (w : World) → ((wall_clock w).0 ≡ ok (w.wall w.now)) × ((wall_clock w).1 ≡ w)
unfolding wall_clock
wall_clock-reads w = (refl, refl)

-- An exchange that brings an answer in time is the next one of the network.
pub next_exchange-gateway :
    (w : World) (x : Exchange)
    → (next_exchange w).0 ≡ ok x
    → (x.reply ≡ late) ⊎ (w.gateway ≡ x ∷ (next_exchange w).1.gateway)
unfolding next_exchange
next_exchange-gateway w x h = elim (list_cases w.gateway) [
  | inl e ↦ inl (ground (arith, e, h))
  | inr (y, rest, e) ↦ inr (ground (arith, e, h))
]

pub Advances-next_exchange : Advances next_exchange
unfolding next_exchange
Advances-next_exchange = record {
  at = λ w. record {
    later = ground arith;
    wall = ground arith;
    taken = elim w.gateway [ [] ↦ [] | x ∷ xs ↦ x ∷ [] ];
    gateway = elim (list_cases w.gateway) [
      | inl e ↦ ground (arith, e)
      | inr (y, rest, e) ↦ ground (arith, e)
    ];
    added = [];
    sent = ground (arith, append_nil w.sent);
  };
}

pub Advances-send : (c : GatewayConfig) → Advances (send c)
unfolding send
Advances-send c = record {
  at = λ w. record {
    later = omega arith;
    wall = refl;
    taken = [];
    gateway = refl;
    added = c ∷ [];
    sent = refl;
  };
}

pub send-sent : (c : GatewayConfig) (w : World) → (send c w).1.sent ≡ w.sent ++ c ∷ []
unfolding send
send-sent c w = refl

pub Advances-seconds : Advances seconds
unfolding seconds
Advances-seconds = record { at = Follows-refl }

pub Advances-transaction :
    {A : Type 0} (body : Tables → Result (A × Tables)) → Advances (transaction body)
unfolding transaction
Advances-transaction {A} body = record { at = λ w. committed w w.storage_up (body w.tables) }
  where
    committed :
        (w : World) (up : Bool) (r : Result (A × Tables))
        → Follows w
            (if◌then◌else◌ {A = Result A × World} up
              (elim r [
                | ok (a, tables) ↦ (ok a, record w { tables = tables })
                | raised e ↦ (raised e, w)
              ])
              (raised store_error, w)).1
    committed w true (ok (a, tables)) = Follows-tables w tables
    committed w true (raised e) = Follows-refl w
    committed w false r = Follows-refl w
