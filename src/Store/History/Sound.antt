-- ===== src/Store/History/Sound.antt =====
-- The bounds and the primary keys of the tables, in every state that operations can reach.
use amazon_echo_home_voice.Prelude.{
  Bool, Bool-cases, IsDistinct, IsDistinct-keep_if, List, Option-cases, String, [], all, any, arith,
  eq_iff, false, inl, inr, is_some, keep_if, leb, length, length-keep_if-keep_if, length-keep_if-le,
  length-le-length, length-take, ltb, map, not, one_of, refl, str_eq, subst, take, true, ℕ, ◌||◌,
  ◌∷◌, ◌≡◌, ◌≤◌,
}
use amazon_echo_home_voice.Python.{Result, Result-cases, ok, raised}
use amazon_echo_home_voice.Gateway.Config.{GatewayConfig}
use amazon_echo_home_voice.Store.Tables.{
  ConnectionRow, Crypto, FlowRow, SessionRow, Tables, no_rows,
}
use amazon_echo_home_voice.Store.Connections.{
  connection_row, delete_connection, delete_sessions_of, upsert_connection,
}
use amazon_echo_home_voice.Store.Flows.{
  add_flow, delete_flow, flow_row, max_flows, select_flow, take_flow, unexpired_flows,
  unexpired_sessions,
}
use amazon_echo_home_voice.Store.Sessions.{
  add_session, by_expiry, delete_session_row, has_id, keep_newest, newest_ids, owner_of_row,
  save_for_session, select_session, session_key,
}
use amazon_echo_home_voice.Store.History.{
  Op, apply, begin_login, committed, consume_login, disconnect, erase, run, save, save_signed_in,
  sign_in, sign_out,
}

-- How many sessions an owner has.
abbrev pub sessions_of : String → List SessionRow → ℕ
sessions_of owner rows = length (keep_if (λ row. str_eq row.owner owner) rows)

-- The tables: one row for each primary key, at most 1000 flows, and at most 5 sessions of an owner.
pub record IsSound (db : Tables) : Type 0 where
  pub owners : IsDistinct (λ (row : ConnectionRow). row.owner) db.connections
  pub flow_ids : IsDistinct (λ (row : FlowRow). row.id) db.flows
  pub flow_bound : length db.flows ≤ max_flows
  pub session_ids : IsDistinct (λ (row : SessionRow). row.id) db.sessions
  pub session_bound : (owner : String) → sessions_of owner db.sessions ≤ 5

any-upsert :
    (owner : String) (new : ConnectionRow) (rows : List ConnectionRow)
    → str_eq new.owner owner ≡ false
    → any (λ row. str_eq row.owner owner) rows ≡ false
    → any (λ row. str_eq row.owner owner) (upsert_connection new rows) ≡ false
unfolding upsert_connection
any-upsert owner new [] n h = ground arith
any-upsert owner new (row ∷ rows) n h = ground (arith, any-upsert owner new rows)

IsDistinct-upsert :
    (new : ConnectionRow) (rows : List ConnectionRow)
    → IsDistinct (λ (row : ConnectionRow). row.owner) rows
    → IsDistinct (λ (row : ConnectionRow). row.owner) (upsert_connection new rows)
unfolding upsert_connection
IsDistinct-upsert new [] d = (refl, tt)
IsDistinct-upsert new (row ∷ rows) d = elim (Bool-cases (str_eq row.owner new.owner)) [
  | inl t ↦
      rw (t, upsert_connection)
        (subst (λ s. any (λ r. str_eq r.owner s) rows ≡ false) ((eq_iff _ _).0 t) d.0, d.1)
  | inr t ↦
      rw (t, upsert_connection)
        (
          any-upsert row.owner new rows
              (ground (arith, eq_iff row.owner new.owner, eq_iff new.owner row.owner)) d.0,
          IsDistinct-upsert new rows d.1,
        )
]

any-select_flow :
    (id : String) (rows : List FlowRow)
    → is_some (select_flow id rows) ≡ false
    → any (λ row. str_eq row.id id) rows ≡ false
unfolding select_flow
any-select_flow id [] h = refl
any-select_flow id (row ∷ rows) h = ground (arith, any-select_flow id rows)

-- The newest sessions of an owner are at most four.
length-map {ℓ κ} :
    {A : Type ℓ} {B : Type κ} (f : A → B) (xs : List A) → length (map f xs) ≡ length xs
length-map f [] = refl
length-map f (x ∷ xs) = omega (arith, length-map f xs)

length-newest_ids : (owner : String) (rows : List SessionRow) → length (newest_ids owner rows) ≤ 4
unfolding newest_ids
length-newest_ids owner rows =
    let owned = by_expiry (keep_if (λ (row : SessionRow). str_eq row.owner owner) rows) in
    omega (
      arith,
      length-map {0, 0} (λ (row : SessionRow). row.id) (take 4 owned),
      length-take {0} 4 owned,
    )

-- What is kept of the owner is among the ids.
all-owned :
    (owner : String) (ids : List String) (rows : List SessionRow)
    → all
        (λ row. one_of ids row.id)
        (keep_if
          (λ row. str_eq row.owner owner)
          (keep_if (λ row. not (str_eq row.owner owner) || one_of ids row.id) rows))
      ≡ true
all-owned owner ids [] = refl
all-owned owner ids (row ∷ rows) = ground (arith, all-owned owner ids rows)

sessions_of-keep_newest :
    (owner : String) (rows : List SessionRow)
    → IsDistinct (λ (row : SessionRow). row.id) rows
    → sessions_of owner (keep_newest owner rows) ≤ 4
unfolding keep_newest
sessions_of-keep_newest owner rows d =
    let ids = newest_ids owner rows in
    let kept =
      keep_if (λ (row : SessionRow). not (str_eq row.owner owner) || one_of ids row.id) rows in
    omega (
      arith,
      length-newest_ids owner rows,
      length-le-length (λ (row : SessionRow). row.id) (keep_if (λ row. str_eq row.owner owner) kept)
          ids
          (IsDistinct-keep_if (λ (row : SessionRow). row.id) _ kept
            (IsDistinct-keep_if (λ (row : SessionRow). row.id) _ rows d))
          (all-owned owner ids rows),
    )

sessions_of-keep_if :
    (q : SessionRow → Bool) (rows : List SessionRow)
    → ((owner : String) → sessions_of owner rows ≤ 5)
    → (owner : String) → sessions_of owner (keep_if q rows) ≤ 5
sessions_of-keep_if q rows h owner =
    omega (arith, h owner, length-keep_if-keep_if (λ row. str_eq row.owner owner) q rows)

sessions_of-add :
    (new : SessionRow) (now : ℕ) (rows : List SessionRow)
    → IsDistinct (λ (row : SessionRow). row.id) rows
    → ((owner : String) → sessions_of owner rows ≤ 5)
    → (owner : String)
    → sessions_of owner (new ∷ keep_newest new.owner (unexpired_sessions now rows)) ≤ 5
unfolding unexpired_sessions
sessions_of-add new now rows d h owner =
    let live = unexpired_sessions now rows in
    let ids = newest_ids new.owner live in
    elim (Bool-cases (str_eq new.owner owner)) [
      | inl t ↦
          let most =
            sessions_of-keep_newest new.owner live
              (IsDistinct-keep_if (λ (row : SessionRow). row.id) _ rows d) in
          let same : new.owner ≡ owner = (eq_iff _ _).0 t in
          let few : sessions_of owner (keep_newest new.owner live) ≤ 4 =
            subst (λ o. sessions_of o (keep_newest new.owner live) ≤ 4) same most in
          ground (arith, t, few)
      | inr t ↦
          let few : sessions_of owner (keep_newest new.owner live) ≤ 5 =
            unfold keep_newest in
            sessions_of-keep_if (λ row. not (str_eq row.owner new.owner) || one_of ids row.id) live
              (sessions_of-keep_if (λ row. ltb now row.expires) rows h) owner in
          ground (arith, t, few)
    ]

committed-kept {ℓ} :
    {A : Type ℓ} (P : Tables → Type 0) (r : Result (A × Tables)) (db : Tables)
    → P db
    → ((a : A) (db' : Tables) → r ≡ ok (a, db') → P db')
    → P (committed r db)
committed-kept P (ok (a, db')) db h k = k a db' refl
committed-kept P (raised e) db h k = h

module _ (crypto : Crypto) where
  add_flow-IsSound :
      (state verifier browser : String) (now : ℕ) (db : Tables)
      → IsSound db
      → IsSound (committed (add_flow crypto state verifier browser now db) db)
  unfolding add_flow unexpired_flows unexpired_sessions
  add_flow-IsSound state verifier browser now db h =
      let new = flow_row crypto state verifier browser now in
      let flows = unexpired_flows now db.flows in
      elim (Bool-cases (leb max_flows (length flows))) [
        | inl t ↦ rw (t, add_flow) h
        | inr t ↦ elim (Bool-cases (is_some (select_flow new.id flows))) [
          | inl s ↦ rw (t, s, add_flow) h
          | inr s ↦
              rw (t, s, add_flow)
                (record {
                  owners = h.owners;
                  flow_ids = (
                    any-select_flow new.id flows s,
                    IsDistinct-keep_if (λ (row : FlowRow). row.id) _ db.flows h.flow_ids,
                  );
                  flow_bound = ground (arith, t);
                  session_ids =
                      IsDistinct-keep_if (λ (row : SessionRow). row.id) _ db.sessions h.session_ids;
                  session_bound =
                      sessions_of-keep_if (λ row. ltb now row.expires) db.sessions h.session_bound;
                })
        ]
      ]

  take_flow-IsSound :
      (state browser : String) (now : ℕ) (db : Tables)
      → IsSound db
      → IsSound (committed (take_flow crypto state browser now db) db)
  unfolding take_flow delete_flow
  take_flow-IsSound state browser now db h =
      elim (Option-cases (select_flow (crypto.digest "flow" (state ∷ [])) db.flows)) [
        | inl e ↦ rw (e, take_flow) h
        | inr (row, e) ↦
            elim (Bool-cases (
              leb row.expires now
              || not (str_eq row.browser (crypto.digest "browser" (browser ∷ []))))) [
                | inl t ↦ rw (e, t, take_flow) h
                | inr t ↦
                    rw (e, t, take_flow)
                      (record {
                        owners = h.owners;
                        flow_ids =
                            IsDistinct-keep_if (λ (row : FlowRow). row.id) _ db.flows h.flow_ids;
                        flow_bound = omega (arith, h.flow_bound, length-keep_if-le _ db.flows);
                        session_ids = h.session_ids;
                        session_bound = h.session_bound;
                      })
              ]
      ]

  add_session-IsSound :
      (new : SessionRow) (now : ℕ) (db : Tables)
      → IsSound db
      → IsSound (committed (add_session crypto new now db) db)
  unfolding add_session keep_newest unexpired_sessions
  add_session-IsSound new now db h =
      let kept = keep_newest new.owner (unexpired_sessions now db.sessions) in
      elim (Bool-cases (has_id new.id kept)) [
        | inl t ↦ rw (t, add_session) h
        | inr t ↦
            rw (t, add_session)
              (record {
                owners = h.owners;
                flow_ids = h.flow_ids;
                flow_bound = h.flow_bound;
                session_ids = (
                  t,
                  IsDistinct-keep_if (λ (row : SessionRow). row.id) _
                      (unexpired_sessions now db.sessions)
                      (IsDistinct-keep_if (λ (row : SessionRow). row.id) _ db.sessions
                        h.session_ids),
                );
                session_bound = sessions_of-add new now db.sessions h.session_ids h.session_bound;
              })
      ]

  save_for_session-IsSound :
      (token : String) (config : GatewayConfig) (now : ℕ) (db : Tables)
      → IsSound db
      → IsSound (committed (save_for_session crypto token config now db) db)
  unfolding save_for_session
  save_for_session-IsSound token config now db h =
      elim (Result-cases (
        owner_of_row crypto token now
          (select_session (session_key crypto token) now db.sessions))) [
            | inl (owner, e) ↦
                rw (e, save_for_session)
                  (record {
                    owners =
                        IsDistinct-upsert (connection_row crypto owner config) db.connections
                          h.owners;
                    flow_ids = h.flow_ids;
                    flow_bound = h.flow_bound;
                    session_ids = h.session_ids;
                    session_bound = h.session_bound;
                  })
            | inr (x, e) ↦ rw (e, save_for_session) h
          ]

  apply-IsSound : (op : Op) (db : Tables) → IsSound db → IsSound (apply crypto op db)
  unfolding apply delete_connection delete_sessions_of delete_session_row
  apply-IsSound (save owner config) db h = record {
    owners = IsDistinct-upsert (connection_row crypto owner config) db.connections h.owners;
    flow_ids = h.flow_ids;
    flow_bound = h.flow_bound;
    session_ids = h.session_ids;
    session_bound = h.session_bound;
  }
  apply-IsSound (save_signed_in token config now) db h =
      save_for_session-IsSound token config now db h
  apply-IsSound (disconnect owner) db h = record {
    owners = IsDistinct-keep_if (λ (row : ConnectionRow). row.owner) _ db.connections h.owners;
    flow_ids = h.flow_ids;
    flow_bound = h.flow_bound;
    session_ids = h.session_ids;
    session_bound = h.session_bound;
  }
  apply-IsSound (erase owner) db h = record {
    owners = IsDistinct-keep_if (λ (row : ConnectionRow). row.owner) _ db.connections h.owners;
    flow_ids = h.flow_ids;
    flow_bound = h.flow_bound;
    session_ids = IsDistinct-keep_if (λ (row : SessionRow). row.id) _ db.sessions h.session_ids;
    session_bound = sessions_of-keep_if _ db.sessions h.session_bound;
  }
  apply-IsSound (begin_login state verifier browser now) db h =
      add_flow-IsSound state verifier browser now db h
  apply-IsSound (consume_login state browser now) db h = take_flow-IsSound state browser now db h
  apply-IsSound (sign_in row now) db h = add_session-IsSound row now db h
  apply-IsSound (sign_out id) db h = record {
    owners = h.owners;
    flow_ids = h.flow_ids;
    flow_bound = h.flow_bound;
    session_ids = IsDistinct-keep_if (λ (row : SessionRow). row.id) _ db.sessions h.session_ids;
    session_bound = sessions_of-keep_if _ db.sessions h.session_bound;
  }

  run-keeps : (ops : List Op) (db : Tables) → IsSound db → IsSound (run crypto ops db)
  unfolding run
  run-keeps [] db h = h
  run-keeps (op ∷ ops) db h = run-keeps ops (apply crypto op db) (apply-IsSound op db h)

  -- After any sequence of the store's transactions on an empty database: each household has one
  -- connection, each login flow and each session one row, there are at most 1000 login flows, and
  -- no household has more than 5 sessions.
  pub run-IsSound : (ops : List Op) → IsSound (run crypto ops no_rows)
  run-IsSound ops = run-keeps ops no_rows (record {
    owners = tt;
    flow_ids = tt;
    flow_bound = omega arith;
    session_ids = tt;
    session_bound = λ owner. omega arith;
  })
