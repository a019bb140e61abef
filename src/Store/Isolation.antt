-- ===== src/Store/Isolation.antt =====
-- The connections of the households are kept apart, and a login flow is taken out of the table.
use amazon_echo_home_voice.Prelude.{
  List, Option-cases, String, [], arith, eq_iff, inl, inr, none, refl, some, ℕ, ◌∷◌, ◌≡◌, ◌≢◌, ◌<◌,
  ◌∙◌, ap, sym,
}
use amazon_echo_home_voice.Python.{ok}
use amazon_echo_home_voice.Store.Tables.{ConnectionRow, Crypto, FlowRow, Tables}
use amazon_echo_home_voice.Store.Connections.{
  delete_connection, select_connection, upsert_connection,
}
use amazon_echo_home_voice.Store.Flows.{delete_flow, select_flow, take_flow}

-- A saved row is the one that its owner reads, and every other owner reads what was there before.
pub select-upsert :
    (row : ConnectionRow) (owner : String) (rows : List ConnectionRow)
    → ((row.owner ≡ owner) → select_connection owner (upsert_connection row rows) ≡ some row.sealed)
      × ((row.owner ≢ owner)
          → select_connection owner (upsert_connection row rows) ≡ select_connection owner rows)
unfolding select_connection upsert_connection
select-upsert row owner [] =
    (λ e. ground (arith, eq_iff row.owner owner), λ e. ground (arith, eq_iff row.owner owner))
select-upsert row owner (r ∷ rows) =
    let (f, g) = select-upsert row owner rows in
    (
      λ e.
          ground
            (arith, f e, eq_iff row.owner owner, eq_iff r.owner owner, eq_iff r.owner row.owner),
      λ e.
          ground
            (arith, g e, eq_iff row.owner owner, eq_iff r.owner owner, eq_iff r.owner row.owner),
    )

-- A deleted connection is no longer read, and every other owner reads what was there before.
pub select-delete :
    (gone owner : String) (rows : List ConnectionRow)
    → (select_connection gone (delete_connection gone rows) ≡ none)
      × ((gone ≢ owner)
          → select_connection owner (delete_connection gone rows) ≡ select_connection owner rows)
unfolding select_connection delete_connection
select-delete gone owner [] = (refl, λ e. refl)
select-delete gone owner (r ∷ rows) =
    let (f, g) = select-delete gone owner rows in
    (
      ground (arith, f, eq_iff r.owner gone),
      λ e. ground (arith, g e, eq_iff r.owner gone, eq_iff r.owner owner),
    )

select-delete_flow :
    (id : String) (rows : List FlowRow) → select_flow id (delete_flow id rows) ≡ none
unfolding select_flow delete_flow
select-delete_flow id [] = refl
select-delete_flow id (r ∷ rows) = ground (arith, select-delete_flow id rows)

module _ (crypto : Crypto) where
  -- A flow that was taken out was begun by this browser and had not expired.
  pub record IsTaken (state browser : String) (now : ℕ) (db db' : Tables) (row : FlowRow)
      : Type 0 where
    pub stored : select_flow (crypto.digest "flow" (state ∷ [])) db.flows ≡ some row
    pub own : row.browser ≡ crypto.digest "browser" (browser ∷ [])
    pub unexpired : now < row.expires
    pub removed : select_flow (crypto.digest "flow" (state ∷ [])) db'.flows ≡ none
    pub connections : db'.connections ≡ db.connections
    pub sessions : db'.sessions ≡ db.sessions

  -- A login flow is taken out only by the browser that began it and before it expires, and it is
  -- taken out of the table, which holds no flow of this state afterwards; connections and sessions
  -- stay as they are.
  pub take_flow-IsTaken :
      (state browser : String) (now : ℕ) (db db' : Tables) (row : FlowRow)
      → take_flow crypto state browser now db ≡ ok (some row, db')
      → IsTaken state browser now db db' row
  unfolding take_flow
  take_flow-IsTaken state browser now db db' row h =
      let id = crypto.digest "flow" (state ∷ []) in
      elim (Option-cases (select_flow id db.flows)) [
        | inl e ↦ absurd (ground (arith, e))
        | inr (r, e) ↦
            let same : r ≡ row = ground (arith, e) in
            let same_db : record db { flows = delete_flow id db.flows } ≡ db' = ground (arith, e) in
            record {
              stored = e ∙ ap some same;
              own = ap (λ x. x.browser) (sym same) ∙ (eq_iff _ _).0 (ground (arith, e));
              unexpired = ground (arith, e, same);
              removed =
                  ap (λ x. select_flow id x.flows) (sym same_db) ∙ select-delete_flow id db.flows;
              connections = ap (λ x. x.connections) (sym same_db);
              sessions = ap (λ x. x.sessions) (sym same_db);
            }
      ]
