-- ===== src/Store/Capacity.antt =====
-- The bound on the login flows.
use amazon_echo_home_voice.Prelude.{
  List, String, [], all, arith, leb, length, ltb, refl, some, true, ℕ, ◌+◌, ◌∷◌, ◌≡◌, ◌≤◌, subst,
  Bool-cases, inl, inr, is_some, eq_iff,
}
use amazon_echo_home_voice.Python.{ok}
use amazon_echo_home_voice.Store.Tables.{Crypto, FlowRow, Tables}
use amazon_echo_home_voice.Store.Flows.{
  add_flow, flow_row, max_flows, select_flow, unexpired_flows, unexpired_sessions,
}

all-unexpired :
    (now : ℕ) (rows : List FlowRow)
    → all (λ row. ltb now row.expires) (unexpired_flows now rows) ≡ true
unfolding unexpired_flows
all-unexpired now [] = refl
all-unexpired now (r ∷ rows) = ground (arith, all-unexpired now rows)

module _ (crypto : Crypto) where
  -- The table after a login began: within its bound, nothing in it is expired, and the new flow is
  -- found, for this browser and for five minutes.
  pub record IsBegun (state browser : String) (now : ℕ) (db db' : Tables) : Type 0 where
    pub bounded : length db'.flows ≤ max_flows
    pub unexpired : all (λ row. ltb now row.expires) db'.flows ≡ true
    pub row : FlowRow
    pub found : select_flow (crypto.digest "flow" (state ∷ [])) db'.flows ≡ some row
    pub own : row.browser ≡ crypto.digest "browser" (browser ∷ [])
    pub lifetime : row.expires ≡ now + 300
    pub connections : db'.connections ≡ db.connections

  -- A login that begins leaves at most 1000 flows, none of them expired, and its own flow is among
  -- them, bound to its browser and to expire after 300 seconds; connections stay as they are.
  pub add_flow-IsBegun :
      (state verifier browser : String) (now : ℕ) (db db' : Tables) (u : Unit {0})
      → add_flow crypto state verifier browser now db ≡ ok (u, db')
      → IsBegun state browser now db db'
  unfolding add_flow flow_row
  add_flow-IsBegun state verifier browser now db db' u h =
      let new = flow_row crypto state verifier browser now in
      let flows = unexpired_flows now db.flows in
      elim (Bool-cases (leb max_flows (length flows))) [
        | inl t ↦ absurd (ground (arith, t))
        | inr t ↦ elim (Bool-cases (is_some (select_flow new.id flows))) [
          | inl s ↦ absurd (ground (arith, t, s))
          | inr s ↦
              let same : record db {
                flows = new ∷ flows;
                sessions = unexpired_sessions now db.sessions;
              }
                  ≡ db' =
                ground (arith, t, s) in
              subst (IsBegun state browser now db) same (record {
                bounded = ground (arith, t);
                unexpired = ground (arith, all-unexpired now db.flows);
                row = new;
                found = begun new flows;
                own = refl;
                lifetime = refl;
                connections = refl;
              })
        ]
      ]
    where
      begun : (row : FlowRow) (rows : List FlowRow) → select_flow row.id (row ∷ rows) ≡ some row
      begun row rows = unfold select_flow in ground (arith, eq_iff row.id row.id)
