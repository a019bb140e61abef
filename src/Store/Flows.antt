-- ===== src/Store/Flows.antt =====
-- The login flows of tenant_store.py: `create_flow` and `consume_flow`.
use amazon_echo_home_voice.Python.{
  Result, capacity_error, foreign, key_error, nonempty, ok, raised, store_error,
}
use amazon_echo_home_voice.Prelude.{
  List, Option, String, [], if◌then◌else◌, is_some, keep_if, leb, length, ltb, none, not, some,
  str_eq, ℕ, ◌&&◌, ◌+◌, ◌||◌, ◌∷◌,
}
use amazon_echo_home_voice.World.{Exec, lift, next_token, pure, seconds, transaction, ◌>>=◌, ◌>>◌}
use amazon_echo_home_voice.Store.Tables.{flow_of, session_of, FlowRow, SessionRow, Tables, Crypto}

abbrev pub max_flows : ℕ
max_flows = 1000

-- DELETE ... WHERE expires<=?
unfoldable pub unexpired_flows : ℕ → List FlowRow → List FlowRow
unexpired_flows now = keep_if (λ row. ltb now row.expires)

unfoldable pub unexpired_sessions : ℕ → List SessionRow → List SessionRow
unexpired_sessions now = keep_if (λ row. ltb now row.expires)

-- SELECT browser, data, expires FROM flows WHERE id=?
unfoldable pub select_flow : String → List FlowRow → Option FlowRow
select_flow id [] = none
select_flow id (row ∷ rows) =
    let rest = select_flow id rows in if str_eq row.id id then some row else rest

-- DELETE FROM flows WHERE id=?
unfoldable pub delete_flow : String → List FlowRow → List FlowRow
delete_flow id = keep_if (λ row. not (str_eq row.id id))

module _ (crypto : Crypto) where
  unfoldable pub flow_row : (state verifier browser : String) → ℕ → FlowRow
  flow_row state verifier browser now =
      let id = crypto.digest "flow" (state ∷ []) in
      record {
        id = id;
        browser = crypto.digest "browser" (browser ∷ []);
        sealed = crypto.encrypt (flow_of id verifier);
        expires = now + 300;
      }

  -- The transaction of `create_flow`; a second row of one id violates the primary key.
  unfoldable pub add_flow :
      (state verifier browser : String) → ℕ → Tables → Result (Unit {0} × Tables)
  add_flow state verifier browser now db =
      let flows = unexpired_flows now db.flows in
      let new = flow_row state verifier browser now in
      if leb max_flows (length flows)
      then raised capacity_error
      else if is_some (select_flow new.id flows)
      then raised store_error
      else ok (tt, record db { flows = new ∷ flows; sessions = unexpired_sessions now db.sessions })

  -- create_flow
  unfoldable pub create_flow : (verifier browser : String) → Exec String
  create_flow verifier browser = do
    now ← seconds
    state ← next_token
    transaction (add_flow state verifier browser now)
    pure state

  -- The transaction of `consume_flow`: the row is taken out once, by the browser that began it and
  -- before it expires.
  unfoldable pub take_flow :
      (state browser : String) → ℕ → Tables → Result (Option FlowRow × Tables)
  take_flow state browser now db = elim (select_flow (crypto.digest "flow" (state ∷ [])) db.flows) [
    | none ↦ ok (none, db)
    | some row ↦
        if leb row.expires now || not (str_eq row.browser (crypto.digest "browser" (browser ∷ [])))
        then ok (none, db)
        else ok (
          some row,
          record db { flows = delete_flow (crypto.digest "flow" (state ∷ [])) db.flows },
        )
  ]

  -- What a row that was taken out holds.
  unfoldable pub open_flow : (state : String) → Option FlowRow → Result (Option String)
  open_flow state none = ok none
  open_flow state (some row) = elim (crypto.decrypt row.sealed) [
    | some (flow_of id verifier) ↦
        if str_eq id (crypto.digest "flow" (state ∷ []))
        then ok (some verifier)
        else raised store_error
    | some (session_of id issuer subject token csrf expires) ↦
        -- a session's dictionary has an id, and no verifier
        if str_eq id (crypto.digest "flow" (state ∷ []))
        then raised (foreign key_error)
        else raised store_error
    | _ ↦ raised store_error
  ]

  -- consume_flow, for texts; a missing one is the empty text
  unfoldable pub consume_flow : (state browser : String) → Exec (Option String)
  consume_flow state browser =
      if nonempty state && nonempty browser
      then (do
        now ← seconds
        row ← transaction (take_flow state browser now)
        lift (open_flow state row))
      else pure none
