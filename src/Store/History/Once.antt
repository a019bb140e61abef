-- ===== src/Store/History/Once.antt =====
-- A login flow that was taken out is gone for every later transaction.
use amazon_echo_home_voice.Prelude.{
  Bool, List, String, [], any, ap, arith, false, keep_if, none, refl, some, str_eq, ℕ, ◌∙◌, ◌∷◌,
  ◌≡◌,
}
use amazon_echo_home_voice.Python.{ok}
use amazon_echo_home_voice.Gateway.Config.{GatewayConfig}
use amazon_echo_home_voice.Store.Tables.{Crypto, FlowRow, SessionRow, Tables}
use amazon_echo_home_voice.Store.Flows.{
  add_flow, delete_flow, flow_row, select_flow, take_flow, unexpired_flows,
}
use amazon_echo_home_voice.Store.Sessions.{add_session, save_for_session}
use amazon_echo_home_voice.Store.Isolation.{take_flow-IsTaken}
use amazon_echo_home_voice.Store.History.{
  Op, apply, begin_login, committed, consume_login, disconnect, erase, run, save, save_signed_in,
  sign_in, sign_out,
}

select_flow-keep_if :
    (id : String) (p : FlowRow → Bool) (rows : List FlowRow)
    → select_flow id rows ≡ none
    → select_flow id (keep_if p rows) ≡ none
unfolding select_flow
select_flow-keep_if id p [] h = refl
select_flow-keep_if id p (row ∷ rows) h = ground (arith, h, select_flow-keep_if id p rows)

select_flow-delete_flow :
    (id gone : String) (rows : List FlowRow)
    → select_flow id rows ≡ none
    → select_flow id (delete_flow gone rows) ≡ none
unfolding delete_flow
select_flow-delete_flow id gone rows h = select_flow-keep_if id _ rows h

select_flow-unexpired_flows :
    (id : String) (now : ℕ) (rows : List FlowRow)
    → select_flow id rows ≡ none
    → select_flow id (unexpired_flows now rows) ≡ none
unfolding unexpired_flows
select_flow-unexpired_flows id now rows h = select_flow-keep_if id _ rows h

module _ (crypto : Crypto) where
  -- Whether an operation begins a login with the id.
  abbrev pub begins : String → Op → Bool
  begins id (begin_login state verifier browser now) = str_eq (crypto.digest "flow" (state ∷ [])) id
  begins id _ = false

  take_flow-keeps :
      (id state browser : String) (now : ℕ) (db : Tables)
      → select_flow id db.flows ≡ none
      → select_flow id (committed (take_flow crypto state browser now db) db).flows ≡ none
  unfolding take_flow
  take_flow-keeps id state browser now db h =
      ground (arith, h, select_flow-delete_flow id (crypto.digest "flow" (state ∷ [])) db.flows h)

  add_flow-keeps :
      (id state verifier browser : String) (now : ℕ) (db : Tables)
      → str_eq (crypto.digest "flow" (state ∷ [])) id ≡ false
      → select_flow id db.flows ≡ none
      → select_flow id (committed (add_flow crypto state verifier browser now db) db).flows ≡ none
  unfolding add_flow flow_row select_flow
  add_flow-keeps id state verifier browser now db n h =
      ground (arith, n, h, select_flow-unexpired_flows id now db.flows h)

  add_session-keeps :
      (row : SessionRow) (now : ℕ) (db : Tables)
      → (committed (add_session crypto row now db) db).flows ≡ db.flows
  unfolding add_session
  add_session-keeps row now db = ground arith

  save_for_session-keeps :
      (token : String) (config : GatewayConfig) (now : ℕ) (db : Tables)
      → (committed (save_for_session crypto token config now db) db).flows ≡ db.flows
  unfolding save_for_session
  save_for_session-keeps token config now db = ground arith

  apply-keeps :
      (id : String) (op : Op) (db : Tables)
      → begins id op ≡ false
      → select_flow id db.flows ≡ none
      → select_flow id (apply crypto op db).flows ≡ none
  unfolding apply
  apply-keeps id (save owner config) db n h = h
  apply-keeps id (save_signed_in token config now) db n h =
      ap (select_flow id) (save_for_session-keeps token config now db) ∙ h
  apply-keeps id (disconnect owner) db n h = h
  apply-keeps id (erase owner) db n h = h
  apply-keeps id (begin_login state verifier browser now) db n h =
      add_flow-keeps id state verifier browser now db n h
  apply-keeps id (consume_login state browser now) db n h =
      take_flow-keeps id state browser now db h
  apply-keeps id (sign_in row now) db n h = ap (select_flow id) (add_session-keeps row now db) ∙ h
  apply-keeps id (sign_out key) db n h = h

  run-keeps :
      (id : String) (ops : List Op) (db : Tables)
      → any (begins id) ops ≡ false
      → select_flow id db.flows ≡ none
      → select_flow id (run crypto ops db).flows ≡ none
  unfolding run
  run-keeps id [] db n h = h
  run-keeps id (op ∷ ops) db n h =
      run-keeps id ops (apply crypto op db) (ground (arith, n))
        (apply-keeps id op db (ground (arith, n)) h)

  -- After a login flow was taken out, and whatever the store has committed since then, whoever comes
  -- with its state gets nothing, at any time, unless a login has been begun with the same digest.
  pub run-take_flow :
      (state browser other : String) (now later : ℕ) (db db' : Tables) (row : FlowRow)
      (ops : List Op)
      → take_flow crypto state browser now db ≡ ok (some row, db')
      → any (begins (crypto.digest "flow" (state ∷ []))) ops ≡ false
      → take_flow crypto state other later (run crypto ops db') ≡ ok (none, run crypto ops db')
  unfolding take_flow
  run-take_flow state browser other now later db db' row ops h n =
      let t = take_flow-IsTaken crypto state browser now db db' row h in
      rw (take_flow, run-keeps (crypto.digest "flow" (state ∷ [])) ops db' n t.removed) refl
