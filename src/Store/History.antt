-- ===== src/Store/History.antt =====
-- Every transaction that tenant_store.py commits, as one operation on the tables, and sequences of
-- them.
pub mod Sound
pub mod Refines
pub mod Once
use amazon_echo_home_voice.Prelude.{List, String, [], ℕ, ◌∷◌}
use amazon_echo_home_voice.Python.{Result, before, ok, raised}
use amazon_echo_home_voice.Gateway.Config.{GatewayConfig}
use amazon_echo_home_voice.Store.Tables.{Crypto, SessionRow, Tables, no_rows}
use amazon_echo_home_voice.Store.Connections.{
  connection_row, delete_connection, delete_sessions_of, upsert_connection,
}
use amazon_echo_home_voice.Store.Flows.{add_flow, take_flow}
use amazon_echo_home_voice.Store.Sessions.{add_session, delete_session_row, save_for_session}

-- save_connection, save_connection_for_session, disconnect, delete_household, create_flow,
-- consume_flow, create_session and delete_session, at a reading of the clock where they read it.
pub data Op : Type 0 where
  save : (owner : String) → GatewayConfig → Op
  save_signed_in : (token : String) → GatewayConfig → (now : ℕ) → Op
  disconnect erase : (owner : String) → Op
  begin_login : (state verifier browser : String) → (now : ℕ) → Op
  consume_login : (state browser : String) → (now : ℕ) → Op
  sign_in : SessionRow → (now : ℕ) → Op
  sign_out : (id : String) → Op

-- A transaction that raises is rolled back.
abbrev pub committed {ℓ} : {A : Type ℓ} → Result (A × Tables) → Tables → Tables
committed (ok (a, db)) before = db
committed (raised e) before = before

module _ (crypto : Crypto) where
  unfoldable pub apply : Op → Tables → Tables
  apply (save owner config) db = record db {
    connections = upsert_connection (connection_row crypto owner config) db.connections;
  }
  apply (save_signed_in token config now) db =
      committed (save_for_session crypto token config now db) db
  apply (disconnect owner) db = record db { connections = delete_connection owner db.connections }
  apply (erase owner) db = record db {
    connections = delete_connection owner db.connections;
    sessions = delete_sessions_of owner db.sessions;
  }
  apply (begin_login state verifier browser now) db =
      committed (add_flow crypto state verifier browser now db) db
  apply (consume_login state browser now) db = committed (take_flow crypto state browser now db) db
  apply (sign_in row now) db = committed (add_session crypto row now db) db
  apply (sign_out id) db = record db { sessions = delete_session_row id db.sessions }

  unfoldable pub run : List Op → Tables → Tables
  run [] db = db
  run (op ∷ ops) db = run ops (apply op db)
