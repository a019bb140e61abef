-- ===== src/Store/Sessions.antt =====
-- The portal sessions of tenant_store.py: `create_session`, `session`, `delete_session` and
-- `save_connection_for_session`.
use amazon_echo_home_voice.Python.{Number, Result, len, nonempty, ok, raised, store_error, whole}
use amazon_echo_home_voice.Prelude.{
  Bool, List, Option, String, [], any, if◌then◌else◌, keep_if, leb, ltb, map, min, none, not,
  one_of, some, str_eq, take, ℕ, ◌&&◌, ◌+◌, ◌||◌, ◌∷◌,
}
use amazon_echo_home_voice.World.{
  Exec, check, lift, next_token, pure, seconds, transaction, ◌>>=◌, ◌>>◌,
}
use amazon_echo_home_voice.Gateway.Config.{GatewayConfig}
use amazon_echo_home_voice.Store.Tables.{session_of, SessionRow, Tables, Crypto}
use amazon_echo_home_voice.Store.Connections.{owner_of, upsert_connection, connection_row}
use amazon_echo_home_voice.Store.Flows.{unexpired_sessions}

-- The dictionary of a session.
pub record Session : Type 0 where
  pub id : String
  pub issuer : String
  pub subject : String
  pub access_token : String
  pub csrf : String
  pub expires : ℕ

-- ORDER BY expires DESC
unfoldable pub insert_by_expiry : SessionRow → List SessionRow → List SessionRow
insert_by_expiry new [] = new ∷ []
insert_by_expiry new (row ∷ rows) =
    let rest = insert_by_expiry new rows in
    if leb row.expires new.expires then new ∷ row ∷ rows else row ∷ rest

unfoldable pub by_expiry : List SessionRow → List SessionRow
by_expiry [] = []
by_expiry (row ∷ rows) = insert_by_expiry row (by_expiry rows)

-- SELECT id FROM sessions WHERE owner=? ORDER BY expires DESC LIMIT 4
unfoldable pub newest_ids : String → List SessionRow → List String
newest_ids owner rows =
    map (λ row. row.id) (take 4 (by_expiry (keep_if (λ row. str_eq row.owner owner) rows)))

-- DELETE FROM sessions WHERE owner=? AND id NOT IN (...)
unfoldable pub keep_newest : String → List SessionRow → List SessionRow
keep_newest owner rows =
    let ids = newest_ids owner rows in
    keep_if (λ row. not (str_eq row.owner owner) || one_of ids row.id) rows

-- SELECT ... FROM sessions WHERE id=? AND expires>?
unfoldable pub select_session : String → ℕ → List SessionRow → Option SessionRow
select_session id now [] = none
select_session id now (row ∷ rows) =
    let rest = select_session id now rows in
    if str_eq row.id id && ltb now row.expires then some row else rest

-- DELETE FROM sessions WHERE id=?
unfoldable pub delete_session_row : String → List SessionRow → List SessionRow
delete_session_row id = keep_if (λ row. not (str_eq row.id id))

abbrev pub has_id : String → List SessionRow → Bool
has_id id = any (λ row. str_eq row.id id)

module _ (crypto : Crypto) where
  abbrev pub session_key : String → String
  session_key token = crypto.digest "session" (token ∷ [])

  unfoldable pub session_row :
      (token owner issuer subject access_token csrf : String) → ℕ → SessionRow
  session_row token owner issuer subject access_token csrf expires = record {
    id = session_key token;
    owner = owner;
    sealed =
        crypto.encrypt (session_of (session_key token) issuer subject access_token csrf expires);
    expires = expires;
  }

  -- The transaction of `create_session`.
  unfoldable pub add_session : SessionRow → ℕ → Tables → Result (Unit {0} × Tables)
  add_session new now db =
      let kept = keep_newest new.owner (unexpired_sessions now db.sessions) in
      if has_id new.id kept
      then raised store_error
      else ok (tt, record db { sessions = new ∷ kept })

  -- create_session
  unfoldable pub create_session : (issuer subject access_token : String) → Number → Exec String
  create_session issuer subject access_token token_expires = do
    owner ← lift (owner_of crypto issuer subject)
    now ← seconds
    let expires = min (now + 600) (whole token_expires)
    check (ltb now expires) store_error
    token ← next_token
    csrf ← next_token
    transaction (add_session (session_row token owner issuer subject access_token csrf expires) now)
    pure token

  -- The dictionary in a row; only a session's has an `id` and an `expires`.
  unfoldable pub read_session : SessionRow → Result Session
  read_session row = elim (crypto.decrypt row.sealed) [
    | some (session_of id issuer subject access_token csrf expires) ↦ ok (record {
      id = id;
      issuer = issuer;
      subject = subject;
      access_token = access_token;
      csrf = csrf;
      expires = expires;
    })
    | _ ↦ raised store_error
  ]

  unfoldable pub open_session : (token : String) → ℕ → Option SessionRow → Result (Option Session)
  open_session token now none = ok none
  open_session token now (some row) = elim (read_session row) [
    | ok s ↦
        if str_eq s.id (session_key token) && ltb now s.expires
        then ok (some s)
        else raised store_error
    | raised e ↦ raised e
  ]

  -- session
  unfoldable pub session : String → Exec (Option Session)
  session token =
      if nonempty token && leb (len token) 128
      then (do
        now ← seconds
        row ← transaction (λ db. ok (select_session (session_key token) now db.sessions, db))
        later ← seconds
        lift (open_session token later row))
      else pure none

  -- delete_session
  unfoldable pub delete_session : String → Exec (Unit {0})
  delete_session token =
      transaction
        λ db. ok (tt, record db { sessions = delete_session_row (session_key token) db.sessions })

  -- The owner that the row of a session names, if the row and its dictionary agree.
  unfoldable pub session_owner : (token : String) → ℕ → SessionRow → Session → Result String
  session_owner token now row s = elim (owner_of crypto s.issuer s.subject) [
    | ok owner ↦
        if str_eq s.id (session_key token) && str_eq row.owner owner && ltb now s.expires
        then ok owner
        else raised store_error
    | raised e ↦ raised e
  ]

  unfoldable pub owner_of_row : (token : String) → ℕ → Option SessionRow → Result String
  owner_of_row token now none = raised store_error
  owner_of_row token now (some row) = elim (read_session row) [
    | ok s ↦ session_owner token now row s
    | raised e ↦ raised e
  ]

  -- The transaction of `save_connection_for_session`: the session is read again in it.
  unfoldable pub save_for_session :
      (token : String) → GatewayConfig → ℕ → Tables → Result (Unit {0} × Tables)
  save_for_session token config now db =
      elim (owner_of_row token now (select_session (session_key token) now db.sessions)) [
        | ok owner ↦ ok (
          tt,
          record db {
            connections = upsert_connection (connection_row crypto owner config) db.connections;
          },
        )
        | raised e ↦ raised e
      ]

  -- save_connection_for_session
  unfoldable pub save_connection_for_session : (token : String) → GatewayConfig → Exec (Unit {0})
  save_connection_for_session token config = do
    check config.public_only store_error
    now ← seconds
    transaction (save_for_session token config now)
