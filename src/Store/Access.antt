-- ===== src/Store/Access.antt =====
-- The methods of `TenantStore` on connections, as actions: `connection`, `save_connection`,
-- `disconnect` and `delete_household`.
use amazon_echo_home_voice.Python.{Python, ok, raised, store_error}
use amazon_echo_home_voice.Prelude.{Option, String}
use amazon_echo_home_voice.World.{Exec, check, lift, transaction, ◌>>=◌, ◌>>◌}
use amazon_echo_home_voice.Gateway.Config.{GatewayConfig}
use amazon_echo_home_voice.Store.Tables.{Crypto}
use amazon_echo_home_voice.Store.Connections.{
  select_connection, upsert_connection, delete_connection, delete_sessions_of, owner_of, opened,
  connection_row,
}

module _ (crypto : Crypto) where
  -- connection
  unfoldable pub stored_connection :
      Python → (issuer subject : String) → Exec (Option GatewayConfig)
  stored_connection py issuer subject = do
    owner ← lift (owner_of crypto issuer subject)
    row ← transaction (λ db. ok (select_connection owner db.connections, db))
    lift (opened crypto py owner row)

  -- save_connection
  unfoldable pub save_connection : (issuer subject : String) → GatewayConfig → Exec (Unit {0})
  save_connection issuer subject config = do
    check config.public_only store_error
    owner ← lift (owner_of crypto issuer subject)
    transaction (λ db. ok (
      tt,
      record db {
        connections = upsert_connection (connection_row crypto owner config) db.connections;
      },
    ))

  -- disconnect: the identity is checked inside the transaction
  unfoldable pub disconnect : (issuer subject : String) → Exec (Unit {0})
  disconnect issuer subject = transaction λ db. elim (owner_of crypto issuer subject) [
    | ok owner ↦ ok (tt, record db { connections = delete_connection owner db.connections })
    | raised e ↦ raised e
  ]

  -- delete_household
  unfoldable pub delete_household : (issuer subject : String) → Exec (Unit {0})
  delete_household issuer subject = do
    owner ← lift (owner_of crypto issuer subject)
    transaction (λ db. ok (
      tt,
      record db {
        connections = delete_connection owner db.connections;
        sessions = delete_sessions_of owner db.sessions;
      },
    ))
