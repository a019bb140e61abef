-- ===== src/Store/Kept.antt =====
-- What a household reads back, and what it never reads, at the level of the store's methods.
use amazon_echo_home_voice.Prelude.{String, arith, refl, some, true, ◌∙◌, ◌≡◌, ◌≢◌, ap, eq_iff}
use amazon_echo_home_voice.Python.{Python, ok, ◌>>=◌}
use amazon_echo_home_voice.Gateway.Config.{GatewayConfig, post_init}
use amazon_echo_home_voice.Store.Tables.{Crypto, Tables, connection_of}
use amazon_echo_home_voice.Store.Connections.{
  connection_row, open_connection, opened, select_connection, upsert_connection,
}
use amazon_echo_home_voice.Store.Isolation.{select-upsert}

module _ (crypto : Crypto) (py : Python) where
  -- What the row of a saved connection opens to: the saved configuration with the public network
  -- checks on, checked again.
  open-connection_row :
      (owner : String) (config : GatewayConfig)
      → crypto.decrypt (crypto.encrypt (connection_of owner config))
        ≡ some (connection_of owner config)
      → open_connection crypto py owner (connection_row crypto owner config).sealed
        ≡ post_init py (record config { public_only = true })
  unfolding open_connection connection_row
  open-connection_row owner config sealed = ground (arith, sealed, eq_iff owner owner)

  -- After a connection is saved its household reads back the configuration that was saved, with the
  -- public network checks on and checked again; every other household reads what it read before,
  -- whether that was a connection, none or a failure. The encryption of the saved dictionary
  -- is assumed to be undone by decryption.
  pub opened-upsert :
      (owner other : String) (config : GatewayConfig) (db : Tables)
      → crypto.decrypt (crypto.encrypt (connection_of owner config))
        ≡ some (connection_of owner config)
      → (opened crypto py owner (
            select_connection owner
              (upsert_connection (connection_row crypto owner config) db.connections))
          ≡ (post_init py (record config { public_only = true }) >>= λ c. ok (some c)))
        × (owner ≢ other
            → opened crypto py other (
                select_connection other
                  (upsert_connection (connection_row crypto owner config) db.connections))
              ≡ opened crypto py other (select_connection other db.connections))
  unfolding opened connection_row
  opened-upsert owner other config db sealed =
      let row = connection_row crypto owner config in
      (
        ap (opened crypto py owner) ((select-upsert row owner db.connections).0 refl)
            ∙ ap (λ r. r >>= λ c. ok (some c)) (open-connection_row owner config sealed),
        λ ne. ap (opened crypto py other) ((select-upsert row other db.connections).1 ne),
      )
