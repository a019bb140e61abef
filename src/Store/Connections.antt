-- ===== src/Store/Connections.antt =====
-- The household connections of tenant_store.py: `_owner`, `connection`, `save_connection`,
-- `disconnect` and `delete_household`. Opening the database, and every statement, fails as a whole
-- when storage is not available; a transaction that raises changes nothing.
use amazon_echo_home_voice.Python.{
  Python, Result, ensure, len, nonempty, ok, raised, store_error, ◌>>=◌,
}
use amazon_echo_home_voice.Prelude.{
  List, Option, String, [], if◌then◌else◌, keep_if, leb, none, not, some, str_eq, true, ℕ, ◌&&◌,
  ◌∷◌,
}
use amazon_echo_home_voice.Gateway.Config.{GatewayConfig, post_init}
use amazon_echo_home_voice.Store.Tables.{connection_of, ConnectionRow, SessionRow, Crypto}

-- SELECT data FROM connections WHERE owner=?
unfoldable pub select_connection : String → List ConnectionRow → Option (List ℕ)
select_connection owner [] = none
select_connection owner (row ∷ rows) =
    let rest = select_connection owner rows in
    if str_eq row.owner owner then some row.sealed else rest

-- INSERT INTO connections ... ON CONFLICT(owner) DO UPDATE SET data=excluded.data
unfoldable pub upsert_connection : ConnectionRow → List ConnectionRow → List ConnectionRow
upsert_connection new [] = new ∷ []
upsert_connection new (row ∷ rows) =
    let rest = upsert_connection new rows in
    if str_eq row.owner new.owner then new ∷ rows else row ∷ rest

-- DELETE FROM connections WHERE owner=?
unfoldable pub delete_connection : String → List ConnectionRow → List ConnectionRow
delete_connection owner = keep_if (λ row. not (str_eq row.owner owner))

-- DELETE FROM sessions WHERE owner=?
unfoldable pub delete_sessions_of : String → List SessionRow → List SessionRow
delete_sessions_of owner = keep_if (λ row. not (str_eq row.owner owner))

module _ (crypto : Crypto) where
  -- _owner
  unfoldable pub owner_of : (issuer subject : String) → Result String
  owner_of issuer subject =
      ensure (nonempty issuer && nonempty subject && leb (len subject) 512) store_error >>= λ _.
      ok (crypto.digest "owner" (issuer ∷ subject ∷ []))

  -- The checks of `connection` on what the row holds; the stored value cannot opt out of the public
  -- network checks.
  unfoldable pub open_connection : Python → String → List ℕ → Result GatewayConfig
  open_connection py owner sealed = elim (crypto.decrypt sealed) [
    | some (connection_of bound config) ↦
        if str_eq bound owner
        then post_init py (record config { public_only = true })
        else raised store_error
    | _ ↦ raised store_error
  ]

  unfoldable pub opened : Python → String → Option (List ℕ) → Result (Option GatewayConfig)
  opened py owner none = ok none
  opened py owner (some sealed) = open_connection py owner sealed >>= λ config. ok (some config)

  -- The row that `save_connection` writes.
  unfoldable pub connection_row : String → GatewayConfig → ConnectionRow
  connection_row owner config = record {
    owner = owner;
    sealed = crypto.encrypt (connection_of owner config);
  }
