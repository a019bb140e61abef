-- ===== src/Store/Opening.antt =====
-- Opening and creating the database: `TenantStore.__init__` of tenant_store.py.
use amazon_echo_home_voice.Prelude.{
  Bool, List, Option, false, not, some, true, ℕ, ◌&&◌, ◌==◌, if◌then◌else◌, ◌≡◌, arith,
}
use amazon_echo_home_voice.Python.{Result, ensure, ok, raised, required, store_error, ◌>>=◌, ◌>>◌}
use amazon_echo_home_voice.Store.Tables.{Crypto, Envelope, marker}

-- A database file: its user_version and the sealed marker of its metadata table.
pub record Database : Type 0 where
  pub user_version : ℕ
  pub sealed : Option (List ℕ)

-- The path of the database and what is there. `shared` is a permission bit of 0o077.
pub record Disk : Type 0 where
  pub absolute : Bool
  pub symlink : Bool
  pub parent : Bool
  pub parent_symlink : Bool
  pub parent_shared : Bool
  pub exists : Bool
  pub regular : Bool
  pub shared : Bool
  pub database : Option Database

-- mkdir(parents=True, mode=0o700, exist_ok=True)
abbrev pub make_parent : Disk → Disk
make_parent d =
    if d.parent
    then d
    else record d { parent = true; parent_symlink = false; parent_shared = false }

abbrev pub is_marker : Option Envelope → Bool
is_marker (some marker) = true
is_marker _ = false

module _ (crypto : Crypto) where
  -- os.open with O_CREAT | O_EXCL, and the schema with its marker row
  unfoldable pub create_database : Disk → Result Disk
  create_database d =
      if d.exists
      then raised store_error
      else ok (record d {
        exists = true;
        regular = true;
        shared = false;
        database = some (record { user_version = 1; sealed = some (crypto.encrypt marker) });
      })

  -- The checks of the file, the version and the marker.
  unfoldable pub check_database : Disk → Result Disk
  check_database d = do
    ensure (d.exists && d.regular && not d.shared) store_error
    database ← required d.database store_error
    ensure (database.user_version == 1) store_error
    sealed ← required database.sealed store_error
    ensure (is_marker (crypto.decrypt sealed)) store_error
    ok d

  -- __init__
  unfoldable pub open_path : (initialize : Bool) → Disk → Result Disk
  open_path initialize d = do
    ensure (d.absolute && not d.symlink) store_error
    let placed = if initialize then make_parent d else d
    ensure (placed.parent && not placed.parent_symlink && not placed.parent_shared) store_error
    created ← if initialize then create_database placed else ok placed
    check_database created

  -- A database that was created opens afterwards as it is, and is never created again over itself,
  -- where decryption undoes the encryption of the marker.
  pub open_path-once :
      (d d' : Disk)
      → crypto.decrypt (crypto.encrypt marker) ≡ some marker
      → open_path true d ≡ ok d'
      → (open_path false d' ≡ ok d') × (open_path true d' ≡ raised store_error)
  unfolding open_path check_database create_database
  open_path-once d d' sealed h = (ground (arith, sealed), ground (arith, sealed))
