-- ===== src/Store/History/Refines.antt =====
-- The connections as a map from a household to what is sealed for it, which the table implements.
use amazon_echo_home_voice.Prelude.{
  Bool-cases, List, Option, String, [], ap, arith, eq_iff, if◌then◌else◌, inl, inr, none, refl,
  some, str_eq, subst, sym, ℕ, ◌∙◌, ◌∷◌, ◌≡◌,
}
use amazon_echo_home_voice.Python.{Result-cases, ok, raised}
use amazon_echo_home_voice.Store.Tables.{ConnectionRow, SessionRow, Crypto, Tables}
use amazon_echo_home_voice.Store.Connections.{
  connection_row, delete_connection, select_connection, upsert_connection,
}
use amazon_echo_home_voice.Store.Flows.{add_flow, take_flow}
use amazon_echo_home_voice.Store.Sessions.{
  add_session, owner_of_row, save_for_session, select_session, session_key,
}
use amazon_echo_home_voice.Store.Isolation.{select-delete, select-upsert}
use amazon_echo_home_voice.Store.History.{
  Op, apply, begin_login, committed, consume_login, disconnect, erase, run, save, save_signed_in,
  sign_in, sign_out,
}

abbrev pub Connections : Type 0
Connections = String → Option (List ℕ)

abbrev pub view : Tables → Connections
view db = λ owner. select_connection owner db.connections

abbrev pub put : String → List ℕ → Connections → Connections
put owner sealed m = λ other. if str_eq owner other then some sealed else m other

abbrev pub remove : String → Connections → Connections
remove owner m = λ other. if str_eq owner other then none else m other

view-upsert :
    (row : ConnectionRow) (db : Tables) (owner : String)
    → select_connection owner (upsert_connection row db.connections)
      ≡ put row.owner row.sealed (view db) owner
view-upsert row db owner =
    let (f, g) = select-upsert row owner db.connections in
    elim (Bool-cases (str_eq row.owner owner)) [
      | inl t ↦ f ((eq_iff _ _).0 t) ∙ sym (rw t refl)
      | inr t ↦ g (ground (arith, t, eq_iff row.owner owner)) ∙ sym (rw t refl)
    ]

view-delete :
    (gone : String) (db : Tables) (owner : String)
    → select_connection owner (delete_connection gone db.connections) ≡ remove gone (view db) owner
view-delete gone db owner =
    let (f, g) = select-delete gone owner db.connections in
    elim (Bool-cases (str_eq gone owner)) [
      | inl t ↦
          subst (λ o. select_connection o (delete_connection gone db.connections) ≡ none)
            ((eq_iff _ _).0 t) f
          ∙ sym (rw t refl)
      | inr t ↦ g (ground (arith, t, eq_iff gone owner)) ∙ sym (rw t refl)
    ]

module _ (crypto : Crypto) where
  -- What a transaction does to the map: only the one of a signed-in household looks at the tables,
  -- for the household that its session names.
  unfoldable pub effect : Op → Tables → Connections → Connections
  effect (save owner config) db m = put owner (connection_row crypto owner config).sealed m
  effect (save_signed_in token config now) db m =
      elim (owner_of_row crypto token now
        (select_session (session_key crypto token) now db.sessions)) [
          | ok owner ↦ put owner (connection_row crypto owner config).sealed m
          | raised e ↦ m
        ]
  effect (disconnect owner) db m = remove owner m
  effect (erase owner) db m = remove owner m
  effect (begin_login state verifier browser now) db m = m
  effect (consume_login state browser now) db m = m
  effect (sign_in row now) db m = m
  effect (sign_out id) db m = m

  abbrev pub replay : List Op → Tables → Connections → Connections
  replay [] db m = m
  replay (op ∷ ops) db m = replay ops (apply crypto op db) (effect op db m)

  add_flow-connections :
      (state verifier browser : String) (now : ℕ) (db : Tables)
      → (committed (add_flow crypto state verifier browser now db) db).connections ≡ db.connections
  unfolding add_flow
  add_flow-connections state verifier browser now db = ground arith

  take_flow-connections :
      (state browser : String) (now : ℕ) (db : Tables)
      → (committed (take_flow crypto state browser now db) db).connections ≡ db.connections
  unfolding take_flow
  take_flow-connections state browser now db = ground arith

  add_session-connections :
      (row : SessionRow) (now : ℕ) (db : Tables)
      → (committed (add_session crypto row now db) db).connections ≡ db.connections
  unfolding add_session
  add_session-connections row now db = ground arith

  view-apply :
      (op : Op) (db : Tables) (owner : String)
      → view (apply crypto op db) owner ≡ effect op db (view db) owner
  unfolding apply save_for_session connection_row effect
  view-apply (save o config) db owner = view-upsert (connection_row crypto o config) db owner
  view-apply (save_signed_in token config now) db owner =
      elim (Result-cases (
        owner_of_row crypto token now
          (select_session (session_key crypto token) now db.sessions))) [
            | inl (o, e) ↦
                rw (e, save_for_session, effect)
                  (view-upsert (connection_row crypto o config) db owner)
            | inr (x, e) ↦ rw (e, save_for_session, effect) refl
          ]
  view-apply (disconnect o) db owner = view-delete o db owner
  view-apply (erase o) db owner = view-delete o db owner
  view-apply (begin_login state verifier browser now) db owner =
      ap (select_connection owner) (add_flow-connections state verifier browser now db)
  view-apply (consume_login state browser now) db owner =
      ap (select_connection owner) (take_flow-connections state browser now db)
  view-apply (sign_in row now) db owner =
      ap (select_connection owner) (add_session-connections row now db)
  view-apply (sign_out id) db owner = refl

  -- After any sequence of transactions the table reads as the map on which each transaction had
  -- its effect: a save sets its own household, a save in a session sets the household that the session
  -- names and does nothing without one, a disconnect and a deletion of a household
  -- remove that household, and login flows, sign-ins and sign-outs change no connection.
  pub view-run : (ops : List Op) (db : Tables) → view (run crypto ops db) ≡ replay ops db (view db)
  unfolding run
  view-run [] db = refl
  view-run (op ∷ ops) db =
      view-run ops (apply crypto op db)
      ∙ ap (replay ops (apply crypto op db)) (λ i owner. view-apply op db owner i)
