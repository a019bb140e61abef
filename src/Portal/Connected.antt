-- ===== src/Portal/Connected.antt =====
-- What the form of /connection saves, and when.
use amazon_echo_home_voice.Prelude.{
  Bool, Bool-cases, String, [], ap, arith, false, inl, inr, refl, subst, sym, true, ℕ, ◌∙◌, ◌∷◌,
  ◌≡◌, ◌⊎◌,
}
use amazon_echo_home_voice.Python.{
  Exn, Fields, Python, Result, Result-cases, bad_request, before, ensure, float, ok, raised, whole,
}
use amazon_echo_home_voice.World.{Exec, World, lift, pure, seconds, transaction, ◌>>=◌, ◌>>◌}
use amazon_echo_home_voice.Gateway.Config.{GatewayConfig, post_init}
use amazon_echo_home_voice.Fetch.{fetch_energy}
use amazon_echo_home_voice.Fetch.Keeps.{Keeps-fetch_energy}
use amazon_echo_home_voice.Fetch.Current.{IsCurrent, IsCurrent-widen}
use amazon_echo_home_voice.World.Follows.{
  Advances, Advances-bind, Advances-lift, Advances-seconds, Advances-transaction, Follows,
  Follows-refl,
}
use amazon_echo_home_voice.Fetch.Deadline.{Advances-fetch_energy, fetch_energy-returns}
use amazon_echo_home_voice.Oauth.{OAuthConfig}
use amazon_echo_home_voice.Store.Tables.{Crypto, Tables}
use amazon_echo_home_voice.Store.Connections.{connection_row, upsert_connection}
use amazon_echo_home_voice.Store.Sessions.{
  owner_of_row, save_connection_for_session, save_for_session, select_session, session_key,
}
use amazon_echo_home_voice.Portal.{PortalPage, connect, home_in, portal_root, see_other}
use amazon_echo_home_voice.Portal.Input.{Pairs, only_keys}

module _ {ℓ κ} {A : Type ℓ} {B : Type κ} where
  -- A sequence stops at its first part, or goes on from the state that this left.
  step-cases :
      (m : Exec A) (f : A → Exec B) (w : World)
      → ((e : Exn) × ((m w).0 ≡ raised e) × ((m >>= f) w ≡ (raised e, (m w).1)))
        ⊎ ((a : A) × ((m w).0 ≡ ok a) × ((m >>= f) w ≡ f a (m w).1))
  step-cases m f w = elim (Result-cases (m w).0) [
    | inl (a, e) ↦ inr (a, e, rw (e) refl)
    | inr (x, e) ↦ inl (x, e, rw (e) refl)
  ]

abbrev pub returned {ℓ} : {A : Type ℓ} → Result A → Bool
returned (ok a) = true
returned (raised e) = false

module _ (py : Python) (crypto : Crypto) where
  -- The household that a session names at a time, and the tables with its connection.
  pub record IsWritten (token : String) (home : GatewayConfig) (now : ℕ) (before after : Tables)
      : Type 0 where
    pub owner : String
    pub named :
        owner_of_row crypto token now
          (select_session (session_key crypto token) now before.sessions)
        ≡ ok owner
    pub saved :
        record before {
          connections = upsert_connection (connection_row crypto owner home) before.connections;
        }
        ≡ after

  -- The form held a checked configuration, its gateway answered a request in this run with a current
  -- payload, and the connection of the household that the session names at the end of the run was
  -- written.
  pub record IsSaved (token : String) (form : Pairs) (before after : World) : Type 0 where
    pub home : GatewayConfig
    pub checked : post_init py (home_in form) ≡ ok home
    pub payload : Fields
    pub current : IsCurrent py home before after payload
    pub written :
        IsWritten token home (whole (float (before.wall after.now))) before.tables after.tables

  abbrev pub Outcome : String → Pairs → World → Result PortalPage × World → Type 0
  Outcome token form before m =
      ((returned m.0 ≡ false) × (m.1.tables ≡ before.tables))
      ⊎ ((returned m.0 ≡ true) × IsSaved token form before m.1)

  Advances-save :
      (token : String) (home : GatewayConfig)
      → Advances (save_connection_for_session crypto token home)
  unfolding save_connection_for_session
  Advances-save token home =
      Advances-bind (Advances-lift _)
        λ u. Advances-bind Advances-seconds λ now. Advances-transaction _

  -- The transaction writes the row of the owner, or nothing.
  save-cases :
      (token : String) (home : GatewayConfig) (w : World)
      → let m = save_connection_for_session crypto token home w in
        ((returned m.0 ≡ false) × (m.1.tables ≡ w.tables))
        ⊎ ((returned m.0 ≡ true)
            × (m.1.now ≡ w.now)
            × IsWritten token home (whole (float (w.wall w.now))) w.tables m.1.tables)
  unfolding save_connection_for_session seconds transaction save_for_session
  save-cases token home w =
      let now = whole (float (w.wall w.now)) in
      elim (Bool-cases home.public_only) [
        | inr f ↦ rw (f) (inl (refl, refl))
        | inl t ↦ elim (Bool-cases w.storage_up) [
          | inr f ↦ rw (t, f) (inl (refl, refl))
          | inl up ↦
              elim (Result-cases (
                owner_of_row crypto token now
                  (select_session (session_key crypto token) now w.tables.sessions))) [
                    | inr (x, e) ↦ rw (t, up, e) (inl (refl, refl))
                    | inl (owner, e) ↦
                        rw (t, up, e)
                          (inr (refl, refl, record { owner = owner; named = e; saved = refl }))
                  ]
        ]
      ]

  -- What the fetch left, and the steps behind it.
  save-Outcome :
      (token : String) (form : Pairs) (home : GatewayConfig) (payload : Fields) (w v : World)
      → post_init py (home_in form) ≡ ok home
      → IsCurrent py home w v payload
      → Follows w v
      → v.tables ≡ w.tables
      → Outcome token form w
          ((save_connection_for_session crypto token home >> pure (see_other portal_root [])) v)
  save-Outcome token form home payload w v checked current f keeps =
      let m = save_connection_for_session crypto token home in
      elim (step-cases m (λ u. pure (see_other portal_root [])) v) [
        | inl (x, e, g) ↦ elim (save-cases token home v) [
          | inl (r, same) ↦ inl (ap (λ q. returned q.0) g, ap (λ q. q.1.tables) g ∙ same ∙ keeps)
          | inr (r, still, s) ↦ absurd (ground (arith, r, e))
        ]
        | inr (u, e, g) ↦ elim (save-cases token home v) [
          | inl (r, same) ↦ absurd (ground (arith, r, e))
          | inr (r, still, written) ↦
              let now = whole (float (v.wall v.now)) in
              let at_end : now ≡ whole (float (w.wall (m v).1.now)) =
                ap (λ wall. whole (float (wall v.now))) f.wall
                ∙ ap (λ t. whole (float (w.wall t))) (sym still) in
              inr (
                ap (λ q. returned q.0) g,
                subst (IsSaved token form w) (sym (ap (λ q. q.1) g)) (record {
                  home = home;
                  checked = checked;
                  payload = payload;
                  current =
                      IsCurrent-widen py (Follows-refl w) current ((Advances-save token home).at v);
                  written =
                      subst (λ t. IsWritten token home t w.tables (m v).1.tables) at_end
                        (subst (λ t. IsWritten token home now t (m v).1.tables) keeps written);
                }),
              )
        ]
      ]

  -- A step that changes no state, and what follows it.
  lift-Outcome {ℓ} :
      {A : Type ℓ} (token : String) (form : Pairs) (r : Result A) (f : A → Exec PortalPage)
      (w : World)
      → ((a : A) → r ≡ ok a → Outcome token form w (f a w))
      → Outcome token form w ((lift r >>= f) w)
  lift-Outcome token form (ok a) f w rest = rest a refl
  lift-Outcome token form (raised x) f w rest = inl (refl, refl)

  -- The form of /connection either answers with a page or raises. If it raises, whichever check, request
  -- or statement failed, the store is as it was. If it answers, the store has the connection that the
  -- form holds, checked as a public gateway, under the household that the session in the
  -- store names at the wall clock of the end of the run; everything else in the store is as it was; and
  -- during the run a request with the form's credentials was sent, and an answer of the gateway was
  -- read, whose payload fits the contract at a reading of the wall clock during the run.
  pub connect-Outcome :
      (config : OAuthConfig) (token : String) (form : Pairs) (w : World)
      → Outcome token form w (connect py crypto config token form w)
  unfolding connect
  connect-Outcome config token form w =
      let fields = "csrf" ∷ "url" ∷ "read_token" ∷ "cf_client_id" ∷ "cf_client_secret" ∷ [] in
      lift-Outcome token form (ensure (only_keys fields form) bad_request) _ w λ u f.
        lift-Outcome token form (post_init py (home_in form)) _ w
          λ home g. fetched token form home w g
    where
      fetched :
          (token : String) (form : Pairs) (home : GatewayConfig) (w : World)
          → post_init py (home_in form) ≡ ok home
          → Outcome token form w (
              (fetch_energy py home >>= λ payload.
              save_connection_for_session crypto token home >> pure (see_other portal_root []))
                w)
      fetched token form home w g =
          let keeps = (Keeps-fetch_energy py home).at w in
          let save : Fields → Exec PortalPage = λ payload.
            save_connection_for_session crypto token home >> pure (see_other portal_root []) in
          elim (step-cases (fetch_energy py home) save w) [
            | inl (x, e, s) ↦ inl (ap (λ q. returned q.0) s, ap (λ q. q.1.tables) s ∙ keeps)
            | inr (payload, e, s) ↦ subst (Outcome token form w) (sym s) (
                save-Outcome token form home payload w (fetch_energy py home w).1 g
                  (fetch_energy-returns py home w payload e).1
                  ((Advances-fetch_energy py home).at w) keeps)
          ]
