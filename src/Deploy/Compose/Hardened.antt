-- ===== src/Deploy/Compose/Hardened.antt =====
-- What runs, once the hardened identity images are required.
use amazon_echo_home_voice.Prelude.{
  &&-intro, Bool, Bool-cases, List, Option, String, [], ap, arith, eq_iff, false, inl, inr, not,
  or_else, refl, sym, true, ◌||◌, ◌∙◌, ◌∷◌, ◌≡◌, ◌⊎◌,
}
use amazon_echo_home_voice.Python.{
  >>=-eq-ok, Result, Result-cases, ensure->>=-eq-ok, ok, ok-injective, raised, required, ◌>>=◌,
}
use amazon_echo_home_voice.Deploy.Compose.{
  Docker, Host, Images, Options, after_preflight, check_image, checked_main, digest_of,
  ensure_marker_directory, hardened, is_reference, is_required, is_stop, main, mark, preflight,
  run_compose, validate_command, validate_images,
}

-- Both images are the reviewed builds, named by their digests.
pub record IsHardened (configured : Images) : Type 0 where
  pub keycloak : digest_of (or_else configured.keycloak "") ≡ hardened.keycloak
  pub postgres : digest_of (or_else configured.postgres "") ≡ hardened.postgres
  pub pinned_keycloak : is_reference (or_else configured.keycloak "") ≡ true
  pub pinned_postgres : is_reference (or_else configured.postgres "") ≡ true

check_image-eq-ok :
    (image : Option String) (expected : String)
    → check_image image expected true ≡ ok tt
    → (digest_of (or_else image "") ≡ expected) × (is_reference (or_else image "") ≡ true)
unfolding check_image
check_image-eq-ok image expected h =
    let (r, k) = ensure->>=-eq-ok (is_reference (or_else image "")) _ _ h in
    ((eq_iff _ _).0 (ground (arith, k)), r)

validate_images-IsHardened :
    (configured current : Images) (required result : Bool)
    → is_required current required ≡ true
    → validate_images configured current required false ≡ ok result
    → IsHardened configured × (result ≡ true)
unfolding validate_images
validate_images-IsHardened configured current required result r h =
    let strict : (is_required current required || false) ≡ true = ground (arith, r) in
    let (u, a, h1) = >>=-eq-ok (check_image configured.keycloak hardened.keycloak _) _ h in
    let (v, b, h2) = >>=-eq-ok (check_image configured.postgres hardened.postgres _) _ h1 in
    let (k, pk) =
      check_image-eq-ok configured.keycloak hardened.keycloak
        (ap (check_image configured.keycloak hardened.keycloak) (sym strict) ∙ a) in
    let (p, pp) =
      check_image-eq-ok configured.postgres hardened.postgres
        (ap (check_image configured.postgres hardened.postgres) (sym strict) ∙ b) in
    (
      record { keycloak = k; postgres = p; pinned_keycloak = pk; pinned_postgres = pp },
      sym (ok-injective h2) ∙ &&-intro _ _ ((eq_iff _ _).1 k) ((eq_iff _ _).1 p),
    )

mark-marker : (host left : Host) → mark true host ≡ ok left → left.marker ≡ true
unfolding mark
mark-marker host left h = elim (Bool-cases host.marker) [
  | inl t ↦ ground (arith, t, h)
  | inr f ↦
      let marks : (ensure_marker_directory host.directory >>= λ d.
      ok (record host { directory = d; marker = true }))
          ≡ ok left =
        ground (arith, f, h) in
      let (d, e, k) = >>=-eq-ok (ensure_marker_directory host.directory) _ marks in
      ground (arith, k)
]

preflight-IsHardened :
    (docker : Docker) (options : Options) (host : Host) (configured current : Images)
    (result : Bool)
    → docker.configured ≡ ok configured
    → docker.current ≡ ok current
    → options.rollback ≡ false
    → is_required current (options.require_hardened || host.marker) ≡ true
    → preflight docker options host ≡ ok result
    → IsHardened configured × (result ≡ true)
unfolding preflight
preflight-IsHardened docker options host configured current result c n b r h =
    let (c', e, h1) = >>=-eq-ok docker.configured _ h in
    let (n', f, h2) = >>=-eq-ok docker.current _ h1 in
    let (u, h3) = ensure->>=-eq-ok (not host.marker_is_symlink) _ _ h2 in
    let same : validate_images configured current (options.require_hardened || host.marker) false
        ≡ ok result =
      ap (λ i. validate_images i current (options.require_hardened || host.marker) false)
        (ok-injective (sym c ∙ e))
      ∙ ap (λ i. validate_images c' i (options.require_hardened || host.marker) false)
          (ok-injective (sym n ∙ f))
      ∙ ap (validate_images c' n' (options.require_hardened || host.marker)) (sym b)
      ∙ h3 in
    validate_images-IsHardened configured current (options.require_hardened || host.marker) result r
      same

after-IsGuarded :
    (docker : Docker) (host : Host) (configured : Images) (command : List String)
    (checked : Result Bool)
    → ((b : Bool) → checked ≡ ok b → IsHardened configured × (b ≡ true))
    → ((after_preflight docker command host checked).1.ran ≡ host.ran)
      ⊎ (IsHardened configured × ((after_preflight docker command host checked).1.marker ≡ true))
unfolding after_preflight run_compose
after-IsGuarded docker host configured command (raised e) h = inl refl
after-IsGuarded docker host configured [] (ok b) h = inl refl
after-IsGuarded docker host configured (c ∷ cs) (ok b) h =
    let (images, is) = h b refl in
    elim (Result-cases (mark b host)) [
      | inr (e, f) ↦ inl (rw (f, after_preflight) refl)
      | inl (left, f) ↦ inr (
        images,
        rw (f, after_preflight, run_compose)
            (mark-marker host left (ap (λ x. mark x host) (sym is) ∙ f)),
      )
    ]

-- A command that ran had the hardened images, and left the marker.
pub record IsGuarded (docker : Docker) (options : Options) (host : Host) (configured : Images)
    : Type 0 where
  pub images : IsHardened configured
  pub marked : (main docker options host).1.marker ≡ true

-- Once the hardened images are required, by the option, by the marker, or because an image that runs
-- is a hardened one, and no rollback is asked for, `main` runs a command that starts or pulls containers
-- only when both configured images are the reviewed hardened builds, named by
-- their digests, and it leaves the marker that requires them from then on; otherwise nothing ran.
pub main-IsGuarded :
    (docker : Docker) (options : Options) (host : Host) (configured current : Images)
    → docker.configured ≡ ok configured
    → docker.current ≡ ok current
    → options.rollback ≡ false
    → is_stop options.command ≡ false
    → is_required current (options.require_hardened || host.marker) ≡ true
    → ((main docker options host).1.ran ≡ host.ran) ⊎ IsGuarded docker options host configured
unfolding main checked_main
main-IsGuarded docker options host configured current c n b s r =
    elim (Result-cases (validate_command options.command)) [
      | inr (e, f) ↦ inl (rw (f, main, checked_main) refl)
      | inl (u, f) ↦
          let same : (main docker options host).1
              ≡ (after_preflight docker options.command host (preflight docker options host)).1 =
            rw (f, s, main, checked_main) refl in
          elim (after-IsGuarded docker host configured options.command
            (preflight docker options host)
            (λ result.
              preflight-IsHardened docker options host configured current result c n b r)) [
                | inl still ↦ inl (ap (λ h. h.ran) same ∙ still)
                | inr (images, marked) ↦
                    inr (record { images = images; marked = ap (λ h. h.marker) same ∙ marked })
              ]
    ]
