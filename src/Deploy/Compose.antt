-- ===== src/Deploy/Compose.antt =====
-- deploy/multi-household/identity_compose.py: Docker Compose behind checks of the identity images.
-- What the commands print is an argument.
pub mod Hardened
use Prim.Native.String.{◌++◌ as append}
use amazon_echo_home_voice.Prelude.{
  Bool, List, Option, String, [], any, false, if◌then◌else◌, none, not, one_of, or_else, some,
  str_eq, true, ℕ, ◌&&◌, ◌++◌, ◌==◌, ◌||◌, ◌∷◌,
}
use amazon_echo_home_voice.Python.{
  Result, after_prefix, all_chars, any_char, before, between, codes, ensure, foreign, has_prefix,
  is_digit, is_lower, key_error, len, ok, os_error, raised, required, runtime_error, split,
  value_error, ◌>>=◌, ◌>>◌,
}

-- A dictionary over the two services; a service that is not there has no image.
pub record Images : Type 0 where
  pub keycloak : Option String
  pub postgres : Option String

pub record Digests : Type 0 where
  pub keycloak : String
  pub postgres : String

abbrev pub hardened : Digests
hardened = record {
  keycloak = "sha256:63e1248e81ff9d2136e6fa7bed9ce890b51d70a3b8a752f7933381e3ed1a40bc";
  postgres = "sha256:461eebbbdae43e2bb4d33e8bdd0df63001be4f4c56c2231f093e469f035e639b";
}

abbrev pub previous : Digests
previous = record {
  keycloak = "sha256:ff4257d0d64efbe99ed1ddfaf07765cc3c36dc7518bf8324d41961327f441c54";
  postgres = "sha256:051f7b7b3abdd564d5d1bd1e8c4b9c1b6e77087d1dd22020ede611c096a272e0";
}

-- image.rsplit("@", 1)[-1]: what stands behind the last "@", or the whole text
unfoldable pub digest_of : String → String
digest_of image = or_else (last_text (split b'@' image)) image
  where
    last_text : List String → Option String
    last_text [] = none
    last_text (s ∷ []) = some s
    last_text (s ∷ ss) = last_text ss

-- "-security" in image
abbrev pub contains : String → String → Bool
contains part String.[] = has_prefix part ""
contains part (String.◌∷◌ c s) =
    let later = contains part s in has_prefix part (String.◌∷◌ c s) || later

abbrev image_start : ℕ → Bool
image_start c = is_digit c || is_lower c

abbrev image_char : ℕ → Bool
image_char c = image_start c || c == b'.' || c == b'/' || c == b':' || c == b'_' || c == b'-'

abbrev hex : ℕ → Bool
hex c = is_digit c || between 97 102 c

abbrev starts_with : (ℕ → Bool) → List ℕ → Bool
starts_with p [] = false
starts_with p (c ∷ cs) = p c

-- [0-9a-f]{64} behind "sha256:"
abbrev is_digest : String → Bool
is_digest s = elim (after_prefix "sha256:" s) [
  | none ↦ false
  | some rest ↦ all_chars hex rest && len rest == 64
]

-- The parts in front of and behind the only "@".
abbrev is_pinned : List String → Bool
is_pinned (name ∷ digest ∷ []) =
    starts_with image_start (codes name) && all_chars image_char name && is_digest digest
is_pinned _ = false

-- REFERENCE.fullmatch(image)
unfoldable pub is_reference : String → Bool
is_reference image = is_pinned (split b'@' image)

abbrev pub images_of : Images → List String
images_of images = present images.keycloak ++ present images.postgres
  where
    present : Option String → List String
    present none = []
    present (some image) = image ∷ []

-- What makes the hardened images required: a flag, or an image that runs.
unfoldable pub is_required : Images → (required : Bool) → Bool
is_required current required =
    required
    || any (contains "-security") (images_of current)
    || any (λ image. one_of (hardened.keycloak ∷ hardened.postgres ∷ []) (digest_of image))
        (images_of current)

-- The body of the loop over the services.
unfoldable pub check_image :
    Option String → (digest : String) → (required : Bool) → Result (Unit {0})
check_image image expected required =
    let named = or_else image "" in
    ensure (is_reference named) (foreign value_error)
    >> ensure (not (required && not (str_eq (digest_of named) expected))) (foreign value_error)

-- validate_images
unfoldable pub validate_images :
    (configured current : Images) → (required rollback : Bool) → Result Bool
validate_images configured current required rollback = do
  let expected = if rollback then previous else hardened
  let strict = is_required current required || rollback
  check_image configured.keycloak expected.keycloak strict
  check_image configured.postgres expected.postgres strict
  ok (
      str_eq (digest_of (or_else configured.keycloak "")) hardened.keycloak
      && str_eq (digest_of (or_else configured.postgres "")) hardened.postgres)

abbrev overrides : List String
overrides =
    "--file" ∷ "--env-file" ∷ "--project-directory" ∷ "--project-name" ∷ "--profile"
    ∷ "--compatibility" ∷ "--all-resources" ∷ []

-- A group of short options with -f or -p in it.
unfoldable pub short_override : String → Bool
short_override option = elim (after_prefix "-" option) [
  | none ↦ false
  | some flags ↦ not (has_prefix "-" flags) && any_char (λ c. c == b'f' || c == b'p') flags
]

-- The body of the loop over the arguments of a subcommand.
unfoldable pub check_argument : (subcommand argument : String) → Result (Unit {0})
check_argument subcommand argument =
    let option = before b'=' argument in
    ensure (not (one_of overrides option || short_override option)) (foreign value_error)
    >> ensure (not (str_eq subcommand "up" && str_eq option "--no-recreate")) (foreign value_error)

unfoldable pub check_arguments : String → List String → Result (Unit {0})
check_arguments subcommand [] = ok tt
check_arguments subcommand (a ∷ as_) =
    let rest = check_arguments subcommand as_ in check_argument subcommand a >> rest

-- validate_command
unfoldable pub validate_command : List String → Result (Unit {0})
validate_command [] = ok tt
validate_command (subcommand ∷ arguments) =
    ensure (one_of ("up" ∷ "pull" ∷ "stop" ∷ []) subcommand) (foreign value_error)
    >> check_arguments subcommand arguments

-- The private directory of the marker: whether there is one, a symbolic link, or one that others can
-- enter; and the marker in it.
pub record Directory : Type 0 where
  pub exists : Bool
  pub is_symlink : Bool
  pub is_private : Bool

-- ensure_marker_directory, which leaves a new directory private
unfoldable pub ensure_marker_directory : Directory → Result Directory
ensure_marker_directory d =
    if d.exists
    then (ensure (not (d.is_symlink || not d.is_private)) (foreign value_error) >>= λ u. ok d)
    else ok (record { exists = true; is_symlink = false; is_private = true })

-- What `docker compose config` and `docker inspect` say, or that a command failed or its output has
-- not this shape.
pub record Docker : Type 0 where
  pub configured : Result Images
  pub current : Result Images
  -- the status that the Compose command returns
  pub status : List String → ℕ

pub record Host : Type 0 where
  pub directory : Directory
  pub marker : Bool
  pub marker_is_symlink : Bool
  -- the Compose commands that ran
  pub ran : List (List String)

pub record Options : Type 0 where
  pub require_hardened : Bool
  pub rollback : Bool
  pub command : List String

-- subprocess.run(compose + command).returncode
unfoldable pub run_compose : Docker → List String → Host → Result ℕ × Host
run_compose docker command host =
    (ok (docker.status command), record host { ran = host.ran ++ command ∷ [] })

-- The marker of hardened images is written once.
unfoldable pub mark : (hardened : Bool) → Host → Result Host
mark is_hardened host =
    if is_hardened && not host.marker
    then (ensure_marker_directory host.directory >>= λ d.
        ok (record host { directory = d; marker = true }))
    else ok host

abbrev pub is_stop : List String → Bool
is_stop [] = false
is_stop (c ∷ cs) = str_eq c "stop"

-- The checks of `main` in front of a command that starts or pulls containers.
unfoldable pub preflight : Docker → Options → Host → Result Bool
preflight docker options host = do
  configured ← docker.configured
  current ← docker.current
  ensure (not host.marker_is_symlink) (foreign value_error)
  validate_images configured current (options.require_hardened || host.marker) options.rollback

-- The end of `main`: without a command the checks are all.
unfoldable pub after_preflight : Docker → List String → Host → Result Bool → Result ℕ × Host
after_preflight docker command host (raised e) = (raised e, host)
after_preflight docker [] host (ok is_hardened) = (ok 0, host)
after_preflight docker (c ∷ cs) host (ok is_hardened) = elim (mark is_hardened host) [
  | raised e ↦ (raised e, host)
  | ok marked ↦ run_compose docker (c ∷ cs) marked
]

-- The `try` block of `main`.
unfoldable pub checked_main : Docker → Options → Host → Result ℕ × Host
checked_main docker options host = elim (validate_command options.command) [
  | raised e ↦ (raised e, host)
  | ok u ↦
      if is_stop options.command
      then run_compose docker options.command host
      else after_preflight docker options.command host (preflight docker options host)
]

-- except (KeyError, ValueError, RuntimeError, OSError): none where the exception leaves `main`
unfoldable pub status_of : Result ℕ → Option ℕ
status_of (ok status) = some status
status_of (raised (foreign key_error)) = some 1
status_of (raised (foreign value_error)) = some 1
status_of (raised (foreign runtime_error)) = some 1
status_of (raised (foreign os_error)) = some 1
status_of (raised e) = none

-- main
unfoldable pub main : Docker → Options → Host → Option ℕ × Host
main docker options host =
    let (result, left) = checked_main docker options host in (status_of result, left)
