-- ===== src/Supervisor.antt =====
-- deploy/unified/supervisor.py: the configuration of the child processes, and the loop that watches
-- them, as a step on what one pass observes.
pub mod Grace
pub mod Run
pub mod Cast
use Prim.Native.Char.{code}
use amazon_echo_home_voice.Prelude.{
  Bool, List, Option, String, [], all, if◌then◌else◌, is_some, leb, none, not, one_of, or_else,
  some, str_eq, true, ℕ, ◌&&◌, ◌*◌, ◌++◌, ◌+◌, ◌-◌, ◌/◌, ◌==◌, ◌^◌, ◌||◌, ◌∷◌,
}
use amazon_echo_home_voice.Python.{
  Exn, Python, Result, any_char, ensure, foreign, has_prefix, nonempty, ok, required, value_error,
  ◌>>=◌, ◌>>◌,
}

-- ConfigurationError is a ValueError.
abbrev pub misconfigured : Exn
misconfigured = foreign value_error

-- What `read_env` finds at a path.
pub record EnvFile : Type 0 where
  pub is_symlink : Bool
  pub is_regular : Bool
  pub bytes : ℕ
  pub lines : List String

abbrev pub Entries : Type 0
Entries = List (String × String)

-- env.get(key)
unfoldable pub lookup_entry : String → Entries → Option String
lookup_entry k [] = none
lookup_entry k ((j, v) ∷ rest) =
    let other = lookup_entry k rest in if str_eq j k then some v else other

-- env.get(key, default)
abbrev pub entry_or : String → String → Entries → String
entry_or default k env = or_else (lookup_entry k env) default

-- line.partition("="): the key and the value, `none` without a separator
unfoldable pub partition : String → Option (String × String)
partition String.[] = none
partition (String.◌∷◌ c s) =
    let rest = partition s in
    if code c == b'='
    then some ("", s)
    else elim rest [ none ↦ none | some p ↦ some (String.◌∷◌ c p.0, p.1) ]

-- IPv4Address: its tests, and the networks 10.0.0.0/8, 172.16.0.0/12 and 192.168.0.0/16
abbrev pub is_private : ℕ → Bool
is_private value =
    value / 2 ^ 24 == 10 || value / 2 ^ 20 == 172 * 16 + 1 || value / 2 ^ 16 == 192 * 256 + 168

pub data ChildName : Type 0 where
  alexa_child cast_child : ChildName

-- A child, less its command line.
pub record Child : Type 0 where
  pub name : ChildName
  pub environment : Entries
  pub host : String
  pub port : ℕ
  pub health_path : String

abbrev pub common_keys : List String
common_keys = "IGW_URL" ∷ "IGW_READ_TOKEN" ∷ "CF_ACCESS_CLIENT_ID" ∷ "CF_ACCESS_CLIENT_SECRET" ∷ []

abbrev pub alexa_keys : List String
alexa_keys =
    common_keys
    ++ ("ASK_SKILL_ID" ∷ "IGW_MAX_AGE_SECONDS" ∷ "IGW_TIMEOUT_SECONDS" ∷ "ENERGY_VOICE_MODE" ∷ [])

-- BASE_ENV
abbrev pub base_env : Entries
base_env =
    ("PATH", "/usr/local/bin:/usr/bin:/bin")
    ∷ ("LANG", "C.UTF-8")
    ∷ ("PYTHONUNBUFFERED", "1")
    ∷ ("PYTHONDONTWRITEBYTECODE", "1")
    ∷ ("HOME", "/tmp")
    ∷ ("TMPDIR", "/tmp")
    ∷ []

-- config["ENERGY_VOICE_MODE"] = "personal", for a configuration that names no other mode
abbrev pub with_mode : Entries → Entries
with_mode config =
    if is_some (lookup_entry "ENERGY_VOICE_MODE" config)
    then config
    else config ++ ("ENERGY_VOICE_MODE", "personal") ∷ []

module _ (py : Python) where
  -- The body of the loop of `read_env`; `seen` holds the entries so far.
  unfoldable pub read_line : List String → Entries → String → Result Entries
  read_line allowed seen line =
      if not (nonempty (py.strip line)) || has_prefix "#" (py.strip line)
      then ok seen
      else (required (partition line) misconfigured >>= λ p.
          ensure
            (one_of allowed p.0
              && not (is_some (lookup_entry p.0 seen))
              && not (any_char (λ c. c == 0) p.1))
            misconfigured
          >>= λ _. ok (seen ++ (p.0, p.1) ∷ []))

  unfoldable pub read_lines : List String → Entries → List String → Result Entries
  read_lines allowed seen [] = ok seen
  read_lines allowed seen (line ∷ rest) =
      read_line allowed seen line >>= λ more. read_lines allowed more rest

  -- read_env
  unfoldable pub read_env : EnvFile → List String → Result Entries
  read_env file allowed = do
    ensure (not file.is_symlink && file.is_regular) misconfigured
    ensure (leb file.bytes 65536) misconfigured
    read_lines allowed [] file.lines

  -- flag
  unfoldable pub flag : Entries → String → Result Bool
  flag env key =
      let value = entry_or "true" key env in
      ensure (one_of ("true" ∷ "false" ∷ []) value) misconfigured >>= λ _. ok (str_eq value "true")

  -- integer
  unfoldable pub integer : Entries → String → (default low high : ℕ) → Result ℕ
  integer env key default low high = do
    value ← elim (lookup_entry key env) [
      | none ↦ ok default
      | some s ↦ required (py.parse_int s) misconfigured
    ]
    ensure (leb low value && leb value high) misconfigured
    ok value

  -- ipv4
  unfoldable pub ipv4 : String → (loopback : Bool) → Result String
  ipv4 value loopback = do
    address ← required (py.ip_address value) misconfigured
    ensure
        (address.version == 4
          && not address.is_unspecified
          && not address.is_multicast
          && not address.is_link_local
          && (if loopback then address.is_loopback else is_private address.value))
        misconfigured
    ok address.printed

  -- The first half of `child_specs`: the Alexa child, if it is enabled.
  unfoldable pub alexa_spec : Entries → EnvFile → Result (List Child)
  alexa_spec env file = do
    enabled ← flag env "UNIFIED_ENABLE_ALEXA"
    if enabled
        then (do
          config ← read_env file alexa_keys
          ensure (str_eq (entry_or "personal" "ENERGY_VOICE_MODE" config) "personal") misconfigured
          ensure
              (all (λ key. nonempty (entry_or "" key config))
                ("ASK_SKILL_ID" ∷ "IGW_URL" ∷ "IGW_READ_TOKEN" ∷ []))
              misconfigured
          host ← ipv4 (entry_or "127.0.0.1" "UNIFIED_ALEXA_BIND" env) true
          port ← integer env "UNIFIED_ALEXA_PORT" 8091 1024 65535
          ok (
              record {
                name = alexa_child;
                environment = base_env ++ with_mode config;
                host = host;
                port = port;
                health_path = "/health";
              }
              ∷ []))
        else ok []

-- Whether the children were ready once, and since when they have not been.
pub record Watch : Type 0 where
  pub ready_once : Bool
  pub unhealthy_since : Option ℕ

-- What one pass of the loop observes: a stop signal before or during the probes, a child that has
-- exited, the probes, and the two readings of the clock that it may make.
pub record Pass : Type 0 where
  pub stopped : Bool
  pub exited : Bool
  pub stopped_in_probes : Bool
  pub healthy : List Bool
  pub first : ℕ
  pub second : ℕ

pub data Next : Type 0 where
  watching : Watch → Next
  finished : (code : ℕ) → Next

-- The branch of a pass without readiness, after the children were ready once.
unfoldable pub unready : (failure_grace : ℕ) → Watch → Pass → Next
unready failure_grace w p =
    let since = or_else w.unhealthy_since p.first in
    if leb failure_grace (p.second - since)
    then finished 1
    else watching (record w { unhealthy_since = some since })

-- One pass of `run`'s loop.
unfoldable pub step : (deadline failure_grace : ℕ) → Watch → Pass → Next
step deadline failure_grace w p =
    if p.stopped
    then finished 0
    else if p.exited
    then finished 1
    else if p.stopped_in_probes
    then finished 0
    else if all (λ h. h) p.healthy
    then watching (record { ready_once = true; unhealthy_since = none })
    else if w.ready_once
    then unready failure_grace w p
    else if leb deadline p.first
    then finished 1
    else watching w

-- The loop over the passes of a run; `watching` where it goes on after them.
unfoldable pub watch : (deadline failure_grace : ℕ) → Watch → List Pass → Next
watch deadline failure_grace w [] = watching w
watch deadline failure_grace w (p ∷ ps) = elim (step deadline failure_grace w p) [
  | finished code ↦ finished code
  | watching next ↦ watch deadline failure_grace next ps
]
