-- ===== src/Supervisor/Cast.antt =====
-- The second half of `child_specs` of deploy/unified/supervisor.py, the whole function, and `probe`.
use amazon_echo_home_voice.Prelude.{
  Bool, List, Option, String, [], all, false, if◌then◌else◌, keep_if, leb, length, none, not,
  one_of, some, str_eq, take, true, ℕ, ◌&&◌, ◌++◌, ◌==◌, ◌||◌, ◌∷◌,
}
use amazon_echo_home_voice.Python.{
  Json, Python, Result, Url, as_str, ensure, get, nonempty, obj, ok, required, ◌>>=◌, ◌>>◌,
}
use amazon_echo_home_voice.Gateway.Response.{Response}
use amazon_echo_home_voice.Supervisor.{
  Child, Entries, EnvFile, alexa_spec, base_env, cast_child, common_keys, entry_or, flag, integer,
  ipv4, misconfigured, read_env,
}

abbrev pub cast_keys : List String
cast_keys =
    common_keys
    ++ ("CAST_API_TOKEN" ∷ "CAST_BIND_HOST" ∷ "CAST_HOST" ∷ "CAST_UUID" ∷ "CAST_PORT"
        ∷ "CAST_MEDIA_BASE_URL" ∷ "CAST_TTS_PROVIDER" ∷ "CAST_KITTEN_CA_FILE"
        ∷ "CAST_KITTEN_ENDPOINTS" ∷ "CAST_KITTEN_TIMEOUT" ∷ "CAST_KITTEN_TOKEN" ∷ "CAST_PIPER_MODEL"
        ∷ "CAST_PIPER_TIMEOUT" ∷ "IGW_MAX_RESPONSE_AGE" ∷ "IGW_ALLOW_LOCAL_HTTP" ∷ "CAST_CPUSET"
        ∷ "CAST_PIDS_LIMIT" ∷ [])

abbrev pub required_cast_keys : List String
required_cast_keys =
    "CAST_BIND_HOST" ∷ "CAST_MEDIA_BASE_URL" ∷ "IGW_URL" ∷ "IGW_READ_TOKEN" ∷ "CAST_API_TOKEN"
    ∷ "CAST_HOST" ∷ "CAST_UUID" ∷ []

abbrev is_blank : Option String → Bool
is_blank none = true
is_blank (some s) = not (nonempty s)

abbrev is_host : String → Option String → Bool
is_host host none = false
is_host host (some s) = str_eq s host

abbrev is_port : ℕ → Option (Option ℕ) → Bool
is_port port (some (some n)) = n == port
is_port port _ = false

-- The media origin is the child's own listener; a port that cannot be read is a ValueError.
unfoldable pub is_own_origin : (host : String) → (port : ℕ) → Url → Bool
is_own_origin host port media =
    str_eq media.scheme "http"
    && is_host host media.hostname
    && is_port port media.port
    && one_of ("" ∷ "/" ∷ []) media.path
    && is_blank media.username
    && is_blank media.password
    && not (nonempty media.query)
    && not (nonempty media.fragment)

-- config[key] = value: a key keeps its place, a new one comes last
unfoldable pub set_entry : String → String → Entries → Entries
set_entry k v [] = (k, v) ∷ []
set_entry k v ((j, u) ∷ rest) =
    let others = set_entry k v rest in if str_eq j k then (j, v) ∷ rest else (j, u) ∷ others

-- config.pop(key, None)
unfoldable pub drop_entry : String → Entries → Entries
drop_entry k = keep_if (λ p. not (str_eq p.0 k))

module _ (py : Python) (is_ca_file : String → Bool) where
  -- The speech provider; `is_ca_file` says whether a path is absolute and a file.
  unfoldable pub check_speech : Entries → Result (Unit {0})
  check_speech config = do
    let provider = entry_or "espeak" "CAST_TTS_PROVIDER" config
    ensure (one_of ("espeak" ∷ "kitten" ∷ []) provider) misconfigured
    ensure (not (str_eq provider "kitten") || is_ca_file (entry_or "" "CAST_KITTEN_CA_FILE" config))
        misconfigured

  unfoldable pub cast_spec : Entries → EnvFile → Result (List Child)
  cast_spec env file = do
    enabled ← flag py env "UNIFIED_ENABLE_CAST"
    if enabled
        then (do
          config ← read_env py file cast_keys
          ensure (all (λ key. nonempty (entry_or "" key config)) required_cast_keys) misconfigured
          host ← ipv4 py (entry_or "" "CAST_BIND_HOST" config) false
          port ← integer py config "CAST_PORT" 8091 1024 65535
          media ← required (py.urlsplit (entry_or "" "CAST_MEDIA_BASE_URL" config)) misconfigured
          ensure (is_own_origin host port media) misconfigured
          check_speech config
          let kept = drop_entry "CAST_PIDS_LIMIT" (drop_entry "CAST_CPUSET" config)
          ok (
              record {
                name = cast_child;
                environment =
                    base_env
                    ++ set_entry "CAST_PORT" (py.decimal port)
                        (set_entry "CAST_BIND_HOST" host kept);
                host = host;
                port = port;
                health_path = "/healthz";
              }
              ∷ []))
        else ok []

  -- child_specs
  unfoldable pub child_specs : Entries → (alexa_file cast_file : EnvFile) → Result (List Child)
  child_specs env alexa_file cast_file = do
    alexa ← alexa_spec py env alexa_file
    cast ← cast_spec env cast_file
    ensure (nonempty_list (alexa ++ cast)) misconfigured
    ok (alexa ++ cast)
    where
      nonempty_list : List Child → Bool
      nonempty_list [] = false
      nonempty_list (c ∷ cs) = true

module _ (py : Python) where
  abbrev is_ok : Json → Bool
  is_ok (obj fs) = elim (as_str (get "status" fs)) [ none ↦ false | some s ↦ str_eq s "ok" ]
  is_ok _ = false

  -- probe, of the response; every exception that it catches is false
  unfoldable pub probe_response : Response → Bool
  probe_response res =
      let body = take 4097 res.body in
      res.status == 200 && leb (length body) 4096 && elim (py.decode body) [
        | none ↦ false
        | some text ↦ elim (py.loads text) [ none ↦ false | some v ↦ is_ok v ]
      ]
