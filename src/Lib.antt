-- ===== src/Lib.antt =====
-- Amazon Echo home voice: verification of the energy skill.
--
-- The program answers Alexa requests about a home's energy. A signed request reaches `application`
-- of src/amazon_echo_home_voice/webhook.py, which checks the body, has the signature verified and
-- calls `lambda_handler` of lambda_handler.py (all paths below are in src/amazon_echo_home_voice/).
-- The handler checks the event, selects a report, finds the home's configuration (from the
-- environment, or for a linked household through accounts.py, the identity provider's client oauth.py
-- and the store tenant_store.py), fetches and validates the gateway's payload with gateway.py, and
-- attaches cards and screens with visuals.py. diagnostics.py logs from finite vocabularies.
--
-- Files:
--   Prelude, Prelude/*       numbers, lists, options and texts that the components share
--   Python, Python/*         JSON values, numbers, results and exceptions, and the record `Python` of
--                            library functions, which are parameters
--   Gateway/Payload          validate_payload, _valid_text, _fresh_timestamp of gateway.py
--   Gateway/Address          _public_address, _public_hostname
--   Gateway/Config           GatewayConfig: __post_init__, from_env, _header_value
--   Gateway/Resolve          _resolve_public
--   Gateway/Response         _response_body, the JSON reader, the classes of errors of _fetch_once
--   UniqueKeys               _unique_object of gateway.py and of oauth.py, and json.loads' hook
--   World, World/*           the state: clocks, environment, network, database, log; the actions over
--                            it, and rules for their proofs
--   Fetch, Fetch/*           _remaining, _public_body, _personal_body, _fetch_once, fetch_energy
--   Oauth, Oauth/*           OAuthConfig, _introspect, _request_json, _post_json and the portal's calls
--   Store, Store/*           the methods of TenantStore, over tables as lists of rows, and sequences of
--                            its transactions (Store/History)
--   Accounts                 mode, request_timeout, household_connection
--   Diagnostics              gateway_failure, report_statuses
--   Visuals, Visuals/*       supports_apl, user_event_selection, _metric, _metric_text, report_visuals,
--                            _attach, message_visuals
--   Handler, Handler/*       validate_event, _selection and lambda_handler
--   Portal, Portal/*         portal.py: _cookies, _params, _form, _authenticated, application
--   Supervisor, Supervisor/* deploy/unified/supervisor.py (from the root): read_env, flag, integer, ipv4,
--                            child_specs, the answer of probe, the loop of run, and run with main
--   Gateway/Transport        _DeadlineReader, _DeadlineSocket, _PinnedHTTPSConnection.connect
--   Gateway/Slots            the semaphores, worker threads and queues of gateway.py and oauth.py
--   Deploy/Tunnel            scripts/prepare-tunnel-route.py (from the root): the routes of a tunnel
--   Deploy/Compose           deploy/multi-household/identity_compose.py: which images may run
--   Deploy/Realm             deploy/multi-household/generate_realm.py: the realm of the provider
--   Cli                      main of cli.py
--   Webhook                  application of webhook.py
--   Tests, Tests/*           concrete runs
--
-- Conventions. Timeouts and readings of the monotonic clock are whole microseconds; the clock moves by
-- an arbitrary delay at each reading and by the time that an exchange takes. A float is exact, a whole
-- multiple of 2^-1074. Library functions (urlsplit, ip_address, json.loads, isfinite, ...) are fields of
-- the record `Python`, and no law of them is assumed. Cryptography is the record `Crypto`; where a
-- theorem needs that decryption undoes encryption, that is a hypothesis. What the environment does with
-- a request is an `Exchange`: whether a slot is free, the look-up of the host, the time taken, and the
-- outcome. Sealed dictionaries are typed (`Envelope`), a response is a typed record whose JSON length is
-- the parameter `size`, and an action returns a `Result` with the state that it leaves, also when it
-- raises. No definition runs on fuel: every loop is a recursion on a list or a text.
--
-- Not modelled: the command line of tenant_store.py, the constant screen document, the HTML of the
-- portal, the encoding of requests to the provider, tls_policy.py, _darwin_certificate.py,
-- gunicorn_config.py, the command lines that the supervisor starts, the files that the
-- operator's programs write, the other deployment files, and the release tooling under scripts/, which
-- is a toolkit shared between repositories. The parameters `opener` and `now`, which only tests pass,
-- are left out.
pub mod Prelude
pub mod Python
pub mod Gateway
pub mod UniqueKeys
pub mod Store
pub mod Diagnostics
pub mod World
pub mod Deploy
pub mod Fetch
pub mod Oauth
pub mod Accounts
pub mod Visuals
pub mod Handler
pub mod Portal
pub mod Supervisor
pub mod Cli
pub mod Webhook
pub mod Tests
