-- ===== src/World.antt =====
-- The state that the handlers work on: the clocks, the environment, what the network will answer,
-- what was sent, the database and the log; and the actions over it. A reading of the clock may come
-- after any delay. What was done before an exception stays done.
pub mod Growth
pub mod Returns
pub mod Still
pub mod Keeps
pub mod Follows
pub mod Raises
use amazon_echo_home_voice.Prelude.{
  Bool, List, Option, String, [], if◌then◌else◌, true, ℕ, ◌++◌, ◌+◌, ◌∷◌,
}
use amazon_echo_home_voice.Python.{
  Exn, Float, Foreign, Result, ensure, float, ok, raised, store_error, whole, whole_milliseconds,
}
use amazon_echo_home_voice.Gateway.Config.{GatewayConfig}
use amazon_echo_home_voice.Gateway.Response.{Response}
use amazon_echo_home_voice.Gateway.Resolve.{Lookup, no_answer}
use amazon_echo_home_voice.Store.Tables.{Tables}
use amazon_echo_home_voice.Diagnostics.{Line}

-- How a request ends: no result in time, a response, an HTTPError with its response, more bytes than the transport reads, or an
-- exception of a library.
pub data Reply : Type 0 where
  late too_large : Reply
  responded http_failure : Response → Reply
  failed : Foreign → Reply

-- What the environment does with a request: whether a slot and a thread are free for it, the look-up
-- of the host, the time that it takes, and how it ends.
pub record Exchange : Type 0 where
  pub slot : Bool
  pub lookup : Lookup
  pub took : ℕ
  pub reply : Reply

-- A request of the identity provider: the endpoint, the client and the posted fields.
pub record Post : Type 0 where
  pub url : String
  pub client : String
  pub fields : List (String × String)

pub record World : Type 0 where
  -- time.monotonic() in microseconds, and the time that passes before each later reading
  pub now : ℕ
  pub delays : List ℕ
  -- time.time() at a reading of the monotonic clock
  pub wall : ℕ → Float
  pub environ : String → Option String
  pub gateway : List Exchange
  pub sent : List GatewayConfig
  pub provider : List Exchange
  pub posted : List Post
  pub storage_up : Bool
  pub tables : Tables
  -- secrets.token_urlsafe
  pub random : List String
  pub log : List Line

abbrev pub Exec {ℓ} : Type ℓ → Type ℓ
Exec A = World → Result A × World

module _ {ℓ} {A : Type ℓ} where
  abbrev pub pure : A → Exec A
  pure a w = (ok a, w)

  abbrev pub raise : Exn → Exec A
  raise e w = (raised e, w)

  abbrev pub lift : Result A → Exec A
  lift r w = (r, w)

  -- try: m except Exception as e: handler(e)
  abbrev pub handle : Result A → (Exn → Exec A) → Exec A
  handle (ok a) handler w = (ok a, w)
  handle (raised e) handler w = handler e w

  abbrev pub catch : Exec A → (Exn → Exec A) → Exec A
  catch m handler w = let (r, w') = m w in handle r handler w'

module _ {ℓ κ} {A : Type ℓ} {B : Type κ} where
  abbrev pub continue : Result A → (A → Exec B) → Exec B
  continue (ok a) f w = f a w
  continue (raised e) f w = (raised e, w)

  infixl 5 ◌>>=◌
  abbrev pub ◌>>=◌ : Exec A → (A → Exec B) → Exec B
  ◌>>=◌ m f w = let (r, w') = m w in continue r f w'

infixl 5 ◌>>◌
abbrev pub ◌>>◌ {ℓ κ} : {A : Type ℓ} {B : Type κ} → Exec A → Exec B → Exec B
m >> k = m >>= λ _. k

-- if not test: raise e
abbrev pub check : Bool → Exn → Exec (Unit {0})
check test e = lift (ensure test e)

-- time.monotonic()
unfoldable pub monotonic : Exec ℕ
monotonic w = elim w.delays [
  | [] ↦ (ok w.now, w)
  | d ∷ ds ↦ (ok (w.now + d), record w { now = w.now + d; delays = ds })
]

-- time.time()
unfoldable pub wall_clock : Exec Float
wall_clock w = (ok (w.wall w.now), w)

-- os.environ
unfoldable pub getenv : Exec (String → Option String)
getenv w = (ok w.environ, w)

abbrev no_exchange : Exchange
no_exchange = record { slot = true; lookup = no_answer; took = 0; reply = late }

-- The next exchange with the gateway; it takes its time.
unfoldable pub next_exchange : Exec Exchange
next_exchange w = elim w.gateway [
  | [] ↦ (ok no_exchange, w)
  | x ∷ xs ↦ (ok x, record w { gateway = xs; now = w.now + x.took })
]

-- A GET goes out with the credentials of this configuration.
unfoldable pub send : GatewayConfig → Exec (Unit {0})
send config w = (ok tt, record w { sent = w.sent ++ config ∷ [] })

-- The next exchange with the identity provider.
unfoldable pub next_provider : Exec Exchange
next_provider w = elim w.provider [
  | [] ↦ (ok no_exchange, w)
  | x ∷ xs ↦ (ok x, record w { provider = xs; now = w.now + x.took })
]

unfoldable pub post : Post → Exec (Unit {0})
post p w = (ok tt, record w { posted = w.posted ++ p ∷ [] })

-- LOGGER.warning
unfoldable pub warn : Line → Exec (Unit {0})
warn line w = (ok tt, record w { log = w.log ++ line ∷ [] })

-- int(time.time()): `e > time.time()` for a whole number e is `e > int(time.time())`
unfoldable pub seconds : Exec ℕ
seconds w = (ok (whole (float (w.wall w.now))), w)

-- datetime.now(timezone.utc), in milliseconds since the epoch
unfoldable pub milliseconds : Exec ℕ
milliseconds w = (ok (whole_milliseconds (w.wall w.now)), w)

-- secrets.token_urlsafe
unfoldable pub next_token : Exec String
next_token w = elim w.random [ [] ↦ (ok "", w) | t ∷ ts ↦ (ok t, record w { random = ts }) ]

-- `with self._db() as db` of tenant_store.py: a transaction over the tables, which changes nothing if
-- it raises, and fails as a whole where storage is not available.
unfoldable pub transaction {ℓ} : {A : Type ℓ} → (Tables → Result (A × Tables)) → Exec A
transaction body w =
    if w.storage_up
    then elim (body w.tables) [
      | ok (a, tables) ↦ (ok a, record w { tables = tables })
      | raised e ↦ (raised e, w)
    ]
    else (raised store_error, w)
