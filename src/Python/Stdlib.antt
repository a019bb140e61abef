-- ===== src/Python/Stdlib.antt =====
-- The functions of the standard library and of packages that the modelled code calls and that are
-- not in the repository. No law is assumed of them here.
use amazon_echo_home_voice.Prelude.{ℕ, String, Bool, Option, List}
use package.amazon_echo_home_voice.Python.Values.{Number, Float, Json}

-- urllib.parse.urlsplit and its properties; `port` is `none` where it raises `ValueError`.
pub record Url : Type 0 where
  pub scheme : String
  pub netloc : String
  pub hostname : Option String
  pub username : Option String
  pub password : Option String
  pub path : String
  pub query : String
  pub fragment : String
  pub port : Option (Option ℕ)

-- ipaddress.ip_address
pub record Address : Type 0 where
  pub version : ℕ
  pub value : ℕ
  pub printed : String
  pub is_global : Bool
  pub is_multicast : Bool
  pub is_reserved : Bool
  pub is_loopback : Bool
  pub is_link_local : Bool
  pub is_unspecified : Bool
  pub ipv4_mapped : Bool

pub record Python : Type 0 where
  -- char.isspace(), and unicodedata.category(char).startswith("C")
  pub is_space : ℕ → Bool
  pub is_control : ℕ → Bool
  pub strip : String → String
  pub lower : String → String
  -- bytes.decode("utf-8"), `none` for UnicodeError
  pub decode : List ℕ → Option String
  -- json.loads with the pairs of every object kept, `none` for ValueError or RecursionError
  pub loads : String → Option Json
  -- whether json.loads raises RecursionError, where that is not caught with ValueError
  pub too_deep : String → Bool
  -- whether a JSON text has one of the constants NaN, Infinity and -Infinity
  pub has_constant : String → Bool
  -- the PKCE challenge: base64.urlsafe_b64encode(hashlib.sha256(verifier).digest()).rstrip(b"=")
  pub challenge : String → String
  -- str(n), value / 1000, format(value, ",.2f") and format(value, ".4g")
  pub decimal : ℕ → String
  pub thousandth : Number → Number
  pub two_decimals : Number → String
  pub four_digits : Number → String
  -- html.escape(value, quote=False).replace("$", "&#36;").replace("@", "&#64;")
  pub escape : String → String
  -- len(json.dumps(value, separators=(",", ":")).encode("utf-8"))
  pub dumps_size : Json → ℕ
  -- urlsplit(value), `none` for ValueError
  pub urlsplit : String → Option Url
  -- ipaddress.ip_address(value), `none` for ValueError
  pub ip_address : String → Option Address
  -- float(text), `none` for ValueError
  pub parse_float : String → Option Float
  -- float(text) as a duration in whole microseconds, 0 for a value that is no duration
  pub parse_seconds : String → Option ℕ
  -- math.isfinite(value), `none` for OverflowError
  pub isfinite : Number → Option Bool
  -- a - b on a float and a number, `none` for OverflowError
  pub difference : Float → Number → Option Float
  -- timestamp.replace("Z", "+00:00")
  pub utc : String → String
  -- datetime.fromisoformat(text): `none` for ValueError, `some none` without a time zone,
  -- else milliseconds since the epoch
  pub fromisoformat : String → Option (Option ℕ)
  -- int(text), `none` for ValueError; 0 for a negative number
  pub parse_int : String → Option ℕ
  -- urllib.parse.parse_qs, strict and with at most 12 fields, `none` for ValueError or UnicodeError
  pub parse_qs : String → Option (List (String × List String))
  -- the names and values of SimpleCookie.load, `none` for CookieError
  pub load_cookies : String → Option (List (String × String))
