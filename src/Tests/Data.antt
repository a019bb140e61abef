-- ===== src/Tests/Data.antt =====
-- The concrete library functions, payloads and states that the runs use.
use amazon_echo_home_voice.Prelude.{
  Option, String, [], false, if◌then◌else◌, ltb, none, pos, some, str_eq, true, ◌*◌, ◌==◌, ◌^◌, ◌∷◌,
}
use amazon_echo_home_voice.Python.{
  Address, Fields, Float, Json, Python, Url, bool, end, field, finite, int, num, obj, str,
}
use amazon_echo_home_voice.World.{Exchange, World, responded, http_failure}
use amazon_echo_home_voice.Gateway.Config.{GatewayConfig}
use amazon_echo_home_voice.Gateway.Resolve.{Lookup, answer, inet}
use amazon_echo_home_voice.Gateway.Response.{Response}
use amazon_echo_home_voice.Store.Tables.{no_rows}

abbrev pub public_ip : Address
public_ip = record {
  version = 4;
  value = 1572395042;
  printed = "93.184.216.34";
  is_global = true;
  is_multicast = false;
  is_reserved = false;
  is_loopback = false;
  is_link_local = false;
  is_unspecified = false;
  ipv4_mapped = false;
}

abbrev pub energy_url : Url
energy_url = record {
  scheme = "https";
  netloc = "gw.example";
  hostname = some "gw.example";
  username = none;
  password = none;
  path = "/v1/energy";
  query = "";
  fragment = "";
  port = some none;
}

-- 1000 seconds after the epoch
abbrev pub noon : Float
noon = finite (pos (1000 * 2 ^ 1074))

abbrev pub report : String → Fields
report text = field "status" (str "fresh") (field "text" (str text) end)

abbrev pub metric : Fields
metric = field "status" (str "fresh") (
    field "value" (num (int (pos 80)))
      (field "unit" (str "%") (field "age_seconds" (num (int (pos 5))) end)))

abbrev pub metrics : Fields
metrics =
    field "battery_soc" (obj metric)
      (field "solar_power" (obj metric) (field "solar_today" (obj metric) end))

abbrev pub reports : Fields
reports = field "battery" (obj (report "Battery at 80 percent.")) (
    field "solar" (obj (report "Solar 1 kW.")) (
      field "solar_today" (obj (report "2 kWh.")) (
        field "alarms" (obj (report "No alarms."))
          (field "status" (obj (field "brief_text" (str "") (report "All is well."))) end))))

abbrev pub payload : Fields
payload = field "schema_version" (num (int (pos 1))) (
    field "mqtt_connected" (bool true) (
      field "generated_at" (num (int (pos 1000)))
        (field "metrics" (obj metrics) (field "reports" (obj reports) end))))

-- The payload without the status's brief text, which is empty.
abbrev pub cleaned : Fields
cleaned = field "schema_version" (num (int (pos 1))) (
    field "mqtt_connected" (bool true) (
      field "generated_at" (num (int (pos 1000))) (
        field "metrics" (obj metrics) (
          field "reports"
            (obj (
              field "battery" (obj (report "Battery at 80 percent.")) (
                field "solar" (obj (report "Solar 1 kW.")) (
                  field "solar_today" (obj (report "2 kWh.")) (
                    field "alarms" (obj (report "No alarms."))
                      (field "status" (obj (report "All is well.")) end))))))
            end))))

abbrev pub skill : String
skill = "amzn1.ask.skill.abc-1"

abbrev pub application : Json
application = obj (field "application" (obj (field "applicationId" (str skill) end)) end)

abbrev pub launch : Fields
launch =
    field "type" (str "LaunchRequest")
      (field "locale" (str "en-US") (field "timestamp" (str "1970-01-01T00:16:40Z") end))

abbrev pub event : Json
event = obj (
    field "version" (str "1.0") (
      field "session" application (
        field "context" (obj (field "System" application end)) (field "request" (obj launch) end))))

abbrev pub py : Python
py = record {
  is_space = λ c. c == 32;
  is_control = λ c. ltb c 32;
  strip = λ s. s;
  lower = λ s. s;
  decode = λ bytes. some "payload";
  loads = λ s. if str_eq s "payload" then some (obj payload) else none;
  too_deep = λ s. false;
  has_constant = λ s. false;
  challenge = λ s. s;
  decimal = λ n. "1";
  thousandth = λ n. n;
  two_decimals = λ n. "80.00";
  four_digits = λ n. "80";
  escape = λ s. s;
  dumps_size = λ v. 100;
  urlsplit = λ s. some energy_url;
  ip_address = λ s. if str_eq s "93.184.216.34" then some public_ip else none;
  parse_float = λ s. some (finite (pos (30 * 2 ^ 1074)));
  parse_seconds = λ s. some 3_000_000;
  isfinite = λ n. some true;
  difference = λ a b. some (finite (pos 0));
  utc = λ s. s;
  fromisoformat = λ s. some (some 1_000_000);
  parse_int = λ s. some 1;
  parse_qs = λ s. some (("csrf", "alexa" ∷ []) ∷ []);
  load_cookies = λ s. some [];
}

abbrev pub config : GatewayConfig
config = record {
  url = "https://gw.example/v1/energy";
  read_token = "token";
  cf_client_id = "";
  cf_client_secret = "";
  timeout_seconds = 3_000_000;
  max_age_seconds = int (pos 30);
  public_only = true;
}

abbrev pub home : GatewayConfig
home = record config { public_only = false }

abbrev pub records : Lookup
records = answer (
    some
      (record { family = inet; is_stream = true; is_tcp = true; endpoint = "93.184.216.34" } ∷ []))

abbrev pub success : Response
success = record { status = 200; content_type = some "application/json"; body = 123 ∷ 125 ∷ [] }

-- A response that comes after 0.2 seconds.
abbrev pub exchange : Exchange
exchange = record { slot = true; lookup = records; took = 200_000; reply = responded success }

abbrev pub unavailable : Exchange
unavailable = record exchange { reply = http_failure (record success { status = 503 }) }

abbrev pub environ : String → Option String
environ name =
    if str_eq name "ASK_SKILL_ID"
    then some skill
    else if str_eq name "IGW_URL"
    then some "https://gw.example/v1/energy"
    else if str_eq name "IGW_READ_TOKEN"
    then some "token"
    else if str_eq name "IGW_MAX_AGE_SECONDS"
    then some "30"
    else none

abbrev pub world : World
world = record {
  now = 7;
  delays = 10 ∷ 10 ∷ [];
  wall = λ t. noon;
  environ = environ;
  gateway = exchange ∷ [];
  sent = [];
  provider = [];
  posted = [];
  storage_up = true;
  tables = no_rows;
  random = [];
  log = [];
}
