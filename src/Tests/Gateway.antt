-- ===== src/Tests/Gateway.antt =====
-- Runs of the payload's checks, the configuration and the fetch.
use amazon_echo_home_voice.Prelude.{
  [], false, or_else, pos, refl, some, true, ◌+◌, ◌<◌, ◌==◌, ◌↔◌, ◌∷◌, ◌≡◌, ◌≤◌,
}
use amazon_echo_home_voice.Gateway.Transport.{
  Receive, Socket, change_at, close_reader, close_socket, count_bytes, is_open_at, makefile,
  new_socket, read_arrived, readinto, release_reader,
}
use amazon_echo_home_voice.Gateway.Transport.Closes.{
  IsCounted, Reach, Reach-IsCounted, closed, made, next, read, reader_closed, start,
}
use amazon_echo_home_voice.Gateway.Slots.{idle, request, result, run, timed_out, worker_exits}
use amazon_echo_home_voice.Gateway.Slots.Balanced.{IsBalanced, run-IsBalanced}
use amazon_echo_home_voice.Python.{
  Url, any_char, assign, find, int, num_le, num_lt, obj, ok, permission_error, without,
}
use amazon_echo_home_voice.World.{monotonic, next_exchange, send, wall_clock}
use amazon_echo_home_voice.Tests.Data.{
  cleaned, config, exchange, home, noon, payload, py, unavailable, world,
}
use amazon_echo_home_voice.Gateway.Payload.{
  check_report, check_reports, drop_invalid_brief, in_window, valid_chars, validate_payload,
}
use amazon_echo_home_voice.Gateway.Payload.Accepted.{IsPayload}
use amazon_echo_home_voice.Gateway.Payload.Kept.{
  IsPayload-validate_payload, validate_payload-IsPayload,
}
use amazon_echo_home_voice.Gateway.Address.{
  dns_name, in_network, ip_or_name, is_allowed, is_label, public_address, public_hostname,
}
use amazon_echo_home_voice.Gateway.Address.Public.{IsPublicHost, public_hostname-IsPublicHost}
use amazon_echo_home_voice.Gateway.Config.{header_value, post_init, url_parts, valid_url}
use amazon_echo_home_voice.Gateway.Config.Safe.{IsUsable, post_init-IsUsable}
use amazon_echo_home_voice.Gateway.Resolve.{
  check_record, check_records, first_answer, resolve_public,
}
use amazon_echo_home_voice.Gateway.Response.{classify, parse_body, response_body}
use amazon_echo_home_voice.UniqueKeys.{collect, unique_object, with_hook}
use amazon_echo_home_voice.UniqueKeys.Laws.{
  Distinct, NoRepeat, unique_object_iff, with_hook-Distinct,
}
use amazon_echo_home_voice.Fetch.{
  attempt, fetch_energy, fetch_once, personal_body, personal_reply, public_body, public_reply,
  remaining, rethrow, retry,
}
use amazon_echo_home_voice.Fetch.Retry.{fetch_energy-one_request, fetch_energy-requests}
use amazon_echo_home_voice.World.Growth.{requests}
use amazon_echo_home_voice.Fetch.Current.{IsCurrent}
use amazon_echo_home_voice.Fetch.Deadline.{fetch_energy-returns, reading}

-- What the runs below compute.
unfoldable pub payload_run : Unit {0}
unfolding validate_payload check_reports check_report drop_invalid_brief in_window valid_chars find
    without assign num_lt num_le
payload_run = tt

unfoldable pub config_run : Unit {0}
unfolding post_init valid_url url_parts header_value public_hostname ip_or_name dns_name is_label
    public_address is_allowed in_network num_lt num_le
config_run = tt

unfoldable pub fetch_run : Unit {0}
unfolding payload_run config_run fetch_energy retry fetch_once attempt personal_body personal_reply
    public_body public_reply remaining rethrow classify response_body parse_body with_hook collect
    unique_object monotonic next_exchange send wall_clock resolve_public first_answer check_records
    check_record
fetch_run = tt

validate_payload-IsPayload_example : IsPayload py noon (int (pos 30)) cleaned
unfolding payload_run
validate_payload-IsPayload_example =
    validate_payload-IsPayload py noon (int (pos 30)) (obj payload) cleaned refl

IsPayload-validate_payload_example :
    validate_payload py (obj cleaned) noon (int (pos 30)) ≡ ok cleaned
IsPayload-validate_payload_example =
    IsPayload-validate_payload py noon (int (pos 30)) cleaned validate_payload-IsPayload_example

public_hostname-IsPublicHost_example :
    (28 ≤ 2048)
    × ((parsed : Url) × (py.urlsplit "https://gw.example/v1/energy" ≡ some parsed)
        × (any_char (λ c. c == b'%') (or_else parsed.hostname "") ≡ false)
        × IsPublicHost py (or_else parsed.hostname "") "gw.example")
unfolding config_run
public_hostname-IsPublicHost_example =
    public_hostname-IsPublicHost py "https://gw.example/v1/energy" "gw.example" refl

post_init-IsUsable_example : (config ≡ config) × IsUsable py config
unfolding config_run
post_init-IsUsable_example = post_init-IsUsable py config config refl

unique_object_iff_example :
    (unique_object permission_error cleaned ≡ ok cleaned) ↔ ((cleaned ≡ cleaned) × NoRepeat cleaned)
unique_object_iff_example = unique_object_iff permission_error cleaned cleaned

with_hook-Distinct_example : (obj cleaned ≡ obj cleaned) × Distinct (obj cleaned)
unfolding fetch_run
with_hook-Distinct_example = with_hook-Distinct permission_error (obj cleaned) (obj cleaned) refl

fetch_energy-returns_example :
    ((fetch_energy py config world).1.now < reading world + 3_000_000)
    × IsCurrent py config world (fetch_energy py config world).1 cleaned
unfolding fetch_run
fetch_energy-returns_example = fetch_energy-returns py config world cleaned refl

-- The first request fails with the status 503, and the second succeeds.
fetch_energy-requests_example :
    requests (fetch_energy py home (record world { gateway = unavailable ∷ exchange ∷ [] })).1 ≤ 2
fetch_energy-requests_example =
    fetch_energy-requests py home (record world { gateway = unavailable ∷ exchange ∷ [] })

fetch_energy-one_request_example : requests (fetch_energy py home world).1 ≤ 1
unfolding fetch_run
fetch_energy-one_request_example = fetch_energy-one_request py home world refl

-- A reader is made, the connection is closed, and the reader reads and closes.
abbrev read_one : Receive
read_one = record { now = 5; capacity = 8192; arrived = ok 100 }

abbrev with_reader : Socket
with_reader = record new_socket { readers = 1; made = record { received = 0; closed = false } ∷ [] }

abbrev ended_socket : Socket
ended_socket = record {
  live = false;
  readers = 0;
  closing = true;
  made = record { received = 100; closed = true } ∷ [];
}

used : Reach 10 ended_socket
unfolding makefile close_socket close_reader release_reader is_open_at change_at readinto
    read_arrived count_bytes
used =
    next
      (next (next (next start (made "rb" new_socket with_reader refl refl)) (closed with_reader))
        (read 0 read_one (close_socket with_reader)))
      (reader_closed 0 (record (close_socket with_reader) {
        made = record { received = 100; closed = false } ∷ [];
      }))

Reach-IsCounted_example : IsCounted ended_socket
Reach-IsCounted_example = Reach-IsCounted 10 used

-- A caller gives up, its worker ends, and a thread does not start.
run-IsBalanced_example :
    IsBalanced
      (run (request true ∷ timed_out 0 ∷ result 0 ∷ worker_exits 0 ∷ request false ∷ []) idle)
run-IsBalanced_example =
    run-IsBalanced (request true ∷ timed_out 0 ∷ result 0 ∷ worker_exits 0 ∷ request false ∷ [])
