-- ===== src/Gateway/Resolve.antt =====
-- `_resolve_public` of gateway.py: one bounded look-up, every answer validated before one is used.
-- The outcome of the resolver's thread is the argument.
pub mod Pinned
use amazon_echo_home_voice.Prelude.{
  String, Bool, true, false, ◌&&◌, bool_eq, Option, none, some, List, [], ◌∷◌, ◌==◌, leb, length,
  ◌≡◌, if◌then◌else◌,
}
use amazon_echo_home_voice.Python.{
  Python, Address, Result, ok, raised, ensure, required, gateway, gateway_error, other_error, ◌>>=◌,
  ◌>>◌,
}
use amazon_echo_home_voice.Gateway.Address.{public_address}

pub data Family : Type 0 where
  inet inet6 other_family : Family

-- One record of socket.getaddrinfo.
pub record DnsRecord : Type 0 where
  pub family : Family
  pub is_stream : Bool
  pub is_tcp : Bool
  pub endpoint : String

-- How the look-up in the thread went: no slot, no thread, no answer in time, or what the thread
-- put in the queue, `none` for an exception.
pub data Lookup : Type 0 where
  no_slot no_thread no_answer : Lookup
  answer : Option (List DnsRecord) → Lookup

abbrev known_family : Family → Bool
known_family other_family = false
known_family _ = true

abbrev is_inet : Family → Bool
is_inet inet = true
is_inet _ = false

module _ (py : Python) where
  -- The body of the loop over the records.
  unfoldable pub check_record : DnsRecord → Result Address
  check_record record_ = do
    ensure (known_family record_.family) (gateway "Gateway resolution failed")
    address ← public_address py record_.endpoint
    ensure (bool_eq (is_inet record_.family) (address.version == 4))
        (gateway "Gateway resolution failed")
    ensure (record_.is_stream && record_.is_tcp) (gateway "Gateway resolution failed")
    ok address

  unfoldable pub check_records : List DnsRecord → Result (List Address)
  check_records [] = ok []
  check_records (r ∷ rs) =
      let rest = check_records rs in check_record r >>= λ a. rest >>= λ as_. ok (a ∷ as_)

  unfoldable pub first_answer : Lookup → Result Address
  first_answer no_slot = raised (gateway "Gateway resolver is busy")
  first_answer no_thread =
      raised (gateway_error "Gateway resolver is unavailable" (some other_error))
  first_answer no_answer = raised (gateway_error "Gateway request timed out" (some other_error))
  first_answer (answer none) = raised (gateway "Gateway resolution failed")
  first_answer (answer (some [])) = raised (gateway "Gateway resolution failed")
  first_answer (answer (some (r ∷ rs))) = do
    ensure (leb (length (r ∷ rs)) 64) (gateway "Gateway resolution failed")
    first ← check_record r
    rest ← check_records rs
    ok first

  -- _resolve_public: the family with the numeric address
  unfoldable pub resolve_public : String → Lookup → Result (Family × String)
  resolve_public hostname lookup = do
    address ← elim (py.ip_address hostname) [ none ↦ first_answer lookup | some a ↦ ok a ]
    checked ← public_address py address.printed
    ok (if checked.version == 4 then (inet, checked.printed) else (inet6, checked.printed))
