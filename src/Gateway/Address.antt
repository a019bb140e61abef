-- ===== src/Gateway/Address.antt =====
-- Public Internet addresses and host names: `_public_address` and `_public_hostname` of gateway.py.
pub mod Public
use amazon_echo_home_voice.Prelude.{
  ℕ, ◌+◌, ◌-◌, ◌*◌, ◌/◌, ◌^◌, String, Bool, true, false, not, ◌&&◌, ◌||◌, Option, none, some, List,
  [], ◌∷◌, ◌==◌, leb, length, all, any, ◌≡◌, or_else, if◌then◌else◌,
}
use amazon_echo_home_voice.Python.{
  Python, Address, Result, ok, raised, ensure, required, gateway, gateway_error, foreign,
  value_error, Exn, codes, len, any_char, split, is_digit, is_lower, ◌>>=◌, ◌>>◌, ensure->>=-eq-ok,
  required->>=-eq-ok,
}

-- ipaddress.ip_network: an address of the network and the length of its prefix
pub record Network : Type 0 where
  pub version : ℕ
  pub base : ℕ
  pub prefix : ℕ

abbrev pub width : ℕ → ℕ
width version = if version == 4 then 32 else 128

-- address in network
unfoldable pub in_network : Address → Network → Bool
in_network a n =
    a.version == n.version
    && a.value / 2 ^ (width n.version - n.prefix) == n.base / 2 ^ (width n.version - n.prefix)

-- 2000::/3
abbrev pub ipv6_unicast : Network
ipv6_unicast = record { version = 6; base = 0x2000 * 2 ^ 112; prefix = 3 }

-- 192.0.0.0/24, 192.88.99.0/24, 2001::/23, 2002::/16 and 3fff::/20
abbrev pub special_networks : List Network
special_networks =
    record { version = 4; base = 192 * 2 ^ 24; prefix = 24 }
    ∷ record { version = 4; base = 192 * 2 ^ 24 + 88 * 2 ^ 16 + 99 * 2 ^ 8; prefix = 24 }
    ∷ record { version = 6; base = 0x2001 * 2 ^ 112; prefix = 23 }
    ∷ record { version = 6; base = 0x2002 * 2 ^ 112; prefix = 16 }
    ∷ record { version = 6; base = 0x3fff * 2 ^ 112; prefix = 20 }
    ∷ []

-- The test `allowed` of `_public_address`.
unfoldable pub is_allowed : Address → Bool
is_allowed a =
    let allowed =
      a.is_global
      && not a.is_multicast
      && not a.is_reserved
      && not a.is_loopback
      && not a.is_link_local
      && not a.is_unspecified
      && not (any (λ network. in_network a network) special_networks) in
    if a.version == 6 then allowed && (in_network a ipv6_unicast && not a.ipv4_mapped) else allowed

abbrev pub not_public : Exn
not_public =
    gateway_error "Gateway must resolve only to public Internet addresses" (some value_error)

abbrev pub invalid_hostname : Exn
invalid_hostname = gateway "Invalid public gateway hostname"

-- re.fullmatch(r"[a-z0-9](?:[a-z0-9-]{0,61}[a-z0-9])?", label)
abbrev pub label_char : ℕ → Bool
label_char c = is_digit c || is_lower c

abbrev pub last_is : (ℕ → Bool) → List ℕ → Bool
last_is p [] = false
last_is p (c ∷ []) = p c
last_is p (c ∷ cs) = last_is p cs

abbrev pub first_is : (ℕ → Bool) → List ℕ → Bool
first_is p [] = false
first_is p (c ∷ cs) = p c

unfoldable pub is_label : String → Bool
is_label label =
    let cs = codes label in
    first_is label_char cs
    && last_is label_char cs
    && leb (length cs) 63
    && all (λ c. label_char c || c == b'-') cs

-- The ASCII name, behind `except ValueError`.
unfoldable pub dns_name : String → Result String
dns_name hostname = do
  let labels = split b'.' hostname
  ensure (leb (len hostname) 253) invalid_hostname
  ensure (leb 2 (length labels)) invalid_hostname
  ensure (all is_label labels) invalid_hostname
  ok hostname

module _ (py : Python) where
  -- _public_address
  unfoldable pub public_address : String → Result Address
  public_address value = do
    ensure (not (any_char (λ c. c == b'%') value)) not_public
    address ← required (py.ip_address value) not_public
    ensure (is_allowed address) not_public
    ok address

  unfoldable pub ip_or_name : String → Option Address → Result String
  ip_or_name hostname none = dns_name hostname
  ip_or_name hostname (some address) = public_address address.printed >>= λ _. ok address.printed

  -- _public_hostname
  unfoldable pub public_hostname : String → Result String
  public_hostname url = do
    parsed ← required (py.urlsplit url) (foreign value_error)
    let hostname = or_else parsed.hostname ""
    ensure (leb (len url) 2048) invalid_hostname
    ensure (not (any_char (λ c. c == b'%') hostname)) invalid_hostname
    ip_or_name hostname (py.ip_address hostname)
