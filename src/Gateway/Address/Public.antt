-- ===== src/Gateway/Address/Public.antt =====
-- What the address and host name checks of gateway.py guarantee.
use amazon_echo_home_voice.Prelude.{
  ◌≤◌, String, true, false, not, ◌≡◌, refl, sym, subst, ◌⊎◌, inl, inr, Option, none, some, ◌==◌,
  leb, leb→le, length, all, any, arith, or_else,
}
use amazon_echo_home_voice.Python.{
  Python, Address, Url, ok, len, any_char, split, ensure->>=-eq-ok, required->>=-eq-ok, >>=-eq-ok,
  ok-injective,
}
use amazon_echo_home_voice.Gateway.Address.{
  in_network, special_networks, ipv6_unicast, is_allowed, public_address, dns_name, ip_or_name,
  public_hostname, is_label,
}

-- An address that passes is one that the library calls global, is none of the special kinds, and
-- of IPv6 lies in 2000::/3 and maps no IPv4 address.
pub record IsPublic (a : Address) : Type 0 where
  pub global : a.is_global ≡ true
  pub unicast : a.is_multicast ≡ false
  pub unreserved : a.is_reserved ≡ false
  pub not_loopback : a.is_loopback ≡ false
  pub not_link_local : a.is_link_local ≡ false
  pub specified : a.is_unspecified ≡ false
  pub not_special : any (λ network. in_network a network) special_networks ≡ false
  pub in_2000 : a.version ≡ 6 → in_network a ipv6_unicast ≡ true
  pub not_mapped : a.version ≡ 6 → a.ipv4_mapped ≡ false

is_allowed-IsPublic : (a : Address) → is_allowed a ≡ true → IsPublic a
unfolding is_allowed
is_allowed-IsPublic a h = record {
  global = ground arith;
  unicast = ground arith;
  unreserved = ground arith;
  not_loopback = ground arith;
  not_link_local = ground arith;
  specified = ground arith;
  not_special = ground arith;
  in_2000 = λ e. ground arith;
  not_mapped = λ e. ground arith;
}

-- A dotted name of at least two labels, each of letters, digits and inner hyphens.
pub record IsDnsName (hostname : String) : Type 0 where
  pub short : len hostname ≤ 253
  pub dotted : 2 ≤ length (split b'.' hostname)
  pub labels : all is_label (split b'.' hostname) ≡ true

dns_name-IsDnsName : (s h : String) → dns_name s ≡ ok h → (s ≡ h) × IsDnsName h
unfolding dns_name
dns_name-IsDnsName s r h =
    let (a, h₁) = ensure->>=-eq-ok (leb (len s) 253) _ _ h in
    let (b, h₂) = ensure->>=-eq-ok (leb 2 (length (split b'.' s))) _ _ h₁ in
    let (c, h₃) = ensure->>=-eq-ok (all is_label (split b'.' s)) _ _ h₂ in
    subst (λ t. (s ≡ t) × IsDnsName t) (ok-injective h₃)
      (refl, record { short = leb→le _ _ a; dotted = leb→le _ _ b; labels = c })

module _ (py : Python) where
  -- An address text that passes reads as a public address.
  pub public_address-IsPublic :
      (value : String) (a : Address)
      → public_address py value ≡ ok a
      → (py.ip_address value ≡ some a) × IsPublic a
  unfolding public_address
  public_address-IsPublic value a h =
      let (no_zone, h₁) = ensure->>=-eq-ok (not (any_char (λ c. c == b'%') value)) _ _ h in
      let (address, is_address, h₂) = required->>=-eq-ok (py.ip_address value) _ _ h₁ in
      let (allowed, h₃) = ensure->>=-eq-ok (is_allowed address) _ _ h₂ in
      subst (λ b. (py.ip_address value ≡ some b) × IsPublic b) (ok-injective h₃)
        (is_address, is_allowed-IsPublic address allowed)

  -- The host of a URL, as it is accepted: where the URL's own host reads as a number, that address as
  -- the library prints it, which is read again as a public address; else the URL's own host, a dotted
  -- name.
  abbrev pub IsPublicHost : String → String → Type 0
  IsPublicHost host accepted =
      ((a : Address) × (py.ip_address host ≡ some a)
        × (accepted ≡ a.printed)
        × ((b : Address) × (py.ip_address a.printed ≡ some b) × IsPublic b))
      ⊎ ((py.ip_address host ≡ none) × (accepted ≡ host) × IsDnsName host)

  ip_or_name-IsPublicHost :
      (s r : String) (o : Option Address)
      → py.ip_address s ≡ o
      → ip_or_name py s o ≡ ok r
      → IsPublicHost s r
  unfolding ip_or_name
  ip_or_name-IsPublicHost s r none e h =
      let (same, name) = dns_name-IsDnsName s r h in
      inr (e, sym same, subst IsDnsName (sym same) name)
  ip_or_name-IsPublicHost s r (some a) e h =
      let (b, passed, h₁) = >>=-eq-ok (public_address py a.printed) _ h in
      let (reads, public) = public_address-IsPublic a.printed b passed in
      inl (a, e, sym (ok-injective h₁), (b, reads, public))

  -- What is returned for an accepted public URL, which has at most 2048 characters, stands for the URL's
  -- own host: where this reads as a number, it is that address as the library prints it, which is read
  -- again as a public address; else it is the host itself, a dotted DNS name. The host has no zone.
  pub public_hostname-IsPublicHost :
      (url hostname : String)
      → public_hostname py url ≡ ok hostname
      → (len url ≤ 2048)
        × ((parsed : Url) × (py.urlsplit url ≡ some parsed)
            × (any_char (λ c. c == b'%') (or_else parsed.hostname "") ≡ false)
            × IsPublicHost (or_else parsed.hostname "") hostname)
  unfolding public_hostname
  public_hostname-IsPublicHost url r h =
      let (parsed, is_url, h₁) = required->>=-eq-ok (py.urlsplit url) _ _ h in
      let (short, h₂) = ensure->>=-eq-ok (leb (len url) 2048) _ _ h₁ in
      let (no_zone, h₃) =
        ensure->>=-eq-ok (not (any_char (λ c. c == b'%') (or_else parsed.hostname ""))) _ _ h₂ in
      (
        leb→le _ _ short,
        (
          parsed,
          is_url,
          ground (arith, no_zone),
          ip_or_name-IsPublicHost (or_else parsed.hostname "") r _ refl h₃,
        ),
      )
