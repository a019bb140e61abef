-- ===== src/Gateway/Resolve/Pinned.antt =====
-- Every answer of a look-up is public before the first is used, and the connection goes to a checked
-- numeric address.
use amazon_echo_home_voice.Prelude.{
  ◌≤◌, String, true, ◌≡◌, Option, none, some, List, ◌∷◌, ◌==◌, length, All, ◌⊎◌, if◌then◌else◌,
}
use amazon_echo_home_voice.Python.{Python, Address, Result, ok}
use amazon_echo_home_voice.Gateway.Address.Public.{IsPublic}
use amazon_echo_home_voice.Gateway.Resolve.{
  Family, inet, inet6, DnsRecord, Lookup, answer, is_inet, first_answer,
}

module _ (py : Python) where
  -- One answer: a TCP stream to a public address of its own family.
  pub record IsAnswer (r : DnsRecord) : Type 0 where
    pub address : Address
    pub reads : py.ip_address r.endpoint ≡ some address
    pub public : IsPublic address
    pub same_family : is_inet r.family ≡ (address.version == 4)
    pub stream : r.is_stream ≡ true
    pub tcp : r.is_tcp ≡ true

  -- What a host name may have been resolved to: a numeric host names itself; for any other, the
  -- look-up answered in time with at most 64 records, and every one of them is acceptable.
  abbrev pub IsResolved : String → Lookup → Type 0
  IsResolved hostname lookup =
      (py.ip_address hostname ≡ none)
      → (rs : List DnsRecord) × (lookup ≡ answer (some rs)) × (length rs ≤ 64) × All IsAnswer rs

  abbrev host_address : Option Address → Lookup → Result Address
  host_address numeric lookup = elim numeric [ none ↦ first_answer py lookup | some a ↦ ok a ]

  -- The address that the host stands for: it is a number itself, or the first record of its look-up
  -- reads as it.
  abbrev pub IsHostAddress : String → Lookup → Address → Type 0
  IsHostAddress hostname lookup a =
      (py.ip_address hostname ≡ some a)
      ⊎ ((r : DnsRecord) × (rs : List DnsRecord) × (lookup ≡ answer (some (r ∷ rs)))
          × (py.ip_address r.endpoint ≡ some a))

  -- The address of the host, as the library prints it, is read again as a public address, and this is
  -- the target, printed, with the family of its version.
  pub record IsTarget (hostname : String) (lookup : Lookup) (family : Family) (target : String)
      : Type 0 where
    pub host : Address
    pub named : IsHostAddress hostname lookup host
    pub address : Address
    pub reads : py.ip_address host.printed ≡ some address
    pub public : IsPublic address
    pub printed : target ≡ address.printed
    pub of_version : family ≡ (if address.version == 4 then inet else inet6)
