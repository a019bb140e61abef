-- ===== src/Gateway/Config/Safe.antt =====
-- What every accepted gateway configuration satisfies.
use amazon_echo_home_voice.Prelude.{
  ℕ, pos, ◌≤◌, String, Bool, true, false, ◌&&◌, ◌||◌, bool_eq, ◌≡◌, ◌⊎◌, refl, ap, ==_iff, Option,
  none, some, List, [], ◌∷◌, ltb, leb, leb→le, eq_iff, &&-left, &&-right, any, All, arith,
  Option-cases, inl, inr, if◌then◌else◌,
}
use amazon_echo_home_voice.Python.{
  Python, Url, int, num_le, Result, ok, raised, codes, len, any_char, nonempty, ensure->>=-eq-ok,
  >>=-eq-ok, ok-injective, ensure-eq-ok, ◌>>=◌,
}
use amazon_echo_home_voice.Gateway.Address.{public_hostname}
use amazon_echo_home_voice.Gateway.Config.{
  GatewayConfig, min_timeout, max_timeout, header_value, empty_text, default_port, url_parts,
  valid_url, post_init,
}

-- A value that can stand in an HTTP header: visible ASCII characters only, so no line break.
pub record IsHeader (value : String) : Type 0 where
  pub short : len value ≤ 4096
  pub visible : All (λ c. (33 ≤ c) × (c ≤ 126)) (codes value)

visible_chars :
    (cs : List ℕ) → any (λ c. ltb c 33 || ltb 126 c) cs ≡ false → All (λ c. (33 ≤ c) × (c ≤ 126)) cs
visible_chars [] h = tt
visible_chars (c ∷ cs) h = ((ground arith, ground arith), visible_chars cs (ground arith))

header_value-IsHeader :
    (value name : String) (is_required : Bool)
    → header_value value name is_required ≡ ok tt
    → IsHeader value
unfolding header_value
header_value-IsHeader value name is_required h =
    let e = ensure-eq-ok _ _ h in
    record { short = ground arith; visible = visible_chars (codes value) (ground arith) }

header_value-nonempty :
    (value name : String) → header_value value name true ≡ ok tt → nonempty value ≡ true
unfolding header_value
header_value-nonempty value name h = let e = ensure-eq-ok _ _ h in ground arith

module _ (py : Python) where
  no_space_chars :
      (cs : List ℕ) → any (λ c. py.is_space c || ltb c 32) cs ≡ false → any py.is_space cs ≡ false
  no_space_chars [] h = refl
  no_space_chars (c ∷ cs) h = ground (arith, no_space_chars cs)

  pub record IsEnergyUrl (url : String) : Type 0 where
    pub parsed : Url
    pub reads : py.urlsplit url ≡ some parsed
    pub https : parsed.scheme ≡ "https"
    pub host : empty_text parsed.hostname ≡ false
    pub no_user : parsed.username ≡ none
    pub no_password : parsed.password ≡ none
    pub path : parsed.path ≡ "/v1/energy"
    pub no_query : nonempty parsed.query ≡ false
    pub no_fragment : nonempty parsed.fragment ≡ false
    pub port : (parsed.port ≡ some none) ⊎ (parsed.port ≡ some (some 443))
    pub no_space : any_char py.is_space url ≡ false

  default_port-cases :
      (o : Option (Option ℕ)) → default_port o ≡ true → (o ≡ some none) ⊎ (o ≡ some (some 443))
  default_port-cases none h = cc
  default_port-cases (some none) h = inl refl
  default_port-cases (some (some n)) h = inr (ap (λ m. some (some m)) ((==_iff n 443).0 h))

  url_parts-IsEnergyUrl :
      (url : String) (parsed : Url)
      → py.urlsplit url ≡ some parsed
      → url_parts py url parsed ≡ true
      → IsEnergyUrl url
  unfolding url_parts
  url_parts-IsEnergyUrl url parsed e h = record {
    parsed = parsed;
    reads = e;
    https = ground (arith, eq_iff parsed.scheme "https");
    host = ground arith;
    no_user = ground arith;
    no_password = ground arith;
    path = ground (arith, eq_iff parsed.path "/v1/energy");
    no_query = ground arith;
    no_fragment = ground arith;
    port = default_port-cases parsed.port (ground arith);
    no_space = no_space_chars (codes url) (ground arith);
  }

  valid_url-IsEnergyUrl : (url : String) → valid_url py url ≡ true → IsEnergyUrl url
  unfolding valid_url
  valid_url-IsEnergyUrl url h = elim (Option-cases (py.urlsplit url)) [
    | inl e ↦ absurd (ground arith)
    | inr (parsed, e) ↦ url_parts-IsEnergyUrl url parsed e (ground arith)
  ]

  pub record IsUsable (c : GatewayConfig) : Type 0 where
    pub energy_url : IsEnergyUrl c.url
    pub token : IsHeader c.read_token
    pub has_token : nonempty c.read_token ≡ true
    pub client_id : IsHeader c.cf_client_id
    pub client_secret : IsHeader c.cf_client_secret
    pub paired : nonempty c.cf_client_id ≡ nonempty c.cf_client_secret
    pub not_short : min_timeout ≤ c.timeout_seconds
    pub not_long : c.timeout_seconds ≤ max_timeout
    pub age_from : num_le (int (pos 1)) c.max_age_seconds ≡ true
    pub age_to : num_le c.max_age_seconds (int (pos 60)) ≡ true
    pub public_host : c.public_only ≡ true → (h : String) × (public_hostname py c.url ≡ ok h)

  bool_eq-eq : (a b : Bool) → bool_eq a b ≡ true → a ≡ b
  bool_eq-eq a b h = ground arith

  -- The last test of `__post_init__`.
  public_step :
      (b : Bool) (m : Result String) (c d : GatewayConfig)
      → (if b then (m >>= λ _. ok c) else ok c) ≡ ok d
      → (c ≡ d) × (b ≡ true → (h : String) × (m ≡ ok h))
  public_step true (ok host) c d h = (ok-injective h, λ _. (host, refl))
  public_step true (raised e) c d h = cc
  public_step false m c d h = (ok-injective h, λ t. cc)

  -- A configuration that `__post_init__` accepts is unchanged, and its URL, header values,
  -- credentials, timeout and age limit are all in range; one for public use only has a public host.
  pub post_init-IsUsable : (c d : GatewayConfig) → post_init py c ≡ ok d → (c ≡ d) × IsUsable c
  unfolding post_init
  post_init-IsUsable c d h =
      let (url, h₁) = ensure->>=-eq-ok (valid_url py c.url) _ _ h in
      let (_, token, h₂) = >>=-eq-ok (header_value c.read_token "IGW_READ_TOKEN" true) _ h₁ in
      let (_, id, h₃) = >>=-eq-ok (header_value c.cf_client_id "CF_ACCESS_CLIENT_ID" false) _ h₂ in
      let (_, secret, h₄) =
        >>=-eq-ok (header_value c.cf_client_secret "CF_ACCESS_CLIENT_SECRET" false) _ h₃ in
      let (paired, h₅) =
        ensure->>=-eq-ok (bool_eq (nonempty c.cf_client_id) (nonempty c.cf_client_secret)) _ _ h₄ in
      let (timeout, h₆) =
        ensure->>=-eq-ok (leb min_timeout c.timeout_seconds && leb c.timeout_seconds max_timeout) _
          _ h₅ in
      let (age, h₇) =
        ensure->>=-eq-ok
          (num_le (int (pos 1)) c.max_age_seconds && num_le c.max_age_seconds (int (pos 60))) _ _
          h₆ in
      let (same, host) = public_step c.public_only (public_hostname py c.url) c d h₇ in
      (
        same,
        record {
          energy_url = valid_url-IsEnergyUrl c.url url;
          token = header_value-IsHeader c.read_token _ true token;
          has_token = header_value-nonempty c.read_token _ token;
          client_id = header_value-IsHeader c.cf_client_id _ false id;
          client_secret = header_value-IsHeader c.cf_client_secret _ false secret;
          paired = bool_eq-eq _ _ paired;
          not_short = leb→le _ _ (&&-left _ _ timeout);
          not_long = leb→le _ _ (&&-right _ _ timeout);
          age_from = &&-left _ _ age;
          age_to = &&-right _ _ age;
          public_host = host;
        },
      )
