-- ===== src/Oauth/Grant.antt =====
-- What an accepted access token proves, and that it proves it to one client only.
use amazon_echo_home_voice.Python.{
  Fields, Float, Json, Number, Python, as_number, as_str, bool, ensure->>=-eq-ok, find, float, get,
  invalid_token, num, num_lt, ok, ok-injective, raised, required->>=-eq-ok, str,
}
use amazon_echo_home_voice.Prelude.{
  Bool, Bool-cases, List, Option-cases, String, [], all, ap, arith, eq_iff, false, inl, inr, refl,
  some, subst, true, ◌&&◌, ◌++◌, ◌∙◌, ◌∷◌, ◌≡◌, ◌≢◌, ◌⊎◌,
}
use amazon_echo_home_voice.Oauth.{visible_text}
use amazon_echo_home_voice.Oauth.Identity.{
  Identity, is_text, audience, claim, clients, some_item, is_active, scope_claim, audience_claim,
  valid_claims, may_start, identity_of,
}

-- A claim is the wanted text.
is_text-str : (s : String) (v : Json) → is_text s v ≡ true → v ≡ str s
is_text-str s (str t) h = ap str ((eq_iff t s).0 h)
is_text-str s _ h = cc

is_active-bool : (v : Json) → is_active v ≡ true → v ≡ bool true
is_active-bool (bool b) h = ap bool h
is_active-bool _ h = cc

-- A client claim that is present names the client.
client_claim :
    (client key : String) (payload : Fields)
    → all (is_text client) (claim (find key payload)) ≡ true
    → (v : Json) → find key payload ≡ some v
    → v ≡ str client
client_claim client key payload h v e = is_text-str client v (ground (arith, e))

module _ (py : Python) where
  -- The claims of an active token of this provider, for this client and scope, at the time `now`.
  pub record IsGrant (issuer client scope : String) (now : Float) (payload : Fields) (id : Identity)
      : Type 0 where
    pub active : get "active" payload ≡ bool true
    pub issued : get "iss" payload ≡ str issuer
    pub for_client : audience_claim client (audience (get "aud" payload)) ≡ true
    pub client_id : (v : Json) → find "client_id" payload ≡ some v → v ≡ str client
    pub azp : (v : Json) → find "azp" payload ≡ some v → v ≡ str client
    pub named : some_item (clients payload) ≡ true
    pub subject : get "sub" payload ≡ str id.subject
    pub visible : visible_text 255 id.subject ≡ true
    pub same_issuer : id.issuer ≡ issuer
    pub expiry : get "exp" payload ≡ num id.expires_at
    pub alive : num_lt (float now) id.expires_at ≡ true
    pub in_scope : scope_claim scope (get "scope" payload) ≡ true

  as_str-str : (v : Json) {s : String} → as_str v ≡ some s → v ≡ str s
  as_str-str (str t) h = ground arith
  as_str-str _ h = cc

  as_number-num : (v : Json) {n : Number} → as_number v ≡ some n → v ≡ num n
  as_number-num (num m) h = ground arith
  as_number-num _ h = cc

  all-append : (p : Json → Bool) (xs ys : List Json) → all p (xs ++ ys) ≡ (all p xs && all p ys)
  all-append p [] ys = refl
  all-append p (x ∷ xs) ys = ground (arith, all-append p xs ys)

  granted :
      (issuer client scope : String) (now : Float) (payload : Fields) {subject : String}
      {expires : Number}
      → valid_claims py issuer client scope now payload ≡ true
      → get "sub" payload ≡ str subject
      → get "exp" payload ≡ num expires
      → IsGrant issuer client scope now payload
          (record { subject = subject; issuer = issuer; expires_at = expires })
  unfolding valid_claims
  granted issuer client scope now payload h s e = record {
    active = is_active-bool (get "active" payload) (ground arith);
    issued = is_text-str issuer (get "iss" payload) (ground arith);
    for_client = ground arith;
    client_id = client_claim client "client_id" payload (
        ground (
          arith,
          all-append (is_text client) (claim (find "client_id" payload))
              (claim (find "azp" payload)),
        ));
    azp = client_claim client "azp" payload (
        ground (
          arith,
          all-append (is_text client) (claim (find "client_id" payload))
              (claim (find "azp" payload)),
        ));
    named = ground arith;
    subject = s;
    visible = ground (arith, s);
    same_issuer = refl;
    expiry = e;
    alive = ground (arith, e);
    in_scope = ground arith;
  }

  -- An identity is returned only for an active token that the provider itself issued, for this
  -- client in its audience and in every client claim, with the scope, a visible subject and an
  -- expiry ahead of the clock; the identity is that subject's.
  pub identity_of-IsGrant :
      (issuer client scope : String) (now later : Float) (payload : Fields) (id : Identity)
      → identity_of py issuer client scope now later payload ≡ ok id
      → IsGrant issuer client scope now payload id
  unfolding identity_of
  identity_of-IsGrant issuer client scope now later payload id h =
      let (valid, h₁) = ensure->>=-eq-ok (valid_claims py issuer client scope now payload) _ _ h in
      let (start, h₂) = ensure->>=-eq-ok (may_start py later (find "nbf" payload)) _ _ h₁ in
      let (subject, is_subject, h₃) = required->>=-eq-ok (as_str (get "sub" payload)) _ _ h₂ in
      let (expires, is_expires, h₄) = required->>=-eq-ok (as_number (get "exp" payload)) _ _ h₃ in
      subst (IsGrant issuer client scope now payload) (ok-injective h₄) (
        granted issuer client scope now payload valid (as_str-str _ is_subject)
          (as_number-num _ is_expires))

  -- A client claim is there, and names the client.
  named_client :
      (client : String) (payload : Fields)
      → some_item (clients payload) ≡ true
      → ((v : Json) → find "client_id" payload ≡ some v → v ≡ str client)
      → ((v : Json) → find "azp" payload ≡ some v → v ≡ str client)
      → (find "client_id" payload ≡ some (str client)) ⊎ (find "azp" payload ≡ some (str client))
  named_client client payload n f g = elim (Option-cases (find "client_id" payload)) [
    | inr (v, e) ↦ inl (e ∙ ap some (f v e))
    | inl e ↦ elim (Option-cases (find "azp" payload)) [
      | inr (v, d) ↦ inr (d ∙ ap some (g v d))
      | inl d ↦ absurd (ground arith)
    ]
  ]

  other_claims :
      (issuer other scope : String) (now : Float) (payload : Fields)
      → valid_claims py issuer other scope now payload ≡ true
      → all (is_text other) (clients payload) ≡ true
  unfolding valid_claims
  other_claims issuer other scope now payload h = ground arith

  clash :
      (client other : String) (payload : Fields)
      → other ≢ client
      → all (is_text other) (clients payload) ≡ true
      → (find "client_id" payload ≡ some (str client)) ⊎ (find "azp" payload ≡ some (str client))
      → ⊥
  clash client other payload ne h c =
      let k =
        all-append (is_text other) (claim (find "client_id" payload))
          (claim (find "azp" payload)) in
      elim c [
        | inl e ↦ ne (same (client_claim other "client_id" payload (ground arith) (str client) e))
        | inr e ↦ ne (same (client_claim other "azp" payload (ground arith) (str client) e))
      ]
    where
      same : str client ≡ str other → other ≡ client
      same e = cc

  -- A token that is accepted for one client is refused for every other client, whatever scope is
  -- asked for: the portal's tokens cannot authorize Alexa requests, nor the other way round.
  pub identity_of-one_client :
      (issuer client other scope scope' : String) (now later now' later' : Float) (payload : Fields)
      (id : Identity)
      → identity_of py issuer client scope now later payload ≡ ok id
      → other ≢ client
      → identity_of py issuer other scope' now' later' payload ≡ raised invalid_token
  identity_of-one_client issuer client other scope scope' now later now' later' payload id h ne =
      let a = identity_of-IsGrant issuer client scope now later payload id h in
      refused (Bool-cases (valid_claims py issuer other scope' now' payload))
        (named_client client payload a.named a.client_id a.azp)
    where
      refused :
          (valid_claims py issuer other scope' now' payload ≡ true)
            ⊎ (valid_claims py issuer other scope' now' payload ≡ false)
          → (find "client_id" payload ≡ some (str client))
            ⊎ (find "azp" payload ≡ some (str client))
          → identity_of py issuer other scope' now' later' payload ≡ raised invalid_token
      refused (inr e) c = unfold identity_of in rw e
      refused (inl e) c =
          absurd (clash client other payload ne (other_claims issuer other scope' now' payload e) c)
