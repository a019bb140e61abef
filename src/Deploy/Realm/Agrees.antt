-- ===== src/Deploy/Realm/Agrees.antt =====
-- What the generator accepts as a URL, a client or an endpoint, the application accepts too.
use Prim.Native.Char.{code}
use Prim.Native.String.{◌++◌ as append}
use Prim.Native.String.append as Append
use amazon_echo_home_voice.Prelude.{
  &&-left, &&-right, Bool, List, String, [], all, any, ap, arith, eq_iff, false, is_some, leb,
  length, length-append, ltb, not, or_else, refl, some, str_eq, subst, true, ℕ, ◌&&◌, ◌++◌, ◌+◌,
  ◌==◌, ◌||◌, ◌∙◌, ◌∷◌, ◌≡◌,
}
use amazon_echo_home_voice.Python.{
  Python, Url, any_char, between, codes, ensure->>=-eq-ok, ensure-eq-ok, is_alnum, len, ok,
  ok-injective, required->>=-eq-ok, split,
}
use amazon_echo_home_voice.Oauth.{https_parts, https_url, visible_text}
use amazon_echo_home_voice.Deploy.Realm.{
  Values, check_client, check_endpoints, is_client_id, is_secret, is_word, realm_url,
  realm_url_parts, value_or,
}

codes-append : (s t : String) → codes (append s t) ≡ codes s ++ codes t
codes-append String.[] t = rw (Append.nil t) refl
codes-append (String.◌∷◌ c s) t = rw (Append.cons c s t) (ap (λ cs. code c ∷ cs) (codes-append s t))

any-append : (p : ℕ → Bool) (xs ys : List ℕ) → any p (xs ++ ys) ≡ (any p xs || any p ys)
any-append p [] ys = refl
any-append p (x ∷ xs) ys = ground (arith, any-append p xs ys)

any_char-append :
    (p : ℕ → Bool) (s t : String)
    → any_char p s ≡ false
    → any_char p t ≡ false
    → any_char p (append s t) ≡ false
any_char-append p s t h k =
    ap (any p) (codes-append s t)
    ∙ any-append p (codes s) (codes t)
    ∙ ap (λ b. b || any p (codes t)) h
    ∙ k

len-append : (s t : String) → len (append s t) ≡ len s + len t
len-append s t = ap length (codes-append s t) ∙ length-append (codes s) (codes t)

-- A character that is not below 33 or above 126 is between them.
all-visible :
    (cs : List ℕ) → any (λ c. ltb c 33 || ltb 126 c) cs ≡ false → all (between 33 126) cs ≡ true
all-visible [] h = refl
all-visible (c ∷ cs) h = ground (arith, h, all-visible cs)

-- What `https_url` of both programs wants of the characters, but for the length.
abbrev clean : String → Bool
clean s =
    not (any_char (λ c. ltb c 33 || ltb 126 c) s)
    && not (any_char (λ c. c == 92) s)
    && not (any_char (λ c. c == b'?') s)
    && not (any_char (λ c. c == b'#') s)

pub record IsUrl (value : String) (parts : Url) : Type 0 where
  pub bounded : leb (len value) 2048 ≡ true
  pub present : leb 1 (len value) ≡ true
  pub characters : any_char (λ c. ltb c 33 || ltb 126 c) value ≡ false
  pub valid : realm_url_parts value parts ≡ true

-- What is asked of the text that follows the issuer.
abbrev pub is_suffix : String → Bool
is_suffix s = clean s && leb (len s) 48

IsUrl-append :
    (value suffix path : String) (parts : Url)
    → IsUrl value parts
    → leb (len value) 2000 ≡ true
    → is_suffix suffix ≡ true
    → visible_text 2048 (append value suffix) ≡ true
      × (any_char (λ c. c == 92) (append value suffix) ≡ false)
      × (https_parts (append value suffix) (record parts { path = path }) ≡ true)
unfolding visible_text https_parts realm_url_parts
IsUrl-append value suffix path parts u short s =
    let visible =
      any_char-append (λ c. ltb c 33 || ltb 126 c) value suffix u.characters (ground (arith, s)) in
    let slash =
      any_char-append (λ c. c == 92) value suffix (ground (arith, u.valid)) (ground (arith, s)) in
    let question =
      any_char-append (λ c. c == b'?') value suffix (ground (arith, u.valid)) (ground (arith, s)) in
    let hash =
      any_char-append (λ c. c == b'#') value suffix (ground (arith, u.valid)) (ground (arith, s)) in
    (
      ground (
        arith,
        short,
        u.present,
        len-append value suffix,
        s,
        all-visible (codes (append value suffix)) visible,
      ),
      slash,
      ground (arith, u.valid, question, hash),
    )

module _ (py : Python) where
  pub realm_url-IsUrl :
      (value : String) (parts : Url)
      → realm_url py value ≡ ok parts
      → IsUrl value parts × (py.urlsplit value ≡ some parts)
  unfolding realm_url
  realm_url-IsUrl value parts h =
      let (l, h1) = ensure->>=-eq-ok (leb 1 (len value) && leb (len value) 2048) _ _ h in
      let (c, h2) = ensure->>=-eq-ok (not (any_char (λ c. ltb c 33 || ltb 126 c) value)) _ _ h1 in
      let (found, s, h3) = required->>=-eq-ok (py.urlsplit value) _ _ h2 in
      let (v, h4) = ensure->>=-eq-ok (realm_url_parts value found) _ _ h3 in
      let same : found ≡ parts = ok-injective h4 in
      (
        record {
          bounded = &&-right (leb 1 (len value)) _ l;
          present = &&-left _ _ l;
          characters = ground (arith, c);
          valid = subst (λ x. realm_url_parts value x ≡ true) same v;
        },
        s ∙ ap some same,
      )

  https_url-of :
      (value : String) (parts : Url)
      → visible_text 2048 value ≡ true
      → any_char (λ c. c == 92) value ≡ false
      → py.urlsplit value ≡ some parts
      → https_parts value parts ≡ true
      → https_url py value ≡ true
  unfolding https_url
  https_url-of value parts v b s h = rw (v, b, s) h

  pub realm_url-https_url :
      (value : String) (parts : Url) → realm_url py value ≡ ok parts → https_url py value ≡ true
  unfolding visible_text https_parts realm_url_parts
  realm_url-https_url value parts h =
      let (u, s) = realm_url-IsUrl value parts h in
      https_url-of value parts
        (ground (arith, u.bounded, u.present, all-visible (codes value) u.characters))
        (ground (arith, u.valid)) s (ground (arith, u.valid))

  -- An endpoint behind an accepted issuer.
  pub endpoint-https_url :
      (issuer suffix path : String) (parts : Url)
      → realm_url py issuer ≡ ok parts
      → leb (len issuer) 2000 ≡ true
      → is_suffix suffix ≡ true
      → py.urlsplit (append issuer suffix) ≡ some (record parts { path = path })
      → https_url py (append issuer suffix) ≡ true
  endpoint-https_url issuer suffix path parts h short s split =
      let (v, b, p) =
        IsUrl-append issuer suffix path parts (realm_url-IsUrl issuer parts h).0 short s in
      https_url-of (append issuer suffix) (record parts { path = path }) v b split p

word-visible_text :
    (low high most : ℕ) (s : String)
    → is_word low high s ≡ true
    → leb 1 low ≡ true
    → leb high most ≡ true
    → visible_text most s ≡ true
unfolding visible_text
word-visible_text low high most s w l h = ground (arith, w, l, h, all-word (codes s))
  where
    all-word :
        (cs : List ℕ)
        → all (λ c. is_alnum c || c == b'_' || c == b'-') cs ≡ true
        → all (between 33 126) cs ≡ true
    all-word [] e = refl
    all-word (c ∷ cs) e = ground (arith, e, all-word cs)

pub check_client-visible :
    (id secret : String)
    → check_client id secret ≡ ok tt
    → (visible_text 255 id ≡ true) × (visible_text 4096 secret ≡ true)
unfolding check_client is_client_id is_secret
check_client-visible id secret h =
    let (i, k) = ensure->>=-eq-ok (is_client_id id) _ _ h in
    let s = ensure-eq-ok (is_secret secret) _ k in
    (
      word-visible_text 1 80 255 id i refl refl,
      word-visible_text 32 256 4096 secret (&&-left _ _ s) refl refl,
    )

pub check_endpoints-of :
    (values : Values) (issuer name suffix : String) (rest : List (String × String))
    → check_endpoints values issuer ((name, suffix) ∷ rest) ≡ ok tt
    → is_some (values name) ≡ true
    → (or_else (values name) "" ≡ append issuer suffix)
      × (check_endpoints values issuer rest ≡ ok tt)
unfolding check_endpoints
check_endpoints-of values issuer name suffix rest h set =
    let (e, k) =
      ensure->>=-eq-ok (str_eq (value_or name (append issuer suffix) values) (append issuer suffix))
        _ _ h in
    (ground (arith, set, (eq_iff _ _).0 e), k)
