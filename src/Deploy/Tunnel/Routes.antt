-- ===== src/Deploy/Tunnel/Routes.antt =====
-- Which rule takes a request before and after the plan is applied. How cloudflared matches hosts and
-- paths is a parameter; it takes the first rule that matches.
use amazon_echo_home_voice.Prelude.{
  Bool, Bool-cases, List, Option, String, [], ap, arith, eq_iff, false, if◌then◌else◌, inl, inr,
  length, length-append, none, or_else, refl, some, subst, suc, true, zero, ℕ, ◌&&◌, ◌++◌, ◌∙◌, ◌∷◌,
  ◌≡◌, ◌≤◌,
}
use amazon_echo_home_voice.Python.{
  >>=-eq-ok, Fields, Json, arr, as_fields, as_items, assign, bool, end, field, find, find-assign,
  get, items, nonempty, null, num, obj, ok, ok-injective, str, without,
}
use amazon_echo_home_voice.Deploy.Tunnel.{
  Matching, is_true, all_but_last, first_match, host_pattern, insert_at, items_of, may_take,
  refusal_rule, webhook_rule, valid_hostname, last_of,
}

pub record Cloudflared : Type 0 where
  pub host_matches : (pattern host : String) → Bool
  pub path_matches : (pattern path : String) → Bool

abbrev pub rules_of : Fields → List Json
rules_of config = or_else (as_items (get "ingress" config)) []

-- A member that is no text, or the empty one, restricts nothing.
abbrev pub restricted : (String → Bool) → Json → Bool
restricted test (str pattern) = if nonempty pattern then test pattern else true
restricted test _ = true

module _ (cf : Cloudflared) where
  abbrev pub takes : (host path : String) → Json → Bool
  takes host path value =
      let rule = or_else (as_fields value) end in
      restricted (λ p. cf.host_matches p host) (get "hostname" rule)
      && restricted (λ p. cf.path_matches p path) (get "path" rule)

  -- The first rule that takes the request.
  abbrev pub route : (host path : String) → List Json → Option Json
  route host path [] = none
  route host path (value ∷ rules) =
      let rest = route host path rules in if takes host path value then some value else rest

-- list[:n] + list[n + 2:]
abbrev pub cut : ℕ → List Json → List Json
cut zero [] = []
cut zero (v ∷ []) = []
cut zero (v ∷ w ∷ rules) = rules
cut (suc n) [] = []
cut (suc n) (v ∷ rules) = v ∷ cut n rules

items-items_of : (vs : List Json) → items (items_of vs) ≡ vs
items-items_of [] = refl
items-items_of (v ∷ vs) = ap (λ xs. v ∷ xs) (items-items_of vs)

pub without-assign :
    (k : String) (v : Json) (fs : Fields) → without k (assign k v fs) ≡ without k fs
unfolding without assign
without-assign k v end = ground (arith, eq_iff k k)
without-assign k v (field j w fs) = ground (arith, without-assign k v fs)

module _ (cf : Cloudflared) (m : Matching) (hostname : String) where
  -- The rules in front of the inserted ones do not take the host name.
  passed-pattern :
      (covered : (p : String) → cf.host_matches p hostname ≡ true → m.fnmatchcase hostname p ≡ true)
      (value : Json)
      → host_pattern m hostname value ≡ ok false
      → restricted (λ p. cf.host_matches p hostname) value ≡ false
  unfolding host_pattern is_true
  passed-pattern covered (str p) h =
      ground (arith, h, covered p, Bool-cases (cf.host_matches p hostname))
  passed-pattern covered null h = ground (arith, h)
  passed-pattern covered (bool b) h = ground (arith, h)
  passed-pattern covered (num n) h = ground (arith, h)
  passed-pattern covered (arr vs) h = ground (arith, h)
  passed-pattern covered (obj fs) h = ground (arith, h)

  passed :
      (covered : (p : String) → cf.host_matches p hostname ≡ true → m.fnmatchcase hostname p ≡ true)
      (path : String) (value : Json)
      → may_take m hostname value ≡ ok false
      → takes cf hostname path value ≡ false
  unfolding may_take
  passed covered path (obj fs) h = rw (passed-pattern covered (get "hostname" fs) h) refl
  passed covered path (str s) h = cc
  passed covered path null h = cc
  passed covered path (bool b) h = cc
  passed covered path (num n) h = cc
  passed covered path (arr vs) h = cc

  -- The inserted rules come first for the host name.
  pub route-first_match :
      (covered : (p : String) → cf.host_matches p hostname ≡ true → m.fnmatchcase hostname p ≡ true)
      (path : String) (new rest rules : List Json) (n : ℕ)
      → first_match m hostname rules ≡ ok n
      → (after : List Json) × (route cf hostname path (insert_at n new (rules ++ rest))
          ≡ route cf hostname path (new ++ after))
  unfolding first_match
  route-first_match covered path new rest [] n h =
      let none_left : 0 ≡ n = ok-injective h in
      (
        rest,
        subst
            (λ k.
              route cf hostname path (insert_at k new rest) ≡ route cf hostname path (new ++ rest))
            none_left refl,
      )
  route-first_match covered path new rest (value ∷ rules) n h =
      let (taken, e, k) = >>=-eq-ok (may_take m hostname value) _ h in
      let (later, f, g) = >>=-eq-ok (first_match m hostname rules) _ k in
      elim (Bool-cases taken) [
        | inl t ↦
            let first : 0 ≡ n = ground (arith, t, g) in
            (
              value ∷ (rules ++ rest),
              subst
                  (λ k.
                    route cf hostname path (insert_at k new (value ∷ (rules ++ rest)))
                    ≡ route cf hostname path (new ++ (value ∷ (rules ++ rest))))
                  first refl,
            )
        | inr t ↦
            let next : suc later ≡ n = ground (arith, t, g) in
            let (after, same) = route-first_match covered path new rest rules later f in
            (
              after,
              subst
                  (λ k.
                    route cf hostname path (insert_at k new (value ∷ (rules ++ rest)))
                    ≡ route cf hostname path (new ++ after))
                  next (rw (passed covered path value (e ∙ ap ok t)) same),
            )
      ]

  -- Another host passes the inserted rules.
  pub route-insert_at :
      (other path service : String) (n : ℕ) (rules : List Json)
      → nonempty hostname ≡ true
      → cf.host_matches hostname other ≡ false
      → route cf other path
          (insert_at n (webhook_rule hostname service ∷ refusal_rule hostname ∷ []) rules)
        ≡ route cf other path rules
  unfolding webhook_rule refusal_rule find
  route-insert_at other path service zero rules f h = rw (f, h) refl
  route-insert_at other path service (suc n) [] f h = rw (f, h) refl
  route-insert_at other path service (suc n) (value ∷ rules) f h =
      rw (route-insert_at other path service n rules f h) refl

pub cut-insert_at :
    (a b : Json) (rules : List Json) (n : ℕ)
    → n ≤ length rules
    → cut n (insert_at n (a ∷ b ∷ []) rules) ≡ rules
cut-insert_at a b rules zero h = refl
cut-insert_at a b [] (suc n) h = absurd (omega (arith, h))
cut-insert_at a b (r ∷ rules) (suc n) h =
    ap (λ xs. r ∷ xs) (cut-insert_at a b rules n (omega (arith, h)))

pub all_but_last-append :
    (last : Json) (rules : List Json)
    → last_of rules ≡ some last
    → all_but_last rules ++ last ∷ [] ≡ rules
all_but_last-append last [] h = cc
all_but_last-append last (v ∷ []) h = cc
all_but_last-append last (v ∷ w ∷ rules) h =
    ap (λ xs. v ∷ xs) (all_but_last-append last (w ∷ rules) h)

pub first_match-le :
    (m : Matching) (hostname : String) (rules : List Json) (n : ℕ)
    → first_match m hostname rules ≡ ok n
    → n ≤ length rules
unfolding first_match
first_match-le m hostname [] n h = ground (arith, ok-injective h)
first_match-le m hostname (value ∷ rules) n h =
    let (taken, e, k) = >>=-eq-ok (may_take m hostname value) _ h in
    let (later, f, g) = >>=-eq-ok (first_match m hostname rules) _ k in
    ground (arith, g, first_match-le m hostname rules later f)

pub index-le :
    (rules : List Json) (final : Json) (n : ℕ)
    → last_of rules ≡ some final
    → n ≤ length (all_but_last rules)
    → n ≤ length rules
index-le rules final n l h = omega (
  arith,
  h,
  length-append (all_but_last rules) (final ∷ []),
  ap length (all_but_last-append final rules l),
)

-- The two rules, at the head of a list, take every request of their host.
pub route-new :
    (cf : Cloudflared) (hostname path service : String) (after : List Json)
    → nonempty hostname ≡ true
    → cf.host_matches hostname hostname ≡ true
    → route cf hostname path (webhook_rule hostname service ∷ refusal_rule hostname ∷ after)
      ≡ some (
          if cf.path_matches "^/alexa$" path
          then webhook_rule hostname service
          else refusal_rule hostname)
unfolding webhook_rule refusal_rule find
route-new cf hostname path service after f h = rw (f, h) (ground arith)

pub rules_of-assign :
    (rules : List Json) (config : Fields)
    → rules_of (assign "ingress" (arr (items_of rules)) config) ≡ rules
rules_of-assign rules config =
    rw (find-assign "ingress" "ingress" (arr (items_of rules)) config, rules_of, get)
      (items-items_of rules)

pub nonempty-valid_hostname : (h : String) → valid_hostname h ≡ true → nonempty h ≡ true
unfolding valid_hostname
nonempty-valid_hostname String.[] h = cc
nonempty-valid_hostname (String.◌∷◌ c s) h = refl
