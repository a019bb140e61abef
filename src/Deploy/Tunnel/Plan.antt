-- ===== src/Deploy/Tunnel/Plan.antt =====
-- What a plan does to the requests of a tunnel.
use amazon_echo_home_voice.Prelude.{
  List, Option-cases, String, [], ap, arith, false, if◌then◌else◌, inl, inr, not, or_else, some,
  subst, sym, true, ℕ, ◌∙◌, ◌∷◌, ◌≡◌,
}
use amazon_echo_home_voice.Python.{
  >>=-eq-ok, Fields, Json, Python, arr, as_items, assign, ensure->>=-eq-ok, get, nonempty, obj, ok,
  ok-injective, required->>=-eq-ok, without,
}
use amazon_echo_home_voice.Deploy.Tunnel.{
  Matching, all_but_last, candidate_config, first_match, insert_at, items_of, ends_with_catch_all,
  refusal_rule, webhook_rule, check_origin, any_rule_of, access_required, valid_hostname, last_of,
}
use amazon_echo_home_voice.Deploy.Tunnel.Routes.{
  Cloudflared, all_but_last-append, cut, cut-insert_at, first_match-le, index-le,
  nonempty-valid_hostname, route, route-first_match, route-insert_at, route-new, rules_of,
  rules_of-assign, without-assign,
}

module _ (py : Python) (m : Matching) where
  -- What a candidate is made of.
  pub record IsCandidate (current updated : Fields) (hostname origin : String) (index : ℕ)
      : Type 0 where
    pub named : nonempty hostname ≡ true
    pub existing : List Json
    pub found : rules_of current ≡ existing
    pub catch_all : Json
    pub last : last_of existing ≡ some catch_all
    pub matched : first_match m hostname (all_but_last existing) ≡ ok index
    pub made :
        assign "ingress"
          (arr (
            items_of (
              insert_at index
                (webhook_rule hostname (m.rstrip_slash origin) ∷ refusal_rule hostname ∷ [])
                existing)))
          current
        ≡ updated

  candidate_config-IsCandidate :
      (current updated : Fields) (hostname origin : String) (index : ℕ)
      → candidate_config py m (obj current) hostname origin ≡ ok (updated, index)
      → IsCandidate current updated hostname origin index
  unfolding candidate_config
  candidate_config-IsCandidate current updated hostname origin index h =
      let (v, h1) = ensure->>=-eq-ok (valid_hostname hostname) _ _ h in
      let (u, o, h2) = >>=-eq-ok (check_origin py origin) _ h1 in
      let (existing, i, h3) = required->>=-eq-ok (as_items (get "ingress" current)) _ _ h2 in
      let (l, h4) = ensure->>=-eq-ok (ends_with_catch_all existing) _ _ h3 in
      let (named, a, h5) = >>=-eq-ok (any_rule_of hostname existing) _ h4 in
      let (b, h6) = ensure->>=-eq-ok (not named) _ _ h5 in
      let (guarded, c, h7) = >>=-eq-ok (access_required current) _ h6 in
      let (d, h8) = ensure->>=-eq-ok (not guarded) _ _ h7 in
      let (n, f, h9) = >>=-eq-ok (first_match m hostname (all_but_last existing)) _ h8 in
      elim (Option-cases (last_of existing)) [
        | inl z ↦ absurd (ground (arith, l, z))
        | inr (final, z) ↦
            let same : n ≡ index = ap (λ p. p.1) (ok-injective h9) in
            record {
              named = nonempty-valid_hostname hostname v;
              existing = existing;
              found = ap (λ o. or_else o []) i;
              catch_all = final;
              last = z;
              matched = f ∙ ap ok same;
              made =
                  subst
                    (λ k.
                      assign "ingress"
                        (arr (
                          items_of (
                            insert_at k
                              (webhook_rule hostname (m.rstrip_slash origin)
                                ∷ refusal_rule hostname
                                ∷ [])
                              existing)))
                        current
                      ≡ updated)
                    same (ap (λ p. p.0) (ok-injective h9));
            }
      ]

  -- The routes of the host name and of another host, and what else is as it was.
  pub record IsRouted (cf : Cloudflared) (current updated : Fields)
      (hostname origin other path : String) (index : ℕ) : Type 0 where
    pub own :
        route cf hostname path (rules_of updated)
        ≡ some (
            if cf.path_matches "^/alexa$" path
            then webhook_rule hostname (m.rstrip_slash origin)
            else refusal_rule hostname)
    pub others : route cf other path (rules_of updated) ≡ route cf other path (rules_of current)
    pub kept : cut index (rules_of updated) ≡ rules_of current
    pub settings : without "ingress" updated ≡ without "ingress" current

  -- A plan puts two rules for its host name into the list: requests of this host for the webhook's
  -- path go to the origin and its other ones are answered with 404, requests of every other host go
  -- where they went before, the list without the two rules is the old list, and all other settings
  -- stay. Assumed: cloudflared matches the host name with itself and not with the other
  -- host, and whatever pattern it matches with the host name fnmatch matches too.
  pub candidate_config-IsRouted :
      (cf : Cloudflared) (current updated : Fields) (hostname origin other path : String)
      (index : ℕ)
      → cf.host_matches hostname hostname ≡ true
      → cf.host_matches hostname other ≡ false
      → ((pattern : String)
          → cf.host_matches pattern hostname ≡ true
          → m.fnmatchcase hostname pattern ≡ true)
      → candidate_config py m (obj current) hostname origin ≡ ok (updated, index)
      → IsRouted cf current updated hostname origin other path index
  candidate_config-IsRouted cf current updated hostname origin other path index self apart covered
        h =
      let c = candidate_config-IsCandidate current updated hostname origin index h in
      let service = m.rstrip_slash origin in
      let new = webhook_rule hostname service ∷ refusal_rule hostname ∷ [] in
      let rules = insert_at index new c.existing in
      let made : rules_of updated ≡ rules =
        ap rules_of (sym c.made) ∙ rules_of-assign rules current in
      let whole = all_but_last-append c.catch_all c.existing c.last in
      let (after, same) =
        route-first_match cf m hostname covered path new (c.catch_all ∷ [])
          (all_but_last c.existing) index c.matched in
      record {
        own =
            ap (route cf hostname path) made
            ∙ ap (λ xs. route cf hostname path (insert_at index new xs)) (sym whole)
            ∙ same
            ∙ route-new cf hostname path service after c.named self;
        others =
            ap (route cf other path) made
            ∙ route-insert_at cf m hostname other path service index c.existing c.named apart
            ∙ ap (route cf other path) (sym c.found);
        kept =
            ap (cut index) made
            ∙ cut-insert_at _ _ c.existing index (
                index-le c.existing c.catch_all index c.last
                  (first_match-le m hostname (all_but_last c.existing) index c.matched))
            ∙ sym c.found;
        settings =
            ap (without "ingress") (sym c.made)
            ∙ without-assign "ingress" (arr (items_of rules)) current;
      }
