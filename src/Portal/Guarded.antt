-- ===== src/Portal/Guarded.antt =====
-- The guards of the portal's forms.
use amazon_echo_home_voice.Prelude.{
  Bool-cases, String, arith, eq_iff, inl, inr, refl, some, str_eq, ◌&&◌, ◌≡◌, ◌≢◌, ◌⊎◌, ◌∙◌, ap,
}
use amazon_echo_home_voice.Python.{Python, Result, ensure->>=-eq-ok, ok, raised, required->>=-eq-ok}
use amazon_echo_home_voice.World.{World, continue}
use amazon_echo_home_voice.Oauth.{OAuthConfig}
use amazon_echo_home_voice.Store.Tables.{Crypto}
use amazon_echo_home_voice.Store.Sessions.{Session}
use amazon_echo_home_voice.Portal.{PortalPage, is_ascii, submit, submit_form}
use amazon_echo_home_voice.Portal.Input.{Browser, Pairs, form_of, text_of}

-- A form is read only if it was sent from the portal's own origin.
form_of-origin :
    (py : Python) (origin : String) (r : Browser) (form : Pairs)
    → form_of py origin r ≡ ok form
    → r.origin ≡ some origin
unfolding form_of
form_of-origin py origin r form h =
    let (sent_from, is_sent, h₁) = required->>=-eq-ok r.origin _ _ h in
    let (same, h₂) = ensure->>=-eq-ok (str_eq sent_from origin) _ _ h₁ in
    is_sent ∙ ap some ((eq_iff sent_from origin).0 same)

-- The outcome of a form that is refused: the state stays as it is, and no page is returned by it.
pub record IsRefused (w : World) (outcome : Result PortalPage × World) : Type 0 where
  pub unchanged : outcome.1 ≡ w
  pub no_page : (page : PortalPage) → outcome.0 ≢ ok page

module _ (py : Python) (crypto : Crypto) (config : OAuthConfig) where
  -- A form that was not sent from the portal's own origin, or that does not carry the session's own
  -- token, is refused, whatever its path: nothing is sent to a gateway, and no connection or session
  -- is written or deleted.
  pub submit-IsRefused :
      (origin token : String) (s : Session) (r : Browser) (w : World)
      → (r.origin ≢ some origin)
        ⊎ ((form : Pairs) → form_of py origin r ≡ ok form → text_of "csrf" form ≢ s.csrf)
      → IsRefused w (submit py crypto config origin token s r w)
  unfolding submit submit_form
  submit-IsRefused origin token s r w forged = refused (form_of py origin r) (mismatch forged)
    where
      mismatch :
          (r.origin ≢ some origin)
            ⊎ ((form : Pairs) → form_of py origin r ≡ ok form → text_of "csrf" form ≢ s.csrf)
          → (form : Pairs) → form_of py origin r ≡ ok form
          → text_of "csrf" form ≢ s.csrf
      mismatch (inl ne) form e = absurd (ne (form_of-origin py origin r form e))
      mismatch (inr ne) form e = ne form e

      refused :
          (read : Result Pairs)
          → ((form : Pairs) → read ≡ ok form → text_of "csrf" form ≢ s.csrf)
          → IsRefused w (continue read (submit_form py crypto config token s r) w)
      refused (raised e) ne = record { unchanged = refl; no_page = λ page f. cc }
      refused (ok form) ne =
          elim (Bool-cases
            (is_ascii (text_of "csrf" form) && str_eq (text_of "csrf" form) s.csrf)) [
              | inl t ↦
                  absurd
                    (ne form refl ((eq_iff (text_of "csrf" form) s.csrf).0 (ground (arith, t))))
              | inr t ↦ rw t (record { unchanged = refl; no_page = λ page f. cc })
            ]
