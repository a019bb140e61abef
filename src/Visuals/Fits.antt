-- ===== src/Visuals/Fits.antt =====
-- What the attachment of a card and a screen keeps, and that a screen fits the relay.
use amazon_echo_home_voice.Prelude.{
  Bool, Bool-cases, List, String, arith, inl, inr, none, refl, some, true, ℕ, ◌≡◌, ◌≤◌, ◌∙◌,
}
use amazon_echo_home_voice.Python.{Json, Python}
use amazon_echo_home_voice.Visuals.{Directive, Panel, Reply, link_account, max_reply_bytes}
use amazon_echo_home_voice.Visuals.Screen.{supports_apl}
use amazon_echo_home_voice.Visuals.Attach.{
  attach, drop_card, drop_screen, drop_texts, fits, keep_open, with_card, with_screen,
  directive_for,
}

-- The answer that is spoken, and the report that the session keeps.
pub record SameAnswer (r s : Reply) : Type 0 where
  pub speech : s.speech ≡ r.speech
  pub reprompt : s.reprompt ≡ r.reprompt
  pub attributes : s.attributes ≡ r.attributes
  pub link : r.card ≡ some link_account → s.card ≡ some link_account

module _ (py : Python) (size : Reply → ℕ) where
  with_card-SameAnswer :
      (title text : String) (r : Reply) → SameAnswer r (with_card py size title text r)
  unfolding with_card
  with_card-SameAnswer title text r = record {
    speech = ground arith;
    reprompt = ground arith;
    attributes = ground arith;
    link = λ e. ground arith;
  }

  with_screen-SameAnswer :
      (d : Directive) (keep : Bool) (r : Reply) → SameAnswer r (with_screen py size d keep r)
  unfolding with_screen drop_texts drop_card drop_screen
  with_screen-SameAnswer d keep r = record {
    speech = ground arith;
    reprompt = ground arith;
    attributes = ground arith;
    link = λ e. ground arith;
  }

  -- The card and the screen change nothing of what is spoken, of the reprompt and of the report that
  -- the session keeps, and a card that asks to link the account stays.
  pub attach-SameAnswer :
      (event : Json) (r : Reply) (title : String) (panels : List Panel) (card_text footer : String)
      (keep : Bool) (token : String)
      → SameAnswer r (attach py size event r title panels card_text footer keep token)
  unfolding attach
  attach-SameAnswer event r title panels card_text footer keep token =
      let a = with_card-SameAnswer title card_text r in
      let b =
        with_screen-SameAnswer (directive_for py size title panels footer token) keep
          (with_card py size title card_text r) in
      elim (Bool-cases (supports_apl event)) [
        | inl t ↦ rw t (record {
          speech = b.speech ∙ a.speech;
          reprompt = b.reprompt ∙ a.reprompt;
          attributes = b.attributes ∙ a.attributes;
          link = λ e. b.link (a.link e);
        })
        | inr t ↦ rw t a
      ]

  with_card-directive :
      (title text : String) (r : Reply) → (with_card py size title text r).directive ≡ r.directive
  unfolding with_card
  with_card-directive title text r = ground arith

  with_screen-fits :
      (d : Directive) (keep : Bool) (r : Reply) (shown : Directive)
      → ((s : Reply) → size (keep_open s) ≤ size s)
      → (with_screen py size d keep r).directive ≡ some shown
      → size (with_screen py size d keep r) ≤ max_reply_bytes
  unfolding with_screen drop_screen
  with_screen-fits d keep r shown h e =
      let s = drop_texts py size d (drop_card py size (record r { directive = some d })) in
      elim (Bool-cases (fits py size s)) [
        | inl t ↦ elim (Bool-cases keep) [
          | inl k ↦ ground (arith, h s, t, k)
          | inr k ↦ ground (arith, t, k)
        ]
        | inr t ↦ absurd (ground (arith, e, t))
      ]

  -- A response that is given a screen is at most the size that the relay takes, and a device without
  -- a screen is given none, where leaving out `shouldEndSession` does not make a response longer and
  -- the response comes without a screen.
  pub attach-fits :
      (event : Json) (r : Reply) (title : String) (panels : List Panel) (card_text footer : String)
      (keep : Bool) (token : String)
      → ((s : Reply) → size (keep_open s) ≤ size s)
      → r.directive ≡ none
      → (shown : Directive)
      → (attach py size event r title panels card_text footer keep token).directive ≡ some shown
      → (supports_apl event ≡ true)
        × (size (attach py size event r title panels card_text footer keep token) ≤ max_reply_bytes)
  unfolding attach
  attach-fits event r title panels card_text footer keep token h none_yet shown e =
      elim (Bool-cases (supports_apl event)) [
        | inl t ↦ rw t (
          refl,
          with_screen-fits (directive_for py size title panels footer token) keep
              (with_card py size title card_text r) shown h (rw t at e),
        )
        | inr t ↦ absurd (
            let f = with_card-directive title card_text r in
            let k : (with_card py size title card_text r).directive ≡ some shown = rw t at e in cc)
      ]
