-- ===== src/Visuals/Attach.antt =====
-- `_attach` of visuals.py: the card and the screen are fitted into the response, and dropped in a
-- fixed order where they do not fit. `size` is the length of the response's JSON text.
use amazon_echo_home_voice.Python.{Json, Python, has_prefix}
use amazon_echo_home_voice.Prelude.{
  Bool, List, Option, String, [], false, if◌then◌else◌, leb, map, none, not, some, true, ℕ, ◌&&◌,
  ◌∷◌,
}
use Prim.Native.String.{◌++◌ as append}
use amazon_echo_home_voice.Visuals.{
  Card, simple, Panel, Directive, Reply, max_reply_bytes, long_report_text, token_prefix,
}
use amazon_echo_home_voice.Visuals.Screen.{supports_apl}

abbrev pub is_simple : Option Card → Bool
is_simple (some (simple title content)) = true
is_simple _ = false

abbrev pub without_text : Panel → Panel
without_text panel = record panel { text = long_report_text }

-- del body["shouldEndSession"], where it is true
abbrev pub keep_open : Reply → Reply
keep_open r = elim r.end_session [ some true ↦ record r { end_session = none } | _ ↦ r ]

module _ (py : Python) (size : Reply → ℕ) where
  abbrev pub fits : Reply → Bool
  fits r = leb (size r) max_reply_bytes

  -- The ordinary card, unless one is there.
  unfoldable pub with_card : (title card_text : String) → Reply → Reply
  with_card title card_text r = elim r.card [
    | some card ↦ r
    | none ↦
        let heading = append "Home Energy: " title in
        let full = record r { card = some (simple heading card_text) } in
        if fits full then full else record r { card = some (simple heading long_report_text) }
  ]

  -- A duplicate of the screen's text is the first to go.
  unfoldable pub drop_card : Reply → Reply
  drop_card r = if not (fits r) && is_simple r.card then record r { card = none } else r

  unfoldable pub drop_texts : Directive → Reply → Reply
  drop_texts d r =
      if fits r
      then r
      else record r { directive = some (record d { panels = map without_text d.panels }) }

  -- The ordinary card is the fallback of a screen that does not fit.
  unfoldable pub drop_screen : Reply → Reply
  drop_screen r = elim r.card [
    | some card ↦ record r { directive = none }
    | none ↦ record r { directive = none; card = some (simple "Home Energy" long_report_text) }
  ]

  unfoldable pub with_screen : Directive → Bool → Reply → Reply
  with_screen d keep_screen r =
      let shown = drop_texts d (drop_card (record r { directive = some d })) in
      if fits shown then (if keep_screen then keep_open shown else shown) else drop_screen shown

  abbrev pub directive_for : (title : String) → List Panel → (footer token : String) → Directive
  directive_for title panels footer token = record {
    token = token;
    title = py.escape title;
    panels = panels;
    footer = py.escape footer;
    interactive = has_prefix token_prefix token;
  }

  -- _attach
  unfoldable pub attach :
      Json
      → Reply
      → (title : String) → List Panel
      → (card_text footer : String) → Bool
      → (token : String) → Reply
  attach event r title panels card_text footer keep_screen token =
      let carded = with_card title card_text r in
      if supports_apl event
      then with_screen (directive_for title panels footer token) keep_screen carded
      else carded

  -- message_visuals
  unfoldable pub message_visuals : Json → Reply → (title status : String) → Reply
  message_visuals event r title status =
      attach event r title
        (record {
          title = title;
          status = status;
          color = "#CAD5E0";
          text = py.escape r.speech;
          value = "";
          age = "";
        }
          ∷ [])
        r.speech "" true "home-energy-message"
