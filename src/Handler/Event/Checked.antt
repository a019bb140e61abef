-- ===== src/Handler/Event/Checked.antt =====
-- What a checked event has, and what an event that is not checked can do.
use amazon_echo_home_voice.Prelude.{String, subst, ap, arith, eq_iff, some, true, ℕ, ◌≡◌, ◌≤◌, ◌∙◌}
use amazon_echo_home_voice.Python.{
  Fields, Json, Python, as_fields, as_str, ensure->>=-eq-ok, find, get, obj, ok, ok-injective,
  permission_error, required->>=-eq-ok, str, >>=-eq-ok, ensure, ensure-eq-ok, ◌>>=◌,
}
use amazon_echo_home_voice.Visuals.Screen.{text_is}
use amazon_echo_home_voice.Handler.Event.{
  application_id, distance, is_skill_id, item, of_session, recent, session_of_skill, validate_event,
}

text_is-str : (s : String) (v : Json) → text_is s v ≡ true → v ≡ str s
text_is-str s (str t) h = ap str ((eq_iff t s).0 h)
text_is-str s _ h = cc

as_fields-obj : (v : Json) {fs : Fields} → as_fields v ≡ some fs → v ≡ obj fs
as_fields-obj (obj fs) h = ground arith
as_fields-obj _ h = cc

as_str-str : (v : Json) {s : String} → as_str v ≡ some s → v ≡ str s
as_str-str (str s) h = ground arith
as_str-str _ h = cc

-- The skill's own ids in the context and, if there is one, in the session.
session-IsOfSkill :
    (skill_id : String) (event : Fields) {u : Unit {0}}
    → session_of_skill skill_id event ≡ ok u
    → (session : Json) → find "session" event ≡ some session
    → application_id session ≡ ok (str skill_id)
unfolding session_of_skill
session-IsOfSkill skill_id event {u} h session e =
    let (id, named, is_id) =
      >>=-eq-ok (application_id session) (λ id. ensure (text_is skill_id id) permission_error)
        (subst (λ o. of_session skill_id o ≡ ok u) e h) in
    named ∙ ap ok (text_is-str skill_id id (ensure-eq-ok _ permission_error is_id))

module _ (py : Python) where
  -- An event of this skill in its one locale, at most 150 seconds from the clock.
  pub record IsForSkill (skill_id : String) (now : ℕ) (event : Json) (request : Fields)
      : Type 0 where
    pub skill : is_skill_id skill_id ≡ true
    pub fields : Fields
    pub is_object : event ≡ obj fields
    pub version : get "version" fields ≡ str "1.0"
    pub system : Json
    pub context : (item "context" event >>= item "System") ≡ ok system
    pub addressed : application_id system ≡ ok (str skill_id)
    pub session :
        (session : Json)
        → find "session" fields ≡ some session
        → application_id session ≡ ok (str skill_id)
    pub asked : item "request" event ≡ ok (obj request)
    pub locale : get "locale" request ≡ str "en-US"
    pub timestamp : String
    pub stamped : find "timestamp" request ≡ some (str timestamp)
    pub instant : ℕ
    pub parsed : py.fromisoformat (py.utc timestamp) ≡ some (some instant)
    pub is_recent : distance now instant ≤ 150_000

  recent-near :
      (now : ℕ) (timestamp : String) {u : Unit {0}}
      → recent py now timestamp ≡ ok u
      → (at : ℕ) × (py.fromisoformat (py.utc timestamp) ≡ some (some at))
        × (distance now at ≤ 150_000)
  unfolding recent
  recent-near now timestamp h =
      let (instant, p, h₁) = required->>=-eq-ok (py.fromisoformat (py.utc timestamp)) _ _ h in
      let (at, q, h₂) = required->>=-eq-ok instant _ _ h₁ in (at, p ∙ ap some q, ground (arith, h₂))

  -- An event that passes the checks is an object of version 1.0 that names the configured skill in
  -- its context and in its session, if it has one, with an en-US request whose timestamp has a time
  -- zone and is at most 150 seconds from the clock; the request that is returned is the event's.
  pub validate_event-IsForSkill :
      (skill_id : String) (now : ℕ) (event : Json) (request : Fields)
      → validate_event py skill_id now event ≡ ok request
      → IsForSkill skill_id now event request
  unfolding validate_event
  validate_event-IsForSkill skill_id now event request h =
      let (skill, h₁) = ensure->>=-eq-ok (is_skill_id skill_id) _ _ h in
      let (fields, is_fields, h₂) = required->>=-eq-ok (as_fields event) _ _ h₁ in
      let (version, h₃) = ensure->>=-eq-ok (text_is "1.0" (get "version" fields)) _ _ h₂ in
      let (context, is_context, h₄) = >>=-eq-ok (item "context" event) _ h₃ in
      let (system, is_system, h₅) = >>=-eq-ok (item "System" context) _ h₄ in
      let (id, is_id, h₆) = >>=-eq-ok (application_id system) _ h₅ in
      let (mine, h₇) = ensure->>=-eq-ok (text_is skill_id id) _ _ h₆ in
      let (u, of_skill, h₈) = >>=-eq-ok (session_of_skill skill_id fields) _ h₇ in
      let (asked, is_asked, h₉) = >>=-eq-ok (item "request" event) _ h₈ in
      let (r, is_r, h₁₀) = required->>=-eq-ok (as_fields asked) _ _ h₉ in
      let (locale, h₁₁) = ensure->>=-eq-ok (text_is "en-US" (get "locale" r)) _ _ h₁₀ in
      let (stamp, is_stamp, h₁₂) = required->>=-eq-ok (find "timestamp" r) _ _ h₁₁ in
      let (timestamp, is_timestamp, h₁₃) = required->>=-eq-ok (as_str stamp) _ _ h₁₂ in
      let (v, is_recent, h₁₄) = >>=-eq-ok (recent py now timestamp) _ h₁₃ in
      let (at, parsed, near) = recent-near now timestamp is_recent in
      subst (IsForSkill skill_id now event) (ok-injective h₁₄) (record {
        skill = skill;
        fields = fields;
        is_object = as_fields-obj event is_fields;
        version = text_is-str "1.0" (get "version" fields) version;
        system = system;
        context = ap (λ r. r >>= item "System") is_context ∙ is_system;
        addressed = is_id ∙ ap ok (text_is-str skill_id id mine);
        session = session-IsOfSkill skill_id fields of_skill;
        asked = is_asked ∙ ap ok (as_fields-obj asked is_r);
        locale = text_is-str "en-US" (get "locale" r) locale;
        timestamp = timestamp;
        stamped = is_stamp ∙ ap some (as_str-str stamp is_timestamp);
        instant = at;
        parsed = parsed;
        is_recent = near;
      })
