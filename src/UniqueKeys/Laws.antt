-- ===== src/UniqueKeys/Laws.antt =====
-- An object is accepted exactly when its keys differ, and is then handed on as it was written.
use amazon_echo_home_voice.Prelude.{
  String, true, false, not, ◌≡◌, ◌↔◌, refl, sym, ap, subst, ◌∙◌, inl, inr, arith, str_eq, eq_iff,
  if◌then◌else◌, Bool-cases,
}
use amazon_echo_home_voice.Python.{
  Json, arr, obj, Items, nil, cons, Fields, end, field, find, has, assign, Result, ok, Exn,
  ensure->>=-eq-ok, >>=-eq-ok, ok-injective, find-assign,
}
use amazon_echo_home_voice.UniqueKeys.{
  collect, unique_object, with_hook, with_hook_items, with_hook_fields,
}
use mathlib.Core.Path.{ap₂}

-- No key is named twice.
abbrev pub NoRepeat : Fields → Type 0
NoRepeat end = Unit
NoRepeat (field k v fs) = (has k fs ≡ false) × NoRepeat fs

abbrev pub concat : Fields → Fields → Fields
concat end gs = gs
concat (field k v fs) gs = field k v (concat fs gs)

concat-end : (fs : Fields) → concat fs end ≡ fs
concat-end end = refl
concat-end (field k v fs) = ap (field k v) (concat-end fs)

concat_assoc : (fs gs hs : Fields) → concat (concat fs gs) hs ≡ concat fs (concat gs hs)
concat_assoc end gs hs = refl
concat_assoc (field k v fs) gs hs = ap (field k v) (concat_assoc fs gs hs)

-- A new key is put behind the others.
assign-new :
    (k : String) (v : Json) (fs : Fields)
    → has k fs ≡ false
    → assign k v fs ≡ concat fs (field k v end)
unfolding assign find
assign-new k v end h = refl
assign-new k v (field j w fs) h = ground (arith, assign-new k v fs)

NoRepeat-assign : (k : String) (v : Json) (fs : Fields) → NoRepeat fs → NoRepeat (assign k v fs)
unfolding assign find
NoRepeat-assign k v end n = (refl, tt)
NoRepeat-assign k v (field j w fs) (n, m) = elim (Bool-cases (str_eq j k)) [
  | inl e ↦ rw e (n, m)
  | inr e ↦
      rw e (ground (arith, find-assign k j v fs, eq_iff j k, eq_iff k j), NoRepeat-assign k v fs m)
]

has-concat :
    (k : String) (fs gs : Fields) → has k (concat fs gs) ≡ (if has k fs then true else has k gs)
unfolding find
has-concat k end gs = refl
has-concat k (field j v fs) gs = ground (arith, has-concat k fs gs)

NoRepeat-middle :
    (k : String) (v : Json) (fs gs : Fields)
    → NoRepeat (concat fs (field k v gs))
    → has k fs ≡ false
unfolding find
NoRepeat-middle k v end gs n = refl
NoRepeat-middle k v (field j w fs) gs (n, m) =
    ground
      (arith, NoRepeat-middle k v fs gs m, has-concat j fs (field k v gs), eq_iff k j, eq_iff j k)

module _ (e : Exn) where
  collect_sound :
      (pairs acc : Fields) (r : Fields)
      → NoRepeat acc
      → collect e pairs acc ≡ ok r
      → (r ≡ concat acc pairs) × NoRepeat r
  unfolding collect
  collect_sound end acc r n h =
      (sym (ok-injective h) ∙ sym (concat-end acc), subst NoRepeat (ok-injective h) n)
  collect_sound (field k v pairs) acc r n h =
      let (fresh, h₁) = ensure->>=-eq-ok (not (has k acc)) e _ h in
      let (same, m) = collect_sound pairs (assign k v acc) r (NoRepeat-assign k v acc n) h₁ in
      (
        same
            ∙ ap (λ t. concat t pairs) (assign-new k v acc (ground arith))
            ∙ concat_assoc acc (field k v end) pairs,
        m,
      )

  collect_complete :
      (pairs acc : Fields)
      → NoRepeat (concat acc pairs)
      → collect e pairs acc ≡ ok (concat acc pairs)
  unfolding collect
  collect_complete end acc n = ap ok (sym (concat-end acc))
  collect_complete (field k v pairs) acc n =
      let fresh = NoRepeat-middle k v acc pairs n in
      let step : concat (assign k v acc) pairs ≡ concat acc (field k v pairs) =
        ap (λ t. concat t pairs) (assign-new k v acc fresh)
        ∙ concat_assoc acc (field k v end) pairs in
      rw fresh (collect_complete pairs (assign k v acc) (subst NoRepeat (sym step) n) ∙ ap ok step)

  -- The hook accepts the pairs of an object exactly when no key is named twice, and returns them
  -- as they were written.
  pub unique_object_iff :
      (pairs r : Fields) → (unique_object e pairs ≡ ok r) ↔ ((r ≡ pairs) × NoRepeat pairs)
  unfolding unique_object
  unique_object_iff pairs r = (
    (λ h. let (same, n) = collect_sound pairs end r tt h in (same, subst NoRepeat same n)),
    (λ c. collect_complete pairs end c.1 ∙ ap ok (sym c.0)),
  )

-- No object in a value names a key twice.
mutual
  pub Distinct : Json → Type 0
  Distinct (arr vs) = DistinctItems vs
  Distinct (obj fs) = DistinctFields fs × NoRepeat fs
  Distinct _ = Unit

  pub DistinctItems : Items → Type 0
  DistinctItems nil = Unit
  DistinctItems (cons v vs) = Distinct v × DistinctItems vs

  pub DistinctFields : Fields → Type 0
  DistinctFields end = Unit
  DistinctFields (field k v fs) = Distinct v × DistinctFields fs

module _ (e : Exn) where
  abbrev hook : Fields → Result Fields
  hook = unique_object e

  mutual
    unfolding with_hook Distinct

    sound : (v w : Json) → with_hook hook v ≡ ok w → (w ≡ v) × Distinct v
    sound (arr vs) w h =
        let (ws, inner, h₁) = >>=-eq-ok (with_hook_items hook vs) _ h in
        let (same, d) = sound_items vs ws inner in (sym (ok-injective h₁) ∙ ap arr same, d)
    sound (obj fs) w h =
        let (gs, inner, h₁) = >>=-eq-ok (with_hook_fields hook fs) _ h in
        let (same, d) = sound_fields fs gs inner in
        let (r, kept, h₂) = >>=-eq-ok (hook gs) _ h₁ in
        let (same', n) = (unique_object_iff e gs r).0 kept in
        (sym (ok-injective h₂) ∙ ap obj (same' ∙ same), (d, subst NoRepeat same n))
    sound v w h = (sym (ok-injective h), tt)

    sound_items : (vs ws : Items) → with_hook_items hook vs ≡ ok ws → (ws ≡ vs) × DistinctItems vs
    sound_items nil ws h = (sym (ok-injective h), tt)
    sound_items (cons v vs) ws h =
        let (w, first, h₁) = >>=-eq-ok (with_hook hook v) _ h in
        let (us, rest, h₂) = >>=-eq-ok (with_hook_items hook vs) _ h₁ in
        let (same, d) = sound v w first in
        let (same', ds) = sound_items vs us rest in
        (sym (ok-injective h₂) ∙ ap₂ cons same same', (d, ds))

    sound_fields :
        (fs gs : Fields) → with_hook_fields hook fs ≡ ok gs → (gs ≡ fs) × DistinctFields fs
    sound_fields end gs h = (sym (ok-injective h), tt)
    sound_fields (field k v fs) gs h =
        let (w, first, h₁) = >>=-eq-ok (with_hook hook v) _ h in
        let (us, rest, h₂) = >>=-eq-ok (with_hook_fields hook fs) _ h₁ in
        let (same, d) = sound v w first in
        let (same', ds) = sound_fields fs us rest in
        (sym (ok-injective h₂) ∙ ap₂ (field k) same same', (d, ds))

  -- A document that the reader accepts names no key twice in any object at any depth, and the value
  -- is the document as it was written.
  pub with_hook-Distinct :
      (v w : Json) → with_hook (unique_object e) v ≡ ok w → (w ≡ v) × Distinct v
  with_hook-Distinct v w h = sound v w h
