-- ===== src/Settings/Stored.antt =====
-- No stored override is ever ignored (apps/api/src/gate/gate-policy.service.ts).
use text.Mathlib.Text.{◌==◌}
use mathlib.Core.Path.{subst}
use capbase.Base.{
  ℕ, ◌≡◌, refl, sym, ◌∙◌, inl, inr, Bool, true, false, not, ◌&&◌, Option, none, some, List, [], ◌∷◌,
  keep, is_some, Result, ok, err, ◌>>◌, fail_if, Result-cases, All, arith, Bool-cases,
}
use capbase.Visibility.Validate.{
  Raw, SectionRow, FieldRow, Overrides, Resolved, PolicyError, validate_section_policy,
  validate_field_policy, validate_window_days, apply_section, apply_sections, apply_field,
  apply_fields, apply_window, start, resolve_gate_policy,
}
use capbase.Visibility.Registry.{section_of_key}
use capbase.Settings.Changes.{
  not_found, checked, is_known_field, Change, set_section, reset_section, set_field, reset_field,
  set_window, reset_window, upsert_section, upsert_field, write_change, Service, load, handle,
  handle_all,
}

abbrev is_ok {ℓ κ} : {E : Type ℓ} {A : Type κ} → Result E A → Bool
is_ok (ok a) = true
is_ok (err e) = false

abbrev ValidSection : SectionRow → Type 0
ValidSection row = is_ok (validate_section_policy row) ≡ true

abbrev ValidField : FieldRow → Type 0
ValidField row = is_ok (validate_field_policy row) ≡ true

abbrev ValidWindow : Option Raw → Type 0
ValidWindow none = Unit
ValidWindow (some days) = is_ok (validate_window_days days) ≡ true

-- Every stored row passes its validator.
abbrev pub ValidStore : Overrides → Type 0
ValidStore o =
    All ValidSection o.sections × All ValidField o.fields × ValidWindow o.contribution_window_days

All-keep {ℓ κ} :
    {A : Type ℓ} (P : A → Type κ) (q : A → Bool) (l : List A) → All P l → All P (keep q l)
All-keep P q [] h = tt
All-keep P q (x ∷ l) h = elim (Bool-cases (q x)) [
  | inl kept ↦ rw kept (h.0, All-keep P q l h.1)
  | inr left ↦ rw left (All-keep P q l h.1)
]

All-upsert_section :
    (row : SectionRow) (rows : List SectionRow)
    → ValidSection row
    → All ValidSection rows
    → All ValidSection (upsert_section row rows)
unfolding upsert_section
All-upsert_section row [] v h = (v, tt)
All-upsert_section row (r ∷ rows) v h = elim (Bool-cases (r.section == row.section)) [
  | inl same ↦ rw same (v, h.1)
  | inr other ↦ rw other (h.0, All-upsert_section row rows v h.1)
]

All-upsert_field :
    (row : FieldRow) (rows : List FieldRow)
    → ValidField row
    → All ValidField rows
    → All ValidField (upsert_field row rows)
unfolding upsert_field
All-upsert_field row [] v h = (v, tt)
All-upsert_field row (r ∷ rows) v h =
    elim (Bool-cases (r.entity == row.entity && r.field == row.field)) [
      | inl same ↦ rw same (v, h.1)
      | inr other ↦ rw other (h.0, All-upsert_field row rows v h.1)
    ]

-- What an accepted write has passed, and what it leaves.
written :
    {A : Type 0} (b : Bool) (r : Result PolicyError A) (store next : Overrides)
    → (fail_if b not_found >> (checked r >> ok store)) ≡ ok next
    → (is_ok r ≡ true) × (store ≡ next)
written b r store next e = ground arith

cleared :
    (b : Bool) (store next : Overrides) → (fail_if b not_found >> ok store) ≡ ok next → store ≡ next
cleared b store next e = ground arith

write_change-ValidStore :
    (o next : Overrides) (change : Change)
    → ValidStore o
    → write_change o change ≡ ok next
    → ValidStore next
unfolding write_change
write_change-ValidStore o next (set_section row) h e =
    let parts =
      written (not (is_some (section_of_key row.section))) (validate_section_policy row)
        (record o { sections = upsert_section row o.sections }) next e in
    subst ValidStore parts.1 (All-upsert_section row o.sections parts.0 h.0, h.1, h.2)
write_change-ValidStore o next (reset_section section) h e =
    let kept = λ (r : SectionRow). not (r.section == section) in
    subst ValidStore
      (cleared (not (is_some (section_of_key section)))
        (record o { sections = keep kept o.sections }) next e)
      (All-keep ValidSection kept o.sections h.0, h.1, h.2)
write_change-ValidStore o next (set_field row) h e =
    let parts =
      written (not (is_known_field row.entity row.field)) (validate_field_policy row)
        (record o { fields = upsert_field row o.fields }) next e in
    subst ValidStore parts.1 (h.0, All-upsert_field row o.fields parts.0 h.1, h.2)
write_change-ValidStore o next (reset_field entity field) h e =
    let kept = λ (r : FieldRow). not (r.entity == entity && r.field == field) in
    subst ValidStore
      (cleared (not (is_known_field entity field)) (record o { fields = keep kept o.fields }) next
        e)
      (h.0, All-keep ValidField kept o.fields h.1, h.2)
write_change-ValidStore o next (set_window days) h e =
    let parts =
      written false (validate_window_days days) (record o { contribution_window_days = some days })
        next e in
    subst ValidStore parts.1 (h.0, h.1, parts.0)
write_change-ValidStore o next reset_window h e =
    subst ValidStore (cleared false (record o { contribution_window_days = none }) next e)
      (h.0, h.1, tt)

apply_section-dropped :
    (r : Resolved) (row : SectionRow) → ValidSection row → (apply_section r row).dropped ≡ r.dropped
unfolding apply_section
apply_section-dropped r row v = elim (Result-cases (validate_section_policy row)) [
  | inl (p, good) ↦ rw (good, apply_section) refl
  | inr (e, bad) ↦ ground (arith, bad)
]

apply_field-dropped :
    (r : Resolved) (row : FieldRow) → ValidField row → (apply_field r row).dropped ≡ r.dropped
unfolding apply_field
apply_field-dropped r row v = elim (Result-cases (validate_field_policy row)) [
  | inl (p, good) ↦ rw (good, apply_field) refl
  | inr (e, bad) ↦ ground (arith, bad)
]

apply_sections-dropped :
    (r : Resolved) (rows : List SectionRow)
    → All ValidSection rows
    → (apply_sections r rows).dropped ≡ r.dropped
unfolding apply_sections
apply_sections-dropped r [] h = refl
apply_sections-dropped r (row ∷ rows) h =
    apply_sections-dropped (apply_section r row) rows h.1 ∙ apply_section-dropped r row h.0

apply_fields-dropped :
    (r : Resolved) (rows : List FieldRow)
    → All ValidField rows
    → (apply_fields r rows).dropped ≡ r.dropped
unfolding apply_fields
apply_fields-dropped r [] h = refl
apply_fields-dropped r (row ∷ rows) h =
    apply_fields-dropped (apply_field r row) rows h.1 ∙ apply_field-dropped r row h.0

apply_window-dropped :
    (r : Resolved) (o : Option Raw) → ValidWindow o → (apply_window r o).dropped ≡ r.dropped
unfolding apply_window
apply_window-dropped r none v = refl
apply_window-dropped r (some days) v = elim (Result-cases (validate_window_days days)) [
  | inl (p, good) ↦ rw (good, apply_window) refl
  | inr (e, bad) ↦ ground (arith, bad)
]

-- A store of valid rows is resolved with none of them dropped.
resolve_gate_policy-dropped : (o : Overrides) → ValidStore o → (resolve_gate_policy o).dropped ≡ []
unfolding resolve_gate_policy start
resolve_gate_policy-dropped o h =
    apply_window-dropped (apply_fields (apply_sections start o.sections) o.fields)
      o.contribution_window_days h.2
    ∙ apply_fields-dropped (apply_sections start o.sections) o.fields h.1
    ∙ apply_sections-dropped start o.sections h.0

-- The snapshot is the policy of the store, of which no row is ignored.
abbrev pub Fresh : Service → Type 0
Fresh s =
    (s.snapshot ≡ (resolve_gate_policy s.store).policy)
    × ((resolve_gate_policy s.store).dropped ≡ [])

handle-Fresh :
    (s next : Service) (now : ℕ) (change : Change)
    → ValidStore s.store
    → handle s now change ≡ ok next
    → ValidStore next.store × Fresh next
unfolding handle load
handle-Fresh s next now change h e = elim (Result-cases (write_change s.store change)) [
  | inr (error, bad) ↦ ground (arith, bad)
  | inl (store, good) ↦
      let valid = write_change-ValidStore s.store store change h good in
      let same : load (record s { store = store }) now ≡ next = ground (arith, good) in
      subst (λ x. ValidStore x.store × Fresh x) same
        (valid, (refl, resolve_gate_policy-dropped store valid))
]

-- After any sequence of requests to a service that begins with valid rows and a fresh snapshot, whether
-- they are accepted or refused, the snapshot is the policy that the stored rows resolve to, and no
-- stored row is ignored.
pub handle_all-Fresh :
    (s : Service) (requests : List (ℕ × Change))
    → ValidStore s.store
    → Fresh s
    → Fresh (handle_all s requests)
unfolding handle_all
handle_all-Fresh s [] h f = f
handle_all-Fresh s ((now, change) ∷ more) h f = elim (Result-cases (handle s now change)) [
  | inr (e, bad) ↦
      let same : handle_all s ((now, change) ∷ more) ≡ handle_all s more =
        rw (bad, handle_all) refl in
      subst Fresh (sym same) (handle_all-Fresh s more h f)
  | inl (next, good) ↦
      let step = handle-Fresh s next now change h good in
      let same : handle_all s ((now, change) ∷ more) ≡ handle_all next more =
        rw (good, handle_all) refl in
      subst Fresh (sym same) (handle_all-Fresh next more step.0 step.1)
]
