-- ===== src/People/Endings.antt =====
-- The first and last name that `nameVariantKey` of apps/jobs/src/ingest/person-matcher.ts keeps.
use mathlib.Core.List.{reverse, reverse-reverse, reverse-append, reverse-cons}
use capbase.Base.{
  ◌≡◌, refl, sym, ap, ◌∙◌, ◌⊎◌, inl, inr, Bool, true, false, List, [], ◌∷◌, ◌++◌, ◌&&◌, Text,
  CaseTables, eq_text, has_text, all, arith, Bool-cases,
}
use capbase.People.Names.{
  name_suffixes, words, pop_while, normalize_person_name, ends_of, name_variant_key,
}

-- The tokens give the text: the only token, or the first, a blank and the last, which is no suffix.
abbrev pub EndsAre : List Text → Text → Type 0
EndsAre tokens key =
    (tokens ≡ key ∷ [])
    ⊎ ((first : Text) × (middle : List Text) × (last : Text) × (tokens
          ≡ first ∷ (middle ++ last ∷ []))
        × (has_text last name_suffixes ≡ false)
        × (key ≡ first ++ 32 ∷ last))

-- The name's first and last name: the tokens of the normalized name are some that give the text, and
-- then suffixes such as "jr".
abbrev pub FirstLast : CaseTables → Text → Text → Type 0
FirstLast tables name key =
    (kept suffixes : List Text) × (words [] (normalize_person_name tables name) ≡ kept ++ suffixes)
    × (all (λ t. has_text t name_suffixes) suffixes ≡ true)
    × EndsAre kept key

all-append : (p : Text → Bool) (l m : List Text) → all p (l ++ m) ≡ (all p l && all p m)
all-append p [] m = refl
all-append p (x ∷ l) m = ground (arith, all-append p l m)

all-reverse : (p : Text → Bool) (l : List Text) → all p (reverse l) ≡ all p l
all-reverse p [] = refl
all-reverse p (x ∷ l) =
    ap (all p) (reverse-cons x l)
    ∙ all-append p (reverse l) (x ∷ [])
    ∙ ground (arith, all-reverse p l)

pop_while-drops :
    (set l : List Text)
    → (dropped : List Text) × (l ≡ dropped ++ pop_while set l)
      × (all (λ t. has_text t set) dropped ≡ true)
unfolding pop_while
pop_while-drops set [] = ([], refl, refl)
pop_while-drops set (w ∷ []) = ([], refl, refl)
pop_while-drops set (w ∷ v ∷ ws) = elim (Bool-cases (has_text w set)) [
  | inr e ↦ rw e ([], refl, refl)
  | inl e ↦
      let (dropped, split, bad) = pop_while-drops set (v ∷ ws) in
      rw e (w ∷ dropped, ap (λ l. w ∷ l) split, ground arith)
]

-- Where the popping stops: at no token, at the only one, or at one that is no suffix.
abbrev StopsAt : List Text → List Text → Type 0
StopsAt set l =
    (l ≡ [])
    ⊎ ((w : Text) × (l ≡ w ∷ []))
    ⊎ ((w v : Text) × (ws : List Text) × (l ≡ w ∷ v ∷ ws) × (has_text w set ≡ false))

pop_while-StopsAt : (set l : List Text) → StopsAt set (pop_while set l)
unfolding pop_while
pop_while-StopsAt set [] = inl refl
pop_while-StopsAt set (w ∷ []) = inr (inl (w, refl))
pop_while-StopsAt set (w ∷ v ∷ ws) = elim (Bool-cases (has_text w set)) [
  | inl e ↦ rw e (pop_while-StopsAt set (v ∷ ws))
  | inr e ↦ rw e (inr (inr (w, v, ws, refl, e)))
]

abbrev with_last : Text → List Text → Text
with_last w tokens = elim tokens [ [] ↦ w | last ∷ _ ↦ w ++ 32 ∷ last ]

ends_of-two :
    (first last : Text) (middle : List Text)
    → ends_of (first ∷ (middle ++ last ∷ [])) ≡ first ++ 32 ∷ last
unfolding ends_of
ends_of-two first last [] = refl
ends_of-two first last (m ∷ middle) = ap (with_last first) (reverse-append (m ∷ middle) (last ∷ []))

append_one-two :
    (l : List Text) (v : Text)
    → (first : Text) × (middle : List Text) × (l ++ v ∷ [] ≡ first ∷ middle)
append_one-two [] v = (v, [], refl)
append_one-two (x ∷ l) v = (x, l ++ v ∷ [], refl)

reverse-two :
    (v : Text) (ws : List Text)
    → (first : Text) × (middle : List Text) × (reverse (v ∷ ws) ≡ first ∷ middle)
reverse-two v ws =
    let (first, middle, e) = append_one-two (reverse ws) v in (first, middle, reverse-cons v ws ∙ e)

ends_of-EndsAre :
    (popped : List Text)
    → StopsAt name_suffixes popped
    → eq_text (ends_of (reverse popped)) [] ≡ false
    → EndsAre (reverse popped) (ends_of (reverse popped))
unfolding ends_of eq_text
ends_of-EndsAre popped (inl e) k =
    let none_kept : true ≡ false = ap (λ l. eq_text (ends_of (reverse l)) []) (sym e) ∙ k in
    absurd (ground (arith, none_kept))
ends_of-EndsAre popped (inr (inl (w, e))) k = rw e (inl refl)
ends_of-EndsAre popped (inr (inr (w, v, ws, e, n))) k =
    let (first, middle, q) = reverse-two v ws in
    let split : reverse popped ≡ first ∷ (middle ++ w ∷ []) =
      ap reverse e ∙ reverse-cons w (v ∷ ws) ∙ ap (λ l. l ++ w ∷ []) q in
    inr (first, middle, w, split, n, ap ends_of split ∙ ends_of-two first w middle)

pub name_variant_key-FirstLast :
    (tables : CaseTables) (name : Text)
    → eq_text (name_variant_key tables name) [] ≡ false
    → FirstLast tables name (name_variant_key tables name)
unfolding name_variant_key
name_variant_key-FirstLast tables name h =
    let tokens = words [] (normalize_person_name tables name) in
    let popped = pop_while name_suffixes (reverse tokens) in
    let (dropped, split, bad) = pop_while-drops name_suffixes (reverse tokens) in
    (
      reverse popped,
      reverse dropped,
      sym (reverse-reverse tokens) ∙ ap reverse split ∙ reverse-append dropped popped,
      all-reverse (λ t. has_text t name_suffixes) dropped ∙ bad,
      ends_of-EndsAre popped (pop_while-StopsAt name_suffixes (reverse tokens)) h,
    )
