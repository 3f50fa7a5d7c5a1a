-- ===== src/People/Safe.antt =====
-- Whom `assignPeople` creates (apps/jobs/src/ingest/person-matcher.ts).
use capbase.Base.{
  ◌≡◌, refl, ◌∙◌, false, List, [], ◌∷◌, ◌++◌, ◌||◌, map, Text, eq_text, eq_text-same, eq_text_refl,
  has_text, All, arith,
}
use capbase.People.Assign.{NewPerson, ExistingPeople, Assignment}

-- What a created person can not lose: the slug and the key of the name.
abbrev pub Mark : Type 0
Mark = Text × Text

abbrev pub marks : List NewPerson → List Mark
marks l = map (λ p. (p.slug, p.normalized_name)) l

abbrev pub slugs_of : List Mark → List Text
slugs_of l = map (λ e. e.0) l

-- No slug twice.
abbrev pub NoDup : List Text → Type 0
NoDup [] = Unit
NoDup (s ∷ l) = (has_text s l ≡ false) × NoDup l

-- A created person took a slug that was free, and a name of which nobody asked to be removed.
abbrev pub Allowed : ExistingPeople → Mark → Type 0
Allowed existing e =
    (has_text e.0 existing.slugs ≡ false) × (has_text e.1 existing.suppressed ≡ false)

-- What holds of the created people and of the slugs in use.
abbrev pub Sound : ExistingPeople → List Text → List Mark → Type 0
Sound existing taken created =
    All (Allowed existing) created
    × NoDup (slugs_of created)
    × ((s : Text) → has_text s taken ≡ (has_text s existing.slugs || has_text s (slugs_of created)))

pub eq_text-sym : (s t : Text) → eq_text s t ≡ eq_text t s
eq_text-sym s t = ground (arith, eq_text-same s t, eq_text-same t s, eq_text_refl s, eq_text_refl t)

pub has_text-append_one :
    (s t : Text) (l : List Text) → has_text s (l ++ t ∷ []) ≡ (has_text s l || eq_text t s)
unfolding has_text
has_text-append_one s t [] = ground arith
has_text-append_one s t (x ∷ l) = ground (arith, has_text-append_one s t l)

pub NoDup-append_one :
    (t : Text) (l : List Text) → NoDup l → has_text t l ≡ false → NoDup (l ++ t ∷ [])
unfolding has_text
NoDup-append_one t [] h k = (refl, tt)
NoDup-append_one t (x ∷ l) h k = (
  has_text-append_one x t l ∙ ground (arith, eq_text-sym x t),
  NoDup-append_one t l h.1 (ground arith),
)

abbrev pub Good : ExistingPeople → Assignment → Type 0
Good existing run = Sound existing run.slugs (marks run.created)
