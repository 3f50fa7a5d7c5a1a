-- ===== src/People/Proposed.antt =====
-- What `variantPairs` proposes (apps/jobs/src/ingest/person-matcher.ts).
use mathlib.Core.Path.{subst}
use capbase.Base.{
  ℕ, ◌≡◌, refl, sym, ap, ◌∙◌, inl, inr, Bool, true, false, Option, none, some, List, [], ◌∷◌, ◌++◌,
  ◌&&◌, not, ◌==◌, if◌then◌else◌, Text, CaseTables, eq_text, or_else, all, arith, Option-cases,
}
use capbase.People.Names.{given, name_variant_key}
use capbase.People.Endings.{FirstLast, name_variant_key-FirstLast}
use capbase.People.Variants.{AssignedRole, VariantPair, full_key, bar, after_bar, variant_pairs}
use capbase.People.Grouped.{KeyedPair, variant_pairs-keyed}

abbrev bar_free : Text → Bool
bar_free org = all (λ c. not (c == bar)) org

-- The organisation's id has no bar, as no cuid has; a role may have no organisation.
abbrev pub has_plain_org : AssignedRole → Bool
has_plain_org role = all (λ c. not (c == bar)) (or_else role.org_id [])

abbrev before_bar : Text → Text
before_bar [] = []
before_bar (c ∷ s) = let rest = before_bar s in if c == bar then [] else c ∷ rest

before_bar-org : (org key : Text) → bar_free org ≡ true → before_bar (org ++ bar ∷ key) ≡ org
before_bar-org [] key h = refl
before_bar-org (c ∷ org) key h = ground (arith, before_bar-org org key)

after_bar-org : (org key : Text) → bar_free org ≡ true → after_bar (org ++ bar ∷ key) ≡ some key
unfolding after_bar
after_bar-org [] key h = refl
after_bar-org (c ∷ org) key h = ground (arith, after_bar-org org key)

given-inv : (o : Option Text) (org : Text) → given o ≡ some org → o ≡ some org
given-inv none org h = absurd (ground arith)
given-inv (some x) org h = ground arith

full_key-inv :
    (tables : CaseTables) (r : AssignedRole) (full : Text)
    → full_key tables r ≡ some full
    → (org : Text) × (r.org_id ≡ some org)
      × (eq_text (name_variant_key tables r.name) [] ≡ false)
      × (full ≡ org ++ bar ∷ name_variant_key tables r.name)
unfolding full_key
full_key-inv tables r full h = elim (Option-cases (given r.org_id)) [
  | inl e ↦ absurd (ground arith)
  | inr (org, e) ↦ (org, given-inv r.org_id org e, ground arith, ground arith)
]

all-both :
    (p q : AssignedRole → Bool) (roles : List AssignedRole)
    → all p roles ≡ true
    → all q roles ≡ true
    → all (λ r. p r && q r) roles ≡ true
all-both p q [] h k = refl
all-both p q (r ∷ roles) h k = ground (arith, all-both p q roles)

-- What the pairs are asked to satisfy: of two roles at one organisation, whose names have one first and
-- last name, held by different people, with that name as the evidence.
abbrev pub AskedPair : CaseTables → (AssignedRole → Bool) → (VariantPair → Bool) → Type 0
AskedPair tables p f =
    (r s : AssignedRole) (org key : Text)
    → p r ≡ true
    → p s ≡ true
    → r.org_id ≡ some org
    → s.org_id ≡ some org
    → FirstLast tables r.name key
    → FirstLast tables s.name key
    → eq_text key [] ≡ false
    → eq_text s.person_id r.person_id ≡ false
    → f (record { a_id = r.person_id; b_id = s.person_id; evidence = key }) ≡ true

plain_org-bar_free :
    (b : Bool) (r : AssignedRole) (org : Text)
    → b && has_plain_org r ≡ true
    → r.org_id ≡ some org
    → bar_free org ≡ true
plain_org-bar_free b r org h e =
    let plain : has_plain_org r ≡ true = ground arith in
    ap (λ o. bar_free (or_else o [])) (sym e) ∙ plain

and_left : (b c : Bool) → b && c ≡ true → b ≡ true
and_left b c h = ground arith

some-same : (a b : Text) → some a ≡ some b → a ≡ b
some-same a b e = ap (λ o. or_else o []) e

AskedPair-KeyedPair :
    (tables : CaseTables) (p : AssignedRole → Bool) (f : VariantPair → Bool)
    → AskedPair tables p f
    → KeyedPair tables (λ r. p r && has_plain_org r) f
AskedPair-KeyedPair tables p f h r s full a b k l d =
    let (org, at, named, e) = full_key-inv tables r full k in
    let (org', at', named', e') = full_key-inv tables s full l in
    let key = name_variant_key tables r.name in
    let key' = name_variant_key tables s.name in
    let free : bar_free org ≡ true = plain_org-bar_free (p r) r org a at in
    let free' : bar_free org' ≡ true = plain_org-bar_free (p s) s org' b at' in
    let same_org : org' ≡ org =
      sym (before_bar-org org' key' free')
      ∙ ap before_bar (sym e' ∙ e)
      ∙ before_bar-org org key free in
    let evidence : after_bar full ≡ some key = ap after_bar e ∙ after_bar-org org key free in
    let evidence' : after_bar full ≡ some key' = ap after_bar e' ∙ after_bar-org org' key' free' in
    let same_key : key' ≡ key = some-same key' key (sym evidence' ∙ evidence) in
    ap (λ t. f (record { a_id = r.person_id; b_id = s.person_id; evidence = or_else t full }))
      evidence
    ∙ h r s org key (and_left (p r) (has_plain_org r) a) (and_left (p s) (has_plain_org s) b) at
        (at' ∙ ap some same_org) (name_variant_key-FirstLast tables r.name named)
        (subst (FirstLast tables s.name) same_key (name_variant_key-FirstLast tables s.name named'))
        named d

-- Where no organisation's id has a bar: every pair that `variantPairs` proposes is of two different
-- people who have roles at one organisation, under names with one first and last token, when the
-- normalized names are without suffixes such as "jr" (or with one token alone); and the pair's
-- evidence is that first and last token, which is not empty. It is stated of any test: what holds of all
-- such pairs of the roles holds of those proposed.
pub variant_pairs-all :
    (tables : CaseTables) (p : AssignedRole → Bool) (f : VariantPair → Bool)
    (roles : List AssignedRole) (limit : ℕ)
    → AskedPair tables p f
    → all p roles ≡ true
    → all has_plain_org roles ≡ true
    → all f (variant_pairs tables roles limit).pairs ≡ true
variant_pairs-all tables p f roles limit h a b =
    variant_pairs-keyed tables (λ r. p r && has_plain_org r) f roles limit
      (AskedPair-KeyedPair tables p f h) (all-both p has_plain_org roles a b)
