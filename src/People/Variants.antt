-- ===== src/People/Variants.antt =====
-- `variantPairs` of apps/jobs/src/ingest/person-matcher.ts.
use capbase.Base.{
  ℕ, Option, none, some, List, [], ◌∷◌, ◌++◌, ◌==◌, ltb, if◌then◌else◌, Text, CaseTables, eq_text,
  has_text, length, or_else,
}
use capbase.People.Names.{given, name_variant_key}
use capbase.People.Assign.{get, put}

pub record AssignedRole : Type 0 where
  pub person_id : Text
  pub org_id : Option Text
  pub name : Text

pub record VariantPair : Type 0 where
  pub a_id : Text
  pub b_id : Text
  pub evidence : Text

pub record VariantResult : Type 0 where
  pub pairs : List VariantPair
  pub skipped : List (Text × ℕ)

abbrev pub bar : ℕ
bar = b'|'

-- `${role.orgId}|${key}`, of a role with an organisation and a key.
unfoldable pub full_key : CaseTables → AssignedRole → Option Text
full_key tables role = elim (given role.org_id) [
  | none ↦ none
  | some org ↦
      let key = name_variant_key tables role.name in
      if eq_text key [] then none else some (org ++ bar ∷ key)
]

-- `set.add(id)`
unfoldable pub add_text : Text → List Text → List Text
add_text id people = if has_text id people then people else people ++ id ∷ []

unfoldable pub add_to_group :
    CaseTables → List (Text × List Text) → AssignedRole → List (Text × List Text)
add_to_group tables groups role = elim (full_key tables role) [
  | none ↦ groups
  | some full ↦ put full (add_text role.person_id (or_else (get full groups) [])) groups
]

unfoldable pub group_people :
    CaseTables → List (Text × List Text) → List AssignedRole → List (Text × List Text)
group_people tables groups [] = groups
group_people tables groups (role ∷ roles) =
    group_people tables (add_to_group tables groups role) roles

-- `full.slice(full.indexOf('|') + 1)`; without a bar the index is -1, and the text is whole.
unfoldable pub after_bar : Text → Option Text
after_bar [] = none
after_bar (c ∷ s) = let rest = after_bar s in if c == bar then some s else rest

abbrev pub evidence_of : Text → Text
evidence_of full = or_else (after_bar full) full

-- The loop on `j`, and the one on `i`.
unfoldable pub pairs_after : Text → Text → List Text → List VariantPair
pairs_after evidence a [] = []
pairs_after evidence a (b ∷ people) =
    record { a_id = a; b_id = b; evidence = evidence } ∷ pairs_after evidence a people

unfoldable pub pairs_of : Text → List Text → List VariantPair
pairs_of evidence [] = []
pairs_of evidence (a ∷ people) = pairs_after evidence a people ++ pairs_of evidence people

unfoldable pub propose_group : ℕ → VariantResult → Text × List Text → VariantResult
propose_group limit out group =
    if ltb (length group.1) 2
    then out
    else if ltb limit (length group.1)
    then record out { skipped = out.skipped ++ (evidence_of group.0, length group.1) ∷ [] }
    else record out { pairs = out.pairs ++ pairs_of (evidence_of group.0) group.1 }

unfoldable pub propose_groups : ℕ → VariantResult → List (Text × List Text) → VariantResult
propose_groups limit out [] = out
propose_groups limit out (group ∷ groups) =
    propose_groups limit (propose_group limit out group) groups

unfoldable pub variant_pairs : CaseTables → List AssignedRole → ℕ → VariantResult
variant_pairs tables roles limit =
    propose_groups limit (record { pairs = []; skipped = [] }) (group_people tables [] roles)
