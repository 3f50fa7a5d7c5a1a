-- ===== src/MergeService/Reversal.antt =====
-- `unmerge` after `merge`: apps/api/src/admin/merge/merge.service.ts.
use text.Mathlib.Text.{◌==◌}
use text.Mathlib.TextEquality.{eq_iff}
use capbase.Base.{
  String, ◌≡◌, refl, Bool, true, false, Option, none, some, List, [], ◌∷◌, ◌++◌, if◌then◌else◌, has,
  All, arith, Bool-cases, Option-cases, inl, inr, ok,
}
use capbase.MergeService.Rows.{ids_where, update_ids, update_where, IsKeyed}
use capbase.MergeService.Tables.{has-ids_where}
use capbase.MergeService.Store.{Entity, Revision, find_entity, set_merged_into}
use capbase.MergeService.Parts.{revises_company, revises_entity, move_revisions, restore_revisions}
use capbase.MergeService.Merging.{rows_to_merge}
use capbase.MergeService.Unmerging.{rows_to_unmerge}

-- Revisions that are not the new one, which the merge adds at the end.
revisions_back_at :
    (survivor losing : String) (company_ids entity_ids : List String) (new : Revision)
    (revisions : List Revision)
    → All (λ r. has r.id company_ids ≡ revises_company losing r) revisions
    → All (λ r. has r.id entity_ids ≡ revises_entity losing r) revisions
    → has new.id company_ids ≡ false
    → has new.id entity_ids ≡ false
    → restore_revisions losing company_ids entity_ids
        (move_revisions survivor losing revisions ++ new ∷ [])
      ≡ revisions ++ new ∷ []
unfolding restore_revisions move_revisions update_ids update_where
revisions_back_at survivor losing company_ids entity_ids new [] c e n m = ground arith
revisions_back_at survivor losing company_ids entity_ids new (r ∷ revisions) c e n m = ground (
  arith,
  revisions_back_at survivor losing company_ids entity_ids new revisions,
  eq_iff r.company_id losing,
  eq_iff r.entity_id losing,
)

has-ids_where-fresh {ℓ} :
    {R : Type ℓ} (id : R → String) (key : String) (test : R → Bool) (rows : List R)
    → All (λ r. key == id r ≡ false) rows
    → has key (ids_where id test rows) ≡ false
unfolding ids_where
has-ids_where-fresh id key test [] h = refl
has-ids_where-fresh id key test (r ∷ rows) h =
    ground (arith, eq_iff key (id r), eq_iff (id r) key, has-ids_where-fresh id key test rows)

pub revisions_back :
    (survivor losing : String) (new : Revision) (revisions : List Revision)
    → IsKeyed (λ r. r.id) revisions
    → All (λ r. new.id == r.id ≡ false) revisions
    → restore_revisions losing
        (ids_where (λ r. r.id) (revises_company losing) revisions)
        (ids_where (λ r. r.id) (revises_entity losing) revisions)
        (move_revisions survivor losing revisions ++ new ∷ [])
      ≡ revisions ++ new ∷ []
revisions_back survivor losing new revisions k f =
    revisions_back_at survivor losing (ids_where (λ r. r.id) (revises_company losing) revisions)
      (ids_where (λ r. r.id) (revises_entity losing) revisions) new revisions
      (has-ids_where (λ r. r.id) (revises_company losing) revisions k)
      (has-ids_where (λ r. r.id) (revises_entity losing) revisions k)
      (has-ids_where-fresh (λ r. r.id) new.id (revises_company losing) revisions f)
      (has-ids_where-fresh (λ r. r.id) new.id (revises_entity losing) revisions f)

set_merged_into-other :
    (id : String) (target : Option String) (rows : List Entity)
    → All (λ row. id == row.id ≡ false) rows
    → set_merged_into id target rows ≡ rows
unfolding set_merged_into
set_merged_into-other id target [] h = refl
set_merged_into-other id target (row ∷ rows) h =
    ground (arith, eq_iff id row.id, eq_iff row.id id, set_merged_into-other id target rows)

-- The loser is taken out of its survivor again.
pub entities_back :
    (id target : String) (rows : List Entity) (l : Entity)
    → IsKeyed (λ row. row.id) rows
    → find_entity id rows ≡ some l
    → l.merged_into_id ≡ none
    → set_merged_into id none (set_merged_into id (some target) rows) ≡ rows
unfolding set_merged_into find_entity
entities_back id target [] l k f n = refl
entities_back id target (row ∷ rows) l k f n = elim (Bool-cases (row.id == id)) [
  | inl e ↦
      let same : row.id ≡ id = (eq_iff row.id id).0 e in
      let others : All (λ other. id == other.id ≡ false) rows = rw (← same) k.0 in
      let found : row.merged_into_id ≡ none = ground arith in
      ground (
        arith,
        found,
        set_merged_into-other id (some target) rows others,
        set_merged_into-other id none rows others,
      )
  | inr e ↦ ground (arith, entities_back id target rows l)
]

pub rows_to_merge-inv :
    (survivor losing : String) (rows : List Entity) (s l : Entity)
    → rows_to_merge survivor losing rows ≡ ok (s, l)
    → (find_entity survivor rows ≡ some s)
      × (find_entity losing rows ≡ some l)
      × (s.merged_into_id ≡ none)
      × (l.merged_into_id ≡ none)
unfolding rows_to_merge
rows_to_merge-inv survivor losing rows s l h = elim (Option-cases (find_entity survivor rows)) [
  | inl e ↦ absurd (ground arith)
  | inr (s', e) ↦ elim (Option-cases (find_entity losing rows)) [
    | inl d ↦ absurd (ground arith)
    | inr (l', d) ↦ (ground arith, ground arith, ground arith, ground arith)
  ]
]

pub find_entity-set_merged_into :
    (key id target : String) (rows : List Entity) (row : Entity)
    → find_entity key rows ≡ some row
    → find_entity key (set_merged_into id (some target) rows)
      ≡ some (if row.id == id then record row { merged_into_id = some target } else row)
unfolding find_entity set_merged_into
find_entity-set_merged_into key id target [] row h = absurd (ground arith)
find_entity-set_merged_into key id target (r ∷ rows) row h =
    ground (arith, find_entity-set_merged_into key id target rows row)

pub find_entity-id :
    (key : String) (rows : List Entity) (row : Entity)
    → find_entity key rows ≡ some row
    → row.id == key ≡ true
unfolding find_entity
find_entity-id key [] row h = absurd (ground arith)
find_entity-id key (r ∷ rows) row h = ground (arith, find_entity-id key rows row)

-- What a merge checked, a reversal right after it finds.
pub rows_to_unmerge-merged :
    (survivor losing : String) (rows : List Entity) (s l : Entity)
    → survivor == losing ≡ false
    → rows_to_merge survivor losing rows ≡ ok (s, l)
    → rows_to_unmerge survivor losing (set_merged_into losing (some survivor) rows)
      ≡ ok (s, record l { merged_into_id = some survivor })
unfolding rows_to_unmerge
rows_to_unmerge-merged survivor losing rows s l d h =
    let (fs, fl, ns, nl) = rows_to_merge-inv survivor losing rows s l h in
    let ms = find_entity-set_merged_into survivor losing survivor rows s fs in
    let ml = find_entity-set_merged_into losing losing survivor rows l fl in
    let is = find_entity-id survivor rows s fs in
    let il = find_entity-id losing rows l fl in
    let other : s.id == losing ≡ false =
      ground (arith, eq_iff s.id losing, eq_iff s.id survivor, eq_iff survivor losing) in
    ground (arith, ms, ml, il, other, eq_iff survivor survivor)
