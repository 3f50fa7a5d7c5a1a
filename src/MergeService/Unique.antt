-- ===== src/MergeService/Unique.antt =====
-- A merge never repoints a row onto a unique key that is taken: the loops of `mergeCompany`,
-- `moveCitations` and `moveIdentifiers` in apps/api/src/admin/merge/merge.service.ts, against the unique
-- keys of packages/db/prisma/schema.prisma.
use text.Mathlib.Text.{◌==◌}
use text.Mathlib.TextEquality.{eq_iff}
use capbase.Base.{
  String, ◌≡◌, refl, ◌∙◌, Bool, true, ◌&&◌, List, eq_text, any, All, arith, Option, ok,
}
use capbase.MergeService.Rows.{moved_table, IsKeyed}
use capbase.MergeService.Moves.{loop-rows}
use capbase.MergeService.Store.{
  SavedCompany, Citation, EntityIdentifier, IdentifiableType, company, investor, person, Entity,
  MergeRecord, MergeCandidate, Database,
}
use capbase.MergeService.Calls.{Draw}
use capbase.MergeService.Merging.{merge_step, move_shared, move_company, merge}
use capbase.MergeService.Restoring.{EachTableKeyed}
use capbase.MergeService.Undone.{merge-inv, merge_rows-inv}
use capbase.MergeService.Parts.{
  saved_of, already_saved, save_on, move_saves, cited_on, already_cited, cite_on, citation_key,
  move_citations, identifies, already_held, identify, identifier_loop, move_identifiers,
}
use capbase.MergeService.Apart.{
  NoneCollide, NoneCollide-keep, moved_table-NoneCollide, All-swap, All-imp, any-All, has-keep-any,
  has_text-keep-any, eq_text_sym, joined_same, update_ids-invisible,
}

-- `@@unique([userId, companyId])`
abbrev pub same_save : SavedCompany → SavedCompany → Bool
same_save r s = r.user_id == s.user_id && r.company_id == s.company_id

saves_guarded :
    (survivor : String) (saves : List SavedCompany) (r : SavedCompany)
    → All
        (λ s. same_save (save_on survivor r) s ≡ true → already_saved survivor saves r ≡ true)
        saves
saves_guarded survivor saves r =
    let q = λ (s : SavedCompany). saved_of survivor s && s.user_id == r.user_id in
    let found = has-keep-any (λ s. s.user_id) (saved_of survivor) r.user_id saves in
    All-imp (λ s. q s ≡ true → any q saves ≡ true)
      (λ s. same_save (save_on survivor r) s ≡ true → already_saved survivor saves r ≡ true) saves
      (λ s h e.
        found
        ∙ h (
            ground (
              arith,
              eq_iff r.user_id s.user_id,
              eq_iff s.user_id r.user_id,
              eq_iff survivor s.company_id,
              eq_iff s.company_id survivor,
            )))
      (any-All q saves)

saves_unique :
    (survivor losing : String) (saves : List SavedCompany)
    → IsKeyed (λ s. s.id) saves
    → NoneCollide same_save saves
    → NoneCollide same_save (move_saves survivor losing saves)
unfolding move_saves
saves_unique survivor losing saves k u =
    moved_table-NoneCollide (λ s. s.id) (saved_of losing) (already_saved survivor saves)
      (save_on survivor) same_save
      (λ r s. ground (
        arith,
        eq_iff r.user_id s.user_id,
        eq_iff s.user_id r.user_id,
        eq_iff r.company_id s.company_id,
        eq_iff s.company_id r.company_id,
      ))
      (λ r s m n h. ground (
        arith,
        eq_iff r.company_id losing,
        eq_iff s.company_id losing,
        eq_iff r.company_id s.company_id,
      ))
      saves k
      (All-swap
        (λ r s.
          saved_of losing r ≡ true
          → same_save (save_on survivor r) s ≡ true
          → already_saved survivor saves r ≡ true)
        saves (λ r. All-imp _ _ saves (λ s h m. h) (saves_guarded survivor saves r)))
      u

-- `@@unique([sourceId, entityType, entityId, field])`
abbrev pub same_citation : Citation → Citation → Bool
same_citation r s =
    eq_text r.source_id s.source_id
    && eq_text r.field s.field
    && r.entity_type == s.entity_type
    && r.entity_id == s.entity_id

-- `@@unique([scheme, value, entityType])`
abbrev pub same_identifier : EntityIdentifier → EntityIdentifier → Bool
same_identifier r s =
    eq_text r.scheme s.scheme && eq_text r.value s.value && r.entity_type == s.entity_type

citations_guarded :
    (entity_type survivor losing : String) (citations : List Citation) (r : Citation)
    → All
        (λ s.
          cited_on entity_type losing r ≡ true
          → same_citation (cite_on survivor r) s ≡ true
          → already_cited entity_type survivor citations r ≡ true)
        citations
citations_guarded entity_type survivor losing citations r =
    let q = λ (s : Citation).
      cited_on entity_type survivor s && eq_text (citation_key s) (citation_key r) in
    let found =
      has_text-keep-any citation_key (cited_on entity_type survivor) (citation_key r) citations in
    All-imp (λ s. q s ≡ true → any q citations ≡ true) _ citations
      (λ s h m e.
        found
        ∙ h (
            ground (
              arith,
              joined_same r.source_id s.source_id r.field s.field,
              eq_iff r.entity_type s.entity_type,
              eq_iff r.entity_type entity_type,
              eq_iff s.entity_type entity_type,
              eq_iff survivor s.entity_id,
              eq_iff s.entity_id survivor,
            )))
      (any-All q citations)

citations_unique :
    (entity_type survivor losing : String) (citations : List Citation)
    → IsKeyed (λ c. c.id) citations
    → NoneCollide same_citation citations
    → NoneCollide same_citation (move_citations entity_type survivor losing citations)
unfolding move_citations
citations_unique entity_type survivor losing citations k u =
    moved_table-NoneCollide (λ c. c.id) (cited_on entity_type losing)
      (already_cited entity_type survivor citations) (cite_on survivor) same_citation
      (λ r s. ground (
        arith,
        eq_text_sym r.source_id s.source_id,
        eq_text_sym r.field s.field,
        eq_iff r.entity_type s.entity_type,
        eq_iff s.entity_type r.entity_type,
        eq_iff r.entity_id s.entity_id,
        eq_iff s.entity_id r.entity_id,
      ))
      (λ r s m n h. ground (
        arith,
        eq_iff r.entity_id losing,
        eq_iff s.entity_id losing,
        eq_iff r.entity_id s.entity_id,
      ))
      citations k (All-swap _ citations (citations_guarded entity_type survivor losing citations)) u

identifiers_unique :
    (entity_type survivor losing : String) (identifiers : List EntityIdentifier)
    → IsKeyed (λ i. i.id) identifiers
    → NoneCollide same_identifier identifiers
    → NoneCollide same_identifier (move_identifiers entity_type survivor losing identifiers)
unfolding move_identifiers identifier_loop moved_table
identifiers_unique entity_type survivor losing identifiers k u =
    update_ids-invisible (λ i. i.id) (identify survivor) same_identifier (λ r s. refl) (λ r s. refl)
      (identifier_loop entity_type survivor losing identifiers).remap
      (identifier_loop entity_type survivor losing identifiers).rows
      (rw
        (loop-rows (λ i. i.id) (identifies entity_type losing)
          (already_held entity_type survivor identifiers) identifiers k)
        (NoneCollide-keep same_identifier _ identifiers u))

-- The unique keys of the three tables hold.
pub record UniqueKeys (db : Database) : Type 0 where
  pub saves : NoneCollide same_save db.saves
  pub citations : NoneCollide same_citation db.citations
  pub identifiers : NoneCollide same_identifier db.identifiers

merge_step-UniqueKeys :
    (type : IdentifiableType) (survivor losing : String) (s l : Entity) (admin rid : String)
    (db : Database) (records : List MergeRecord) (candidates : List MergeCandidate)
    → EachTableKeyed db
    → UniqueKeys db
    → UniqueKeys (record (merge_step type survivor losing s l admin rid db).1 {
      records = records;
      candidates = candidates;
    })
unfolding merge_step move_shared move_company
merge_step-UniqueKeys company survivor losing s l admin rid db records candidates k u = record {
  saves = saves_unique survivor losing db.saves k.saves u.saves;
  citations = citations_unique "company" survivor losing db.citations k.citations u.citations;
  identifiers =
      identifiers_unique "company" survivor losing db.identifiers k.identifiers u.identifiers;
}
merge_step-UniqueKeys investor survivor losing s l admin rid db records candidates k u = record {
  saves = u.saves;
  citations = citations_unique "investor" survivor losing db.citations k.citations u.citations;
  identifiers =
      identifiers_unique "investor" survivor losing db.identifiers k.identifiers u.identifiers;
}
merge_step-UniqueKeys person survivor losing s l admin rid db records candidates k u = record {
  saves = u.saves;
  citations = u.citations;
  identifiers =
      identifiers_unique "person" survivor losing db.identifiers k.identifiers u.identifiers;
}

-- Where every table has its primary key: a merge keeps the unique keys. It never leaves a user with two
-- saves of one company, a source cited twice for one field of one row, nor an identifier on two rows of
-- a type.
pub merge-UniqueKeys :
    (type : IdentifiableType) (survivor losing admin : String) (candidate_id : Option String)
    (draw : Draw) (db merged : Database)
    → EachTableKeyed db
    → UniqueKeys db
    → merge type survivor losing admin candidate_id draw db ≡ ok merged
    → UniqueKeys merged
merge-UniqueKeys type survivor losing admin candidate_id draw db merged k u h =
    let (done, _, mr, e) = merge-inv type survivor losing admin candidate_id draw db merged h in
    let (s, l, _, q) = merge_rows-inv type survivor losing admin draw.revision_id db done mr in
    rw (e, q) (merge_step-UniqueKeys type survivor losing s l admin draw.revision_id db _ _ k u)
