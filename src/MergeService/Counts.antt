-- ===== src/MergeService/Counts.antt =====
-- Counting the standing merges of a pair over the records of apps/api/src/admin/merge/merge.service.ts.
use text.Mathlib.Text.{◌==◌}
use text.Mathlib.TextEquality.{eq_iff}
use capbase.Base.{
  ℕ, ◌+◌, String, ◌≡◌, refl, ◌∙◌, Bool, true, false, Option, some, is_some, List, [], ◌∷◌, ◌++◌,
  if◌then◌else◌, All, arith, Bool-cases, inl, inr,
}
use capbase.MergeService.Rows.{IsKeyed}
use capbase.MergeService.Store.{
  MergeRecord, MergeCandidate, MergeStatus, find_candidate, find_record,
}
use capbase.MergeService.Merging.{decide}
use capbase.MergeService.Unmerging.{mark_unmerged}
use capbase.MergeService.Candidates.{live_for, count_live, merged_count}

unfoldable pub one_if : Bool → ℕ
one_if b = if b then 1 else 0

pub count_live-append :
    (id : String) (rows : List MergeRecord) (entry : MergeRecord)
    → count_live id (rows ++ entry ∷ []) ≡ count_live id rows + one_if (live_for id entry)
unfolding count_live one_if
count_live-append id [] entry = ground arith
count_live-append id (row ∷ rows) entry = ground (arith, count_live-append id rows entry)

pub IsKeyed-append :
    (rows : List MergeRecord) (entry : MergeRecord)
    → IsKeyed (λ row. row.id) rows
    → All (λ row. row.id == entry.id ≡ false) rows
    → IsKeyed (λ row. row.id) (rows ++ entry ∷ [])
IsKeyed-append [] entry k f = (tt, tt)
IsKeyed-append (row ∷ rows) entry k f = (All-snoc rows k.0, IsKeyed-append rows entry k.1 f.1)
  where
    All-snoc :
        (others : List MergeRecord)
        → All (λ other. row.id == other.id ≡ false) others
        → All (λ other. row.id == other.id ≡ false) (others ++ entry ∷ [])
    All-snoc [] h = (f.0, tt)
    All-snoc (other ∷ others) h = (h.0, All-snoc others h.1)

pub mark_unmerged-All :
    (key rid : String) (now : ℕ) (admin : String) (rows : List MergeRecord)
    → All (λ other. key == other.id ≡ false) rows
    → All (λ other. key == other.id ≡ false) (mark_unmerged rid now admin rows)
unfolding mark_unmerged
mark_unmerged-All key rid now admin [] h = tt
mark_unmerged-All key rid now admin (row ∷ rows) h = elim (Bool-cases (row.id == rid)) [
  | inl e ↦ rw e (h.0, mark_unmerged-All key rid now admin rows h.1)
  | inr e ↦ rw e (h.0, mark_unmerged-All key rid now admin rows h.1)
]

pub IsKeyed-mark_unmerged :
    (rid : String) (now : ℕ) (admin : String) (rows : List MergeRecord)
    → IsKeyed (λ row. row.id) rows
    → IsKeyed (λ row. row.id) (mark_unmerged rid now admin rows)
unfolding mark_unmerged
IsKeyed-mark_unmerged rid now admin [] k = tt
IsKeyed-mark_unmerged rid now admin (row ∷ rows) k = elim (Bool-cases (row.id == rid)) [
  | inl e ↦ rw e (
    mark_unmerged-All row.id rid now admin rows k.0,
    IsKeyed-mark_unmerged rid now admin rows k.1,
  )
  | inr e ↦ rw e (
    mark_unmerged-All row.id rid now admin rows k.0,
    IsKeyed-mark_unmerged rid now admin rows k.1,
  )
]

pub mark_unmerged-none :
    (rid : String) (now : ℕ) (admin : String) (rows : List MergeRecord)
    → All (λ other. rid == other.id ≡ false) rows
    → mark_unmerged rid now admin rows ≡ rows
unfolding mark_unmerged
mark_unmerged-none rid now admin [] h = refl
mark_unmerged-none rid now admin (row ∷ rows) h =
    ground (arith, eq_iff rid row.id, eq_iff row.id rid, mark_unmerged-none rid now admin rows)

-- A reversal ends one standing merge, of the pair of its record.
pub count_live-mark_unmerged :
    (id rid : String) (now : ℕ) (admin : String) (rows : List MergeRecord) (entry : MergeRecord)
    → IsKeyed (λ row. row.id) rows
    → find_record rid rows ≡ some entry
    → is_some entry.unmerged_at ≡ false
    → count_live id (mark_unmerged rid now admin rows) + one_if (live_for id entry)
      ≡ count_live id rows
unfolding count_live mark_unmerged find_record one_if
count_live-mark_unmerged id rid now admin [] entry k f u = absurd (ground arith)
count_live-mark_unmerged id rid now admin (row ∷ rows) entry k f u =
    elim (Bool-cases (row.id == rid)) [
      | inl e ↦
          let same : row.id ≡ rid = (eq_iff row.id rid).0 e in
          let others : All (λ other. rid == other.id ≡ false) rows = rw (← same) k.0 in
          ground (arith, mark_unmerged-none rid now admin rows others)
      | inr e ↦ ground (arith, count_live-mark_unmerged id rid now admin rows entry k.1)
    ]

-- The counts of the pairs of one id change with its status, and the others do not change.
pub decide-counted :
    (before after : String → ℕ) (key : String) (status : MergeStatus) (at : Option ℕ)
    (by : Option String) (rows : List MergeCandidate)
    → ((id : String) → id == key ≡ false → after id ≡ before id)
    → ((id : String) (old : MergeStatus)
        → id == key ≡ true
        → before id ≡ merged_count old
        → after id ≡ merged_count status)
    → All (λ c. before c.id ≡ merged_count c.status) rows
    → All (λ c. after c.id ≡ merged_count c.status) (decide key status at by rows)
unfolding decide
decide-counted before after key status at by [] o s h = tt
decide-counted before after key status at by (c ∷ rows) o s h = elim (Bool-cases (c.id == key)) [
  | inl e ↦ rw e (s c.id c.status e h.0, decide-counted before after key status at by rows o s h.1)
  | inr e ↦ rw e (o c.id e ∙ h.0, decide-counted before after key status at by rows o s h.1)
]

pub All-count :
    (before after : String → ℕ) (rows : List MergeCandidate)
    → ((id : String) → after id ≡ before id)
    → All (λ c. before c.id ≡ merged_count c.status) rows
    → All (λ c. after c.id ≡ merged_count c.status) rows
All-count before after [] o h = tt
All-count before after (c ∷ rows) o h = (o c.id ∙ h.0, All-count before after rows o h.1)

pub find_candidate-counted :
    (count : String → ℕ) (key : String) (rows : List MergeCandidate) (c : MergeCandidate)
    → find_candidate key rows ≡ some c
    → All (λ c. count c.id ≡ merged_count c.status) rows
    → (c.id ≡ key) × (count c.id ≡ merged_count c.status)
unfolding find_candidate
find_candidate-counted count key [] c f h = absurd (ground arith)
find_candidate-counted count key (r ∷ rows) c f h = elim (Bool-cases (r.id == key)) [
  | inl e ↦ let same : r ≡ c = ground arith in rw (← same) ((eq_iff r.id key).0 e, h.0)
  | inr e ↦ find_candidate-counted count key rows c (ground arith) h.1
]
