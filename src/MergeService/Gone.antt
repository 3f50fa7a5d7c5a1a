-- ===== src/MergeService/Gone.antt =====
-- A write that takes a row away from its owner leaves none there, on any table of
-- apps/api/src/admin/merge/merge.service.ts.
use capbase.Base.{
  String, ◌≡◌, Bool, true, false, not, ◌&&◌, List, [], ◌∷◌, has, keep, All, arith, Bool-cases, inl,
  inr,
}
use capbase.MergeService.Rows.{ids_where, update_ids, move_loop, moved_table, IsKeyed}
use capbase.MergeService.Tables.{has-ids_where}
use capbase.MergeService.Moves.{loop-rows, loop-repointed}

pub keep-All {ℓ} :
    {R : Type ℓ} (p : R → Bool) (rows : List R) → All (λ row. p row ≡ true) (keep p rows)
keep-All p [] = tt
keep-All p (row ∷ rows) = elim (Bool-cases (p row)) [
  | inl e ↦ rw e (e, keep-All p rows)
  | inr e ↦ rw e (keep-All p rows)
]

pub All-kept {ℓ} :
    {R : Type ℓ} (id : R → String) (is_mine taken : R → Bool) (ids : List String) (rows : List R)
    → All (λ row. not (is_mine row && taken row) ≡ true) rows
    → All (λ row. has (id row) ids ≡ (is_mine row && not (taken row))) rows
    → All (λ row. has (id row) ids ≡ is_mine row) rows
All-kept id is_mine taken ids [] h k = tt
All-kept id is_mine taken ids (row ∷ rows) h k =
    (ground arith, All-kept id is_mine taken ids rows h.1 k.1)

module _ {ℓ} {R : Type ℓ} (id : R → String) (is_mine : R → Bool) (write : R → R)
    (leaves : (row : R) → is_mine row ≡ true → is_mine (write row) ≡ false) where
  update_ids-gone :
      (ids : List String) (rows : List R)
      → All (λ row. has (id row) ids ≡ is_mine row) rows
      → All (λ row. is_mine row ≡ false) (update_ids id ids write rows)
  unfolding update_ids
  update_ids-gone ids [] h = tt
  update_ids-gone ids (row ∷ rows) h = elim (Bool-cases (is_mine row)) [
    | inl e ↦ rw (h.0, e) (leaves row e, update_ids-gone ids rows h.1)
    | inr e ↦ rw (h.0, e) (e, update_ids-gone ids rows h.1)
  ]

  pub repoint-gone :
      (rows : List R)
      → IsKeyed id rows
      → All (λ row. is_mine row ≡ false) (update_ids id (ids_where id is_mine rows) write rows)
  repoint-gone rows k =
      update_ids-gone (ids_where id is_mine rows) rows (has-ids_where id is_mine rows k)

  pub moved_table-gone :
      (taken : R → Bool) (rows : List R)
      → IsKeyed id rows
      → All (λ row. is_mine row ≡ false) (moved_table id is_mine taken write rows)
  unfolding moved_table
  moved_table-gone taken rows k =
      let loop = move_loop id is_mine taken rows in
      let kept : All (λ row. not (is_mine row && taken row) ≡ true) loop.rows =
        rw (loop-rows id is_mine taken rows k)
          (keep-All (λ row. not (is_mine row && taken row)) rows) in
      update_ids-gone loop.remap loop.rows (
        All-kept id is_mine taken loop.remap loop.rows kept
          (loop-repointed id is_mine taken rows k))
