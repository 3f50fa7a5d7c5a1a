-- ===== src/MergeService/Rows.antt =====
-- Queries on a table whose rows have an id, as apps/api/src/admin/merge/merge.service.ts uses them: `findMany`
-- of ids, `updateMany` by ids, `delete` by id, and the loop that moves or deletes.
use text.Mathlib.Text.{◌==◌}
use capbase.Base.{
  ℕ, suc, String, ◌≡◌, Bool, true, false, not, List, [], ◌∷◌, if◌then◌else◌, has, keep, All,
}

-- What the loop of a move leaves: the rows, the content of those it deleted, and the ids to repoint.
pub record Loop {ℓ} (R : Type ℓ) : Type ℓ where
  pub rows : List R
  pub deleted : List R
  pub remap : List String

module _ {ℓ} {R : Type ℓ} (id : R → String) where
  unfoldable pub ids_where : (R → Bool) → List R → List String
  ids_where test [] = []
  ids_where test (row ∷ rows) =
      let rest = ids_where test rows in if test row then id row ∷ rest else rest

  unfoldable pub update_ids : List String → (R → R) → List R → List R
  update_ids ids write [] = []
  update_ids ids write (row ∷ rows) =
      (if has (id row) ids then write row else row) ∷ update_ids ids write rows

  unfoldable pub delete_id : String → List R → List R
  delete_id key rows = keep (λ row. not (id row == key)) rows

  unfoldable pub move_rows : (R → Bool) → List R → List R → Loop R
  move_rows taken [] rows = record { rows = rows; deleted = []; remap = [] }
  move_rows taken (row ∷ mine) rows = elim (taken row) [
    | true ↦
        let rest = move_rows taken mine (delete_id (id row) rows) in
        record rest { deleted = row ∷ rest.deleted }
    | false ↦ let rest = move_rows taken mine rows in record rest { remap = id row ∷ rest.remap }
  ]

  -- The loop over the rows of the loser.
  unfoldable pub move_loop : (R → Bool) → (R → Bool) → List R → Loop R
  move_loop is_mine taken rows = move_rows taken (keep is_mine rows) rows

  -- The table after it: the colliding rows gone, the others written.
  unfoldable pub moved_table : (R → Bool) → (R → Bool) → (R → R) → List R → List R
  moved_table is_mine taken write rows =
      let loop = move_loop is_mine taken rows in update_ids loop.remap write loop.rows

  -- `updateMany` by a condition.
  unfoldable pub update_where : (R → Bool) → (R → R) → List R → List R
  update_where test write [] = []
  update_where test write (row ∷ rows) =
      (if test row then write row else row) ∷ update_where test write rows

  -- No two rows have one id: the primary key.
  abbrev pub IsKeyed : List R → Type 0
  IsKeyed [] = Unit
  IsKeyed (row ∷ rows) = All (λ other. id row == id other ≡ false) rows × IsKeyed rows

-- `create` once for each recorded content; the ids of one call are numbered.
unfoldable pub create_rows {ℓ κ} : {D : Type ℓ} {R : Type κ} → (ℕ → D → R) → ℕ → List D → List R
create_rows create n [] = []
create_rows create n (content ∷ contents) = create n content ∷ create_rows create (suc n) contents
