-- ===== src/MergeService/Tables.antt =====
-- What the queries of MergeService/Rows do to a table with a primary key.
use text.Mathlib.Text.{◌==◌}
use text.Mathlib.TextEquality.{eq_iff}
use capbase.Base.{
  String, ◌≡◌, refl, sym, ap, ◌∙◌, Bool, true, false, not, List, [], ◌∷◌, has, keep, All, arith,
  Bool-cases, inl, inr,
}
use capbase.MergeService.Rows.{ids_where, update_ids, delete_id, move_rows, update_where, IsKeyed}

pub All-keep {ℓ κ} :
    {R : Type ℓ} (P : R → Type κ) (test : R → Bool) (rows : List R)
    → All P rows
    → All P (keep test rows)
All-keep P test [] h = tt
All-keep P test (row ∷ rows) h = elim (Bool-cases (test row)) [
  | inl e ↦ rw e (h.0, All-keep P test rows h.1)
  | inr e ↦ rw e (All-keep P test rows h.1)
]

keep-true {ℓ} : {R : Type ℓ} (rows : List R) → keep (λ row. true) rows ≡ rows
keep-true [] = refl
keep-true (row ∷ rows) = ap (λ l. row ∷ l) (keep-true rows)

module _ {ℓ} {R : Type ℓ} (id : R → String) where
  IsKeyed-keep : (test : R → Bool) (rows : List R) → IsKeyed id rows → IsKeyed id (keep test rows)
  IsKeyed-keep test [] h = tt
  IsKeyed-keep test (row ∷ rows) h = elim (Bool-cases (test row)) [
    | inl e ↦
        rw e
          (All-keep (λ other. id row == id other ≡ false) test rows h.0, IsKeyed-keep test rows h.1)
    | inr e ↦ rw e (IsKeyed-keep test rows h.1)
  ]

  has-ids_where_other :
      (key : String) (test : R → Bool) (rows : List R)
      → All (λ other. key == id other ≡ false) rows
      → has key (ids_where id test rows) ≡ false
  unfolding ids_where
  has-ids_where_other key test [] h = refl
  has-ids_where_other key test (row ∷ rows) h =
      ground (arith, eq_iff key (id row), eq_iff (id row) key, has-ids_where_other key test rows)

  ids_where_cons :
      (test : R → Bool) (row : R) (rows others : List R)
      → All (λ other. id row == id other ≡ false) others
      → All (λ other. has (id other) (ids_where id test rows) ≡ test other) others
      → All (λ other. has (id other) (ids_where id test (row ∷ rows)) ≡ test other) others
  unfolding ids_where
  ids_where_cons test row rows [] h k = tt
  ids_where_cons test row rows (other ∷ others) h k =
      (ground (arith, eq_iff (id row) (id other)), ids_where_cons test row rows others h.1 k.1)

  has-ids_where_head :
      (test : R → Bool) (row : R) (rows : List R)
      → All (λ other. id row == id other ≡ false) rows
      → has (id row) (ids_where id test (row ∷ rows)) ≡ test row
  unfolding ids_where
  has-ids_where_head test row rows h =
      ground (arith, eq_iff (id row) (id row), has-ids_where_other (id row) test rows h)

  -- An id is among those of the rows with a property exactly when its own row has it.
  pub has-ids_where :
      (test : R → Bool) (rows : List R)
      → IsKeyed id rows
      → All (λ row. has (id row) (ids_where id test rows) ≡ test row) rows
  has-ids_where test [] h = tt
  has-ids_where test (row ∷ rows) h = (
    has-ids_where_head test row rows h.0,
    ids_where_cons test row rows rows h.0 (has-ids_where test rows h.1),
  )

  pub update_ids-update_where :
      (ids : List String) (test : R → Bool) (write : R → R) (rows : List R)
      → All (λ row. has (id row) ids ≡ test row) rows
      → update_ids id ids write rows ≡ update_where id test write rows
  unfolding update_ids update_where
  update_ids-update_where ids test write [] h = refl
  update_ids-update_where ids test write (row ∷ rows) h =
      ground (arith, update_ids-update_where ids test write rows)

  -- Rows that were written and are written back are as they were.
  pub update_ids-back :
      (ids : List String) (test : R → Bool) (write back : R → R) (rows : List R)
      → ((row : R) → id (write row) ≡ id row)
      → ((row : R) → test row ≡ true → back (write row) ≡ row)
      → All (λ row. has (id row) ids ≡ test row) rows
      → update_ids id ids back (update_ids id ids write rows) ≡ rows
  unfolding update_ids
  update_ids-back ids test write back [] same undo h = refl
  update_ids-back ids test write back (row ∷ rows) same undo h =
      ground (arith, same row, undo row, update_ids-back ids test write back rows same undo)

  -- A repointed child table is given back.
  pub repoint-back :
      (test : R → Bool) (write back : R → R) (rows : List R)
      → ((row : R) → id (write row) ≡ id row)
      → ((row : R) → test row ≡ true → back (write row) ≡ row)
      → IsKeyed id rows
      → update_ids id
          (ids_where id test rows)
          back
          (update_ids id (ids_where id test rows) write rows)
        ≡ rows
  repoint-back test write back rows same undo k =
      update_ids-back (ids_where id test rows) test write back rows same undo
        (has-ids_where test rows k)

  pub deleted_lem :
      (taken : R → Bool) (mine rows : List R)
      → (move_rows id taken mine rows).deleted ≡ keep taken mine
  unfolding move_rows
  deleted_lem taken [] rows = refl
  deleted_lem taken (row ∷ mine) rows =
      ground
        (arith, deleted_lem taken mine rows, deleted_lem taken mine (delete_id id (id row) rows))

  pub remap_lem :
      (taken : R → Bool) (mine rows : List R)
      → (move_rows id taken mine rows).remap ≡ ids_where id (λ row. not (taken row)) mine
  unfolding move_rows ids_where
  remap_lem taken [] rows = refl
  remap_lem taken (row ∷ mine) rows =
      ground (arith, remap_lem taken mine rows, remap_lem taken mine (delete_id id (id row) rows))

  pub delete_each : List String → List R → List R
  delete_each [] rows = rows
  delete_each (key ∷ keys) rows = delete_each keys (delete_id id key rows)

  pub rows_lem :
      (taken : R → Bool) (mine rows : List R)
      → (move_rows id taken mine rows).rows ≡ delete_each (ids_where id taken mine) rows
  unfolding move_rows ids_where delete_each
  rows_lem taken [] rows = refl
  rows_lem taken (row ∷ mine) rows =
      ground (arith, rows_lem taken mine rows, rows_lem taken mine (delete_id id (id row) rows))

  keep-delete_id :
      (key : String) (keys : List String) (rows : List R)
      → keep (λ row. not (has (id row) keys)) (delete_id id key rows)
        ≡ keep (λ row. not (has (id row) (key ∷ keys))) rows
  unfolding delete_id
  keep-delete_id key keys [] = refl
  keep-delete_id key keys (row ∷ rows) =
      ground (arith, eq_iff key (id row), eq_iff (id row) key, keep-delete_id key keys rows)

  pub delete_each_lem :
      (keys : List String) (rows : List R)
      → delete_each keys rows ≡ keep (λ row. not (has (id row) keys)) rows
  unfolding delete_each
  delete_each_lem [] rows = sym (keep-true rows)
  delete_each_lem (key ∷ keys) rows =
      delete_each_lem keys (delete_id id key rows) ∙ keep-delete_id key keys rows
