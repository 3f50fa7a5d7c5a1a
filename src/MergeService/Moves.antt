-- ===== src/MergeService/Moves.antt =====
-- The loop that moves the rows of the loser or deletes them, and its reversal, on any table with a
-- primary key: `mergeCompany`, `moveCitations`, `moveIdentifiers` and what undoes them, in
-- apps/api/src/admin/merge/merge.service.ts.
use mathlib.Core.List.{append-nil}
use capbase.Base.{
  ℕ, suc, String, ◌≡◌, refl, sym, ap, ◌∙◌, Bool, true, not, ◌&&◌, List, [], ◌∷◌, ◌++◌, map, has,
  keep, All, arith, Bool-cases, inl, inr,
}
use capbase.MergeService.Rows.{ids_where, update_ids, move_loop, moved_table, IsKeyed, create_rows}
use capbase.MergeService.Tables.{
  All-keep, has-ids_where, update_ids-back, deleted_lem, remap_lem, rows_lem, delete_each,
  delete_each_lem,
}

keep-congruent {ℓ} :
    {R : Type ℓ} (p q : R → Bool) (rows : List R)
    → All (λ row. p row ≡ q row) rows
    → keep (λ row. not (p row)) rows ≡ keep (λ row. not (q row)) rows
keep-congruent p q [] h = refl
keep-congruent p q (row ∷ rows) h = ground (arith, keep-congruent p q rows)

keep-keep {ℓ} :
    {R : Type ℓ} (p q : R → Bool) (rows : List R)
    → keep q (keep p rows) ≡ keep (λ row. p row && q row) rows
keep-keep p q [] = refl
keep-keep p q (row ∷ rows) = ground (arith, keep-keep p q rows)

keep-agrees {ℓ} :
    {R : Type ℓ} (p q : R → Bool) (rows : List R)
    → All (λ row. p row ≡ q row) rows
    → keep p rows ≡ keep q rows
keep-agrees p q [] h = refl
keep-agrees p q (row ∷ rows) h = ground (arith, keep-agrees p q rows)

keep-denied {ℓ} :
    {R : Type ℓ} (p q : R → Bool) (rows : List R)
    → All (λ row. p row ≡ not (q row)) rows
    → keep (λ row. not (p row)) rows ≡ keep q rows
keep-denied p q [] h = refl
keep-denied p q (row ∷ rows) h = ground (arith, keep-denied p q rows)

-- What a table is like that had the rows `before`, then `merged`, and has `after`: the rows of `before`
-- whose id stands in `merged` too, as they were and in their order, and then new rows, which have the
-- contents of the other rows of `before`, in their order.
abbrev pub Returned {ℓ} : {R : Type ℓ} → (R → String) → (R → R) → List R → List R → List R → Type ℓ
Returned {R} id content before merged after =
    (again : List R) × (after ≡ keep (λ row. has (id row) (map id merged)) before ++ again)
    × (map content again ≡ map content (keep (λ row. not (has (id row) (map id merged))) before))

module _ {ℓ κ} {R : Type ℓ} {C : Type κ} (content : R → C) where
  map-create_rows {ι} :
      {D : Type ι} (record_of : R → D) (create : ℕ → D → R) (p : R → Bool) (n : ℕ) (rows : List R)
      → ((m : ℕ) (row : R) → p row ≡ true → content (create m (record_of row)) ≡ content row)
      → map content (create_rows create n (map record_of (keep p rows))) ≡ map content (keep p rows)
  unfolding create_rows
  map-create_rows record_of create p n [] h = refl
  map-create_rows record_of create p n (row ∷ rows) h = elim (Bool-cases (p row)) [
    | inl e ↦ rw (e, h n row e, map-create_rows record_of create p (suc n) rows h) refl
    | inr e ↦ rw e (map-create_rows record_of create p n rows h)
  ]

module _ {ℓ} {R : Type ℓ} (id : R → String) (is_mine taken : R → Bool) where
  ids_where-keep :
      (test : R → Bool) (rows : List R)
      → ids_where id test (keep is_mine rows) ≡ ids_where id (λ row. is_mine row && test row) rows
  unfolding ids_where
  ids_where-keep test [] = refl
  ids_where-keep test (row ∷ rows) = ground (arith, ids_where-keep test rows)

  pub loop-rows :
      (rows : List R)
      → IsKeyed id rows
      → (move_loop id is_mine taken rows).rows ≡ keep (λ row. not (is_mine row && taken row)) rows
  unfolding move_loop
  loop-rows rows k =
      rows_lem id taken (keep is_mine rows) rows
      ∙ ap (λ ids. delete_each id ids rows) (ids_where-keep taken rows)
      ∙ delete_each_lem id (ids_where id (λ row. is_mine row && taken row) rows) rows
      ∙ keep-congruent (λ row. has (id row) (ids_where id (λ row. is_mine row && taken row) rows))
          (λ row. is_mine row && taken row) rows
          (has-ids_where id (λ row. is_mine row && taken row) rows k)

  loop-remap :
      (rows : List R)
      → (move_loop id is_mine taken rows).remap
        ≡ ids_where id (λ row. is_mine row && not (taken row)) rows
  unfolding move_loop
  loop-remap rows =
      remap_lem id taken (keep is_mine rows) rows ∙ ids_where-keep (λ row. not (taken row)) rows

  loop-deleted :
      (rows : List R)
      → (move_loop id is_mine taken rows).deleted ≡ keep (λ row. is_mine row && taken row) rows
  unfolding move_loop
  loop-deleted rows = deleted_lem id taken (keep is_mine rows) rows ∙ keep-keep is_mine taken rows

  pub loop-repointed :
      (rows : List R)
      → IsKeyed id rows
      → All
          (λ row.
            has (id row) (move_loop id is_mine taken rows).remap ≡ (is_mine row && not (taken row)))
          (move_loop id is_mine taken rows).rows
  loop-repointed rows k =
      rw (loop-rows rows k, loop-remap rows)
        (All-keep
          (λ row.
            has (id row) (ids_where id (λ row. is_mine row && not (taken row)) rows)
            ≡ (is_mine row && not (taken row)))
          (λ row. not (is_mine row && taken row)) rows
          (has-ids_where id (λ row. is_mine row && not (taken row)) rows k))

  map-update_ids :
      (ids : List String) (write : R → R) (rows : List R)
      → ((row : R) → id (write row) ≡ id row)
      → map id (update_ids id ids write rows) ≡ map id rows
  unfolding update_ids
  map-update_ids ids write [] same = refl
  map-update_ids ids write (row ∷ rows) same =
      ground (arith, same row, map-update_ids ids write rows same)

  map-keep : (test : R → Bool) (rows : List R) → map id (keep test rows) ≡ ids_where id test rows
  unfolding ids_where
  map-keep test [] = refl
  map-keep test (row ∷ rows) = ground (arith, map-keep test rows)

  -- The rows that the move left in the table are those that it did not delete.
  moved_table-ids :
      (write : R → R) (rows : List R)
      → ((row : R) → id (write row) ≡ id row)
      → IsKeyed id rows
      → All
          (λ row.
            has (id row) (map id (moved_table id is_mine taken write rows))
            ≡ not (is_mine row && taken row))
          rows
  unfolding moved_table
  moved_table-ids write rows same k =
      rw
        (
          map-update_ids (move_loop id is_mine taken rows).remap write
              (move_loop id is_mine taken rows).rows same,
          loop-rows rows k,
          map-keep (λ row. not (is_mine row && taken row)) rows,
        )
        (has-ids_where id (λ row. not (is_mine row && taken row)) rows k)

  -- The repointed rows go back as they were, and the deleted ones are created again.
  pub moved_table-back {κ} :
      {D : Type κ} (content : R → R) (record_of : R → D) (create : ℕ → D → R) (write back : R → R)
      (n : ℕ) (rows : List R)
      → ((row : R) → id (write row) ≡ id row)
      → ((row : R) → is_mine row ≡ true → back (write row) ≡ row)
      → ((m : ℕ) (row : R) → is_mine row ≡ true → content (create m (record_of row)) ≡ content row)
      → IsKeyed id rows
      → Returned id content rows (moved_table id is_mine taken write rows) (
          update_ids id
            (move_loop id is_mine taken rows).remap
            back
            (moved_table id is_mine taken write rows)
          ++ create_rows create n (map record_of (move_loop id is_mine taken rows).deleted))
  moved_table-back content record_of create write back n rows same undo again k =
      let gone : R → Bool = λ row. is_mine row && taken row in
      let left : R → Bool =
        λ row. has (id row) (map id (moved_table id is_mine taken write rows)) in
      let created : List R =
        create_rows create n (map record_of (move_loop id is_mine taken rows).deleted) in
      let still = moved_table-ids write rows same k in
      let back_rows : update_ids id (move_loop id is_mine taken rows).remap back
            (moved_table id is_mine taken write rows)
          ≡ keep (λ row. not (gone row)) rows =
        unfold moved_table in
        update_ids-back id (move_loop id is_mine taken rows).remap
          (λ row. is_mine row && not (taken row)) write back (move_loop id is_mine taken rows).rows
          same (λ row e. undo row (ground arith)) (loop-repointed rows k)
        ∙ loop-rows rows k in
      let again_rows : map content created ≡ map content (keep gone rows) =
        ap (λ l. map content (create_rows create n (map record_of l))) (loop-deleted rows)
        ∙ map-create_rows content record_of create gone n rows
            (λ m row e. again m row (ground arith)) in
      (
        created,
        ap (λ l. l ++ created)
            (back_rows ∙ sym (keep-agrees left (λ row. not (gone row)) rows still)),
        again_rows ∙ ap (map content) (sym (keep-denied left gone rows still)),
      )

keep_all {ℓ} :
    {R : Type ℓ} (p : R → Bool) (rows : List R)
    → All (λ row. p row ≡ true) rows
    → (keep p rows ≡ rows) × (keep (λ row. not (p row)) rows ≡ [])
keep_all p [] h = (refl, refl)
keep_all p (row ∷ rows) h = ground (arith, keep_all p rows)

ids_where-true {ℓ} :
    {R : Type ℓ} (id : R → String) (rows : List R) → ids_where id (λ row. true) rows ≡ map id rows
unfolding ids_where
ids_where-true id [] = refl
ids_where-true id (row ∷ rows) = ap (λ l. id row ∷ l) (ids_where-true id rows)

-- A table that nothing touched.
pub untouched-Returned {ℓ} :
    {R : Type ℓ} (id : R → String) (content : R → R) (rows : List R)
    → IsKeyed id rows
    → Returned id content rows rows rows
untouched-Returned id content rows k =
    let all =
      keep_all (λ row. has (id row) (map id rows)) rows
        (rw (← ids_where-true id rows) (has-ids_where id (λ row. true) rows k)) in
    ([], sym (ap (λ l. l ++ []) all.0 ∙ append-nil rows), sym (ap (map content) all.1))
