-- ===== src/MergeService/Apart.antt =====
-- Rows that do not collide on a key, and a move that keeps them apart: the loops of
-- apps/api/src/admin/merge/merge.service.ts on any table.
use text.Mathlib.Text.{◌==◌}
use capbase.Base.{
  String, ◌≡◌, refl, Bool, true, false, not, ◌&&◌, List, [], ◌∷◌, ◌++◌, map, if◌then◌else◌, has,
  has_text, eq_text, eq_text-same, eq_text_refl, keep, any, All, arith, Bool-cases, inl, inr, Text,
}
use capbase.MergeService.Rows.{update_ids, move_loop, moved_table, IsKeyed}
use capbase.MergeService.Tables.{All-keep}
use capbase.MergeService.Moves.{loop-rows, loop-repointed}
use capbase.MergeService.Gone.{keep-All, All-kept}

-- No two rows of a list collide.
abbrev pub NoneCollide {ℓ} : {R : Type ℓ} → (R → R → Bool) → List R → Type 0
NoneCollide collide [] = Unit
NoneCollide collide (row ∷ rows) =
    All (λ other. collide row other ≡ false) rows × NoneCollide collide rows

pub NoneCollide-keep {ℓ} :
    {R : Type ℓ} (collide : R → R → Bool) (p : R → Bool) (rows : List R)
    → NoneCollide collide rows
    → NoneCollide collide (keep p rows)
NoneCollide-keep collide p [] h = tt
NoneCollide-keep collide p (row ∷ rows) h = elim (Bool-cases (p row)) [
  | inl e ↦ rw e (
    All-keep (λ other. collide row other ≡ false) p rows h.0,
    NoneCollide-keep collide p rows h.1,
  )
  | inr e ↦ rw e (NoneCollide-keep collide p rows h.1)
]

module _ {ℓ} {R : Type ℓ} (id : R → String) (is_mine taken : R → Bool) (write : R → R)
    (collide : R → R → Bool) (symmetric : (r s : R) → collide r s ≡ collide s r)
    (both : (r s : R)
      → is_mine r ≡ true
      → is_mine s ≡ true
      → collide (write r) (write s) ≡ true
      → collide r s ≡ true) where
  -- Who would collide with a row that is not moved is one of those that are deleted.
  abbrev Guarded : R → Type ℓ
  Guarded s = (r : R) → is_mine r ≡ true → collide (write r) s ≡ true → taken r ≡ true

  written_apart :
      (r : R) (ids : List String) (rows : List R)
      → Guarded r
      → All (λ s. has (id s) ids ≡ is_mine s) rows
      → All (λ s. not (is_mine s && taken s) ≡ true) rows
      → All Guarded rows
      → not (is_mine r && taken r) ≡ true
      → All (λ s. collide r s ≡ false) rows
      → All
          (λ s. collide (if is_mine r then write r else r) s ≡ false)
          (update_ids id ids write rows)
  unfolding update_ids
  written_apart r ids [] g h n q m c = tt
  written_apart r ids (s ∷ rows) g h n q m c = (
    ground (arith, g s, q.0 r, both r s, symmetric r (write s), symmetric (write r) s),
    written_apart r ids rows g h.1 n.1 q.1 m c.1,
  )

  update_ids-NoneCollide :
      (ids : List String) (rows : List R)
      → All (λ s. has (id s) ids ≡ is_mine s) rows
      → All (λ s. not (is_mine s && taken s) ≡ true) rows
      → All Guarded rows
      → NoneCollide collide rows
      → NoneCollide collide (update_ids id ids write rows)
  unfolding update_ids
  update_ids-NoneCollide ids [] h n q c = tt
  update_ids-NoneCollide ids (r ∷ rows) h n q c = (
    rw h.0 (written_apart r ids rows q.0 h.1 n.1 q.1 n.0 c.0),
    update_ids-NoneCollide ids rows h.1 n.1 q.1 c.1,
  )

  pub moved_table-NoneCollide :
      (rows : List R)
      → IsKeyed id rows
      → All Guarded rows
      → NoneCollide collide rows
      → NoneCollide collide (moved_table id is_mine taken write rows)
  unfolding moved_table
  moved_table-NoneCollide rows k g c =
      let loop = move_loop id is_mine taken rows in
      let rest = λ (row : R). not (is_mine row && taken row) in
      let same = loop-rows id is_mine taken rows k in
      let kept : All (λ row. rest row ≡ true) loop.rows = rw same (keep-All rest rows) in
      let guarded : All Guarded loop.rows = rw same (All-keep Guarded rest rows g) in
      let apart : NoneCollide collide loop.rows = rw same (NoneCollide-keep collide rest rows c) in
      update_ids-NoneCollide loop.remap loop.rows
        (All-kept id is_mine taken loop.remap loop.rows kept
          (loop-repointed id is_mine taken rows k))
        kept guarded apart

pub All-swap {ℓ κ ι} :
    {R : Type ℓ} {S : Type ι} (P : S → R → Type κ) (rows : List R)
    → ((s : S) → All (P s) rows)
    → All (λ r. (s : S) → P s r) rows
All-swap P [] h = tt
All-swap P (r ∷ rows) h = (λ s. (h s).0, All-swap P rows (λ s. (h s).1))

pub All-imp {ℓ κ ι} :
    {R : Type ℓ} (P : R → Type κ) (Q : R → Type ι) (rows : List R)
    → ((r : R) → P r → Q r)
    → All P rows
    → All Q rows
All-imp P Q [] f h = tt
All-imp P Q (r ∷ rows) f h = (f r h.0, All-imp P Q rows f h.1)

All-weaken {ℓ} :
    {R : Type ℓ} (q : R → Bool) (s : R) (rows others : List R)
    → All (λ t. q t ≡ true → any q rows ≡ true) others
    → All (λ t. q t ≡ true → any q (s ∷ rows) ≡ true) others
All-weaken q s rows [] h = tt
All-weaken q s rows (t ∷ others) h = (λ e. ground (arith, h.0 e), All-weaken q s rows others h.1)

pub any-All {ℓ} :
    {R : Type ℓ} (q : R → Bool) (rows : List R) → All (λ s. q s ≡ true → any q rows ≡ true) rows
any-All q [] = tt
any-All q (s ∷ rows) = (λ h. ground arith, All-weaken q s rows rows (any-All q rows))

pub has-keep-any {ℓ} :
    {R : Type ℓ} (key : R → String) (p : R → Bool) (k : String) (rows : List R)
    → has k (map key (keep p rows)) ≡ any (λ s. p s && key s == k) rows
has-keep-any key p k [] = refl
has-keep-any key p k (s ∷ rows) = ground (arith, has-keep-any key p k rows)

pub has_text-keep-any {ℓ} :
    {R : Type ℓ} (key : R → Text) (p : R → Bool) (k : Text) (rows : List R)
    → has_text k (map key (keep p rows)) ≡ any (λ s. p s && eq_text (key s) k) rows
unfolding has_text
has_text-keep-any key p k [] = refl
has_text-keep-any key p k (s ∷ rows) = ground (arith, has_text-keep-any key p k rows)

pub eq_text_sym : (s t : Text) → eq_text s t ≡ eq_text t s
unfolding eq_text
eq_text_sym [] [] = refl
eq_text_sym [] (d ∷ t) = refl
eq_text_sym (c ∷ s) [] = refl
eq_text_sym (c ∷ s) (d ∷ t) = ground (arith, eq_text_sym s t)

-- A compound key is the same where its parts are.
pub joined_same :
    (a b c d : Text)
    → eq_text a b ≡ true
    → eq_text c d ≡ true
    → eq_text (b ++ b':' ∷ d) (a ++ b':' ∷ c) ≡ true
joined_same a b c d h k = rw (eq_text-same a b h, eq_text-same c d k) (eq_text_refl (b ++ b':' ∷ d))

module _ {ℓ} {R : Type ℓ} (id : R → String) (write : R → R) (collide : R → R → Bool)
    (left : (r s : R) → collide (write r) s ≡ collide r s)
    (right : (r s : R) → collide r (write s) ≡ collide r s) where
  update_ids-apart :
      (r : R) (b : Bool) (ids : List String) (rows : List R)
      → All (λ s. collide r s ≡ false) rows
      → All (λ s. collide (if b then write r else r) s ≡ false) (update_ids id ids write rows)
  unfolding update_ids
  update_ids-apart r b ids [] h = tt
  update_ids-apart r b ids (s ∷ rows) h =
      (ground (arith, left r s, left r (write s), right r s), update_ids-apart r b ids rows h.1)

  -- A write that changes no part of a key keeps the rows apart.
  pub update_ids-invisible :
      (ids : List String) (rows : List R)
      → NoneCollide collide rows
      → NoneCollide collide (update_ids id ids write rows)
  unfolding update_ids
  update_ids-invisible ids [] h = tt
  update_ids-invisible ids (r ∷ rows) h =
      (update_ids-apart r (has (id r) ids) ids rows h.0, update_ids-invisible ids rows h.1)
