-- ===== src/Csv/Objects.antt =====
-- The objects that the reader of apps/jobs/src/util/csv.ts gives for a written table, cell by cell.
use capbase.Base.{Text, trim, ℕ, zero, suc, ◌≡◌, ◌<◌, List, [], ◌∷◌, length}
use capbase.Csv.Parser.{CsvRow}

-- `list[i] ?? missing`
abbrev pub at {ℓ} : {A : Type ℓ} → A → List A → ℕ → A
at missing [] i = missing
at missing (x ∷ l) zero = x
at missing (x ∷ l) (suc i) = at missing l i

-- The object of a row has one assignment for each header, of the trimmed header to the trimmed field
-- at its place, where a field that the row lacks is empty.
abbrev pub IsObject : List Text → List Text → CsvRow → Type 0
IsObject header row object =
    (length object ≡ length header)
    × ((i : ℕ)
        → i < length header
        → at ([], []) object i ≡ (trim (at [] header i), trim (at [] row i)))

-- One object for each row, in order.
abbrev pub Objects : List Text → List (List Text) → List CsvRow → Type 0
Objects header [] [] = Unit
Objects header (row ∷ rows) (object ∷ objects) =
    IsObject header row object × Objects header rows objects
Objects header _ _ = ⊥
