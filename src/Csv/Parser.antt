-- ===== src/Csv/Parser.antt =====
-- `createCsvParser` and `parseCsv` of apps/jobs/src/util/csv.ts, over the code units of a text. The
-- rows given to `onRow` are kept in the state, in order; a row is the list of the assignments that
-- build its object.
use capbase.Base.{
  Text, trim, ℕ, Bool, true, false, ◌&&◌, not, Option, none, some, List, [], ◌∷◌, ◌++◌, map, ◌==◌,
  if◌then◌else◌,
}

abbrev pub CsvRow : Type 0
CsvRow = List (Text × Text)

abbrev pub quote : ℕ
quote = b'"'

abbrev pub comma : ℕ
comma = b','

abbrev pub lf : ℕ
lf = 10

abbrev pub cr : ℕ
cr = 13

abbrev pub bom : ℕ
bom = 0xfeff

pub record Csv : Type 0 where
  pub keys : Option (List Text)
  pub row : List Text
  pub field : Text
  pub quoted : Bool
  pub pending_quote : Bool
  pub pending_cr : Bool
  pub started : Bool
  pub emitted : List CsvRow

unfoldable pub start : Csv
start = record {
  keys = none;
  row = [];
  field = [];
  quoted = false;
  pending_quote = false;
  pending_cr = false;
  started = false;
  emitted = [];
}

abbrev pub end_field : Csv → Csv
end_field s = record s { row = s.row ++ s.field ∷ []; field = [] }

-- `row.length > 1 || row[0] !== ''`
abbrev pub is_record : List Text → Bool
is_record [] = true
is_record ([] ∷ []) = false
is_record _ = true

-- `out[key] = (row[i] ?? '').trim()` for every key.
unfoldable pub assign : List Text → List Text → CsvRow
assign [] row = []
assign (key ∷ keys) [] = (key, trim []) ∷ assign keys []
assign (key ∷ keys) (field ∷ row) = (key, trim field) ∷ assign keys row

unfoldable pub take_record : Csv → List Text → Csv
take_record s row = elim s.keys [
  | none ↦ record s { keys = some (map trim row) }
  | some keys ↦ record s { emitted = s.emitted ++ assign keys row ∷ [] }
]

unfoldable pub end_row : Csv → Csv
unfolding take_record
end_row s =
    let e = end_field s in
    let t = if is_record e.row then take_record e e.row else e in record t { row = [] }

abbrev pub append_char : Csv → ℕ → Csv
append_char s ch = record s { field = s.field ++ ch ∷ [] }

-- The body of the loop of `feed`, from its last test to its first.
unfoldable pub outside : Csv → ℕ → Csv
outside s ch =
    if ch == quote
    then record s { quoted = true }
    else if ch == comma
    then end_field s
    else if ch == lf
    then end_row s
    else if ch == cr
    then record (end_row s) { pending_cr = true }
    else append_char s ch

unfoldable pub in_field : Csv → ℕ → Csv
in_field s ch =
    if s.quoted
    then if ch == quote then record s { pending_quote = true } else append_char s ch
    else outside s ch

unfoldable pub after_cr : Csv → ℕ → Csv
after_cr s ch =
    if s.pending_cr
    then if ch == lf
      then record s { pending_cr = false }
      else in_field (record s { pending_cr = false }) ch
    else in_field s ch

unfoldable pub feed_char : Csv → ℕ → Csv
feed_char s ch =
    if s.pending_quote
    then if ch == quote
      then append_char (record s { pending_quote = false }) quote
      else after_cr (record s { pending_quote = false; quoted = false }) ch
    else after_cr s ch

unfoldable pub feed : Csv → Text → Csv
feed s [] = s
feed s (ch ∷ src) = feed (feed_char s ch) src

-- `!started && chunk.charCodeAt(0) === 0xfeff ? chunk.slice(1) : chunk`
abbrev pub strip : Bool → ℕ → Text → Text
strip started ch rest = if not started && ch == bom then rest else ch ∷ rest

unfoldable pub write : Csv → Text → Csv
write s [] = s
write s (ch ∷ rest) = record (feed s (strip s.started ch rest)) { started = true }

-- `end`
unfoldable pub finish : Csv → Csv
finish s = end_row (record s { pending_quote = false; quoted = false })

unfoldable pub write_all : Csv → List Text → Csv
write_all s [] = s
write_all s (chunk ∷ more) = write_all (write s chunk) more

unfoldable pub parse_csv : Text → List CsvRow
parse_csv text = (finish (write start text)).emitted
