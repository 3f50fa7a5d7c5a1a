-- ===== src/Csv/RoundTrip.antt =====
-- The reader takes back what an RFC 4180 writer puts out (apps/jobs/src/util/csv.ts).
use mathlib.Core.List.{append_assoc, append-nil}
use capbase.Base.{
  Text, trim, ℕ, ◌≡◌, ◌≢◌, refl, sym, ap, ◌∙◌, Bool, true, false, Option, none, some, List, [], ◌∷◌,
  ◌++◌, map, arith, ◌==◌, All, Bool-cases, inl, inr, if◌then◌else◌,
}
use capbase.Csv.Parser.{
  Csv, CsvRow, start, assign, quote, comma, cr, lf, is_record, take_record, end_row, outside,
  in_field, after_cr, feed_char, feed, write, finish, parse_csv,
}

-- A writer that quotes every field and doubles the quotes in it, before the text `rest`.
unfoldable pub escape : Text → Text → Text
escape [] rest = rest
escape (c ∷ f) rest = if c == quote then quote ∷ quote ∷ escape f rest else c ∷ escape f rest

unfoldable pub render_row : List Text → Text → Text
render_row [] rest = rest
render_row (f ∷ []) rest = quote ∷ escape f (quote ∷ cr ∷ lf ∷ rest)
render_row (f ∷ g ∷ row) rest = quote ∷ escape f (quote ∷ comma ∷ render_row (g ∷ row) rest)

unfoldable pub render : List (List Text) → Text
render [] = []
render (row ∷ rows) = render_row row (render rows)

-- Between two fields, and inside a quoted one.
abbrev between : Option (List Text) → List Text → Bool → List CsvRow → Csv
between keys row started emitted = record {
  keys = keys;
  row = row;
  field = [];
  quoted = false;
  pending_quote = false;
  pending_cr = false;
  started = started;
  emitted = emitted;
}

abbrev inside : Option (List Text) → List Text → Text → Bool → List CsvRow → Csv
inside keys row field started emitted = record (between keys row started emitted) {
  field = field;
  quoted = true;
}

feed_char-inside :
    (k : Option (List Text)) (r : List Text) (b : Bool) (e : List CsvRow) (acc : Text) (c : ℕ)
    → (c == quote) ≡ false
    → feed_char (inside k r acc b e) c ≡ inside k r (acc ++ c ∷ []) b e
unfolding feed_char after_cr in_field
feed_char-inside k r b e acc c h = ground arith

feed-doubled_quote :
    (k : Option (List Text)) (r : List Text) (b : Bool) (e : List CsvRow) (acc rest : Text)
    → feed (inside k r acc b e) (quote ∷ quote ∷ rest)
      ≡ feed (inside k r (acc ++ quote ∷ []) b e) rest
unfolding feed feed_char after_cr in_field
feed-doubled_quote k r b e acc rest = refl

feed-escape :
    (k : Option (List Text)) (r : List Text) (b : Bool) (e : List CsvRow) (acc f rest : Text)
    → feed (inside k r acc b e) (escape f rest) ≡ feed (inside k r (acc ++ f) b e) rest
unfolding feed escape
feed-escape k r b e acc [] rest = ap (λ x. feed (inside k r x b e) rest) (sym (append-nil acc))
feed-escape k r b e acc (c ∷ f) rest =
    let next : feed (inside k r (acc ++ c ∷ []) b e) (escape f rest)
        ≡ feed (inside k r (acc ++ c ∷ f) b e) rest =
      feed-escape k r b e (acc ++ c ∷ []) f rest
      ∙ ap (λ x. feed (inside k r x b e) rest) (append_assoc acc (c ∷ []) f) in
    elim (Bool-cases (c == quote)) [
      | inl same ↦
          let q : c ≡ quote = ground arith in
          rw same (
            feed-doubled_quote k r b e acc (escape f rest)
            ∙ ap (λ x. feed (inside k r (acc ++ x ∷ []) b e) (escape f rest)) (sym q)
            ∙ next)
      | inr other ↦
          rw other (ap (λ s. feed s (escape f rest)) (feed_char-inside k r b e acc c other) ∙ next)
    ]

-- What the end of a row does to a reader that holds the whole row.
abbrev after_row : Option (List Text) → List Text → Bool → List CsvRow → Csv
after_row k row b e =
    let t = if is_record row then take_record (between k row b e) row else between k row b e in
    record t { row = [] }

feed-comma :
    (k : Option (List Text)) (r : List Text) (b : Bool) (e : List CsvRow) (f rest : Text)
    → feed (inside k r f b e) (quote ∷ comma ∷ rest) ≡ feed (between k (r ++ f ∷ []) b e) rest
unfolding feed feed_char after_cr in_field outside
feed-comma k r b e f rest = refl

feed_char-lf :
    (k : Option (List Text)) (l : List Text) (b : Bool) (e : List CsvRow)
    → feed_char (record (after_row k l b e) { pending_cr = true }) lf ≡ after_row k l b e
unfolding feed_char after_cr take_record
feed_char-lf k l b e = ground arith

feed-line_end :
    (k : Option (List Text)) (r : List Text) (b : Bool) (e : List CsvRow) (f rest : Text)
    → feed (inside k r f b e) (quote ∷ cr ∷ lf ∷ rest) ≡ feed (after_row k (r ++ f ∷ []) b e) rest
unfolding feed feed_char after_cr in_field outside end_row
feed-line_end k r b e f rest = ap (λ s. feed s rest) (feed_char-lf k (r ++ f ∷ []) b e)

feed-render_row :
    (k : Option (List Text)) (r : List Text) (b : Bool) (e : List CsvRow) (row : List Text)
    (rest : Text)
    → row ≢ []
    → feed (between k r b e) (render_row row rest) ≡ feed (after_row k (r ++ row) b e) rest
unfolding feed render_row feed_char after_cr in_field outside
feed-render_row k r b e [] rest h = absurd (h refl)
feed-render_row k r b e (f ∷ []) rest h =
    feed-escape k r b e [] f (quote ∷ cr ∷ lf ∷ rest) ∙ feed-line_end k r b e f rest
feed-render_row k r b e (f ∷ g ∷ row) rest h =
    feed-escape k r b e [] f (quote ∷ comma ∷ render_row (g ∷ row) rest)
    ∙ feed-comma k r b e f (render_row (g ∷ row) rest)
    ∙ feed-render_row k (r ++ f ∷ []) b e (g ∷ row) rest (λ x. cc)
    ∙ ap (λ l. feed (after_row k l b e) rest) (append_assoc r (f ∷ []) (g ∷ row))

-- A row that the reader keeps: it has a field, and is not one empty field.
abbrev pub IsRow : List Text → Type 0
IsRow [] = ⊥
IsRow ([] ∷ []) = ⊥
IsRow _ = Unit

row_of_IsRow : (row : List Text) → IsRow row → (row ≢ []) × (is_record row ≡ true)
row_of_IsRow [] h = elim h [ ]
row_of_IsRow ([] ∷ []) h = elim h [ ]
row_of_IsRow ((c ∷ f) ∷ []) h = (λ x. cc, refl)
row_of_IsRow (f ∷ g ∷ row) h = (λ x. cc, is_record-two f g row)
  where
    is_record-two : (f g : Text) (row : List Text) → is_record (f ∷ g ∷ row) ≡ true
    is_record-two [] g row = refl
    is_record-two (c ∷ f) g row = refl

keep_row :
    (keys : List Text) (b : Bool) (e : List CsvRow) (row : List Text)
    → is_record row ≡ true
    → after_row (some keys) row b e ≡ between (some keys) [] b (e ++ assign keys row ∷ [])
unfolding take_record
keep_row keys b e row kept = ground arith

keep_header :
    (b : Bool) (row : List Text)
    → is_record row ≡ true
    → after_row none row b [] ≡ between (some (map trim row)) [] b []
unfolding take_record
keep_header b row kept = ground arith

feed-render :
    (keys : List Text) (b : Bool) (e : List CsvRow) (rows : List (List Text))
    → All IsRow rows
    → feed (between (some keys) [] b e) (render rows)
      ≡ between (some keys) [] b (e ++ map (assign keys) rows)
unfolding feed render
feed-render keys b e [] h = ap (between (some keys) [] b) (sym (append-nil e))
feed-render keys b e (row ∷ rows) (h, hs) =
    let (full, kept) = row_of_IsRow row h in
    feed-render_row (some keys) [] b e row (render rows) full
    ∙ ap (λ s. feed s (render rows)) (keep_row keys b e row kept)
    ∙ feed-render keys b (e ++ assign keys row ∷ []) rows hs
    ∙ ap (between (some keys) [] b) (append_assoc e (assign keys row ∷ []) (map (assign keys) rows))

finish-between :
    (keys : Option (List Text)) (b : Bool) (e : List CsvRow)
    → (finish (between keys [] b e)).emitted ≡ e
unfolding finish end_row take_record
finish-between keys b e = refl

write-render_row :
    (row : List Text) (rest : Text)
    → IsRow row
    → write start (render_row row rest)
      ≡ record (feed start (render_row row rest)) { started = true }
unfolding write render_row start
write-render_row [] rest h = elim h [ ]
write-render_row ([] ∷ []) rest h = elim h [ ]
write-render_row ((c ∷ f) ∷ []) rest h = refl
write-render_row (f ∷ g ∷ row) rest h = refl

pub parse_csv-render_assigned :
    (header : List Text) (rows : List (List Text))
    → IsRow header
    → All IsRow rows
    → parse_csv (render (header ∷ rows)) ≡ map (assign (map trim header)) rows
unfolding parse_csv render start
parse_csv-render_assigned header rows h hs =
    let (full, kept) = row_of_IsRow header h in
    let read : feed start (render_row header (render rows))
        ≡ between (some (map trim header)) [] false (map (assign (map trim header)) rows) =
      feed-render_row none [] false [] header (render rows) full
      ∙ ap (λ s. feed s (render rows)) (keep_header false header kept)
      ∙ feed-render (map trim header) false [] rows hs in
    ap (λ s. (finish s).emitted)
      (write-render_row header (render rows) h
        ∙ ap (λ s. let t : Csv = record s { started = true } in t) read)
    ∙ finish-between (some (map trim header)) true (map (assign (map trim header)) rows)
