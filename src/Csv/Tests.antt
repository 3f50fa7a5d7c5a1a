-- ===== src/Csv/Tests.antt =====
-- Runs of the CSV reader, and its theorems at concrete texts.
use mathlib.Core.List.{flatten}
use capbase.Base.{Text, trim, drop_while, strip_both, ◌≡◌, refl, List, [], ◌∷◌}
use capbase.Csv.Parser.{
  assign, quote, comma, cr, lf, start, take_record, end_row, outside, in_field, after_cr, feed_char,
  feed, write, write_all, finish, parse_csv,
}
use capbase.Csv.Chunks.{write_all-parse_csv}
use capbase.Csv.RoundTrip.{escape, render_row, render}
use capbase.Csv.Objects.{Objects}

-- The cells: "a " | "1,2", and a header h | i.
abbrev header : List Text
header = (b'h' ∷ []) ∷ (b'i' ∷ 32 ∷ []) ∷ []

abbrev cells : List Text
cells = (b'a' ∷ 32 ∷ []) ∷ (b'1' ∷ comma ∷ quote ∷ lf ∷ b'2' ∷ []) ∷ []

cells_read :
    parse_csv (render (header ∷ cells ∷ []))
    ≡ ((b'h' ∷ [], b'a' ∷ []) ∷ (b'i' ∷ [], b'1' ∷ comma ∷ quote ∷ lf ∷ b'2' ∷ []) ∷ []) ∷ []
unfolding parse_csv render render_row escape write feed feed_char after_cr in_field outside end_row
    take_record finish assign trim strip_both drop_while start
cells_read = refl

-- The text is cut between the CR and the LF, and in the middle of a doubled quote.
abbrev chunks : List Text
chunks = (b'h' ∷ cr ∷ []) ∷ (lf ∷ quote ∷ quote ∷ []) ∷ [] ∷ (quote ∷ b'x' ∷ quote ∷ []) ∷ []

chunks_read : (finish (write_all start chunks)).emitted ≡ ((b'h' ∷ [], quote ∷ b'x' ∷ []) ∷ []) ∷ []
unfolding write_all write feed feed_char after_cr in_field outside end_row take_record finish assign
    trim strip_both drop_while start
chunks_read = refl

write_all-parse_csv_example : (finish (write_all start chunks)).emitted ≡ parse_csv (flatten chunks)
write_all-parse_csv_example = write_all-parse_csv chunks
