-- ===== src/Csv/Chunks.antt =====
-- Where a file is cut into chunks does not matter (apps/jobs/src/util/csv.ts).
use mathlib.Core.List.{append-nil, flatten}
use capbase.Base.{
  Text, ℕ, ◌≡◌, refl, sym, ap, ◌∙◌, Bool, true, List, [], ◌∷◌, ◌++◌, arith, ◌==◌, not, ◌&&◌,
  Bool-cases, inl, inr,
}
use capbase.Csv.Parser.{
  Csv, start, end_row, take_record, outside, in_field, after_cr, feed_char, feed, strip, write,
  write_all, finish, parse_csv, bom,
}

feed-append : (s : Csv) (a b : Text) → feed s (a ++ b) ≡ feed (feed s a) b
unfolding feed
feed-append s [] b = refl
feed-append s (c ∷ a) b = feed-append (feed_char s c) a b

-- The parser never reads `started` between chunks.
feed_char-started :
    (s : Csv) (b : Bool) (ch : ℕ)
    → feed_char (record s { started = b }) ch ≡ record (feed_char s ch) { started = b }
unfolding feed_char after_cr in_field outside end_row take_record
feed_char-started s b ch = ground arith

feed-started :
    (s : Csv) (b : Bool) (a : Text)
    → feed (record s { started = b }) a ≡ record (feed s a) { started = b }
unfolding feed
feed-started s b [] = refl
feed-started s b (c ∷ a) =
    ap (λ t. feed t a) (feed_char-started s b c) ∙ feed-started (feed_char s c) b a

strip-append :
    (started : Bool) (c : ℕ) (a b : Text) → strip started c a ++ b ≡ strip started c (a ++ b)
strip-append started c a b = elim (Bool-cases (not started && c == bom)) [
  | inl yes_bom ↦ rw yes_bom
  | inr no_bom ↦ rw no_bom
]

abbrev mark_started : Csv → Csv
mark_started s = record s { started = true }

-- Two chunks are read as one.
pub write-append : (s : Csv) (a b : Text) → write (write s a) b ≡ write s (a ++ b)
unfolding write
write-append s [] b = refl
write-append s (c ∷ a) [] =
    ap (λ x. mark_started (feed s (strip s.started c x))) (sym (append-nil a))
write-append s (c ∷ a) (d ∷ b) =
    let x = strip s.started c a in
    ap mark_started (feed-started (feed s x) true (d ∷ b))
    ∙ ap mark_started (sym (feed-append s x (d ∷ b)))
    ∙ ap (λ y. mark_started (feed s y)) (strip-append s.started c a (d ∷ b))

write_all-eq-write : (s : Csv) (chunks : List Text) → write_all s chunks ≡ write s (flatten chunks)
unfolding write_all write flatten
write_all-eq-write s [] = refl
write_all-eq-write s (c ∷ chunks) =
    write_all-eq-write (write s c) chunks ∙ write-append s c (flatten chunks)

-- However a file is cut into chunks, in the middle of a field, between a quote and the next or
-- between the CR and the LF of a line end, the rows are those of the whole text.
pub write_all-parse_csv :
    (chunks : List Text) → (finish (write_all start chunks)).emitted ≡ parse_csv (flatten chunks)
unfolding parse_csv
write_all-parse_csv chunks = ap (λ s. (finish s).emitted) (write_all-eq-write start chunks)
