-- ===== src/MergeService/Paged.antt =====
-- A page of the queue is a slice of the whole queue: `listCandidates` of
-- apps/api/src/admin/merge/merge.service.ts.
use text.Mathlib.Text.{◌==◌}
use capbase.Base.{
  ℕ, zero, suc, ◌+◌, ◌-◌, ◌*◌, ◌≤◌, ◌≡◌, refl, sym, ap, ◌∙◌, String, ◌&&◌, Option, List, [], ◌∷◌,
  ◌++◌, keep, leb, length, take, arith, Bool-cases, inl, inr,
}
use mathlib.Core.List.{append-nil, append_assoc}
use capbase.MergeService.Store.{IdentifiableType, MergeCandidate, MergeStatus}
use capbase.MergeService.Pages.{
  merge_page_size, merge_signals, listed_pair, insert_newest, newest_first, of_signal,
  count_by_signal, skip_rows, page_window, page_rows,
}

length-insert_newest :
    (r : MergeCandidate) (rows : List MergeCandidate)
    → length (insert_newest r rows) ≡ suc (length rows)
unfolding insert_newest
length-insert_newest r [] = refl
length-insert_newest r (s ∷ rows) = ground (arith, length-insert_newest r rows)

length-newest_first : (rows : List MergeCandidate) → length (newest_first rows) ≡ length rows
unfolding newest_first
length-newest_first [] = ground arith
length-newest_first (r ∷ rows) =
    ground (arith, length-insert_newest r (newest_first rows), length-newest_first rows)

module _ {ℓ} {R : Type ℓ} where
  length-append_rows : (xs ys : List R) → length (xs ++ ys) ≡ length xs + length ys
  length-append_rows [] ys = ground arith
  length-append_rows (x ∷ xs) ys = ground (arith, length-append_rows xs ys)

  length-take : (n : ℕ) (xs : List R) → length (take n xs) ≤ n
  length-take zero xs = ground arith
  length-take (suc n) [] = ground arith
  length-take (suc n) (x ∷ xs) = ground (arith, length-take n xs)

  take-nil : (n : ℕ) → take {A = R} n [] ≡ []
  take-nil zero = refl
  take-nil (suc n) = refl

  skip_rows-nil : (n : ℕ) → skip_rows {R = R} n [] ≡ []
  unfolding skip_rows
  skip_rows-nil zero = refl
  skip_rows-nil (suc n) = refl

  -- A window that starts past the first list lies in the second.
  skip_rows-append_past :
      (n : ℕ) (xs ys : List R)
      → length xs ≤ n
      → skip_rows n (xs ++ ys) ≡ skip_rows (n - length xs) ys
  unfolding skip_rows
  skip_rows-append_past n [] ys h = ground arith
  skip_rows-append_past zero (x ∷ xs) ys h = absurd (ground arith)
  skip_rows-append_past (suc n) (x ∷ xs) ys h = ground (arith, skip_rows-append_past n xs ys)

  skip_rows-append_within :
      (n : ℕ) (xs ys : List R) → n ≤ length xs → skip_rows n (xs ++ ys) ≡ skip_rows n xs ++ ys
  unfolding skip_rows
  skip_rows-append_within zero xs ys h = refl
  skip_rows-append_within (suc n) [] ys h = absurd (ground arith)
  skip_rows-append_within (suc n) (x ∷ xs) ys h = skip_rows-append_within n xs ys (ground arith)

  take-append :
      (n : ℕ) (xs ys : List R) → take n (xs ++ ys) ≡ take n xs ++ take (n - length (take n xs)) ys
  take-append zero xs ys = ground arith
  take-append (suc n) [] ys = let same : suc n ≡ suc n - 0 = omega arith in ap (λ k. take k ys) same
  take-append (suc n) (x ∷ xs) ys = ground (arith, take-append n xs ys)

of_signal-counted :
    (status : MergeStatus) (type : Option IdentifiableType) (candidates : List MergeCandidate)
    (signal : String)
    → length (of_signal status type candidates signal)
      ≡ count_by_signal status type candidates signal
unfolding of_signal count_by_signal
of_signal-counted status type candidates signal =
    length-newest_first
      (keep (λ row. listed_pair status type row && row.signal == signal) candidates)

-- All the rows of the signals, one signal after the other.
unfoldable pub whole_queue : (String → List MergeCandidate) → List String → List MergeCandidate
whole_queue rows_of [] = []
whole_queue rows_of (signal ∷ signals) = rows_of signal ++ whole_queue rows_of signals

module _ (rows_of : String → List MergeCandidate) (count : String → ℕ)
    (counted : (signal : String) → length (rows_of signal) ≡ count signal) where
  page_window-slice :
      (signals : List String) (rows : List MergeCandidate) (skip : ℕ)
      → page_window rows_of count signals rows skip
        ≡ rows
          ++ take (merge_page_size - length rows) (skip_rows skip (whole_queue rows_of signals))
  unfolding page_window whole_queue skip_rows
  page_window-slice [] rows skip =
      let none_left : take (merge_page_size - length rows) (skip_rows {R = MergeCandidate} skip [])
          ≡ [] =
        rw (skip_rows-nil {R = MergeCandidate} skip) (take-nil (merge_page_size - length rows)) in
      rw none_left (sym (append-nil rows))
  page_window-slice (signal ∷ signals) rows skip =
      let rest = whole_queue rows_of signals in
      let here = rows_of signal in
      let remaining = merge_page_size - length rows in
      let window = take remaining (skip_rows skip here) in
      elim (Bool-cases (leb remaining 0)) [
        | inl e ↦ let full : remaining ≡ 0 = ground arith in rw (e, full) (sym (append-nil rows))
        | inr e ↦ elim (Bool-cases (leb (count signal) skip)) [
          | inl p ↦
              let past : length here ≤ skip = ground (arith, counted signal) in
              rw (e, p)
                (page_window-slice signals rows (skip - count signal)
                  ∙ ap (λ n. rows ++ take remaining (skip_rows (skip - n) rest))
                      (sym (counted signal))
                  ∙ ap (λ l. rows ++ take remaining l)
                      (sym (skip_rows-append_past skip here rest past)))
          | inr p ↦
              let within : skip ≤ length here = ground (arith, counted signal) in
              let left : merge_page_size - length (rows ++ window) ≡ remaining - length window =
                ground (arith, length-append_rows rows window) in
              rw (e, p)
                (page_window-slice signals (rows ++ window) 0
                  ∙ ap (λ n. (rows ++ window) ++ take n rest) left
                  ∙ append_assoc rows window (take (remaining - length window) rest)
                  ∙ ap (λ l. rows ++ l) (sym (take-append remaining (skip_rows skip here) rest))
                  ∙ ap (λ l. rows ++ take remaining l)
                      (sym (skip_rows-append_within skip here rest within)))
        ]
      ]

-- The queue in a status and of a type: the strongest signal first, then the newest.
unfoldable pub ordered_queue :
    MergeStatus → Option IdentifiableType → List MergeCandidate → List MergeCandidate
ordered_queue status type candidates = whole_queue (of_signal status type candidates) merge_signals

-- Walking the signals by their counts gives, for every page, exactly that slice of the whole queue:
-- twenty-five rows, fewer at the end, after those of the pages before it.
pub page_rows-slice :
    (status : MergeStatus) (type : Option IdentifiableType) (page : ℕ)
    (candidates : List MergeCandidate)
    → page_rows status type page candidates
      ≡ take merge_page_size
          (skip_rows ((page - 1) * merge_page_size) (ordered_queue status type candidates))
unfolding page_rows ordered_queue
page_rows-slice status type page candidates =
    let full : merge_page_size - 0 ≡ merge_page_size = omega arith in
    page_window-slice (of_signal status type candidates) (count_by_signal status type candidates)
      (of_signal-counted status type candidates) merge_signals [] ((page - 1) * merge_page_size)
    ∙ ap
        (λ n. take n (
          skip_rows ((page - 1) * merge_page_size)
            (whole_queue (of_signal status type candidates) merge_signals)))
        full
