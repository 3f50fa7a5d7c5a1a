-- ===== src/Companies/Names.antt =====
-- `companyIdentityKey` of apps/jobs/src/ingest/company-matcher.ts. The compatibility decomposition of
-- Unicode and the removal of its marks are an argument, `fold`.
use capbase.Base.{
  Bool, true, false, ◌||◌, List, [], ◌∷◌, ◌++◌, ◌==◌, if◌then◌else◌, Text, CaseTables, to_lower,
  is_space, has_text, length,
}
use mathlib.Core.List.{reverse, flatten}
use capbase.Identifiers.Shapes.{is_lower_alnum}
use capbase.People.Names.{words, join}

abbrev pub unambiguous_legal_forms : List Text
unambiguous_legal_forms =
    (b'i' ∷ b'n' ∷ b'c' ∷ [])
    ∷ (b'i' ∷ b'n' ∷ b'c' ∷ b'o' ∷ b'r' ∷ b'p' ∷ b'o' ∷ b'r' ∷ b'a' ∷ b't' ∷ b'e' ∷ b'd' ∷ [])
    ∷ (b'c' ∷ b'o' ∷ b'r' ∷ b'p' ∷ [])
    ∷ (b'c' ∷ b'o' ∷ b'r' ∷ b'p' ∷ b'o' ∷ b'r' ∷ b'a' ∷ b't' ∷ b'i' ∷ b'o' ∷ b'n' ∷ [])
    ∷ (b'l' ∷ b'l' ∷ b'c' ∷ [])
    ∷ (b'l' ∷ b'l' ∷ b'p' ∷ [])
    ∷ (b'l' ∷ b'p' ∷ [])
    ∷ (b'l' ∷ b't' ∷ b'd' ∷ [])
    ∷ (b'l' ∷ b'i' ∷ b'm' ∷ b'i' ∷ b't' ∷ b'e' ∷ b'd' ∷ [])
    ∷ (b'p' ∷ b'l' ∷ b'c' ∷ [])
    ∷ (b'g' ∷ b'm' ∷ b'b' ∷ b'h' ∷ [])
    ∷ (b'p' ∷ b't' ∷ b'y' ∷ [])
    ∷ (b'p' ∷ b't' ∷ b'e' ∷ [])
    ∷ []

-- `.replace(/[^a-z0-9\s]+/g, ' ')`: one space for a run, where `blank` says that the run has its space.
unfoldable pub blank_runs : Bool → Text → Text
blank_runs blank [] = []
blank_runs blank (c ∷ s) =
    let in_run = blank_runs true s in
    let fresh = blank_runs false s in
    if is_lower_alnum c || is_space c then c ∷ fresh else if blank then in_run else 32 ∷ in_run

-- The single letters read so far, as one token if there are two of them.
unfoldable pub glued : List Text → List Text
glued [] = []
glued (w ∷ []) = w ∷ []
glued (w ∷ v ∷ letters) = flatten (w ∷ v ∷ letters) ∷ []

-- The loop: runs of single letters are glued.
unfoldable pub glue : List Text → List Text → List Text
glue letters [] = glued letters
glue letters (w ∷ raw) =
    let longer = glue (letters ++ w ∷ []) raw in
    let fresh = glue [] raw in if length w == 1 then longer else glued letters ++ w ∷ fresh

-- At most one legal form is dropped, and never the only token; on the tokens from the last on.
unfoldable pub drop_form : List Text → List Text
drop_form [] = []
drop_form (w ∷ []) = w ∷ []
drop_form (w ∷ v ∷ ws) = if has_text w unambiguous_legal_forms then v ∷ ws else w ∷ v ∷ ws

unfoldable pub company_identity_key : CaseTables → (Text → Text) → Text → Text
company_identity_key tables fold name =
    let raw = words [] (blank_runs false (to_lower tables (fold name))) in
    join (32 ∷ []) (reverse (drop_form (reverse (glue [] raw))))
