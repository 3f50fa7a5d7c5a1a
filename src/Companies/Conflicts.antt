-- ===== src/Companies/Conflicts.antt =====
-- Which records `decideCompanyMatch` skips as in conflict (apps/jobs/src/ingest/company-matcher.ts).
use text.Mathlib.Text.{◌==◌}
use text.Mathlib.TextEquality.{eq_iff}
use capbase.Base.{
  String, ◌≡◌, refl, ◌∙◌, true, false, List, [], ◌∷◌, has, NoRepeat, unique, unique-NoRepeat,
  has-unique, arith,
}
use capbase.Companies.Matcher.{MatchInput, conflict, values, by_identifiers, decide_company_match}
use capbase.Companies.Justified.{NoRoute}

-- A list with two texts in it is neither empty nor a single text.
two_or_more :
    (l : List String) (a b : String)
    → has a l ≡ true
    → has b l ≡ true
    → (a == b) ≡ false
    → (x : String) × (y : String) × (rest : List String) × (l ≡ x ∷ y ∷ rest)
two_or_more [] a b h k e = cc
two_or_more (x ∷ []) a b h k e = absurd (ground (arith, eq_iff x a, eq_iff x b, eq_iff a b))
two_or_more (x ∷ y ∷ l) a b h k e = (x, y, l, refl)

-- Where nothing routes the record and two of its legal identifiers name different companies, the
-- record is neither written nor creates a company, whatever its record ids, its domain and the
-- evidence say: it is skipped as "identifiers-disagree", and the companies named with that are
-- exactly those that its legal identifiers name, each of them once.
pub disagreement-conflict :
    (m : MatchInput) (a b : String)
    → NoRoute m
    → has a (values m.legal_hits) ≡ true
    → has b (values m.legal_hits) ≡ true
    → (a == b) ≡ false
    → (ids : List String) × (decide_company_match m ≡ conflict "identifiers-disagree" ids)
      × ((s : String) → has s ids ≡ has s (values m.legal_hits))
      × NoRepeat ids
unfolding decide_company_match by_identifiers
disagreement-conflict m a b (n, o, u) h k e =
    let ids = unique (values m.legal_hits) in
    let (x, y, rest, two) =
      two_or_more ids a b (has-unique a (values m.legal_hits) ∙ h)
        (has-unique b (values m.legal_hits) ∙ k) e in
    (
      ids,
      rw (n, o, u) (rw two refl),
      λ s. has-unique s (values m.legal_hits),
      unique-NoRepeat (values m.legal_hits),
    )
