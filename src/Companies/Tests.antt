-- ===== src/Companies/Tests.antt =====
-- Runs of the company identity policy, and its theorems at concrete evidence.
use mathlib.Core.List.{flatten}
use capbase.People.Names.{words, join}
use capbase.Companies.Names.{blank_runs, glued, glue, drop_form, company_identity_key}
use capbase.Base.{
  String, List, has, NoRepeat, to_lower, eq_text, has_text, ◌≡◌, refl, true, none, some, [], ◌∷◌,
  unique, distinct, sort, insert_sorted,
}
use capbase.Companies.Matcher.{
  CandidateEvidence, MatchInput, review_required, existing, conflict, create, hold, domain, values,
  holds_other_record, by_domain, holders, by_identifiers, decide_company_match,
}
use capbase.Companies.Justified.{Explains, decide_company_match-Explains}
use capbase.Companies.Conflicts.{disagreement-conflict}

abbrev acme : CandidateEvidence
acme = record {
  id = "c1";
  live = true;
  external_source = some "SEC";
  external_id = some "77";
  record_ids = [];
  unresolved_aliases = [];
  company_number = none;
  country_code = some "US";
}

-- A record of the partner whose domain acme holds.
abbrev by_its_domain : MatchInput
by_its_domain = record {
  source = "PARTNER";
  source_company_id = "p9";
  own_company_id = none;
  binding = none;
  legal_hits = [];
  record_hits = [];
  domain_holders = "c1" ∷ "c1" ∷ [];
  company_number = some "00000001";
  candidates = ("c1", acme) ∷ [];
}

abbrev two_companies : MatchInput
two_companies = record by_its_domain {
  legal_hits = ("CIK:1", "c2") ∷ ("LEI:2", "c1") ∷ [];
  own_company_id = some "";
}

decide_runs :
    (decide_company_match by_its_domain ≡ existing "c1" domain)
    × (decide_company_match (record by_its_domain {
      candidates = ("c1", record acme { record_ids = "PARTNER:p8" ∷ [] }) ∷ [];
    })
        ≡ create "distinct-source-record")
    × (decide_company_match (record by_its_domain { record_hits = ("PARTNER:p9", "c1") ∷ [] })
        ≡ hold "unbound-record-alias" ("c1" ∷ []))
    × (decide_company_match two_companies ≡ conflict "identifiers-disagree" ("c1" ∷ "c2" ∷ []))
    × (decide_company_match (record two_companies {
      binding = some (record { company_id = none; status = review_required });
    })
        ≡ hold "review-required" [])
unfolding decide_company_match by_identifiers by_domain holders holds_other_record unique distinct
    sort insert_sorted
decide_runs = (refl, refl, refl, refl, refl)

decide_company_match-Explains_example : Explains by_its_domain (decide_company_match by_its_domain)
decide_company_match-Explains_example = decide_company_match-Explains by_its_domain

disagreement-conflict_example :
    (ids : List String) × (decide_company_match two_companies ≡ conflict "identifiers-disagree" ids)
    × ((s : String) → has s ids ≡ has s (values two_companies.legal_hits))
    × NoRepeat ids
disagreement-conflict_example =
    disagreement-conflict two_companies "c1" "c2" (refl, refl, refl) refl refl refl

-- "Indigo L.L.C." has the key of "Indigo", and "Indigo Ag Inc" does not.
indigo_read :
    company_identity_key
      (record { upper = λ s. s; lower = λ s. s })
      (λ s. s)
      (b'I' ∷ b'n' ∷ b'd' ∷ b'i' ∷ b'g' ∷ b'o' ∷ 32 ∷ b'L' ∷ b'.' ∷ b'L' ∷ b'.' ∷ b'C' ∷ b'.' ∷ [])
    ≡ (b'i' ∷ b'n' ∷ b'd' ∷ b'i' ∷ b'g' ∷ b'o' ∷ [])
unfolding company_identity_key to_lower blank_runs words glue glued drop_form join eq_text has_text
    flatten
indigo_read = refl

indigo_ag_read :
    company_identity_key
      (record { upper = λ s. s; lower = λ s. s })
      (λ s. s)
      (b'I' ∷ b'n' ∷ b'd' ∷ b'i' ∷ b'g' ∷ b'o' ∷ 32 ∷ b'A' ∷ b'g' ∷ 32 ∷ b'I' ∷ b'n' ∷ b'c' ∷ [])
    ≡ (b'i' ∷ b'n' ∷ b'd' ∷ b'i' ∷ b'g' ∷ b'o' ∷ 32 ∷ b'a' ∷ b'g' ∷ [])
unfolding company_identity_key to_lower blank_runs words glue glued drop_form join eq_text has_text
    flatten
indigo_ag_read = refl
