-- ===== src/People/Tests.antt =====
-- A run of `assignPeople`, and its theorems at that run.
use capbase.Base.{
  Bool, not, ap, all, has_text, ◌≡◌, refl, true, false, none, some, List, [], ◌∷◌, Text, CaseTables,
  to_lower, eq_text, decimal, digits_before, length, trim, strip_both, drop_while, to_upper,
}
use capbase.Identifiers.Normalize.{normalize_identifier, normalize_trimmed}
use capbase.People.Names.{
  name_variant_key, ends_of, words, join, pop_while, normalize_person_name, dash_runs, kebab,
  split_colons, qid_of_parts, person_qid,
}
use capbase.People.Slugs.{slug_candidate, free_slug, unique_person_slug, unique_person_slug-Free}
use capbase.People.Assign.{
  BackfillRole, ExistingPeople, get, put, known, attach, new_slug, create, create_and_attach, mint,
  identifier_step, name_step, identifier_pass, name_pass, assign_people,
}
use capbase.People.Variants.{
  AssignedRole, VariantPair, full_key, add_text, add_to_group, group_people, after_bar, pairs_after,
  pairs_of, propose_group, propose_groups, variant_pairs,
}
use capbase.People.Proposed.{variant_pairs-all}
use capbase.People.Safe.{NoDup, marks}
use capbase.People.Outcomes.{ids, decided}
use capbase.People.Accounted.{assign_people-decided}

-- Tables under which a text with other characters stays as it is.
abbrev plain_tables : CaseTables
plain_tables = record { upper = λ s. s; lower = λ s. s }

abbrev ann : BackfillRole
ann = record {
  id = b'r' ∷ b'1' ∷ [];
  name = b'A' ∷ b'n' ∷ b'n' ∷ 32 ∷ b'L' ∷ b'e' ∷ b'e' ∷ [];
  org_id = none;
  external_source = some (b'W' ∷ b'I' ∷ b'K' ∷ b'I' ∷ b'D' ∷ b'A' ∷ b'T' ∷ b'A' ∷ []);
  external_id = some (
      b'Q' ∷ b'1' ∷ b':' ∷ b'p' ∷ b'e' ∷ b'r' ∷ b's' ∷ b'o' ∷ b'n' ∷ b':' ∷ b'Q' ∷ b'7' ∷ b':'
      ∷ b'c' ∷ b'e' ∷ b'o' ∷ []);
  person_id = none;
  approved = true;
}

abbrev ann_again : BackfillRole
ann_again = record {
  id = b'r' ∷ b'2' ∷ [];
  name = b'a' ∷ b'n' ∷ b'n' ∷ 32 ∷ b'l' ∷ b'e' ∷ b'e' ∷ [];
  org_id = none;
  external_source = none;
  external_id = none;
  person_id = none;
  approved = false;
}

abbrev bo : BackfillRole
bo = record {
  id = b'r' ∷ b'3' ∷ [];
  name = b'B' ∷ b'o' ∷ 32 ∷ b'R' ∷ b'a' ∷ b'y' ∷ [];
  org_id = none;
  external_source = none;
  external_id = none;
  person_id = none;
  approved = false;
}

abbrev removed : BackfillRole
removed = record {
  id = b'r' ∷ b'4' ∷ [];
  name = b'C' ∷ b'y' ∷ 32 ∷ b'F' ∷ b'o' ∷ b'x' ∷ [];
  org_id = none;
  external_source = none;
  external_id = none;
  person_id = none;
  approved = true;
}

abbrev stored : ExistingPeople
stored = record {
  by_qid = [];
  by_name = [];
  slugs = (b'b' ∷ b'o' ∷ b'-' ∷ b'r' ∷ b'a' ∷ b'y' ∷ []) ∷ [];
  suppressed = (b'c' ∷ b'y' ∷ 32 ∷ b'f' ∷ b'o' ∷ b'x' ∷ []) ∷ [];
}

abbrev four : List BackfillRole
four = ann ∷ ann_again ∷ bo ∷ removed ∷ []

four_read :
    marks (assign_people plain_tables four stored).created
    ≡ (
      (b'a' ∷ b'n' ∷ b'n' ∷ b'-' ∷ b'l' ∷ b'e' ∷ b'e' ∷ []),
      (b'a' ∷ b'n' ∷ b'n' ∷ 32 ∷ b'l' ∷ b'e' ∷ b'e' ∷ []),
    )
      ∷ (
        (b'b' ∷ b'o' ∷ b'-' ∷ b'r' ∷ b'a' ∷ b'y' ∷ b'-' ∷ b'2' ∷ []),
        (b'b' ∷ b'o' ∷ 32 ∷ b'r' ∷ b'a' ∷ b'y' ∷ []),
      )
      ∷ []
unfolding assign_people identifier_pass name_pass identifier_step name_step mint create_and_attach
    create attach new_slug unique_person_slug free_slug slug_candidate kebab dash_runs strip_both
    drop_while to_lower normalize_person_name words join pop_while person_qid split_colons
    qid_of_parts normalize_identifier normalize_trimmed trim to_upper eq_text has_text known get put
    decimal digits_before
four_read = refl

unique_person_slug-Free_example :
    (slug : Text) × (unique_person_slug
        (b'b' ∷ b'o' ∷ b'-' ∷ b'r' ∷ b'a' ∷ b'y' ∷ [])
        ((b'b' ∷ b'o' ∷ b'-' ∷ b'r' ∷ b'a' ∷ b'y' ∷ []) ∷ [])
      ≡ some slug)
    × (has_text slug ((b'b' ∷ b'o' ∷ b'-' ∷ b'r' ∷ b'a' ∷ b'y' ∷ []) ∷ []) ≡ false)
unique_person_slug-Free_example =
    unique_person_slug-Free (b'b' ∷ b'o' ∷ b'-' ∷ b'r' ∷ b'a' ∷ b'y' ∷ [])
      ((b'b' ∷ b'o' ∷ b'-' ∷ b'r' ∷ b'a' ∷ b'y' ∷ []) ∷ [])

four_different : NoDup (ids four)
unfolding has_text eq_text
four_different = (refl, (refl, (refl, (refl, tt))))

assign_people-decided_example : decided (assign_people plain_tables four stored) ≡ length four
assign_people-decided_example = assign_people-decided plain_tables four stored four_different

abbrev role_of : Text → Text → AssignedRole
role_of id name = record { person_id = id; org_id = some (b'o' ∷ []); name = name }

abbrev larsons : List AssignedRole
larsons =
    role_of (b'1' ∷ [])
      (b'A' ∷ b'd' ∷ b'a' ∷ b'm' ∷ 32 ∷ b'L' ∷ b'a' ∷ b'r' ∷ b's' ∷ b'o' ∷ b'n' ∷ [])
    ∷ role_of (b'2' ∷ []) (
        b'A' ∷ b'd' ∷ b'a' ∷ b'm' ∷ 32 ∷ b'J' ∷ 32 ∷ b'L' ∷ b'a' ∷ b'r' ∷ b's' ∷ b'o' ∷ b'n' ∷ 32
        ∷ b'J' ∷ b'r' ∷ [])
    ∷ role_of (b'1' ∷ [])
        (b'a' ∷ b'd' ∷ b'a' ∷ b'm' ∷ 32 ∷ b'l' ∷ b'a' ∷ b'r' ∷ b's' ∷ b'o' ∷ b'n' ∷ [])
    ∷ []

abbrev larson_pair : VariantPair
larson_pair = record {
  a_id = (b'1' ∷ []);
  b_id = (b'2' ∷ []);
  evidence = (b'a' ∷ b'd' ∷ b'a' ∷ b'm' ∷ 32 ∷ b'l' ∷ b'a' ∷ b'r' ∷ b's' ∷ b'o' ∷ b'n' ∷ []);
}

larsons_read : (variant_pairs plain_tables larsons 8).pairs ≡ larson_pair ∷ []
unfolding variant_pairs group_people add_to_group add_text full_key propose_groups propose_group
    pairs_of pairs_after after_bar name_variant_key ends_of normalize_person_name words join
    pop_while to_lower eq_text has_text get put
larsons_read = refl

abbrev two_people : VariantPair → Bool
two_people q = not (eq_text q.b_id q.a_id)

variant_pairs-all_example : all two_people (variant_pairs plain_tables larsons 8).pairs ≡ true
variant_pairs-all_example =
    variant_pairs-all plain_tables (λ r. true) two_people larsons 8
      (λ r s org key a b c d e i j n. ap not n) refl refl
