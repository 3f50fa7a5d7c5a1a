-- ===== src/People/Accounted.antt =====
-- Every role of `assignPeople` has exactly one outcome (apps/jobs/src/ingest/person-matcher.ts).
use mathlib.Core.Path.{subst}
use mathlib.Core.List.{append-nil}
use capbase.Base.{
  ◌+◌, ◌≡◌, ◌⊎◌, refl, sym, ap, ◌∙◌, inl, inr, Option, none, some, List, [], ◌∷◌, ◌++◌, Text,
  CaseTables, eq_text, has_text, length, is_some, All, arith, Bool-cases, Option-cases,
}
use capbase.People.Names.{given, normalize_person_name, person_qid}
use capbase.People.Assign.{
  BackfillRole, ExistingPeople, Assignment, begun, Target, person, minted, known, get, attach,
  create, create_and_attach, mint, identifier_step, name_step, identifier_pass, name_pass,
  assign_people,
}
use capbase.People.Safe.{NoDup}
use capbase.People.Outcomes.{
  ids, decided, Open, Pending, attach-decided, attach-All, NoDup-middle, All-middle, Decides,
  Defers,
}

attach-remaining :
    (run : Assignment) (role : BackfillRole) (target : Target)
    → (attach run role target).remaining ≡ run.remaining
unfolding attach
attach-remaining run role (person id) = refl
attach-remaining run role (minted ref) = refl

attach-Decides :
    (run : Assignment) (role : BackfillRole) (target : Target)
    → Open run role.id
    → Decides run (attach run role target) role
attach-Decides run role target o =
    (attach-decided run role target o, attach-remaining run role target, attach-All run role target)

ids-moved :
    (l : List BackfillRole) (role : BackfillRole) (m : List Text)
    → ids (l ++ role ∷ []) ++ m ≡ ids l ++ role.id ∷ m
ids-moved [] role m = refl
ids-moved (r ∷ l) role m = ap (λ x. r.id ∷ x) (ids-moved l role m)

length-moved :
    (l : List BackfillRole) (role : BackfillRole) → length (l ++ role ∷ []) ≡ length l + 1
length-moved [] role = refl
length-moved (r ∷ l) role = ground (arith, length-moved l role)

module _ (tables : CaseTables) (existing : ExistingPeople) where
  create_and_attach-Decides :
      (run : Assignment) (role : BackfillRole) (qid : Option Text) (norm : Text)
      → Open run role.id
      → Decides run (create_and_attach tables run role qid norm) role
  unfolding create_and_attach create
  create_and_attach-Decides run role qid norm o =
      attach-Decides (create tables run role qid norm) role (minted (length run.created)) o

  identifier_step-cases :
      (run : Assignment) (role : BackfillRole)
      → Open run role.id
      → Decides run (identifier_step tables existing run role) role
        ⊎ Defers run (identifier_step tables existing run role) role
  unfolding identifier_step mint
  identifier_step-cases run role o = elim (Bool-cases (is_some (given role.person_id))) [
    | inl settled ↦ rw settled (inl (ground arith, refl, λ l h a. a))
    | inr unsettled ↦
        rw unsettled
          (elim (Option-cases (person_qid tables role.external_source role.external_id)) [
            | inl without ↦ rw without (inr (refl, refl, λ l a. a))
            | inr (qid, found) ↦
                rw found (elim (Option-cases (known qid existing.by_qid run.new_by_qid)) [
                  | inr (target, same) ↦ rw same (inl (attach-Decides run role target o))
                  | inl new ↦
                      let norm = normalize_person_name tables role.name in
                      rw new (elim (Bool-cases (has_text norm existing.suppressed)) [
                        | inl removed ↦ rw removed (inl (ground arith, refl, λ l h a. a))
                        | inr allowed ↦
                            rw allowed (inl (create_and_attach-Decides run role (some qid) norm o))
                      ])
                ])
          ])
  ]

  name_step-Decides :
      (run : Assignment) (role : BackfillRole) (norm : Text)
      → Open run role.id
      → Decides run (name_step tables existing run role norm) role
  unfolding name_step
  name_step-Decides run role norm o = elim (Bool-cases (eq_text norm [])) [
    | inl blank ↦ rw blank (ground arith, refl, λ l h a. a)
    | inr named ↦ rw named (elim (Bool-cases (has_text norm existing.suppressed)) [
      | inl removed ↦ rw removed (ground arith, refl, λ l h a. a)
      | inr allowed ↦
          rw allowed (elim (Option-cases (known norm existing.by_name run.new_by_name)) [
            | inr (target, same) ↦ rw same (attach-Decides run role target o)
            | inl new ↦ rw new (create_and_attach-Decides run role none norm o)
          ])
    ])
  ]

  name_pass-decided :
      (run : Assignment) (roles : List BackfillRole)
      → Pending run (ids roles)
      → decided (name_pass tables existing run roles) ≡ decided run + length roles
  unfolding name_pass
  name_pass-decided run [] h = ground arith
  name_pass-decided run (role ∷ roles) h =
      let next = name_step tables existing run role (normalize_person_name tables role.name) in
      let step = name_step-Decides run role (normalize_person_name tables role.name) h.1.0 in
      name_pass-decided next roles (h.0.1, step.2 (ids roles) h.0.0 h.1.1) ∙ ground (arith, step.0)

  -- After the first loop every role is decided or left, and those left are still open.
  identifier_pass-decided :
      (run : Assignment) (roles : List BackfillRole)
      → Pending run (ids run.remaining ++ ids roles)
      → (decided (identifier_pass tables existing run roles)
            + length (identifier_pass tables existing run roles).remaining
          ≡ decided run + length run.remaining + length roles)
        × Pending
            (identifier_pass tables existing run roles)
            (ids (identifier_pass tables existing run roles).remaining)
  unfolding identifier_pass
  identifier_pass-decided run [] h =
      (ground arith, subst (Pending run) (append-nil (ids run.remaining)) h)
  identifier_pass-decided run (role ∷ roles) h =
      let next = identifier_step tables existing run role in
      let open_one = All-middle (Open run) (ids run.remaining) role.id (ids roles) h.1 in
      let others = NoDup-middle (ids run.remaining) role.id (ids roles) h.0 in
      elim (identifier_step-cases run role open_one.0) [
        | inl step ↦
            let open_next = step.2 (ids run.remaining ++ ids roles) others.1 open_one.1 in
            let pending =
              subst (λ r. Pending next (ids r ++ ids roles)) (sym step.1) (others.0, open_next) in
            let rest = identifier_pass-decided next roles pending in
            (rest.0 ∙ ground (arith, step.0, ap length step.1), rest.1)
        | inr step ↦
            let moved =
              ap (λ r. ids r ++ ids roles) step.1 ∙ ids-moved run.remaining role (ids roles) in
            let open_next = step.2 (ids run.remaining ++ role.id ∷ ids roles) h.1 in
            let pending = subst (Pending next) (sym moved) (h.0, open_next) in
            let rest = identifier_pass-decided next roles pending in
            (
              rest.0 ∙ ground (arith, step.0, ap length step.1, length-moved run.remaining role),
              rest.1,
            )
      ]

All-Open : (existing : ExistingPeople) (l : List Text) → All (Open (begun existing)) l
unfolding get
All-Open existing [] = tt
All-Open existing (x ∷ l) = ((refl, refl), All-Open existing l)

-- Every role has exactly one outcome: with different ids, the roles skipped, unusable, suppressed,
-- attached to a stored person and assigned to a created one are together all the roles.
pub assign_people-decided :
    (tables : CaseTables) (roles : List BackfillRole) (existing : ExistingPeople)
    → NoDup (ids roles)
    → decided (assign_people tables roles existing) ≡ length roles
unfolding assign_people
assign_people-decided tables roles existing h =
    let first = identifier_pass tables existing (begun existing) roles in
    let parts =
      identifier_pass-decided tables existing (begun existing) roles
        (h, All-Open existing (ids roles)) in
    name_pass-decided tables existing first first.remaining parts.1 ∙ ground (arith, parts.0)
