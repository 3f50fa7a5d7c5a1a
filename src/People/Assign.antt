-- ===== src/People/Assign.antt =====
-- `assignPeople` of apps/jobs/src/ingest/person-matcher.ts, one function for a round of each of its two
-- loops. A `ref` of the code, `new:` and a number, is the number; that no stored person id reads so is
-- taken for granted. A created person is changed through its ref, so `byRef` is the list of them.
use capbase.Base.{
  ℕ, ◌+◌, Bool, false, not, Option, none, some, List, [], ◌∷◌, ◌++◌, ◌&&◌, ◌||◌, ◌==◌, map,
  if◌then◌else◌, Text, CaseTables, eq_text, has_text, length, or_else, is_some,
}
use capbase.People.Names.{given, is_wikidata, kebab, normalize_person_name, person_qid}
use capbase.People.Slugs.{unique_person_slug}

pub record BackfillRole : Type 0 where
  pub id : Text
  pub name : Text
  pub org_id : Option Text
  pub external_source : Option Text
  pub external_id : Option Text
  pub person_id : Option Text
  pub approved : Bool

pub record NewPerson : Type 0 where
  pub ref : ℕ
  pub slug : Text
  pub name : Text
  pub normalized_name : Text
  pub qid : Option Text
  pub approved : Bool
  pub role_ids : List Text

pub record ExistingPeople : Type 0 where
  pub by_qid : List (Text × Text)
  pub by_name : List (Text × Text)
  pub slugs : List Text
  pub suppressed : List Text

-- What the run keeps: what it returns, then the maps and the list that are its own.
pub record Assignment : Type 0 where
  pub created : List NewPerson
  pub attached : List (Text × Text)
  pub assigned_refs : List (Text × ℕ)
  pub skipped : ℕ
  pub unusable : ℕ
  pub suppressed : ℕ
  pub malformed_qids : ℕ
  pub new_by_qid : List (Text × ℕ)
  pub new_by_name : List (Text × ℕ)
  pub slugs : List Text
  pub remaining : List BackfillRole

-- The run before its first round.
abbrev pub begun : ExistingPeople → Assignment
begun existing = record {
  created = [];
  attached = [];
  assigned_refs = [];
  skipped = 0;
  unusable = 0;
  suppressed = 0;
  malformed_qids = 0;
  new_by_qid = [];
  new_by_name = [];
  slugs = existing.slugs;
  remaining = [];
}

module _ {ℓ} {V : Type ℓ} where
  -- `map.get(key)` and `map.set(key, value)`
  unfoldable pub get : Text → List (Text × V) → Option V
  get key [] = none
  get key (e ∷ table) = if eq_text e.0 key then some e.1 else get key table

  unfoldable pub put : Text → V → List (Text × V) → List (Text × V)
  put key value [] = (key, value) ∷ []
  put key value (e ∷ table) =
      let later = put key value table in if eq_text e.0 key then (e.0, value) ∷ table else e ∷ later

pub data Target : Type 0 where
  person : Text → Target
  minted : ℕ → Target

abbrev pub minted_of : Option ℕ → Option Target
minted_of none = none
minted_of (some ref) = some (minted ref)

-- `existing.get(key) ?? minted.get(key)`, which is then tested for a text.
unfoldable pub known : Text → List (Text × Text) → List (Text × ℕ) → Option Target
known key existing new = elim (get key existing) [
  | some id ↦ if eq_text id [] then none else some (person id)
  | none ↦ minted_of (get key new)
]

abbrev pub join_role : BackfillRole → ℕ → NewPerson → NewPerson
join_role role ref p =
    if p.ref == ref
    then record p { role_ids = p.role_ids ++ role.id ∷ []; approved = p.approved || role.approved }
    else p

-- `attach`
unfoldable pub attach : Assignment → BackfillRole → Target → Assignment
attach run role (minted ref) = record run {
  created = map (join_role role ref) run.created;
  assigned_refs = put role.id ref run.assigned_refs;
}
attach run role (person id) = record run { attached = put role.id id run.attached }

abbrev pub register_qid : Option Text → ℕ → List (Text × ℕ) → List (Text × ℕ)
register_qid none ref table = table
register_qid (some qid) ref table = put qid ref table

module _ (tables : CaseTables) where
  -- The slug that `create` gives; the loop always finds one, so the base is never the answer instead.
  unfoldable pub new_slug : Text → List Text → Text
  new_slug name taken = or_else (unique_person_slug (kebab tables name) taken) (kebab tables name)

  -- `create`; the ref of the person is the number of those before.
  unfoldable pub create : Assignment → BackfillRole → Option Text → Text → Assignment
  create run role qid norm =
      let slug = new_slug role.name run.slugs in
      let ref = length run.created in
      record run {
        created =
            run.created
            ++ record {
              ref = ref;
              slug = slug;
              name = role.name;
              normalized_name = norm;
              qid = qid;
              approved = false;
              role_ids = [];
            }
              ∷ [];
        slugs = slug ∷ run.slugs;
        new_by_qid = register_qid qid ref run.new_by_qid;
        new_by_name =
            if not (eq_text norm []) && not (is_some (get norm run.new_by_name))
            then put norm ref run.new_by_name
            else run.new_by_name;
      }

  unfoldable pub create_and_attach : Assignment → BackfillRole → Option Text → Text → Assignment
  create_and_attach run role qid norm =
      attach (create run role qid norm) role (minted (length run.created))

  -- A role that nobody known holds: of a person who asked to be removed, or of a new one.
  unfoldable pub mint : ExistingPeople → Assignment → BackfillRole → Option Text → Text → Assignment
  mint existing run role qid norm =
      if has_text norm existing.suppressed
      then record run { suppressed = run.suppressed + 1 }
      else create_and_attach run role qid norm

  -- A round of the first loop.
  unfoldable pub identifier_step : ExistingPeople → Assignment → BackfillRole → Assignment
  identifier_step existing run role =
      if is_some (given role.person_id)
      then record run { skipped = run.skipped + 1 }
      else elim (person_qid tables role.external_source role.external_id) [
        | none ↦ record run {
          malformed_qids =
              if is_wikidata role.external_source && is_some (given role.external_id)
              then run.malformed_qids + 1
              else run.malformed_qids;
          remaining = run.remaining ++ role ∷ [];
        }
        | some qid ↦ elim (known qid existing.by_qid run.new_by_qid) [
          | some target ↦ attach run role target
          | none ↦ mint existing run role (some qid) (normalize_person_name tables role.name)
        ]
      ]

  -- A round of the second loop, on the key of the name.
  unfoldable pub name_step : ExistingPeople → Assignment → BackfillRole → Text → Assignment
  name_step existing run role norm =
      if eq_text norm []
      then record run { unusable = run.unusable + 1 }
      else if has_text norm existing.suppressed
      then record run { suppressed = run.suppressed + 1 }
      else elim (known norm existing.by_name run.new_by_name) [
        | some target ↦ attach run role target
        | none ↦ create_and_attach run role none norm
      ]

  unfoldable pub identifier_pass : ExistingPeople → Assignment → List BackfillRole → Assignment
  identifier_pass existing run [] = run
  identifier_pass existing run (role ∷ roles) =
      identifier_pass existing (identifier_step existing run role) roles

  unfoldable pub name_pass : ExistingPeople → Assignment → List BackfillRole → Assignment
  name_pass existing run [] = run
  name_pass existing run (role ∷ roles) =
      name_pass existing (name_step existing run role (normalize_person_name tables role.name))
        roles

  unfoldable pub assign_people : List BackfillRole → ExistingPeople → Assignment
  assign_people roles existing =
      let first = identifier_pass existing (begun existing) roles in
      name_pass existing first first.remaining
