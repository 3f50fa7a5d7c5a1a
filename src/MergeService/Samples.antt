-- ===== src/MergeService/Samples.antt =====
-- Small tables for the runs of apps/api/src/admin/merge/merge.service.ts.
use capbase.Base.{String, none, some, List, [], ◌∷◌, Result, ok, err}
use capbase.MergeService.Store.{
  IdentifiableType, company, Entity, Model, funding_round, Child, SavedCompany, Citation, pending,
  Database,
}
use capbase.MergeService.Calls.{Draw, MergeError}
use capbase.MergeService.Merging.{merge}

abbrev pub acme : Entity
acme = record { id = "a"; slug = "acme"; name = "Acme"; merged_into_id = none }

abbrev pub acme_inc : Entity
acme_inc = record { id = "b"; slug = "acme-inc"; name = "Acme Inc"; merged_into_id = none }

abbrev pub entities : IdentifiableType → List Entity
entities company = acme ∷ acme_inc ∷ []
entities _ = []

abbrev pub tables : Model → List Child
tables funding_round =
    record {
      id = "r1";
      company_id = some "b";
      investor_id = none;
      manager_id = none;
      person_id = none;
    }
    ∷ record {
      id = "r2";
      company_id = some "a";
      investor_id = none;
      manager_id = none;
      person_id = none;
    }
    ∷ []
tables _ = []

-- One user saved both companies, another the one that goes.
abbrev pub saves : List SavedCompany
saves =
    record { id = "s1"; user_id = "u"; company_id = "b"; created_at = 1 }
    ∷ record { id = "s2"; user_id = "u"; company_id = "a"; created_at = 2 }
    ∷ record { id = "s3"; user_id = "v"; company_id = "b"; created_at = 3 }
    ∷ []

abbrev pub citation : String → String → Citation
citation id entity_id = record {
  id = id;
  source_id = b's' ∷ [];
  entity_type = "company";
  entity_id = entity_id;
  field = b'f' ∷ [];
  note = none;
  submitted_by_id = none;
  created_at = 4;
}

abbrev pub db : Database
db = record {
  entities = entities;
  tables = tables;
  saves = saves;
  revisions = [];
  citations = citation "c1" "a" ∷ citation "c2" "b" ∷ [];
  identifiers =
      record {
        id = "i1";
        scheme = b'D' ∷ [];
        value = b'x' ∷ [];
        entity_type = "company";
        entity_id = "b";
        source = [];
        created_at = 5;
      }
      ∷ [];
  candidates =
      record {
        id = "p";
        entity_type = company;
        left_id = "a";
        right_id = "b";
        signal = "name";
        evidence = "acme";
        status = pending;
        decided_at = none;
        decided_by_id = none;
        created_at = 7;
      }
      ∷ [];
  records = [];
}

abbrev pub draw : Draw
draw = record { now = 10; record_id = "m1"; revision_id = "v1"; fresh = λ n. "n" }

abbrev pub later : Draw
later = record { now = 20; record_id = "m2"; revision_id = "v2"; fresh = λ n. "n" }

abbrev pub outcome : Result MergeError Database → Database
outcome (ok after) = after
outcome (err e) = db

abbrev pub merged_db : Database
merged_db = outcome (merge company "a" "b" "admin" (some "p") draw db)
