-- ===== src/ApiKeys/Listing.antt =====
-- `list` and `toSummary` of apps/api/src/api-keys/api-keys.service.ts. A time is left as a number.
use capbase.Base.{ℕ, String, Option, List, [], ◌∷◌, map, if◌then◌else◌, Text, keep, ltb}
use capbase.ApiKeys.Store.{ApiKeyScope, ApiKey, Database, active_of}

pub record ApiKeySummary : Type 0 where
  pub id : String
  pub name : Text
  pub prefix : Text
  pub scope : ApiKeyScope
  pub allowed_cidrs : List Text
  pub created_at : ℕ
  pub last_used_at : Option ℕ

unfoldable pub to_summary : ApiKey → ApiKeySummary
to_summary row = record {
  id = row.id;
  name = row.name;
  prefix = row.prefix;
  scope = row.scope;
  allowed_cidrs = row.allowed_cidrs;
  created_at = row.created_at;
  last_used_at = row.last_used_at;
}

-- `orderBy: { createdAt: 'desc' }`
unfoldable pub insert_newest_key : ApiKey → List ApiKey → List ApiKey
insert_newest_key row [] = row ∷ []
insert_newest_key row (other ∷ rows) =
    if ltb row.created_at other.created_at
    then other ∷ insert_newest_key row rows
    else row ∷ other ∷ rows

unfoldable pub newest_keys : List ApiKey → List ApiKey
newest_keys [] = []
newest_keys (row ∷ rows) = insert_newest_key row (newest_keys rows)

unfoldable pub list_keys : String → Database → List ApiKeySummary
list_keys user_id db = map to_summary (newest_keys (keep (active_of user_id) db.keys))
