-- ===== src/MergeService/Calls.antt =====
-- What a call of apps/api/src/admin/merge/merge.service.ts throws and draws.
use capbase.Base.{ℕ, String}
use capbase.MergeService.Store.{MergeStatus}

pub data MergeError : Type 0 where
  merged_into_itself row_missing already_merged_away survivor_merged_away no_longer_merged :
      MergeError
  candidate_missing pair_merged survivor_not_of_pair record_missing already_reversed : MergeError
  candidate_decided : MergeStatus → MergeError

-- What a call draws.
pub record Draw : Type 0 where
  pub now : ℕ
  pub record_id : String
  pub revision_id : String
  pub fresh : ℕ → String
