-- ===== src/RiskModule/State.antt =====
-- The fields of `RiskModule` and of `BucketParams` (prototype/ensuro.py). Contracts are told apart
-- by their `contract_id`, a number here.
use ensuro.Prelude.{ℕ, ◌*◌}
use ensuro.Prelude.Int.{ℤ, pos}

abbrev pub seconds_in_year : ℤ
seconds_in_year = pos (365 * 24 * 3600)

abbrev pub seconds_in_hour : ℕ
seconds_in_hour = 3600

pub record BucketParams : Type 0 where
  pub moc : ℤ
  pub jr_coll_ratio : ℤ
  pub coll_ratio : ℤ
  pub ensuro_pp_fee : ℤ
  pub ensuro_coc_fee : ℤ
  pub jr_roc : ℤ
  pub sr_roc : ℤ

pub record RiskModule : Type 0 where
  pub contract_id : ℕ
  pub premiums_account : ℕ
  pub moc : ℤ
  pub jr_coll_ratio : ℤ
  pub coll_ratio : ℤ
  pub ensuro_pp_fee : ℤ
  pub ensuro_coc_fee : ℤ
  pub jr_roc : ℤ
  pub sr_roc : ℤ
  pub max_payout_per_policy : ℤ
  pub exposure_limit : ℤ
  pub active_exposure : ℤ
  pub max_duration : ℤ
  pub wallet : ℕ

-- `BucketParams.from_rm`
unfoldable pub from_rm : RiskModule → BucketParams
from_rm rm = record {
  moc = rm.moc;
  jr_coll_ratio = rm.jr_coll_ratio;
  coll_ratio = rm.coll_ratio;
  ensuro_pp_fee = rm.ensuro_pp_fee;
  ensuro_coc_fee = rm.ensuro_coc_fee;
  jr_roc = rm.jr_roc;
  sr_roc = rm.sr_roc;
}
