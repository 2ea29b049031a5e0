-- ===== src/EToken/State.antt =====
-- The fields of `EToken` (prototype/ensuro.py).
use ensuro.Prelude.{ℕ, Bool, Option, List}
use ensuro.Prelude.Int.{ℤ}
use ensuro.ScaledAmount.{ScaledAmount}

-- `base` is the state of the inherited `ERC20Token`; `check_balance_disabled` says whether the
-- object has the attribute `_check_balance_disabled`.
pub record EToken (L : Type 0) : Type 0 where
  pub contract_id : ℕ
  pub base : L
  pub asset_manager : Option ℕ
  pub scale_factor : ℤ
  pub last_scale_update : ℤ
  pub scr : ℤ
  pub scr_interest_rate : ℤ
  pub token_interest_rate : ℤ
  pub liquidity_requirement : ℤ
  pub min_utilization_rate : ℤ
  pub max_utilization_rate : ℤ
  pub whitelist : Option ℕ
  pub internal_loan_interest_rate : ℤ
  pub loans : List (ℕ × ScaledAmount)
  pub check_balance_disabled : Bool
