-- ===== src/EToken/Settings.antt =====
-- The setters of `EToken` (prototype/ensuro.py), of which `set_internal_loan_interest_rate` is in
-- Loans. `granted` is what the decorator `only_role` of ethproto says of the caller.
use ensuro.Prelude.{ℕ, Option}
use ensuro.Prelude.Int.{ℤ}
use ensuro.Prelude.Calls.{Result, ok, ◌>>◌}
use ensuro.EToken.State.{EToken}

module _ {L : Type 0} where
  unfoldable pub set_max_utilization_rate : ℤ → EToken L → EToken L
  set_max_utilization_rate new_rate e = record e { max_utilization_rate = new_rate }

  unfoldable pub set_min_utilization_rate : ℤ → EToken L → EToken L
  set_min_utilization_rate new_rate e = record e { min_utilization_rate = new_rate }

  unfoldable pub set_whitelist : Result (Unit {0}) → Option ℕ → EToken L → Result (EToken L)
  set_whitelist granted whitelist e = do granted; ok (record e { whitelist = whitelist })
