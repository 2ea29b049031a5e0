-- ===== src/EToken/Capital.antt =====
-- Locking and unlocking solvency capital (`EToken.lock_scr`, `EToken.unlock_scr`,
-- prototype/ensuro.py).
use ensuro.Prelude.{if◌then◌else◌}
use ensuro.Prelude.Int.{ℤ, pos, ◌+ℤ◌, ◌-ℤ◌, ◌≤?◌, ◌=?◌}
use ensuro.Prelude.Calls.{Fault, Result, ok, ◌>>=◌, ◌>>◌, require}
use ensuro.WadRay.{WadRay, ◌*W◌, ◌/W◌}
use ensuro.Outside.{Outside, TokenBase}
use ensuro.EToken.State.{EToken}
use ensuro.EToken.Scale.{
  update_current_scale, funds_available_to_lock, update_token_interest_rate, discrete_earning,
  check_balance,
}

module _ {L : Type 0} ⦃w : WadRay⦄ where
  -- The SCR and its rate after a lock: the rate is the average weighted by the amounts.
  unfoldable pub add_scr : ℤ → ℤ → EToken L → Result (EToken L)
  add_scr scr_amount interest_rate e =
      if e.scr =? pos 0
      then ok (record e { scr = scr_amount; scr_interest_rate = interest_rate })
      else do
        let scr = e.scr +ℤ scr_amount
        rate ← (e.scr_interest_rate *W e.scr +ℤ interest_rate *W scr_amount) /W scr
        ok (record e { scr = scr; scr_interest_rate = rate })

  unfoldable pub remove_scr : ℤ → ℤ → EToken L → Result (EToken L)
  remove_scr scr_amount interest_rate e =
      if e.scr =? scr_amount then ok (record e { scr = pos 0; scr_interest_rate = pos 0 }) else do
        let scr = e.scr -ℤ scr_amount
        rate ← (e.scr_interest_rate *W e.scr -ℤ interest_rate *W scr_amount) /W scr
        ok (record e { scr = scr; scr_interest_rate = rate })

module _ {L W : Type 0} ⦃w : WadRay⦄ ⦃b : TokenBase L⦄ ⦃o : Outside W⦄ where
  unfoldable pub lock_scr : ℤ → ℤ → ℤ → EToken L → W → Result (EToken L)
  lock_scr now scr_amount interest_rate e x = do
    e1 ← update_current_scale now e
    funds ← funds_available_to_lock now e1
    require (scr_amount ≤? funds) Fault.no_funds_for_scr
    e2 ← add_scr scr_amount interest_rate e1
    e3 ← update_token_interest_rate now e2
    check_balance now e3 x
    ok e3

  unfoldable pub unlock_scr : ℤ → ℤ → ℤ → ℤ → EToken L → W → Result (EToken L)
  unlock_scr now scr_amount interest_rate adjustment e x = do
    require (scr_amount ≤? e.scr) Fault.unlock_over_scr
    e1 ← update_current_scale now e
    e2 ← remove_scr scr_amount interest_rate e1
    e3 ← discrete_earning now adjustment e2
    check_balance now e3 x
    ok e3
