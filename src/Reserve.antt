-- ===== src/Reserve.antt =====
-- `ReserveMixin._transfer_to` (prototype/ensuro.py), shared by eTokens and premiums accounts.
pub mod Transfers
pub mod Management
pub mod Receipts
use ensuro.Prelude.{ℕ, not, ◌&&◌, Option, none, some, ◌==◌, if◌then◌else◌}
use ensuro.Prelude.Int.{ℤ, pos, ◌-ℤ◌, ◌<?◌, ◌=?◌}
use ensuro.Prelude.Calls.{Fault, Result, ok, ◌>>=◌, ◌>>◌, require}
use ensuro.Outside.{Outside, negligible}

-- What is sent: the balance read before the refill, if it falls short by a negligible amount.
unfoldable pub amount_sent : ℤ → ℤ → ℤ → ℤ
amount_sent small balance amount =
    if balance <? amount && (amount -ℤ balance) <? small then balance else amount

module _ {W : Type 0} ⦃o : Outside W⦄ where
  -- The asset manager, if there is one, is asked for cash where the balance is short.
  unfoldable pub refill_if_short : Option ℕ → ℤ → ℤ → W → Result W
  refill_if_short none balance amount x = ok x
  refill_if_short (some manager) balance amount x =
      if balance <? amount then o.refill_wallet manager amount x else ok x

  -- `self`, its asset manager, the target and the amount.
  unfoldable pub transfer_to : ℕ → Option ℕ → ℕ → ℤ → W → Result W
  transfer_to self manager target amount x = do
    require (not (target == 0)) Fault.zero_target
    if amount =? pos 0 then ok x else do
      let balance = o.balance_of x self
      x' ← refill_if_short manager balance amount x
      o.transfer self target (amount_sent (negligible o) balance amount) x'
