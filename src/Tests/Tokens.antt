-- ===== src/Tests/Tokens.antt =====
-- eTokens and the premium transfers at concrete inputs.
use ensuro.Prelude.{◌≡◌, refl, arith, none}
use ensuro.Prelude.Int.{ℤ, pos, ◌+ℤ◌, ◌-ℤ◌, negℤ, ◌≤ℤ◌}
use ensuro.Prelude.Calls.{ok}
use ensuro.WadRay.{◌*W◌}
use ensuro.EToken.State.{EToken}
use ensuro.EToken.Scale.{calculate_current_scale, update_current_scale, total_supply, balance_of}
use ensuro.EToken.Scales.{update_current_scale-unseen}
use ensuro.EToken.Capital.{lock_scr, unlock_scr}
use ensuro.EToken.Locking.{lock_scr_lem, unlock_scr-lock_scr}
use ensuro.EToken.Liquidity.{withdraw}
use ensuro.EToken.Loans.{internal_loan}
use ensuro.EToken.Steps.{Step, History, AllNonneg, LocksNonneg, History-capital}
use ensuro.EToken.Withdrawals.{Withdrawn, withdraw-Withdrawn}
use ensuro.EToken.Lending.{Loaned, internal_loan-Loaned}
use ensuro.PolicyPool.Premiums.{Parties, collect}
use ensuro.PolicyPool.Payments.{Debits, IsApart, collect-premium}
use ensuro.Tests.Runs.{got, ok_got}
use ensuro.Tests.Running.{etokens, pools}
use ensuro.Tests.Samples.{
  sample_wadray, cash, units_base, units, thousandths, Cash, Units, wallets, account, etoken,
  risk_module,
}
use ensuro.Tests.Underwriting.{terms, the_split, split_ok}

-- The senior eToken with 1000 locked at 5% at the time 1000, and a day later.
abbrev locked : EToken Units
locked = got (lock_scr (pos 1000) (units 1000) (thousandths 50) (etoken 5) wallets) (etoken 5)

locked_ok : lock_scr (pos 1000) (units 1000) (thousandths 50) (etoken 5) wallets ≡ ok locked
unfolding etokens
locked_ok =
    ok_got (lock_scr (pos 1000) (units 1000) (thousandths 50) (etoken 5) wallets) (etoken 5) refl

abbrev tomorrow : ℤ
tomorrow = pos 87400

abbrev updated : EToken Units
updated = got (update_current_scale tomorrow locked) locked

updated_ok : update_current_scale tomorrow locked ≡ ok updated
unfolding etokens
updated_ok = ok_got (update_current_scale tomorrow locked) locked refl

update_current_scale-unseen_example :
    (calculate_current_scale tomorrow updated ≡ calculate_current_scale tomorrow locked)
    × (total_supply tomorrow updated ≡ total_supply tomorrow locked)
    × (balance_of tomorrow 10 updated ≡ balance_of tomorrow 10 locked)
update_current_scale-unseen_example = update_current_scale-unseen tomorrow 10 locked updated_ok

lock_scr_lem_example :
    (locked.scr ≡ (etoken 5).scr +ℤ units 1000)
    × (sample_wadray.min_scale ≤ℤ locked.scale_factor)
    × ((supply : ℤ) × (total_supply (pos 1000) (etoken 5) ≡ ok supply)
        × (locked.scr ≤ℤ supply *W units 1))
lock_scr_lem_example =
    lock_scr_lem (pos 1000) (units 1000) (thousandths 50) (etoken 5) wallets (omega arith) locked_ok

abbrev rich : Cash
rich k = units 6000

-- The interests of a day on 1000 at 5% come in with the unlock.
abbrev unlocked : EToken Units
unlocked = got (unlock_scr tomorrow (units 1000) (thousandths 50) (pos 0) locked rich) locked

unlocked_ok : unlock_scr tomorrow (units 1000) (thousandths 50) (pos 0) locked rich ≡ ok unlocked
unfolding etokens
unlocked_ok =
    ok_got (unlock_scr tomorrow (units 1000) (thousandths 50) (pos 0) locked rich) locked refl

unlock_scr-lock_scr_example : unlocked.scr ≡ (etoken 5).scr
unlock_scr-lock_scr_example =
    unlock_scr-lock_scr (pos 1000) tomorrow (units 1000) (thousandths 50) (thousandths 50) (pos 0)
      (etoken 5) wallets rich locked_ok unlocked_ok

abbrev withdrawn : ℤ × EToken Units × Cash
withdrawn = got (withdraw (pos 1000) 10 none locked wallets) (pos 0, locked, wallets)

withdrawn_ok : withdraw (pos 1000) 10 none locked wallets ≡ ok withdrawn
unfolding etokens
withdrawn_ok = ok_got (withdraw (pos 1000) 10 none locked wallets) (pos 0, locked, wallets) refl

withdraw-Withdrawn_example : Withdrawn (pos 1000) 10 none locked wallets withdrawn
withdraw-Withdrawn_example = withdraw-Withdrawn (pos 1000) 10 none locked wallets withdrawn_ok

abbrev lent : ℤ × EToken Units × Cash
lent = got (internal_loan tomorrow 4 (units 300) 9 (etoken 5) wallets) (pos 0, etoken 5, wallets)

lent_ok : internal_loan tomorrow 4 (units 300) 9 (etoken 5) wallets ≡ ok lent
unfolding etokens
lent_ok =
    ok_got (internal_loan tomorrow 4 (units 300) 9 (etoken 5) wallets) (pos 0, etoken 5, wallets)
      refl

internal_loan-Loaned_example : Loaned tomorrow 4 (units 300) 9 (etoken 5) wallets lent
internal_loan-Loaned_example =
    internal_loan-Loaned tomorrow 4 (units 300) 9 (etoken 5) wallets lent_ok

abbrev pub buyer : Parties
buyer = record { pool = 2; payer = 9; holder = 9; wallet = 8; treasury = 3 }

pub buyer-IsApart : IsApart buyer account
unfolding pools
buyer-IsApart = record {
  account = omega arith;
  senior = omega arith;
  junior = omega arith;
  treasury = omega arith;
  wallet = omega arith;
}

pub cash-Debits : Debits cash
unfolding etokens Debits
cash-Debits caller from to amount x y apart sent = ground arith

abbrev collected : Cash
collected = got (collect buyer account the_split wallets) wallets

collected_ok : collect buyer account the_split wallets ≡ ok collected
unfolding pools
collected_ok = ok_got (collect buyer account the_split wallets) wallets refl

collect-premium_example : collected 9 ≡ wallets 9 -ℤ units 30
collect-premium_example =
    collect-premium risk_module terms buyer account wallets cash-Debits buyer-IsApart split_ok
      collected_ok

-- A lock and an unlock.
abbrev relocked-History :
    History Units Cash (pos 0 +ℤ units 1000 +ℤ negℤ (units 1000)) (etoken 5) unlocked
relocked-History =
    History.then_step
      (History.then_step History.no_steps
        (Step.locked (pos 1000) (units 1000) (thousandths 50) wallets locked_ok))
      (Step.unlocked tomorrow (units 1000) (thousandths 50) (pos 0) rich unlocked_ok)

relocked-AllNonneg : AllNonneg relocked-History
unfolding AllNonneg LocksNonneg
relocked-AllNonneg = ((tt, omega arith), tt)

History-capital_example :
    (unlocked.scr ≡ (etoken 5).scr +ℤ (pos 0 +ℤ units 1000 +ℤ negℤ (units 1000)))
    × (pos 0 ≤ℤ unlocked.scr)
    × (sample_wadray.min_scale ≤ℤ unlocked.scale_factor)
History-capital_example =
    History-capital relocked-History relocked-AllNonneg (omega arith) (omega arith)
