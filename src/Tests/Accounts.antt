-- ===== src/Tests/Accounts.antt =====
-- Premiums accounts at concrete inputs.
use ensuro.Prelude.{◌≡◌, refl, arith}
use ensuro.Prelude.Int.{ℤ, pos, ◌-ℤ◌, ◌≤ℤ◌}
use ensuro.WadRay.SampleLaws.{half_up-IsWadRay}
use ensuro.World.{World}
use ensuro.PremiumsAccount.State.{PremiumsAccount, max_deficit, pay_from_premiums, receive_grant}
use ensuro.PremiumsAccount.Policies.{policy_created, policy_resolved_with_payout}
use ensuro.PremiumsAccount.Borrow.{repay_loans}
use ensuro.PremiumsAccount.Solvency.{IsSound, shortfall, pay_from_premiums_lem}
use ensuro.PremiumsAccount.Steps.{Step, Reach, IsFair, AllFair, Reach-IsSound}
use ensuro.Tests.Runs.{got, ok_got}
use ensuro.Tests.Running.{accounts}
use ensuro.Tests.Samples.{
  sample_wadray, cash, units_base, units, Cash, Units, wallets, account, root, world,
}
use ensuro.Tests.Underwriting.{the_split}

account-IsSound : IsSound account
unfolding accounts
account-IsSound = record { ratio = (omega arith, omega arith); solvent = omega arith }

-- A grant, a policy that is created and paid in full, with a loan, a second grant and a repayment.
abbrev granted : PremiumsAccount × Cash
granted = got (receive_grant 9 (units 10) account wallets) (account, wallets)

-- The eTokens hold the cost of capital beside their supply.
abbrev funded : World Units Cash
funded = record world { out = λ k. units 5100 }

abbrev created : PremiumsAccount × World Units Cash
created = got (policy_created the_split granted.0 funded) (account, world)

abbrev resolved : ℤ × PremiumsAccount × World Units Cash
resolved =
    got (policy_resolved_with_payout 9 the_split (units 100) created.0 created.1)
      (pos 0, account, world)

abbrev regranted : PremiumsAccount × Cash
regranted = got (receive_grant 9 (units 50) resolved.1 wallets) (account, wallets)

abbrev repaid : ℤ × PremiumsAccount × World Units Cash
repaid = got (repay_loans root regranted.0 resolved.2) (pos 0, account, world)

history : Reach Units Cash account repaid.1
unfolding accounts
history =
    Reach.next
      (Reach.next
        (Reach.next
          (Reach.next
            (Reach.next Reach.here (
              Step.granted 9 (units 10) wallets granted.1
                (ok_got (receive_grant 9 (units 10) account wallets) (account, wallets) refl)))
            (Step.created the_split funded created.1
              (ok_got (policy_created the_split granted.0 funded) (account, world) refl)))
          (Step.resolved 9 the_split (units 100) resolved.0 created.1 resolved.2 (
            ok_got (policy_resolved_with_payout 9 the_split (units 100) created.0 created.1)
              (pos 0, account, world) refl)))
        (Step.granted 9 (units 50) wallets regranted.1
          (ok_got (receive_grant 9 (units 50) resolved.1 wallets) (account, wallets) refl)))
      (Step.repaid root repaid.0 resolved.2 repaid.2
        (ok_got (repay_loans root regranted.0 resolved.2) (pos 0, account, world) refl))

history-AllFair : AllFair history
unfolding accounts history AllFair IsFair
history-AllFair = (((((tt, omega arith), omega arith), tt), omega arith), tt)

Reach-IsSound_example : IsSound repaid.1
Reach-IsSound_example =
    Reach-IsSound {L = Units} {W = Cash} half_up-IsWadRay account-IsSound history history-AllFair

pay_from_premiums_lem_example :
    ((pay_from_premiums (units 25) granted.0).0 ≡ shortfall (units 25) granted.0)
    × ((pay_from_premiums (units 25) granted.0).1 ≡ record granted.0 {
      surplus = granted.0.surplus -ℤ (units 25 -ℤ (pay_from_premiums (units 25) granted.0).0);
    })
    × (max_deficit (pay_from_premiums (units 25) granted.0).1
        ≤ℤ (pay_from_premiums (units 25) granted.0).1.surplus)
pay_from_premiums_lem_example = pay_from_premiums_lem (units 25) granted.0
