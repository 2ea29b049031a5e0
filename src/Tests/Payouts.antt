-- ===== src/Tests/Payouts.antt =====
-- A payout of premiums and loans at concrete inputs.
use ensuro.Prelude.{◌≡◌, refl, sym, ap, arith, Bool-cases, inl, inr, ◌==◌, if◌then◌else◌}
use ensuro.Prelude.Int.{ℤ, pos}
use ensuro.Prelude.Calls.{ok}
use ensuro.Reserve.Receipts.{LeavesAlone, Receives}
use ensuro.World.{World}
use ensuro.PremiumsAccount.State.{PremiumsAccount}
use ensuro.PremiumsAccount.Policies.{policy_resolved_with_payout}
use ensuro.PremiumsAccount.Lending.{Foreign}
use ensuro.PremiumsAccount.Payouts.{slack, resolved-paid}
use ensuro.Tests.Runs.{got, ok_got}
use ensuro.Tests.Running.{accounts}
use ensuro.Tests.Samples.{
  sample_wadray, cash, units_base, units, Cash, Units, account, etoken, world,
}
use ensuro.Tests.Assets.{cash-IsCurrency}
use ensuro.Tests.Underwriting.{the_split}

-- Two eTokens that have locked the capital of one policy.
abbrev locked_world : World Units Cash
locked_world = record world {
  etk = λ k.
      if k == 6
      then record (etoken 6) { scr = the_split.jr_scr }
      else record (etoken 5) { scr = the_split.sr_scr };
  out = λ k. units 5100;
}

abbrev holder : PremiumsAccount
holder = record account { active_pure_premiums = the_split.pure_premium }

abbrev paid_out : ℤ × PremiumsAccount × World Units Cash
paid_out =
    got (policy_resolved_with_payout 9 the_split (units 100) holder locked_world)
      (pos 0, holder, locked_world)

paid_out_ok : policy_resolved_with_payout 9 the_split (units 100) holder locked_world ≡ ok paid_out
unfolding accounts
paid_out_ok =
    ok_got (policy_resolved_with_payout 9 the_split (units 100) holder locked_world)
      (pos 0, holder, locked_world) refl

cash-LeavesAlone : LeavesAlone cash 9
unfolding LeavesAlone
cash-LeavesAlone manager amount x y refilled = let same : x ≡ y = cc in ap (λ f. f 9) (sym same)

customer-Foreign : Foreign 9 locked_world
unfolding Foreign
customer-Foreign a = elim (Bool-cases (a == 6)) [
  | inl junior ↦ rw junior (ground arith)
  | inr senior ↦ rw senior (ground arith)
]

resolved-paid_example : Receives 9 (units 100) (slack cash) locked_world.out paid_out.2.out
resolved-paid_example =
    resolved-paid cash-IsCurrency 9 cash-LeavesAlone the_split (units 100) holder locked_world
      customer-Foreign (ground arith) paid_out_ok
