-- ===== src/Tests/Pools.antt =====
-- Allowances, replacements, resolutions and transfers at concrete inputs.
use ensuro.Prelude.{◌*◌, ◌+◌, ◌^◌, ◌≡◌, refl, arith, true, ◌||◌, none, some, if◌then◌else◌, false}
use ensuro.Prelude.Int.{ℤ, pos, ◌-ℤ◌, ◌≤ℤ◌, ◌≤?◌, ◌<?◌, ◌=?◌}
use ensuro.Prelude.Calls.{Fault, ok, err, require}
use ensuro.Roles.{Caller, Role, RoleName}
use ensuro.Reserve.{transfer_to}
use ensuro.Reserve.Transfers.{Sent, transfer_to_lem}
use ensuro.Policy.{Policy, Terms, do_premium_split}
use ensuro.RiskModule.Underwriting.{
  wanted_allowance, check_allowances, trustful_payer, replace_policy,
}
use ensuro.RiskModule.Attributes.{Attribute, is_open, validate_setattr, validate_setattr-no_role}
use ensuro.RiskModule.Callers.{MayReplace, replace_policy-any_caller}
use ensuro.RiskModule.Allowances.{check_allowances-trustful_payer}
use ensuro.PolicyPool.State.{find_policy}
use ensuro.PolicyPool.Operations.{Payout, payout_of, not_smaller, resolve_policy}
use ensuro.PolicyPool.Premiums.{collect_replacement}
use ensuro.PolicyPool.Increases.{collect_replacement-premium}
use ensuro.PolicyPool.Resolution.{OneEach, resolve_policy-once}
use ensuro.Tests.Runs.{got, ok_got}
use ensuro.Tests.Running.{pools}
use ensuro.Tests.Samples.{
  sample_wadray, units_base, cash, holders_nft, units, Cash, wallets, account, root, risk_module,
}
use ensuro.Tests.Assets.{cash-IsCurrency}
use ensuro.Tests.Tokens.{buyer, buyer-IsApart, cash-Debits}
use ensuro.Tests.Underwriting.{
  terms, the_split, split_ok, replaced, paid, paid_ok, sold, larger_request,
}

within_allowance : units 30 ≤ℤ wanted_allowance (some (units 30))
unfolding pools
within_allowance = omega arith

check_allowances-trustful_payer_example :
    check_allowances root 2
      (trustful_payer root 9 (some (units 30)) wallets)
      (units 30)
      (units 30)
      wallets
    ≡ require (units 30 ≤? units 1000000) Fault.pool_allowance
check_allowances-trustful_payer_example =
    check_allowances-trustful_payer root 2 9 (some (units 30)) (units 30) wallets within_allowance

-- The split of a larger payout and premium, as a replacement.
abbrev larger_terms : Terms
larger_terms = record terms { payout = units 120; premium = units 36 }

abbrev larger_split : Policy
larger_split = got (do_premium_split risk_module larger_terms) the_split

larger_ok : do_premium_split risk_module larger_terms ≡ ok larger_split
unfolding pools
larger_ok = ok_got (do_premium_split risk_module larger_terms) the_split refl

larger-not_smaller : not_smaller the_split larger_split ≡ true
unfolding pools
larger-not_smaller = refl

abbrev charged : Cash
charged = got (collect_replacement buyer account the_split larger_split wallets) wallets

charged_ok : collect_replacement buyer account the_split larger_split wallets ≡ ok charged
unfolding pools
charged_ok = ok_got (collect_replacement buyer account the_split larger_split wallets) wallets refl

collect_replacement-premium_example : charged 9 ≡ wallets 9 -ℤ (units 36 -ℤ units 30)
collect_replacement-premium_example =
    collect_replacement-premium risk_module risk_module terms larger_terms buyer account wallets
      cash-Debits buyer-IsApart (ground arith) split_ok larger_ok larger-not_smaller charged_ok

replaced-OneEach : OneEach replaced.1.policies
unfolding pools OneEach
replaced-OneEach = (refl, tt)

resolve_policy-once_example :
    ((p : Policy) × (find_policy replaced.0.id replaced.1.policies ≡ some p)
      × ((payout_of p (Payout.customer_won true) =? pos 0 || (replaced.1.world.now <? p.expiration))
          ≡ true))
    × OneEach paid.policies
    × ((j : ℤ)
        → find_policy j paid.policies
          ≡ (if j =? replaced.0.id then none else find_policy j replaced.1.policies))
    × (resolve_policy replaced.0.id (Payout.wad_amount (pos 0)) paid ≡ err Fault.policy_unknown)
resolve_policy-once_example =
    resolve_policy-once replaced.0.id (Payout.customer_won true) (Payout.wad_amount (pos 0))
      replaced.1 replaced-OneEach paid_ok

-- A reserve that is short by less than the negligible amount.
abbrev almost : Cash
almost = got (transfer_to 5 none 9 (pos (5000 * 10 ^ 18 + 7)) wallets) wallets

almost_ok : transfer_to 5 none 9 (pos (5000 * 10 ^ 18 + 7)) wallets ≡ ok almost
unfolding pools
almost_ok = ok_got (transfer_to 5 none 9 (pos (5000 * 10 ^ 18 + 7)) wallets) wallets refl

transfer_to_lem_example : Sent 5 none 9 (pos (5000 * 10 ^ 18 + 7)) wallets almost
transfer_to_lem_example =
    transfer_to_lem cash-IsCurrency 5 none 9 (pos (5000 * 10 ^ 18 + 7)) wallets (ground arith)
      (ground arith) almost_ok

-- A caller without roles sets the fee on the cost of capital.
abbrev nobody : Caller
nobody = record { running_as = 77; has_role = λ role a. false }

validate_setattr-no_role_example :
    validate_setattr nobody 7 Attribute.ensuro_coc_fee (ok tt)
    ≡ (if is_open Attribute.ensuro_coc_fee then ok tt else err Fault.missing_role)
validate_setattr-no_role_example =
    validate_setattr-no_role nobody 7 Attribute.ensuro_coc_fee (λ role a. refl)

-- A caller that may only replace the policies of the module 7, and root.
abbrev replacer : Caller
replacer = record {
  running_as = 78;
  has_role = λ role a. elim role [
    | Role.component r k ↦ elim r [ RoleName.replacer ↦ true | _ ↦ false ]
    | _ ↦ false
  ];
}

replacer-MayReplace : MayReplace 7 larger_request sold.1 replacer
unfolding pools
replacer-MayReplace = record { has_role = refl; allowed = omega arith }

root-MayReplace : MayReplace 7 larger_request sold.1 root
unfolding pools
root-MayReplace = record { has_role = refl; allowed = omega arith }

replace_policy-any_caller_example :
    replace_policy replacer 7 sold.0 larger_request sold.1
    ≡ replace_policy root 7 sold.0 larger_request sold.1
replace_policy-any_caller_example =
    replace_policy-any_caller replacer root 7 sold.0 larger_request sold.1 replacer-MayReplace
      root-MayReplace
