-- ===== src/Tests/Underwriting.antt =====
-- Risk modules, policies and the pool at concrete inputs.
use ensuro.Prelude.{true, ◌≡◌, refl, arith, none, some, []}
use ensuro.Prelude.Int.{ℤ, pos, ◌+ℤ◌, ◌≤ℤ◌, ◌<ℤ◌, max}
use ensuro.Prelude.Calls.{ok}
use ensuro.WadRay.{◌*W◌}
use ensuro.WadRay.SampleLaws.{half_up-IsWadRay}
use ensuro.Policy.{Policy, Terms, do_premium_split, split_at}
use ensuro.Policy.Split.{split_adds_up, split_covers, split_more_premium, raise_premium}
use ensuro.RiskModule.Underwriting
use ensuro.RiskModule.Underwriting.{Request}
use ensuro.RiskModule.Exposure.{new_policy-IsBooked}
use ensuro.RiskModule.Replacement.{replace_policy-IsBooked}
use ensuro.PolicyPool.State.{Pool, find_policy, make_policy_id}
use ensuro.PolicyPool.Operations.{Payout, resolve_policy}
use ensuro.PolicyPool.Exposure.{IsBooked, total}
use ensuro.Tests.Runs.{got, ok_got}
use ensuro.Tests.Running.{policies, pools}
use ensuro.Tests.Samples.{
  sample_wadray, cash, units_base, holders_nft, units, thousandths, Cash, Units, Holders,
  risk_module, pool, root,
}

-- Thirty days from the time 1000.
abbrev pub in_a_month : ℤ
in_a_month = pos 2593000

abbrev pub terms : Terms
terms = record {
  payout = units 100;
  premium = units 30;
  loss_prob = thousandths 100;
  start = pos 1000;
  expiration = in_a_month;
}

abbrev pub the_split : Policy
the_split = got (do_premium_split risk_module terms) (split_at risk_module terms (pos 0) (pos 0))

pub split_ok : do_premium_split risk_module terms ≡ ok the_split
unfolding policies
split_ok =
    ok_got (do_premium_split risk_module terms) (split_at risk_module terms (pos 0) (pos 0)) refl

split_adds_up_example :
    (the_split.pure_premium +ℤ the_split.jr_coc +ℤ the_split.sr_coc +ℤ the_split.ensuro_commission
        +ℤ the_split.partner_commission
      ≡ units 30)
    × (pos 0 ≤ℤ the_split.partner_commission)
split_adds_up_example = split_adds_up risk_module terms split_ok

pure_nonneg : pos 0 ≤ℤ the_split.pure_premium
unfolding policies
pure_nonneg = omega arith

split_covers_example :
    (the_split.pure_premium +ℤ the_split.jr_scr
      ≡ max (units 100 *W thousandths 200) the_split.pure_premium)
    × (the_split.pure_premium +ℤ the_split.jr_scr +ℤ the_split.sr_scr
        ≡ max (units 100 *W thousandths 600) (the_split.pure_premium +ℤ the_split.jr_scr))
    × (pos 0 ≤ℤ the_split.jr_scr)
    × (pos 0 ≤ℤ the_split.sr_scr)
split_covers_example = split_covers risk_module terms half_up-IsWadRay split_ok pure_nonneg

split_more_premium_example :
    do_premium_split risk_module (record terms { premium = units 31 })
    ≡ ok (raise_premium (units 31) the_split)
split_more_premium_example = split_more_premium risk_module terms (units 31) split_ok (omega arith)

abbrev pub request : Request
request = record {
  payout = units 100;
  premium = some (units 30);
  loss_prob = thousandths 100;
  expiration = in_a_month;
  payer = 9;
  internal_id = pos 1;
}

abbrev pub sold : Policy × Pool Units Cash Holders
sold = got (Underwriting.new_policy root 7 request (some 9) pool) (the_split, pool)

pub sold_ok : Underwriting.new_policy root 7 request (some 9) pool ≡ ok sold
unfolding pools
sold_ok = ok_got (Underwriting.new_policy root 7 request (some 9) pool) (the_split, pool) refl

pub empty_pool-IsBooked : IsBooked pool
unfolding IsBooked total
empty_pool-IsBooked a = refl

pub no_policy : find_policy (make_policy_id (λ a. a) 7 (pos 1)) [] ≡ none
unfolding pools
no_policy = refl

new_policy-IsBooked_example :
    IsBooked sold.1
    × (sold.0.payout ≡ units 100)
    × (sold.0.premium <ℤ sold.0.payout)
    × (sold.0.payout ≤ℤ units 1000)
    × ((sold.1.risk_modules 7).active_exposure ≤ℤ (sold.1.risk_modules 7).exposure_limit)
    × (find_policy sold.0.id sold.1.policies ≡ some sold.0)
new_policy-IsBooked_example =
    new_policy-IsBooked root 7 request (some 9) pool empty_pool-IsBooked refl no_policy sold_ok

-- The same policy with a payout of 120.
abbrev pub larger_request : Request
larger_request = record request {
  payout = units 120;
  premium = some (units 36);
  internal_id = pos 2;
}

abbrev pub replaced : Policy × Pool Units Cash Holders
replaced = got (Underwriting.replace_policy root 7 sold.0 larger_request sold.1) sold

pub replaced_ok : Underwriting.replace_policy root 7 sold.0 larger_request sold.1 ≡ ok replaced
unfolding pools
replaced_ok = ok_got (Underwriting.replace_policy root 7 sold.0 larger_request sold.1) sold refl

pub sold_stored : find_policy sold.0.id sold.1.policies ≡ some sold.0
unfolding pools
sold_stored = refl

pub no_second_policy : find_policy (make_policy_id (λ a. a) 7 (pos 2)) sold.1.policies ≡ none
unfolding pools
no_second_policy = refl

pub sold-at_7 : (sold.1.risk_modules 7).contract_id ≡ 7
unfolding pools
sold-at_7 = refl

sold-IsBooked : IsBooked sold.1
sold-IsBooked =
    (new_policy-IsBooked root 7 request (some 9) pool empty_pool-IsBooked refl no_policy sold_ok).0

replace_policy-IsBooked_example :
    IsBooked replaced.1
    × (sold.1.world.now <ℤ sold.0.expiration)
    × (replaced.0.payout ≡ units 120)
    × (sold.0.payout ≤ℤ replaced.0.payout)
    × (replaced.0.payout ≤ℤ (sold.1.risk_modules 7).max_payout_per_policy)
    × ((replaced.1.risk_modules 7).active_exposure ≤ℤ (replaced.1.risk_modules 7).exposure_limit)
replace_policy-IsBooked_example =
    replace_policy-IsBooked root 7 sold.0 larger_request sold.1 sold-IsBooked sold-at_7 sold_stored
      no_second_policy replaced_ok

-- The customer wins: the replaced policy is paid.
abbrev pub paid : Pool Units Cash Holders
paid = got (resolve_policy replaced.0.id (Payout.customer_won true) replaced.1) pool

pub paid_ok : resolve_policy replaced.0.id (Payout.customer_won true) replaced.1 ≡ ok paid
unfolding pools
paid_ok = ok_got (resolve_policy replaced.0.id (Payout.customer_won true) replaced.1) pool refl
