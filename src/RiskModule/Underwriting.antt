-- ===== src/RiskModule/Underwriting.antt =====
-- `RiskModule.new_policy` and `replace_policy`, and `TrustfulRiskModule` (prototype/ensuro.py).
use ensuro.Prelude.{ℕ, Bool, ◌&&◌, ◌||◌, Option, none, some, [], ◌∷◌, ◌==◌, if◌then◌else◌}
use ensuro.Prelude.Int.{ℤ, pos, ◌+ℤ◌, ◌-ℤ◌, ◌*ℤ◌, ◌≤?◌, ◌<?◌, ◌=?◌}
use ensuro.Prelude.Calls.{Fault, Result, ok, ◌>>=◌, ◌>>◌, require, or_fault}
use ensuro.WadRay.{WadRay}
use ensuro.Outside.{Outside, TokenBase}
use ensuro.Roles.{RoleName, Caller, only_component_role}
use ensuro.RiskModule.State.{RiskModule}
use ensuro.RiskModule.Pricing.{get_minimum_premium}
use ensuro.Policy.{Policy, do_premium_split}
use ensuro.PremiumsAccount.State.{max_uint}
use ensuro.PolicyPool.State.{Nft, Pool, put_risk_module}
use ensuro.PolicyPool.Operations
use ensuro.PolicyPool.Operations.{Payout, resolve_policy}

-- `seconds / SECONDS_IN_HOUR < max_duration`, without the division.
unfoldable pub within_duration : ℤ → RiskModule → Bool
within_duration seconds rm = seconds <? pos 3600 *ℤ rm.max_duration

-- The exposure with `more` added, if the limit allows it.
unfoldable pub take_exposure : ℤ → RiskModule → Result RiskModule
take_exposure more rm = do
  let active_exposure = rm.active_exposure +ℤ more
  require (active_exposure ≤? rm.exposure_limit) Fault.exposure_exceeded
  ok (record rm { active_exposure = active_exposure })

-- `premium or MAX_UINT`: a premium of 0 counts as none.
unfoldable pub wanted_allowance : Option ℤ → ℤ
wanted_allowance none = max_uint
wanted_allowance (some p) = if p =? pos 0 then max_uint else p

module _ {W : Type 0} ⦃o : Outside W⦄ where
  -- The pool, and the caller if it is not the payer, may spend these amounts of the payer's.
  unfoldable pub check_allowances : Caller → ℕ → ℕ → ℤ → ℤ → W → Result (Unit {0})
  check_allowances c pool payer for_pool for_pricer x = do
    require (for_pool ≤? o.allowance x payer pool) Fault.pool_allowance
    require (c.running_as == payer || (for_pricer ≤? o.allowance x payer c.running_as))
        Fault.pricer_allowance

  -- The payer that `TrustfulRiskModule.new_policy` chooses: the customer, or the caller where the
  -- customer does not allow it the premium.
  unfoldable pub trustful_payer : Caller → ℕ → Option ℤ → W → ℕ
  trustful_payer c customer premium x =
      if c.running_as == customer
      then customer
      else if o.allowance x customer c.running_as <? wanted_allowance premium
      then c.running_as
      else customer

-- A premium of `None` is the minimum.
unfoldable pub premium_or_minimum : ⦃w : WadRay⦄ → ℤ → RiskModule → ℤ → Option ℤ → ℤ → ℤ → Result ℤ
premium_or_minimum now rm payout none loss_prob expiration =
    get_minimum_premium now rm payout loss_prob expiration
premium_or_minimum now rm payout (some premium) loss_prob expiration = ok premium

-- The arguments that `new_policy` and `replace_policy` share.
pub record Request : Type 0 where
  pub payout : ℤ
  pub premium : Option ℤ
  pub loss_prob : ℤ
  pub expiration : ℤ
  pub payer : ℕ
  pub internal_id : ℤ

module _ {L W N : Type 0} ⦃w : WadRay⦄ ⦃b : TokenBase L⦄ ⦃o : Outside W⦄ ⦃n : Nft N⦄ where
  unfoldable pub new_policy :
      Caller → ℕ → Request → Option ℕ → Pool L W N → Result (Policy × Pool L W N)
  new_policy c module_id q on_behalf_of s = do
    let rm = s.risk_modules module_id
    let start = s.world.now
    premium ← premium_or_minimum start rm q.payout q.premium q.loss_prob q.expiration
    require (premium <? q.payout) Fault.premium_not_below_payout
    require (start <? q.expiration) Fault.expiration_in_past
    require (within_duration (q.expiration -ℤ start) rm) Fault.exceeds_duration
    holder ← or_fault on_behalf_of Fault.no_customer
    check_allowances c s.contract_id q.payer premium premium s.world.out
    require (q.payout ≤? rm.max_payout_per_policy) Fault.payout_over_maximum
    policy ← do_premium_split rm (record {
      payout = q.payout;
      premium = premium;
      loss_prob = q.loss_prob;
      start = start;
      expiration = q.expiration;
    })
    rm' ← take_exposure policy.payout rm
    r ← Operations.new_policy policy q.payer holder q.internal_id (put_risk_module module_id rm' s)
    require (pos 0 <? r.0.id) Fault.assertion_failed
    ok r

  -- `old` is the argument `old_policy`, which the pool looks up again by its id.
  unfoldable pub replace_policy :
      Caller → ℕ → Policy → Request → Pool L W N → Result (Policy × Pool L W N)
  replace_policy c module_id old q s = do
    let rm = s.risk_modules module_id
    only_component_role c rm.contract_id (RoleName.replacer ∷ [])
    require (s.world.now <? old.expiration) Fault.old_policy_expired
    premium ← premium_or_minimum s.world.now rm q.payout q.premium q.loss_prob q.expiration
    require (old.payout ≤? q.payout && (old.expiration ≤? q.expiration) && (old.premium ≤? premium))
        Fault.replacement_smaller
    require (premium <? q.payout) Fault.premium_not_below_payout
    require (within_duration (q.expiration -ℤ old.start) rm) Fault.exceeds_duration
    check_allowances c s.contract_id q.payer (premium -ℤ old.premium) (old.premium -ℤ premium)
        s.world.out
    require (q.payout ≤? rm.max_payout_per_policy) Fault.payout_over_maximum
    policy ← do_premium_split rm (record {
      payout = q.payout;
      premium = premium;
      loss_prob = q.loss_prob;
      start = old.start;
      expiration = q.expiration;
    })
    rm' ← take_exposure (policy.payout -ℤ old.payout) rm
    r ←
        Operations.replace_policy old.id policy q.payer q.internal_id
          (put_risk_module module_id rm' s)
    require (pos 0 <? r.0.id) Fault.assertion_failed
    ok r

  -- `TrustfulRiskModule.new_policy`, for a customer that is given.
  unfoldable pub trustful_new_policy :
      Caller → ℕ → Request → ℕ → Pool L W N → Result (Policy × Pool L W N)
  trustful_new_policy c module_id q customer s = do
    only_component_role c (s.risk_modules module_id).contract_id (RoleName.pricer ∷ [])
    let payer = trustful_payer c customer q.premium s.world.out
    new_policy c module_id (record q { payer = payer }) (some customer) s

  unfoldable pub trustful_resolve_policy :
      Caller → ℕ → ℤ → Payout → Pool L W N → Result (Pool L W N)
  trustful_resolve_policy c module_id policy_id won s = do
    only_component_role c (s.risk_modules module_id).contract_id (RoleName.resolver ∷ [])
    resolve_policy policy_id won s
