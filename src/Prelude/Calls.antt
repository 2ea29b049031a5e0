-- ===== src/Prelude/Calls.antt =====
-- A call that may raise. `Fault` has a constructor for each `require` message and each Python
-- exception of the source; a raise ends the call, and no state comes back with it.
use mathlib.Core.Path.{◌≡◌, refl, subst}
use mathlib.Core.Bool.{Bool, true, false}
use mathlib.Core.Option.{Option, none, some}

pub data Fault : Type 0 where
  -- Python's own
  zero_division attribute_error type_error key_error value_error index_error assertion_failed :
      Fault
  -- raised by code outside of this repository (currency, token, policy NFT)
  outside : Fault
  -- access control
  missing_role : Fault
  -- risk modules
  coll_ratio_range jr_coll_ratio_range coll_ratio_below_jr moc_range : Fault
  pp_fee_range coc_fee_range sr_roc_range jr_roc_range : Fault
  limit_below_exposure exposure_sign zero_wallet : Fault
  premium_not_below_payout expiration_in_past exceeds_duration no_customer : Fault
  pool_allowance pricer_allowance payout_over_maximum exposure_exceeded : Fault
  old_policy_expired replacement_smaller premium_below_minimum : Fault
  -- eTokens and reserves
  zero_target negative_scale scale_too_small no_funds_for_scr unlock_over_scr : Fault
  not_whitelisted utilization_below_min over_withdrawable no_borrower : Fault
  borrower_unknown amount_not_positive balance_under_supply : Fault
  -- premiums accounts
  deficit_ratio_range deficit_ratio_decimals surplus_under_deficit : Fault
  no_destination nothing_to_withdraw no_receiver no_source_of_money : Fault
  return_under_zero interest_rate_changed : Fault
  -- the pool
  policy_unknown other_start policy_smaller policy_not_expired pays_expired : Fault
  -- whitelists, asset managers and vaults
  undefined_default thresholds_invalid vault_broken not_owner : Fault

pub data Result {ℓ} (A : Type ℓ) : Type ℓ where
  ok : A → Result A
  err : Fault → Result A

-- `require(test, message)`
abbrev pub require : Bool → Fault → Result (Unit {0})
require true e = ok tt
require false e = err e

pub require_passed : (t : Bool) (e : Fault) → require t e ≡ ok tt → t ≡ true
require_passed true e h = refl
require_passed false e h = cc

infixl 5 ◌>>=◌ ◌>>◌
unfoldable pub ◌>>=◌ {ℓ κ} : {A : Type ℓ} {B : Type κ} → Result A → (A → Result B) → Result B
err fault >>= next = err fault
ok result >>= next = next result

abbrev pub ◌>>◌ {ℓ} : {B : Type ℓ} → Result (Unit {0}) → Result B → Result B
call >> next = call >>= λ done. next

-- An attribute of an object that may be `None`.
abbrev pub or_fault {ℓ} : {A : Type ℓ} → Option A → Fault → Result A
or_fault none e = err e
or_fault (some a) e = ok a

-- What holds of a call's result, if it returns one.
pub data Returns {A : Type 0} (P : A → Type 0) : Result A → Type 0 where
  returns : {a : A} → P a → Returns P (ok a)
  raises : {e : Fault} → Returns P (err e)

module _ {A : Type 0} {P : A → Type 0} where
  pub Returns-bind :
      {B : Type 0} (m : Result B) (f : B → Result A)
      → ((b : B) → m ≡ ok b → Returns P (f b))
      → Returns P (m >>= f)
  unfolding ◌>>=◌
  Returns-bind (ok b) f h = h b refl
  Returns-bind (err e) f h = raises

  pub Returns-require :
      (t : Bool) (e : Fault) (k : Result A)
      → (t ≡ true → Returns P k)
      → Returns P (require t e >> k)
  unfolding ◌>>=◌
  Returns-require true e k h = h refl
  Returns-require false e k h = raises

  pub Returns-eq_ok : (m : Result A) {a : A} → Returns P m → m ≡ ok a → P a
  Returns-eq_ok m (returns p) e = subst P (cc e) p
  Returns-eq_ok m raises e = cc

pub Returns-then :
    {A : Type 0} {P : A → Type 0} (m : Result (Unit {0})) (k : Result A)
    → Returns P k
    → Returns P (m >> k)
unfolding ◌>>=◌
Returns-then (ok u) k h = h
Returns-then (err e) k h = raises

-- A bind after a call whose result is described.
pub Returns-after :
    {A B : Type 0} {P : A → Type 0} {Q : B → Type 0} (m : Result B) (f : B → Result A)
    → Returns Q m
    → ((b : B) → m ≡ ok b → Q b → Returns P (f b))
    → Returns P (m >>= f)
unfolding ◌>>=◌
Returns-after (ok b) f q h = h b refl (Returns-eq_ok (ok b) q refl)
Returns-after (err e) f q h = raises

pub Returns-map :
    {A : Type 0} {P Q : A → Type 0} (m : Result A)
    → Returns Q m
    → ((a : A) → Q a → P a)
    → Returns P m
Returns-map (ok a) q h = returns (h a (Returns-eq_ok (ok a) q refl))
Returns-map (err e) q h = raises

-- A bind after a look-up.
pub Returns-found :
    {A B : Type 0} {P : A → Type 0} (x : Option B) (e : Fault) (f : B → Result A)
    → ((b : B) → x ≡ some b → Returns P (f b))
    → Returns P (or_fault x e >>= f)
unfolding ◌>>=◌
Returns-found none e f h = raises
Returns-found (some b) e f h = h b refl

pub Returns-of :
    {A : Type 0} {P : A → Type 0} (m : Result A) → ((a : A) → m ≡ ok a → P a) → Returns P m
Returns-of (ok a) h = returns (h a refl)
Returns-of (err e) h = raises
