-- ===== src/PremiumsAccount/State.antt =====
-- The fields of `PremiumsAccount`, and what it pays and stores without an eToken
-- (prototype/ensuro.py).
use ensuro.Prelude.{ℕ, ◌-◌, ◌^◌, Option, none, some, [], ◌∷◌, if◌then◌else◌}
use ensuro.Prelude.Int.{ℤ, pos, ◌+ℤ◌, ◌-ℤ◌, negℤ, ◌≤?◌, ◌<?◌, ◌=?◌}
use ensuro.Prelude.Calls.{Fault, Result, ok, ◌>>=◌, ◌>>◌, require, or_fault}
use ensuro.WadRay.{WadRay, ◌*W◌}
use ensuro.Outside.{Outside}
use ensuro.Reserve.{transfer_to}
use ensuro.Roles.{RoleName, Caller, only_component_role, only_component_or_global_role}

pub record PremiumsAccount : Type 0 where
  pub contract_id : ℕ
  pub asset_manager : Option ℕ
  pub junior_etk : Option ℕ
  pub senior_etk : Option ℕ
  pub active_pure_premiums : ℤ
  pub surplus : ℤ
  pub deficit_ratio : ℤ
  pub jr_loan_limit_ : ℤ
  pub sr_loan_limit_ : ℤ

abbrev pub max_uint : ℤ
max_uint = pos (2 ^ 256 - 1)

unfoldable pub pure_premiums : PremiumsAccount → ℤ
pure_premiums pa = pa.active_pure_premiums +ℤ pa.surplus

unfoldable pub borrowed_active_pp : PremiumsAccount → ℤ
borrowed_active_pp pa = if pa.surplus <? pos 0 then negℤ pa.surplus else pos 0

unfoldable pub won_pure_premiums : PremiumsAccount → ℤ
won_pure_premiums pa = if pos 0 ≤? pa.surplus then pa.surplus else pos 0

-- The properties `jr_loan_limit` and `sr_loan_limit`: 0 stands for no limit.
unfoldable pub loan_limit : ℤ → ℤ
loan_limit limit = if limit =? pos 0 then max_uint else limit

unfoldable pub or_keep : Option ℤ → ℤ → ℤ
or_keep none old = old
or_keep (some new) old = new

unfoldable pub set_loan_limits :
    Caller → Option ℤ → Option ℤ → PremiumsAccount → Result PremiumsAccount
set_loan_limits c new_jr_loan_limit new_sr_loan_limit pa = do
  only_component_or_global_role c pa.contract_id (RoleName.level2 ∷ [])
  ok (record pa {
    jr_loan_limit_ = or_keep new_jr_loan_limit pa.jr_loan_limit_;
    sr_loan_limit_ = or_keep new_sr_loan_limit pa.sr_loan_limit_;
  })

unfoldable pub store_pure_premium_won : ℤ → PremiumsAccount → PremiumsAccount
store_pure_premium_won won pa =
    if won =? pos 0 then pa else record pa { surplus = pa.surplus +ℤ won }

module _ ⦃w : WadRay⦄ where
  unfoldable pub max_deficit : PremiumsAccount → ℤ
  max_deficit pa = negℤ pa.active_pure_premiums *W pa.deficit_ratio

  -- The part of `to_pay` that is left to be found elsewhere, and the account after the payment.
  unfoldable pub pay_from_premiums : ℤ → PremiumsAccount → ℤ × PremiumsAccount
  pay_from_premiums to_pay pa =
      let s = pa.surplus -ℤ to_pay in
      if max_deficit pa ≤? s
      then (pos 0, record pa { surplus = s })
      else (negℤ s +ℤ max_deficit pa, record pa { surplus = max_deficit pa })

  unfoldable pub funds_available : PremiumsAccount → ℤ
  funds_available pa = pa.surplus -ℤ max_deficit pa

  unfoldable pub asset_earnings : ℤ → PremiumsAccount → Result PremiumsAccount
  asset_earnings amount pa = if pos 0 ≤? amount then ok (store_pure_premium_won amount pa) else do
    let paid = pay_from_premiums (negℤ amount) pa
    require (paid.0 =? pos 0) Fault.return_under_zero
    ok paid.1

module _ {W : Type 0} ⦃w : WadRay⦄ ⦃o : Outside W⦄ where
  unfoldable pub receive_grant : ℕ → ℤ → PremiumsAccount → W → Result (PremiumsAccount × W)
  receive_grant sender amount pa x = do
    x' ← o.transfer_from pa.contract_id sender pa.contract_id amount x
    ok (store_pure_premium_won amount pa, x')

  unfoldable pub withdraw_won_premiums :
      Caller → ℤ → Option ℕ → PremiumsAccount → W → Result (ℤ × PremiumsAccount × W)
  withdraw_won_premiums c amount destination pa x = do
    only_component_role c pa.contract_id (RoleName.withdraw_won_premiums ∷ [])
    target ← or_fault destination Fault.no_destination
    let s = if pos 0 ≤? pa.surplus then pa.surplus else pos 0
    let sent = if s <? amount then s else amount
    require (pos 0 <? sent) Fault.nothing_to_withdraw
    let paid = pay_from_premiums sent pa
    x' ← transfer_to pa.contract_id pa.asset_manager target sent x
    ok (sent, paid.1, x')
