-- ===== src/PolicyPool/Premiums.antt =====
-- The transfers of the parts of a premium by `PolicyPool.new_policy` and `replace_policy`
-- (prototype/ensuro.py).
use ensuro.Prelude.{ℕ, Bool, not, ◌&&◌, Option, none, some, ◌==◌, if◌then◌else◌}
use ensuro.Prelude.Int.{ℤ, ◌-ℤ◌, ◌<?◌}
use ensuro.Prelude.Calls.{Result, ok, ◌>>=◌}
use ensuro.Outside.{Outside}
use ensuro.Policy.{Policy}
use ensuro.PremiumsAccount.State.{PremiumsAccount}
use ensuro.PremiumsAccount.Policies.{is_nonzero}

-- A contract field that may be `None` as the target of a transfer.
unfoldable pub address : Option ℕ → ℕ
address none = 0
address (some a) = a

-- Where the parts of a premium go.
pub record Parties : Type 0 where
  pub pool : ℕ
  pub payer : ℕ
  pub holder : ℕ
  pub wallet : ℕ
  pub treasury : ℕ

module _ {W : Type 0} ⦃o : Outside W⦄ where
  unfoldable pub pay_if : Bool → Parties → ℕ → ℤ → W → Result W
  pay_if wanted to target amount x =
      if wanted then o.transfer_from to.pool to.payer target amount x else ok x

  unfoldable pub collect : Parties → PremiumsAccount → Policy → W → Result W
  collect to pa p x = do
    x1 ← o.transfer_from to.pool to.payer pa.contract_id p.pure_premium x
    x2 ← pay_if (is_nonzero p.sr_coc) to (address pa.senior_etk) p.sr_coc x1
    x3 ← pay_if (is_nonzero p.jr_coc) to (address pa.junior_etk) p.jr_coc x2
    x4 ← o.transfer_from to.pool to.payer to.treasury p.ensuro_commission x3
    pay_if (is_nonzero p.partner_commission && not (to.wallet == to.holder)) to to.wallet
        p.partner_commission x4

  -- Only what the new policy has over the old one.
  unfoldable pub collect_replacement : Parties → PremiumsAccount → Policy → Policy → W → Result W
  collect_replacement to pa old new x = do
    x1 ←
        pay_if (old.pure_premium <? new.pure_premium) to pa.contract_id
          (new.pure_premium -ℤ old.pure_premium) x
    x2 ← pay_if (old.sr_coc <? new.sr_coc) to (address pa.senior_etk) (new.sr_coc -ℤ old.sr_coc) x1
    x3 ← pay_if (old.jr_coc <? new.jr_coc) to (address pa.junior_etk) (new.jr_coc -ℤ old.jr_coc) x2
    x4 ←
        pay_if (old.ensuro_commission <? new.ensuro_commission) to to.treasury
          (new.ensuro_commission -ℤ old.ensuro_commission) x3
    pay_if
        (is_nonzero new.partner_commission
          && not (to.wallet == to.holder)
          && (old.partner_commission <? new.partner_commission))
        to to.wallet (new.partner_commission -ℤ old.partner_commission) x4
