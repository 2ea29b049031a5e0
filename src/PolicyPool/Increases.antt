-- ===== src/PolicyPool/Increases.antt =====
-- What a payer pays for the replacement of a policy (prototype/ensuro.py,
-- `PolicyPool.replace_policy`).
use ensuro.Prelude.{
  ◌≡◌, ◌≢◌, refl, arith, Bool, true, false, not, ◌&&◌, Bool-cases, inl, inr, ◌==◌, if◌then◌else◌,
}
use ensuro.Prelude.Int.{ℤ, pos, ◌+ℤ◌, ◌-ℤ◌, ◌≤ℤ◌, ◌<?◌, ◌=?◌, int_laws, <?_true, <?_false}
use ensuro.Prelude.Calls.{ok, Returns, Returns-after, Returns-map, Returns-eq_ok}
use ensuro.Outside.{Outside}
use ensuro.WadRay.{WadRay}
use ensuro.Policy.{Policy, Terms, do_premium_split}
use ensuro.Policy.Split.{split_adds_up}
use ensuro.RiskModule.State.{RiskModule}
use ensuro.PremiumsAccount.State.{PremiumsAccount}
use ensuro.PremiumsAccount.Policies.{is_nonzero}
use ensuro.PolicyPool.Operations.{not_smaller}
use ensuro.PolicyPool.Premiums.{Parties, collect_replacement}
use ensuro.PolicyPool.Payments.{Debits, IsApart, pay_if-Returns}

-- How much more the second amount is, and 0 if it is not more.
abbrev pub increase : ℤ → ℤ → ℤ
increase old new = if old <? new then new -ℤ old else pos 0

increase_of_le : (old new : ℤ) → old ≤ℤ new → increase old new ≡ new -ℤ old
increase_of_le old new larger = elim (Bool-cases (old <? new)) [
  | inl more ↦ rw more refl
  | inr same ↦ let at_most = <?_false old new same in rw same (omega int_laws)
]

-- The sum of a policy's five parts.
abbrev parts : Policy → ℤ
parts p = p.pure_premium +ℤ p.jr_coc +ℤ p.sr_coc +ℤ p.ensuro_commission +ℤ p.partner_commission

-- The sum of the increases of a policy's five parts.
abbrev pub increases : Policy → Policy → ℤ
increases old new =
    increase old.pure_premium new.pure_premium
    +ℤ increase old.sr_coc new.sr_coc
    +ℤ increase old.jr_coc new.jr_coc
    +ℤ increase old.ensuro_commission new.ensuro_commission
    +ℤ increase old.partner_commission new.partner_commission

NoneFalls : Policy → Policy → Type 0
NoneFalls old new =
    (old.pure_premium ≤ℤ new.pure_premium)
    × (old.ensuro_commission ≤ℤ new.ensuro_commission)
    × (old.jr_coc ≤ℤ new.jr_coc)
    × (old.sr_coc ≤ℤ new.sr_coc)
    × (old.partner_commission ≤ℤ new.partner_commission)

not_smaller-NoneFalls : (old new : Policy) → not_smaller old new ≡ true → NoneFalls old new
unfolding not_smaller NoneFalls
not_smaller-NoneFalls old new h =
    (ground arith, ground arith, ground arith, ground arith, ground arith)

increases_of_le :
    (old new : Policy) → NoneFalls old new → increases old new ≡ parts new -ℤ parts old
unfolding NoneFalls
increases_of_le old new (pure, ensuro, junior, senior, partner) =
    rw
      (
        increase_of_le old.pure_premium new.pure_premium pure,
        increase_of_le old.ensuro_commission new.ensuro_commission ensuro,
        increase_of_le old.jr_coc new.jr_coc junior,
        increase_of_le old.sr_coc new.sr_coc senior,
        increase_of_le old.partner_commission new.partner_commission partner,
      )
      (omega int_laws)

-- The test for the partner's part is that for an increase, unless the holder is the wallet.
partner_increase :
    (old new : ℤ) (own : Bool)
    → own ≡ false
    → pos 0 ≤ℤ old
    → (if is_nonzero new && not own && (old <? new) then new -ℤ old else pos 0) ≡ increase old new
partner_increase old new own other nonneg = elim (Bool-cases (old <? new)) [
  | inl more ↦
      let larger = <?_true old new more in
      let some_new : (new =? pos 0) ≡ false = ground arith in rw (more, other, some_new) refl
  | inr same ↦ rw (same, other) (ground arith)
]

module _ {W : Type 0} ⦃o : Outside W⦄ where
  collect_replacement-Returns :
      Debits o
      → (to : Parties) (pa : PremiumsAccount) (old new : Policy) (x : W) → IsApart to pa
      → (to.wallet == to.holder) ≡ false
      → pos 0 ≤ℤ old.partner_commission
      → Returns
          (λ y. o.balance_of y to.payer ≡ o.balance_of x to.payer -ℤ increases old new)
          (collect_replacement to pa old new x)
  unfolding collect_replacement
  collect_replacement-Returns debits to pa old new x apart other nonneg =
      Returns-after _ _ (pay_if-Returns debits _ to _ _ x apart.account) λ x1 _ e1.
        Returns-after _ _ (pay_if-Returns debits _ to _ _ x1 apart.senior) λ x2 _ e2.
          Returns-after _ _ (pay_if-Returns debits _ to _ _ x2 apart.junior) λ x3 _ e3.
            Returns-after _ _ (pay_if-Returns debits _ to _ _ x3 apart.treasury) λ x4 _ e4.
              Returns-map _ (pay_if-Returns debits _ to _ _ x4 apart.wallet) λ y e5.
                let partner =
                  partner_increase old.partner_commission new.partner_commission
                    (to.wallet == to.holder) other nonneg in
                rw (e5, e4, e3, e2, e1, partner) (omega int_laws)

  -- Under a currency whose transfers debit the sender, a payer that is none of the receivers pays
  -- for a replacement that passes the pool's comparison exactly the difference of the premiums, where
  -- the module's wallet is not the holder's.
  pub collect_replacement-premium :
      ⦃w : WadRay⦄ (old_rm rm : RiskModule) (old_terms terms : Terms) (to : Parties)
      (pa : PremiumsAccount) (x : W) {old new : Policy} {y : W}
      → Debits o
      → IsApart to pa
      → to.wallet ≢ to.holder
      → do_premium_split old_rm old_terms ≡ ok old
      → do_premium_split rm terms ≡ ok new
      → not_smaller old new ≡ true
      → collect_replacement to pa old new x ≡ ok y
      → o.balance_of y to.payer ≡ o.balance_of x to.payer -ℤ (terms.premium -ℤ old_terms.premium)
  collect_replacement-premium old_rm rm old_terms terms to pa x {old} {new} debits apart other
        old_split split larger collected =
      let (old_whole, nonneg) = split_adds_up old_rm old_terms old_split in
      let (whole, _) = split_adds_up rm terms split in
      let apart_test : (to.wallet == to.holder) ≡ false = ground arith in
      let paid =
        Returns-eq_ok _ (collect_replacement-Returns debits to pa old new x apart apart_test nonneg)
          collected in
      let difference = increases_of_le old new (not_smaller-NoneFalls old new larger) in
      rw (← old_whole, ← whole, ← difference) paid
