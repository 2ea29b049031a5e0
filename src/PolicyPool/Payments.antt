-- ===== src/PolicyPool/Payments.antt =====
-- What a payer pays for a new policy (prototype/ensuro.py, `PolicyPool.new_policy`).
use ensuro.Prelude.{
  ℕ, ◌≡◌, ◌≢◌, ◌∙◌, refl, Bool, true, false, not, ◌&&◌, Bool-cases, inl, inr, ◌==◌, if◌then◌else◌,
}
use ensuro.Prelude.Int.{ℤ, pos, ◌-ℤ◌, ◌=?◌, =?_true, int_laws}
use ensuro.Prelude.Calls.{
  ok, Returns, returns, Returns-after, Returns-map, Returns-of, Returns-eq_ok,
}
use ensuro.WadRay.{WadRay}
use ensuro.Outside.{Outside}
use ensuro.Policy.{Policy, Terms, do_premium_split}
use ensuro.Policy.Split.{split_adds_up}
use ensuro.RiskModule.State.{RiskModule}
use ensuro.PremiumsAccount.State.{PremiumsAccount}
use ensuro.PremiumsAccount.Policies.{is_nonzero}
use ensuro.PolicyPool.Premiums.{Parties, address, pay_if, collect}

module _ {W : Type 0} (o : Outside W) where
  -- A transfer takes the amount from the sender, if that is not the receiver.
  unfoldable pub Debits : Type 0
  Debits =
      (caller from to : ℕ) (amount : ℤ) (x y : W)
      → from ≢ to
      → o.transfer_from caller from to amount x ≡ ok y
      → o.balance_of y from ≡ o.balance_of x from -ℤ amount

-- The payer is none of those that a premium is paid to.
pub record IsApart (to : Parties) (pa : PremiumsAccount) : Type 0 where
  pub account : to.payer ≢ pa.contract_id
  pub senior : to.payer ≢ address pa.senior_etk
  pub junior : to.payer ≢ address pa.junior_etk
  pub treasury : to.payer ≢ to.treasury
  pub wallet : to.payer ≢ to.wallet

if_nonzero : (v : ℤ) → (if is_nonzero v then v else pos 0) ≡ v
if_nonzero v = elim (Bool-cases (v =? pos 0)) [
  | inl zero_of ↦ let e : v ≡ pos 0 = =?_true v (pos 0) zero_of in rw (zero_of, e) refl
  | inr some_of ↦ rw some_of refl
]

-- The partner's part goes to the module's wallet, unless that is the policy's holder.
partner_part :
    (v : ℤ) (own : Bool)
    → (if is_nonzero v && not own then v else pos 0) ≡ (if own then pos 0 else v)
partner_part v true = elim (Bool-cases (v =? pos 0)) [
  | inl zero_of ↦ rw zero_of refl
  | inr some_of ↦ rw some_of refl
]
partner_part v false = elim (Bool-cases (v =? pos 0)) [
  | inl zero_of ↦ let e : v ≡ pos 0 = =?_true v (pos 0) zero_of in rw (zero_of, e) refl
  | inr some_of ↦ rw some_of refl
]

module _ {W : Type 0} ⦃o : Outside W⦄ where
  debit-Returns :
      Debits o
      → (to : Parties) (target : ℕ) (amount : ℤ) (x : W) → to.payer ≢ target
      → Returns
          (λ y. o.balance_of y to.payer ≡ o.balance_of x to.payer -ℤ amount)
          (o.transfer_from to.pool to.payer target amount x)
  unfolding Debits
  debit-Returns debits to target amount x apart =
      Returns-of _ λ y e. debits to.pool to.payer target amount x y apart e

  pub pay_if-Returns :
      Debits o
      → (wanted : Bool) (to : Parties) (target : ℕ) (amount : ℤ) (x : W) → to.payer ≢ target
      → Returns
          (λ y.
            o.balance_of y to.payer ≡ o.balance_of x to.payer -ℤ (if wanted then amount else pos 0))
          (pay_if wanted to target amount x)
  unfolding pay_if
  pay_if-Returns debits true to target amount x apart =
      debit-Returns debits to target amount x apart
  pay_if-Returns debits false to target amount x apart = returns (omega int_laws)

  collect-Returns :
      Debits o
      → (to : Parties) (pa : PremiumsAccount) (p : Policy) (x : W) → IsApart to pa
      → Returns
          (λ y.
            o.balance_of y to.payer
            ≡ o.balance_of x to.payer
              -ℤ p.pure_premium
              -ℤ p.sr_coc
              -ℤ p.jr_coc
              -ℤ p.ensuro_commission
              -ℤ (if to.wallet == to.holder then pos 0 else p.partner_commission))
          (collect to pa p x)
  unfolding collect
  collect-Returns debits to pa p x apart =
      Returns-after _ _ (debit-Returns debits to pa.contract_id p.pure_premium x apart.account)
        λ x1 _ e1.
          Returns-after _ _ (pay_if-Returns debits _ to _ p.sr_coc x1 apart.senior) λ x2 _ e2.
            Returns-after _ _ (pay_if-Returns debits _ to _ p.jr_coc x2 apart.junior) λ x3 _ e3.
              Returns-after _ _
                (debit-Returns debits to to.treasury p.ensuro_commission x3 apart.treasury)
                λ x4 _ e4.
                  Returns-map _
                    (pay_if-Returns debits _ to to.wallet p.partner_commission x4 apart.wallet)
                    λ y e5.
                      rw
                        (
                          e5,
                          e4,
                          e3,
                          e2,
                          e1,
                          if_nonzero p.sr_coc,
                          if_nonzero p.jr_coc,
                          partner_part p.partner_commission (to.wallet == to.holder),
                        )
                        refl

  -- Under a currency whose transfers debit the sender, a payer that is none of the receivers pays
  -- for a new policy exactly its premium, where the module's wallet is not the holder's, and where
  -- it is, the premium less the partner's part.
  pub collect-premium :
      ⦃w : WadRay⦄ (rm : RiskModule) (t : Terms) (to : Parties) (pa : PremiumsAccount) (x : W)
      {p : Policy} {y : W}
      → Debits o
      → IsApart to pa
      → do_premium_split rm t ≡ ok p
      → collect to pa p x ≡ ok y
      → o.balance_of y to.payer
        ≡ o.balance_of x to.payer
          -ℤ (if to.wallet == to.holder then t.premium -ℤ p.partner_commission else t.premium)
  collect-premium rm t to pa x {p} {y} debits apart split collected =
      let paid = Returns-eq_ok _ (collect-Returns debits to pa p x apart) collected in
      let (whole, _) = split_adds_up rm t split in
      elim (Bool-cases (to.wallet == to.holder)) [
        | inl same ↦ rw same (rw same at paid ∙ rw (← whole) (omega int_laws))
        | inr other ↦ rw other (rw other at paid ∙ rw (← whole) (omega int_laws))
      ]
