-- ===== src/PremiumsAccount/Deficit.antt =====
-- Repayments and changes of the deficit ratio keep the deficit within the limit
-- (prototype/ensuro.py, `PremiumsAccount.repay_loans` and `set_deficit_ratio`).
use ensuro.Prelude.{
  ℕ, ◌≡◌, arith, Bool, true, false, Option, none, some, Bool-cases, inl, inr, ◌&&◌,
}
use ensuro.Prelude.Int.{ℤ, pos, ◌-ℤ◌, negℤ, ◌≤ℤ◌, ◌≤?◌, ◌<?◌, ◌=?◌, min, ≤?_true}
use ensuro.Prelude.Calls.{
  Returns, returns, Returns-bind, Returns-then, Returns-require, Returns-eq_ok,
}
use ensuro.WadRay.{WadRay, ◌*W◌}
use ensuro.Outside.{Outside, TokenBase, negligible}
use ensuro.Roles.{Caller}
use ensuro.World.{World}
use ensuro.PremiumsAccount.State.{PremiumsAccount, max_deficit, funds_available}
use ensuro.PremiumsAccount.Borrow.{
  store_ratio, set_deficit_ratio, pay_back, repay_borrowed, repay_etk, repay_if, repay_loans,
}
use ensuro.PremiumsAccount.Solvency.{IsSound}

ratio_bounds :
    ⦃w : WadRay⦄ (ratio : ℤ)
    → (ratio ≤? w.wad (pos 1) && (pos 0 ≤? ratio)) ≡ true
    → (pos 0 ≤ℤ ratio) × (ratio ≤ℤ w.wad (pos 1))
ratio_bounds ratio h = ground arith

module _ {L W : Type 0} ⦃w : WadRay⦄ ⦃b : TokenBase L⦄ ⦃o : Outside W⦄ where
  -- A repayment asserts that the deficit is within its limit.
  pay_back-Returns :
      (repay_amount borrowed : ℤ) (etk : ℕ) (pa : PremiumsAccount) (s : World L W)
      → IsSound pa
      → Returns (λ r. IsSound r.0) (pay_back repay_amount borrowed etk pa s)
  unfolding pay_back
  pay_back-Returns repay_amount borrowed etk pa s v =
      let pa' = record pa { surplus = pa.surplus -ℤ repay_amount } in
      Returns-bind _ _ λ x _. Returns-bind _ _ λ x' _. Returns-bind _ _ λ s' _.
        Returns-require _ _ _ λ kept.
          returns (record { ratio = v.ratio; solvent = ≤?_true (max_deficit pa') pa'.surplus kept })

  repay_borrowed-Returns :
      (borrowed funds : ℤ) (etk : ℕ) (pa : PremiumsAccount) (s : World L W)
      → IsSound pa
      → Returns (λ r. IsSound r.1) (repay_borrowed borrowed funds etk pa s)
  unfolding repay_borrowed
  repay_borrowed-Returns borrowed funds etk pa s v = elim (Bool-cases (borrowed =? pos 0)) [
    | inl nothing ↦ rw nothing (returns v)
    | inr some_loan ↦ rw some_loan (
        Returns-bind _ _ λ r e.
          returns (Returns-eq_ok _ (pay_back-Returns (min borrowed funds) borrowed etk pa s v) e))
  ]

  repay_etk-Returns :
      (funds : ℤ) (etk : ℕ) (pa : PremiumsAccount) (s : World L W)
      → IsSound pa
      → Returns (λ r. IsSound r.1) (repay_etk funds etk pa s)
  unfolding repay_etk
  repay_etk-Returns funds etk pa s v = elim (Bool-cases (funds <? negligible o)) [
    | inl few ↦ rw few (returns v)
    | inr enough ↦
        rw enough (Returns-bind _ _ λ borrowed _. repay_borrowed-Returns borrowed funds etk pa s v)
  ]

  repay_if-Returns :
      (wanted : Bool) (etk : Option ℕ) (funds : ℤ) (pa : PremiumsAccount) (s : World L W)
      → IsSound pa
      → Returns (λ r. IsSound r.1) (repay_if wanted etk funds pa s)
  unfolding repay_if
  repay_if-Returns wanted none funds pa s v = returns v
  repay_if-Returns true (some etk) funds pa s v = repay_etk-Returns funds etk pa s v
  repay_if-Returns false (some etk) funds pa s v = returns v

  pub repay_loans-Returns :
      (c : Caller) (pa : PremiumsAccount) (s : World L W)
      → IsSound pa
      → Returns (λ r. IsSound r.1) (repay_loans c pa s)
  unfolding repay_loans
  repay_loans-Returns c pa s v = Returns-then _ _ (
      Returns-bind _ _ λ r e.
        repay_if-Returns true r.1.junior_etk r.0 r.1 r.2
          (Returns-eq_ok _ (repay_if-Returns _ pa.senior_etk (funds_available pa) pa s v) e))

  store_ratio-Returns :
      (ratio : ℤ) (adjustment : Bool) (pa : PremiumsAccount) (s : World L W)
      → (pos 0 ≤ℤ ratio) × (ratio ≤ℤ w.wad (pos 1))
      → Returns (λ r. IsSound r.0) (store_ratio ratio adjustment pa s)
  unfolding store_ratio max_deficit
  store_ratio-Returns ratio false pa s v = Returns-require _ _ _ λ fits. returns (record {
    ratio = v;
    solvent = ≤?_true (negℤ pa.active_pure_premiums *W ratio) pa.surplus fits;
  })
  store_ratio-Returns ratio true pa s v =
      elim (Bool-cases ((negℤ pa.active_pure_premiums *W ratio) ≤? pa.surplus)) [
        | inl fits ↦ rw fits (
            returns (record {
              ratio = v;
              solvent = ≤?_true (negℤ pa.active_pure_premiums *W ratio) pa.surplus fits;
            }))
        | inr short ↦
            rw short
              (Returns-bind _ _ λ s' _. returns (record { ratio = v; solvent = omega arith }))
      ]

  pub ratio-Returns :
      (c : Caller) (ratio : ℤ) (adjustment : Bool) (pa : PremiumsAccount) (s : World L W)
      → Returns (λ r. IsSound r.0) (set_deficit_ratio c ratio adjustment pa s)
  unfolding set_deficit_ratio
  ratio-Returns c ratio adjustment pa s = Returns-then _ _ (
      Returns-require _ _ _ λ in_range.
        Returns-then _ _ (store_ratio-Returns ratio adjustment pa s (ratio_bounds ratio in_range)))
