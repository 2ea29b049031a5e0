-- ===== src/PremiumsAccount/Payouts.antt =====
-- What a customer is paid in a resolution (prototype/ensuro.py,
-- `PremiumsAccount.policy_resolved_with_payout`).
use ensuro.Prelude.{ℕ, ◌≡◌, ◌≢◌, refl, arith, Bool-cases, some, inl, inr, if◌then◌else◌}
use ensuro.Prelude.Int.{ℤ, pos, ◌+ℤ◌, ◌-ℤ◌, ◌≤ℤ◌, ◌≤?◌, ◌<?◌, ◌=?◌, =?_true, ≤?_false, int_laws}
use ensuro.Prelude.Calls.{ok, Returns, returns, Returns-after, Returns-eq_ok}
use ensuro.WadRay.{WadRay}
use ensuro.Outside.{Outside, TokenBase, negligible}
use ensuro.Outside.Laws.{IsCurrency}
use ensuro.Reserve.Receipts.{LeavesAlone, Receives, transfer_to-Receives}
use ensuro.Policy.{Policy}
use ensuro.World.{World}
use ensuro.PremiumsAccount.State.{PremiumsAccount, max_deficit, pay_from_premiums}
use ensuro.PremiumsAccount.Borrow.{borrow_from_etk}
use ensuro.PremiumsAccount.Policies.{is_nonzero, policy_resolved_with_payout}
use ensuro.PremiumsAccount.Solvency.{pay_from_premiums_lem}
use ensuro.PremiumsAccount.Lending.{
  Foreign, Foreign-kept, unlock_policy-Returns, borrow_from_etk-Receives,
}

shortage_nonneg :
    ⦃w : WadRay⦄ (to_pay : ℤ) (pa : PremiumsAccount) → pos 0 ≤ℤ (pay_from_premiums to_pay pa).0
unfolding pay_from_premiums
shortage_nonneg to_pay pa = elim (Bool-cases (max_deficit pa ≤? (pa.surplus -ℤ to_pay))) [
  | inl enough ↦ rw enough (omega arith)
  | inr short ↦
      let below = ≤?_false (max_deficit pa) (pa.surplus -ℤ to_pay) short in
      rw short (omega int_laws)
]

same_account :
    ⦃w : WadRay⦄ (to_pay : ℤ) (pa : PremiumsAccount)
    → (pay_from_premiums to_pay pa).1.contract_id ≡ pa.contract_id
same_account to_pay pa = let (_, same, _) = pay_from_premiums_lem to_pay pa in rw same refl

-- Four times the negligible amount: three transfers, and what is left of a loan.
abbrev pub slack : {W : Type 0} → Outside W → ℤ
slack o = negligible o +ℤ negligible o +ℤ negligible o +ℤ negligible o

module _ {L W : Type 0} ⦃w : WadRay⦄ ⦃b : TokenBase L⦄ ⦃o : Outside W⦄ (currency : IsCurrency o)
    (c : ℕ) (alone : LeavesAlone o c) where
  borrowed-Receives :
      (pa : PremiumsAccount) (p : Policy) (borrow : ℤ) (s : World L W)
      → Foreign c s
      → pos 0 ≤ℤ borrow
      → Returns
          (λ s'. Receives c borrow (negligible o +ℤ negligible o +ℤ negligible o) s.out s'.out)
          (if is_nonzero borrow
            then borrow_from_etk pa borrow (some c) (pos 0 <? p.jr_scr) s
            else ok s)
  borrowed-Receives pa p borrow s foreign nonneg = elim (Bool-cases (borrow =? pos 0)) [
    | inl nothing ↦
        let zero_borrow = =?_true borrow (pos 0) nothing in
        rw nothing (
          returns (rw zero_borrow (record { at_most = omega int_laws; at_least = omega int_laws })))
    | inr something ↦
        rw something (borrow_from_etk-Receives currency c alone pa borrow _ s foreign nonneg)
  ]

  resolved-Receives :
      (p : Policy) (payout : ℤ) (pa : PremiumsAccount) (s : World L W)
      → Foreign c s
      → pa.contract_id ≢ c
      → Returns
          (λ r. Receives c payout (slack o) s.out r.2.out)
          (policy_resolved_with_payout c p payout pa s)
  unfolding policy_resolved_with_payout
  resolved-Receives p payout pa s foreign apart =
      let released = record pa {
        active_pure_premiums = pa.active_pure_premiums -ℤ p.pure_premium;
      } in
      let to_pay = payout -ℤ p.pure_premium in
      let paid = pay_from_premiums to_pay released in
      let same_id = same_account to_pay released in
      Returns-after _ _ (unlock_policy-Returns p paid.1 s) λ s1 _ (same_out, ids).
        Returns-after _ _
          (borrowed-Receives paid.1 p paid.0 s1 (Foreign-kept c s s1 ids foreign)
            (shortage_nonneg to_pay released))
          λ s2 _ loans.
            Returns-after _ _
              (transfer_to-Receives currency paid.1.contract_id paid.1.asset_manager c
                (payout -ℤ paid.0) s2.out alone (rw same_id apart))
              λ x _ rest.
                let most = loans.at_most in
                let least = loans.at_least in
                let most' = rest.at_most in
                let least' = rest.at_least in
                returns
                  (rw (← same_out) (record { at_most = omega int_laws; at_least = omega int_laws }))

  -- Under a currency that moves what it is asked to, a customer that is neither the account nor an
  -- eToken, and whose balance no asset manager's refill changes, is paid at most the payout and at
  -- least the payout less four times the negligible amount, from the premiums and loans together.
  pub resolved-paid :
      (p : Policy) (payout : ℤ) (pa : PremiumsAccount) (s : World L W)
      {r : ℤ × PremiumsAccount × World L W}
      → Foreign c s
      → pa.contract_id ≢ c
      → policy_resolved_with_payout c p payout pa s ≡ ok r
      → Receives c payout (slack o) s.out r.2.out
  resolved-paid p payout pa s foreign apart resolved =
      Returns-eq_ok _ (resolved-Receives p payout pa s foreign apart) resolved
