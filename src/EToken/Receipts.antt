-- ===== src/EToken/Receipts.antt =====
-- What the receiver of an internal loan gets (prototype/ensuro.py, `EToken.internal_loan`).
use ensuro.Prelude.{ℕ, ◌≡◌, ◌≢◌, refl, arith, Bool-cases, inl, inr}
use ensuro.Prelude.Int.{ℤ, pos, ◌-ℤ◌, negℤ, ◌≤ℤ◌, ◌≤?◌, ◌<?◌, <?_true, min, int_laws}
use ensuro.Prelude.Calls.{Returns, returns, Returns-bind, Returns-then, Returns-after}
use ensuro.WadRay.{WadRay}
use ensuro.Outside.{Outside, TokenBase, negligible}
use ensuro.Outside.Laws.{IsCurrency}
use ensuro.Reserve.Receipts.{LeavesAlone, Receives, transfer_to-Receives}
use ensuro.EToken.State.{EToken}
use ensuro.EToken.Loans.{lend, internal_loan}
use ensuro.EToken.Scales.{update_current_scale-Returns, discrete_earning-Returns}

module _ {W : Type 0} ⦃o : Outside W⦄ where
  pub nothing_sent : (c : ℕ) (amount : ℤ) (x : W) → Receives c (amount -ℤ amount) (negligible o) x x
  nothing_sent c amount x = record { at_most = omega int_laws; at_least = omega int_laws }

module _ {L W : Type 0} ⦃w : WadRay⦄ ⦃b : TokenBase L⦄ ⦃o : Outside W⦄ where
  -- The receiver gets what is not left, by at most the negligible amount less, and the eToken keeps
  -- its identity.
  pub record Lent (c : ℕ) (asked : ℤ) (e : EToken L) (x : W) (r : ℤ × EToken L × W) : Type 0 where
    pub left : pos 0 ≤ℤ r.0
    pub gets : Receives c (asked -ℤ r.0) (negligible o) x r.2
    pub same_id : r.1.contract_id ≡ e.contract_id

module _ {L W : Type 0} ⦃w : WadRay⦄ ⦃b : TokenBase L⦄ ⦃o : Outside W⦄ (currency : IsCurrency o)
    (c : ℕ) (alone : LeavesAlone o c) where
  lend-Lent :
      (now : ℤ) (borrower : ℕ) (asked amount : ℤ) (e : EToken L) (x : W)
      → e.contract_id ≢ c
      → amount ≤ℤ asked
      → Returns (Lent c asked e x) (lend now borrower asked amount c e x)
  unfolding lend
  lend-Lent now borrower asked amount e x apart within = Returns-bind _ _ λ loan _.
      Returns-bind _ _ λ loan' _.
        Returns-after _ _ (update_current_scale-Returns now _) λ e1 _ (_, _, same1, _).
          Returns-after _ _ (discrete_earning-Returns now (negℤ amount) e1) λ e2 _ (_, _, same2, _).
            let same_id : e2.contract_id ≡ e.contract_id = rw same2 (rw same1 refl) in
            Returns-after _ _
              (transfer_to-Receives currency e2.contract_id e2.asset_manager c amount x alone
                (rw same_id apart))
              λ y _ got. Returns-then _ _ (
                let all : asked -ℤ (asked -ℤ amount) ≡ amount = omega int_laws in
                returns (record { left = omega int_laws; gets = rw all got; same_id = same_id }))

  pub internal_loan-Lent :
      (now : ℤ) (borrower : ℕ) (asked : ℤ) (e : EToken L) (x : W)
      → e.contract_id ≢ c
      → pos 0 ≤ℤ asked
      → Returns (Lent c asked e x) (internal_loan now borrower asked c e x)
  unfolding internal_loan
  internal_loan-Lent now borrower asked e x apart nonneg = Returns-bind _ _ λ supply _.
      Returns-bind _ _ λ allowed _.
        let capped = min asked supply in
        let most : capped ≤ℤ asked = ground arith in
        elim (Bool-cases (allowed <? capped)) [
          | inl over ↦
              let less = <?_true allowed capped over in
              rw over (elim (Bool-cases (allowed ≤? pos 0)) [
                | inl nothing ↦ rw nothing (
                    returns
                      (record { left = nonneg; gets = nothing_sent c asked x; same_id = refl }))
                | inr something ↦
                    rw something (lend-Lent now borrower asked allowed e x apart (omega arith))
              ])
          | inr within ↦ rw within (lend-Lent now borrower asked capped e x apart most)
        ]
