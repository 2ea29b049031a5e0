-- ===== src/PremiumsAccount/Lending.antt =====
-- What the receiver gets when an account borrows from its eTokens (prototype/ensuro.py,
-- `PremiumsAccount._borrow_from_etk`), and what unlocking capital leaves as it is.
use ensuro.Prelude.{
  ℕ, ◌≡◌, ◌≢◌, refl, sym, ◌∙◌, arith, Bool, true, false, Bool-cases, Option, some, inl, inr,
  if◌then◌else◌, ◌==◌,
}
use ensuro.Prelude.Int.{
  ℤ, pos, ◌+ℤ◌, ◌-ℤ◌, ◌≤ℤ◌, ◌≤?◌, ◌<?◌, <?_true, <?_false, ≤?_true, ≤?_false, int_laws,
}
use ensuro.Prelude.Calls.{
  Result, ok, ◌>>=◌, Returns, returns, Returns-bind, Returns-require, Returns-found, Returns-after,
  Returns-map,
}
use ensuro.WadRay.{WadRay}
use ensuro.Outside.{Outside, TokenBase, negligible}
use ensuro.Outside.Laws.{IsCurrency}
use ensuro.Reserve.Receipts.{LeavesAlone, Receives}
use ensuro.Policy.{Policy}
use ensuro.EToken.State.{EToken}
use ensuro.EToken.Locking.{unlock_scr-Returns}
use ensuro.EToken.Loans.{internal_loan}
use ensuro.EToken.Receipts.{nothing_sent, internal_loan-Lent}
use ensuro.World.{World, put_etk, on_etk, on_etk_value}
use ensuro.PremiumsAccount.State.{PremiumsAccount, loan_limit}
use ensuro.PremiumsAccount.Borrow.{borrow_junior, borrow_senior, borrow_from_etk}
use ensuro.PremiumsAccount.Policies.{unlock_if, unlock_policy}

module _ {L W : Type 0} where
  -- Every eToken keeps its contract id.
  unfoldable pub SameIds : World L W → World L W → Type 0
  SameIds s s' = (a : ℕ) → (s'.etk a).contract_id ≡ (s.etk a).contract_id

  -- An address is none of the eTokens.
  unfoldable pub Foreign : ℕ → World L W → Type 0
  Foreign c s = (a : ℕ) → (s.etk a).contract_id ≢ c

  pub Foreign-kept : (c : ℕ) (s s' : World L W) → SameIds s s' → Foreign c s → Foreign c s'
  unfolding Foreign SameIds
  Foreign-kept c s s' same foreign a = λ e. foreign a (sym (same a) ∙ e)

  put_etk-SameIds :
      (a : ℕ) (e : EToken L) (s : World L W)
      → e.contract_id ≡ (s.etk a).contract_id
      → SameIds s (put_etk a e s)
  unfolding put_etk SameIds
  put_etk-SameIds a e s same k = elim (Bool-cases (a == k)) [
    | inl here ↦ rw here (grind arith)
    | inr other ↦ rw other refl
  ]

module _ {L W : Type 0} ⦃w : WadRay⦄ ⦃b : TokenBase L⦄ ⦃o : Outside W⦄ where
  unlock_if-Returns :
      (wanted : Bool) (etoken : Option ℕ) (scr : ℤ) (rate change : Result ℤ) (s : World L W)
      → Returns (λ s'. (s'.out ≡ s.out) × SameIds s s') (unlock_if wanted etoken scr rate change s)
  unfolding unlock_if on_etk SameIds put_etk
  unlock_if-Returns false etoken scr rate change s = returns (refl, λ a. refl)
  unlock_if-Returns true etoken scr rate change s = Returns-bind _ _ λ c _.
      Returns-found _ _ _ λ etk _. Returns-bind _ _ λ r _.
        Returns-after _ _ (unlock_scr-Returns s.now scr r c (s.etk etk) s.out)
          λ e _ ((_, _, _, same, _), _). returns (refl, put_etk-SameIds etk e s (rw same refl))

  pub unlock_policy-Returns :
      (p : Policy) (pa : PremiumsAccount) (s : World L W)
      → Returns (λ s'. (s'.out ≡ s.out) × SameIds s s') (unlock_policy p pa s)
  unfolding unlock_policy SameIds
  unlock_policy-Returns p pa s =
      Returns-after _ _ (unlock_if-Returns _ pa.senior_etk p.sr_scr _ _ s) λ s1 _ (out1, ids1).
        Returns-map _ (unlock_if-Returns _ pa.junior_etk p.jr_scr _ _ s1)
          λ s2 (out2, ids2). (out2 ∙ out1, λ a. ids2 a ∙ ids1 a)

module _ {L W : Type 0} ⦃o : Outside W⦄ (c : ℕ) where
  -- Of what was asked, the customer has received all but what is left.
  record Paid (asked : ℤ) (s : World L W) (r : ℤ × World L W) : Type 0 where
    left : pos 0 ≤ℤ r.0
    gets : Receives c (asked -ℤ r.0) (negligible o) s.out r.1.out
    ids : SameIds s r.1

module _ {L W : Type 0} ⦃w : WadRay⦄ ⦃b : TokenBase L⦄ ⦃o : Outside W⦄ (currency : IsCurrency o)
    (c : ℕ) (alone : LeavesAlone o c) where
  loan-Paid :
      (etk borrower : ℕ) (asked : ℤ) (s : World L W)
      → Foreign c s
      → pos 0 ≤ℤ asked
      → Returns (Paid c asked s) (on_etk_value etk (internal_loan s.now borrower asked c) s)
  unfolding on_etk_value Foreign put_etk SameIds
  loan-Paid etk borrower asked s foreign nonneg =
      Returns-after _ _
        (internal_loan-Lent currency c alone s.now borrower asked (s.etk etk) s.out (foreign etk)
          nonneg)
        λ r _ lent. returns (record {
          left = lent.left;
          gets = lent.gets;
          ids = put_etk-SameIds etk r.1 s lent.same_id;
        })

  borrow_junior-Paid :
      (pa : PremiumsAccount) (borrow : ℤ) (s : World L W)
      → Foreign c s
      → pos 0 ≤ℤ borrow
      → Returns (Paid c borrow s) (borrow_junior pa borrow c s)
  unfolding borrow_junior SameIds
  borrow_junior-Paid pa borrow s foreign nonneg = Returns-found _ _ _ λ etk _.
      Returns-bind _ _ λ loan _.
        let limit = loan_limit pa.jr_loan_limit_ in
        elim (Bool-cases ((loan +ℤ borrow) ≤? limit)) [
          | inl within ↦ rw within (loan-Paid etk pa.contract_id borrow s foreign nonneg)
          | inr over ↦
              let above = ≤?_false (loan +ℤ borrow) limit over in
              rw over (elim (Bool-cases (loan <? limit)) [
                | inl room ↦
                    let below = <?_true loan limit room in
                    let excess = loan +ℤ borrow -ℤ limit in
                    rw room (
                      Returns-after _ _
                        (loan-Paid etk pa.contract_id (borrow -ℤ excess) s foreign (omega int_laws))
                        λ r _ paid.
                          let rest : borrow -ℤ (excess +ℤ r.0) ≡ borrow -ℤ excess -ℤ r.0 =
                            omega int_laws in
                          let some_left = paid.left in
                          returns (record {
                            left = omega int_laws;
                            gets = rw rest paid.gets;
                            ids = paid.ids;
                          }))
                | inr full ↦ rw full (
                    returns (record {
                      left = nonneg;
                      gets = nothing_sent c borrow s.out;
                      ids = λ a. refl;
                    }))
              ])
        ]

  borrow_senior-Paid :
      (pa : PremiumsAccount) (asked : ℤ) (s : World L W)
      → Foreign c s
      → pos 0 ≤ℤ asked
      → Returns
          (λ s'. Receives c asked (negligible o +ℤ negligible o) s.out s'.out × SameIds s s')
          (borrow_senior pa asked c s)
  unfolding borrow_senior SameIds
  borrow_senior-Paid pa asked s foreign nonneg = Returns-found _ _ _ λ etk _.
      Returns-bind _ _ λ loan _. Returns-after _ _ (lent etk loan) λ r _ paid.
        Returns-require _ _ _ λ small.
          let some_left = paid.left in
          let little = ≤?_true r.0 (negligible o) small in
          let most = paid.gets.at_most in
          let least = paid.gets.at_least in
          returns (record { at_most = omega int_laws; at_least = omega int_laws }, paid.ids)
    where
      lent :
          (etk : ℕ) (loan : ℤ)
          → Returns (Paid c asked s) (
              if (loan +ℤ asked) ≤? loan_limit pa.sr_loan_limit_
              then on_etk_value etk (internal_loan s.now pa.contract_id asked c) s
              else ok (asked, s))
      lent etk loan = elim (Bool-cases ((loan +ℤ asked) ≤? loan_limit pa.sr_loan_limit_)) [
        | inl within ↦ rw within (loan-Paid etk pa.contract_id asked s foreign nonneg)
        | inr over ↦
            rw over (
              returns
                (record { left = nonneg; gets = nothing_sent c asked s.out; ids = λ a. refl }))
      ]

  pub borrow_from_etk-Receives :
      (pa : PremiumsAccount) (borrow : ℤ) (jr_etk : Bool) (s : World L W)
      → Foreign c s
      → pos 0 ≤ℤ borrow
      → Returns
          (λ s'. Receives c borrow (negligible o +ℤ negligible o +ℤ negligible o) s.out s'.out)
          (borrow_from_etk pa borrow (some c) jr_etk s)
  unfolding borrow_from_etk ◌>>=◌ SameIds
  borrow_from_etk-Receives pa borrow jr_etk s foreign nonneg =
      Returns-after _ _ (junior jr_etk) λ r _ paid.
        let some_left = paid.left in
        let most = paid.gets.at_most in
        let least = paid.gets.at_least in
        elim (Bool-cases (negligible o <? r.0)) [
          | inl much ↦ rw much (
              Returns-map _
                (borrow_senior-Paid pa r.0 r.1 (Foreign-kept c s r.1 paid.ids foreign) some_left)
                λ s' (senior, _).
                  let most' = senior.at_most in
                  let least' = senior.at_least in
                  record { at_most = omega int_laws; at_least = omega int_laws })
          | inr little ↦
              let small = <?_false (negligible o) r.0 little in
              rw little (returns (record { at_most = omega int_laws; at_least = omega int_laws }))
        ]
    where
      junior :
          (jr_etk : Bool)
          → Returns
              (Paid c borrow s)
              (if jr_etk then borrow_junior pa borrow c s else ok (borrow, s))
      junior true = borrow_junior-Paid pa borrow s foreign nonneg
      junior false =
          returns (record { left = nonneg; gets = nothing_sent c borrow s.out; ids = λ a. refl })
