-- ===== src/EToken/Loans.antt =====
-- The loans of an eToken to its borrowers (`EToken.add_borrower`, `internal_loan`, `repay_loan`,
-- `get_loan`, `set_internal_loan_interest_rate`, prototype/ensuro.py).
use ensuro.Prelude.{ℕ, Option, none, some, List, [], ◌∷◌, if◌then◌else◌}
use ensuro.Prelude.Int.{ℤ, pos, ◌-ℤ◌, negℤ, ◌≤?◌, ◌<?◌}
use ensuro.Prelude.Calls.{Fault, Result, ok, ◌>>=◌, ◌>>◌, require, or_fault}
use ensuro.Prelude.Dict.{entry, enter}
use ensuro.WadRay.{WadRay}
use ensuro.Outside.{Outside, TokenBase}
use ensuro.Reserve.{transfer_to}
use ensuro.ScaledAmount
use ensuro.ScaledAmount.{ScaledAmount, empty_amount, get_scaled_amount}
use ensuro.EToken.State.{EToken}
use ensuro.EToken.Scale.{
  update_current_scale, discrete_earning, check_balance, total_supply, max_negative_adjustment,
}

-- The dictionary `loans`, by the borrower's address.
abbrev pub Loans : Type 0
Loans = List (ℕ × ScaledAmount)

-- `loan.add(_W(0), rate)` for each loan.
unfoldable pub touch_loans : ⦃w : WadRay⦄ → ℤ → ℤ → Loans → Result Loans
touch_loans now rate [] = ok []
touch_loans now rate ((j, u) ∷ d) = do
  u' ← ScaledAmount.add now (pos 0) rate u
  d' ← touch_loans now rate d
  ok ((j, u') ∷ d')

module _ {L : Type 0} ⦃w : WadRay⦄ where
  unfoldable pub add_borrower : Option ℕ → EToken L → Result (EToken L)
  add_borrower borrower e = do
    address ← or_fault borrower Fault.no_borrower
    ok (elim (entry address e.loans) [
      | some loan ↦ e
      | none ↦ record e { loans = enter address empty_amount e.loans }
    ])

  unfoldable pub get_loan : ℤ → ℕ → EToken L → Result ℤ
  get_loan now borrower e = elim (entry borrower e.loans) [
    | none ↦ ok (pos 0)
    | some loan ↦ get_scaled_amount now e.internal_loan_interest_rate loan
  ]

  unfoldable pub set_internal_loan_interest_rate : ℤ → ℤ → EToken L → Result (EToken L)
  set_internal_loan_interest_rate now new_rate e = do
    loans ← touch_loans now e.internal_loan_interest_rate e.loans
    ok (record e { loans = loans; internal_loan_interest_rate = new_rate })

module _ {L W : Type 0} ⦃w : WadRay⦄ ⦃b : TokenBase L⦄ ⦃o : Outside W⦄ where
  -- Lends `amount`, the part of `amount_asked` that the eToken has; the result is the rest.
  unfoldable pub lend : ℤ → ℕ → ℤ → ℤ → ℕ → EToken L → W → Result (ℤ × EToken L × W)
  lend now borrower amount_asked amount receiver e x = do
    loan ← or_fault (entry borrower e.loans) Fault.borrower_unknown
    loan' ← ScaledAmount.add now amount e.internal_loan_interest_rate loan
    e1 ← update_current_scale now (record e { loans = enter borrower loan' e.loans })
    e2 ← discrete_earning now (negℤ amount) e1
    x' ← transfer_to e2.contract_id e2.asset_manager receiver amount x
    check_balance now e2 x'
    ok (amount_asked -ℤ amount, e2, x')

  unfoldable pub internal_loan : ℤ → ℕ → ℤ → ℕ → EToken L → W → Result (ℤ × EToken L × W)
  internal_loan now borrower amount_asked receiver e x = do
    supply ← total_supply now e
    let amount = if supply <? amount_asked then supply else amount_asked
    allowed ← max_negative_adjustment now e
    if allowed <? amount
        then (if allowed ≤? pos 0
            then ok (amount_asked, e, x)
            else lend now borrower amount_asked allowed receiver e x)
        else lend now borrower amount_asked amount receiver e x

  -- `msg_sender` is not used.
  unfoldable pub repay_loan : ℤ → ℤ → ℕ → EToken L → W → Result (EToken L × W)
  repay_loan now amount on_behalf_of e x = do
    require (pos 0 <? amount) Fault.amount_not_positive
    loan ← or_fault (entry on_behalf_of e.loans) Fault.borrower_unknown
    loan' ← ScaledAmount.sub now amount e.internal_loan_interest_rate loan
    e1 ← update_current_scale now (record e { loans = enter on_behalf_of loan' e.loans })
    e2 ← discrete_earning now amount e1
    x' ← o.transfer_from e2.contract_id on_behalf_of e2.contract_id amount x
    check_balance now e2 x'
    ok (e2, x')
