-- ===== src/Tests/Loans.antt =====
-- A change of the loans' rate at concrete inputs.
use ensuro.Prelude.{ℕ, zero, suc, ◌/◌, ◌≡◌, refl, arith, inr, some, ◌∷◌, []}
use native.Mathlib.Nat.{div-eq_of_lt}
use ensuro.Prelude.Int.{ℤ, pos, negsuc, ◌+ℤ◌, int_laws}
use ensuro.Prelude.Division.{floor_div}
use ensuro.Prelude.Calls.{Result, ok}
use ensuro.Prelude.Dict.{entry}
use ensuro.WadRay.Sample.{half_up}
use ensuro.ScaledAmount.{ScaledAmount}
use ensuro.EToken.State.{EToken}
use ensuro.EToken.Loans.{get_loan, set_internal_loan_interest_rate}
use ensuro.EToken.Rates.{ZeroUnits, IsDated, get_loan-set_internal_loan_interest_rate}
use ensuro.Tests.Runs.{got, ok_got}
use ensuro.Tests.Running.{etokens}
use ensuro.Tests.Samples.{sample_wadray, Units, units, thousandths, etoken}

half_is_less : (n : ℕ) → (suc n / 2) / suc n ≡ 0
half_is_less n = div-eq_of_lt (omega arith)

zero_plus : (k : ℕ) → pos 0 +ℤ pos k ≡ pos k
zero_plus k = omega int_laws

half_up-ZeroUnits : ZeroUnits half_up
unfolding etokens ZeroUnits
half_up-ZeroUnits (pos zero) q divided = cc
half_up-ZeroUnits (pos (suc n)) q divided =
    let nothing = half_is_less n in
    let at : Path (Result ℤ) (ok (floor_div (pos 0 +ℤ pos (suc n / 2)) (suc n))) (ok q) = divided in
    let whole : floor_div (pos 0 +ℤ pos (suc n / 2)) (suc n) ≡ q = cc in
    let same : pos ((suc n / 2) / suc n) ≡ q = rw (zero_plus (suc n / 2)) at whole in
    rw (← same, nothing) refl
half_up-ZeroUnits (negsuc n) q divided =
    let nothing = half_is_less n in
    let at : Path (Result ℤ) (ok (floor_div (pos 0 +ℤ pos (suc n / 2)) (suc n))) (ok q) = divided in
    let whole : floor_div (pos 0 +ℤ pos (suc n / 2)) (suc n) ≡ q = cc in
    let same : pos ((suc n / 2) / suc n) ≡ q = rw (zero_plus (suc n / 2)) at whole in
    rw (← same, nothing) refl

-- The account 4 owes 300, from the time 1000.
abbrev loan : ScaledAmount
loan = record {
  amount = units 300;
  scale = pos 1000000000000000000000000000;
  last_update = some (pos 1000);
}

abbrev lender : EToken Units
lender = record (etoken 5) { loans = (4, loan) ∷ [] }

abbrev dearer : EToken Units
dearer = got (set_internal_loan_interest_rate (pos 90000) (thousandths 80) lender) lender

dearer_ok : set_internal_loan_interest_rate (pos 90000) (thousandths 80) lender ≡ ok dearer
unfolding etokens
dearer_ok = ok_got (set_internal_loan_interest_rate (pos 90000) (thousandths 80) lender) lender refl

loan-IsDated : (u : ScaledAmount) → entry 4 lender.loans ≡ some u → IsDated u
unfolding etokens IsDated
loan-IsDated u found = let same : loan ≡ u = cc in rw (← same) (inr (pos 1000, refl, ground arith))

get_loan-set_internal_loan_interest_rate_example :
    get_loan (pos 90000) 4 dearer ≡ get_loan (pos 90000) 4 lender
get_loan-set_internal_loan_interest_rate_example =
    get_loan-set_internal_loan_interest_rate (pos 90000) (thousandths 80) 4 lender half_up-ZeroUnits
      loan-IsDated dearer_ok
