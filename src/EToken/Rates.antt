-- ===== src/EToken/Rates.antt =====
-- A change of the loans' interest rate (prototype/ensuro.py,
-- `EToken.set_internal_loan_interest_rate`).
use ensuro.Prelude.{
  ℕ, ◌≡◌, ◌≢◌, refl, arith, ◌⊎◌, inl, inr, true, false, Bool-cases, none, some, [], ◌∷◌, ◌==◌,
}
use ensuro.Prelude.Int.{ℤ, pos, ◌-ℤ◌, ◌≤?◌, ◌=?◌, ≤?_of_le, int_laws}
use ensuro.Prelude.Calls.{ok, ◌>>=◌, Returns, returns, Returns-bind, Returns-after, Returns-eq_ok}
use ensuro.Prelude.Dict.{entry}
use ensuro.WadRay.{WadRay}
use ensuro.ScaledAmount
use ensuro.ScaledAmount.{
  ScaledAmount, grown_scale, next_scale, scale_since, get_scale, update_scale, get_scaled_amount,
}
use ensuro.EToken.State.{EToken}
use ensuro.EToken.Loans.{Loans, touch_loans, get_loan, set_internal_loan_interest_rate}

-- Nothing, at any scale, is nothing.
unfoldable pub ZeroUnits : WadRay → Type 0
ZeroUnits w = (scale q : ℤ) → w.ray_div (w.to_ray (pos 0)) scale ≡ ok q → w.to_wad q ≡ pos 0

-- A loan that is empty or was touched at a time other than 0.
unfoldable pub IsDated : ScaledAmount → Type 0
IsDated u = (u.amount ≡ pos 0) ⊎ ((t : ℤ) × (u.last_update ≡ some t) × (t ≢ pos 0))

module _ ⦃w : WadRay⦄ where
  -- The scale stands still at the time of its update.
  grown-now : (scale now rate : ℤ) → grown_scale scale (now -ℤ now) rate ≡ ok scale
  unfolding grown_scale
  grown-now scale now rate =
      let over : (now -ℤ now ≤? pos 0) ≡ true = ≤?_of_le (now -ℤ now) (pos 0) (omega int_laws) in
      rw over refl

  touched-Returns :
      (now rate : ℤ) (u : ScaledAmount)
      → ZeroUnits w
      → Returns
          (λ u'.
            (next_scale now rate u.scale u.last_update ≡ ok u'.scale)
            × (u'.amount ≡ u.amount)
            × (u'.last_update ≡ some now))
          (ScaledAmount.add now (pos 0) rate u)
  unfolding ScaledAmount.add update_scale ZeroUnits
  touched-Returns now rate u zero_units = Returns-after _ _ updated λ u1 _ (next, same).
      Returns-bind _ _ λ units divided.
        let nothing = zero_units u1.scale units divided in
        returns (next, (rw (nothing, same) (omega int_laws)), rw same refl)
    where
      updated :
          Returns
            (λ u1.
              (next_scale now rate u.scale u.last_update ≡ ok u1.scale)
              × (u1 ≡ record u { scale = u1.scale; last_update = some now }))
            (update_scale now rate u)
      updated = Returns-bind _ _ λ scale next. returns (next, refl)

  -- What is owed at the time of a touch does not change, whatever the rate from then on.
  owed-touched :
      (now rate new_rate : ℤ) (u u' : ScaledAmount)
      → IsDated u
      → next_scale now rate u.scale u.last_update ≡ ok u'.scale
      → u'.amount ≡ u.amount
      → u'.last_update ≡ some now
      → get_scaled_amount now new_rate u' ≡ get_scaled_amount now rate u
  unfolding get_scaled_amount IsDated next_scale get_scale scale_since ◌>>=◌
  owed-touched now rate new_rate u u' dated next same_amount at_now =
      elim (Bool-cases (u.amount =? pos 0)) [
        | inl empty ↦ rw (same_amount, empty) refl
        | inr owed ↦ elim dated [
          | inl nothing ↦ ground arith
          | inr (t, at_t, later) ↦
              let test : (t =? pos 0) ≡ false = ground arith in
              let grown : grown_scale u.scale (now -ℤ t) rate ≡ ok u'.scale =
                rw (at_t, test) at next in
              rw (same_amount, owed, at_now, at_t, grown-now u'.scale now new_rate, grown) refl
        ]
      ]

  -- A borrower's loan before and after all loans were touched.
  Touched : ℤ → ℤ → ℕ → Loans → Loans → Type 0
  Touched now rate k d d' =
      ((entry k d ≡ none) × (entry k d' ≡ none))
      ⊎ ((u : ScaledAmount) × (u' : ScaledAmount) × (entry k d ≡ some u)
          × (entry k d' ≡ some u')
          × (ScaledAmount.add now (pos 0) rate u ≡ ok u'))

  touch_loans-Returns :
      (now rate : ℤ) (k : ℕ) (d : Loans) → Returns (Touched now rate k d) (touch_loans now rate d)
  unfolding touch_loans entry Touched
  touch_loans-Returns now rate k [] = returns (inl (refl, refl))
  touch_loans-Returns now rate k ((j, u) ∷ d) = Returns-bind _ _ λ u' added.
      Returns-after _ _ (touch_loans-Returns now rate k d) λ d' _ rest.
        returns (elim (Bool-cases (k == j)) [
          | inl first ↦ rw first (inr (u, u', refl, refl, added))
          | inr later ↦ rw later rest
        ])

  owed_after :
      {L : Type 0} (now rate new_rate : ℤ) (k : ℕ) (e e' : EToken L)
      → ZeroUnits w
      → ((u : ScaledAmount) → entry k e.loans ≡ some u → IsDated u)
      → e.internal_loan_interest_rate ≡ rate
      → e'.internal_loan_interest_rate ≡ new_rate
      → Touched now rate k e.loans e'.loans
      → get_loan now k e' ≡ get_loan now k e
  unfolding get_loan Touched
  owed_after now rate new_rate k e e' zero_units dated old new touched = elim touched [
    | inl (no_loan, no_loan') ↦ rw (get_loan, no_loan, no_loan') refl
    | inr (u, u', found, found', added) ↦
        let (next, amount, at_now) =
          Returns-eq_ok _ (touched-Returns now rate u zero_units) added in
        rw (get_loan, found, found', old, new)
          (owed-touched now rate new_rate u u' (dated u found) next amount at_now)
  ]

  changed-Returns :
      {L : Type 0} (now new_rate : ℤ) (k : ℕ) (e : EToken L)
      → Returns
          (λ e'.
            (e'.internal_loan_interest_rate ≡ new_rate)
            × Touched now e.internal_loan_interest_rate k e.loans e'.loans)
          (set_internal_loan_interest_rate now new_rate e)
  unfolding set_internal_loan_interest_rate
  changed-Returns now new_rate k e =
      Returns-after _ _ (touch_loans-Returns now e.internal_loan_interest_rate k e.loans)
        λ d' _ touched. returns (refl, touched)

  -- Where nothing is nothing at any scale, a change of the loans' interest rate changes what no
  -- borrower owes at that time: interest at the old rate has been charged up to it, and a loan that was
  -- not touched before, or only at the time 0, is empty.
  pub get_loan-set_internal_loan_interest_rate :
      {L : Type 0} (now new_rate : ℤ) (borrower : ℕ) (e : EToken L) {e' : EToken L}
      → ZeroUnits w
      → ((u : ScaledAmount) → entry borrower e.loans ≡ some u → IsDated u)
      → set_internal_loan_interest_rate now new_rate e ≡ ok e'
      → get_loan now borrower e' ≡ get_loan now borrower e
  get_loan-set_internal_loan_interest_rate now new_rate borrower e {e'} zero_units dated done =
      let (new, touched) = Returns-eq_ok _ (changed-Returns now new_rate borrower e) done in
      owed_after now e.internal_loan_interest_rate new_rate borrower e e' zero_units dated refl new
        touched
