-- ===== src/EToken/Movements.antt =====
-- Deposits, withdrawals, loans and repayments: what they pay, and what they leave alone.
use ensuro.Prelude.{ℕ, ◌≡◌, refl, sym, ◌∙◌, arith, Option, Bool-cases, ◌⊎◌, inl, inr}
use ensuro.Prelude.Int.{
  ℤ, pos, ◌-ℤ◌, negℤ, ◌≤ℤ◌, ◌≤?◌, ◌<?◌, ◌=?◌, min, ≤?_true, =?_true, <?_true, <?_false,
}
use ensuro.Prelude.Calls.{
  ok, Returns, returns, Returns-bind, Returns-after, Returns-map, Returns-then, Returns-require,
  Returns-eq_ok,
}
use ensuro.WadRay.{WadRay}
use ensuro.Outside.{Outside, TokenBase}
use ensuro.EToken.State.{EToken}
use ensuro.EToken.Scale.{
  update_current_scale, total_supply, balance_of, total_withdrawable, max_negative_adjustment,
}
use ensuro.EToken.Liquidity.{amount_or, deposit, pay_out, withdraw}
use ensuro.EToken.Loans.{lend, internal_loan, repay_loan}
use ensuro.EToken.Scales.{
  update_current_scale-Returns, update_current_scale-unseen, update_token_interest_rate-Returns,
  discrete_earning-Returns,
}

module _ {L : Type 0} ⦃w : WadRay⦄ where
  -- The scale has been updated, and the capital is what it was.
  abbrev pub Kept : EToken L → EToken L → Type 0
  Kept e e' = (w.min_scale ≤ℤ e'.scale_factor) × (e'.scr ≡ e.scr)

  withdrawable-unseen :
      ⦃b : TokenBase L⦄ (now : ℤ) (e : EToken L) {e' : EToken L}
      → update_current_scale now e ≡ ok e'
      → total_withdrawable now e' ≡ total_withdrawable now e
  unfolding total_withdrawable
  withdrawable-unseen now e updated =
      let (_, _, same, _) = Returns-eq_ok _ (update_current_scale-Returns now e) updated in
      let (_, supply, _) = update_current_scale-unseen now 0 e updated in rw supply (rw same refl)

-- The smaller of two is at most each.
le_min : (a m n : ℤ) → a ≤ℤ min m n → (a ≤ℤ m) × (a ≤ℤ n)
le_min a m n h = ground arith

module _ {L W : Type 0} ⦃w : WadRay⦄ ⦃b : TokenBase L⦄ ⦃o : Outside W⦄ where
  pub deposit-Returns :
      (now : ℤ) (provider : ℕ) (amount : ℤ) (e : EToken L) (x : W)
      → Returns (λ r. Kept e r.1) (deposit now provider amount e x)
  unfolding deposit
  deposit-Returns now provider amount e x = Returns-then _ _ (
      Returns-after _ _ (update_current_scale-Returns now e) λ e1 _ (scale, _, same1, large).
        Returns-bind _ _ λ units _. Returns-bind _ _ λ base _.
          Returns-after _ _ (update_token_interest_rate-Returns now (record e1 { base = base }))
            λ e2 _ (rate, same2). Returns-then _ _ (
              Returns-bind _ _ λ utilization _.
                Returns-then _ _
                  (Returns-bind _ _ λ balance _. returns (rw same2 (rw same1 (large, refl))))))

  pub pay_out-Returns :
      (now : ℤ) (provider : ℕ) (amount : ℤ) (e : EToken L) (x : W)
      → Returns
          (λ r. (r.0 ≡ amount) × (r.1.scale_factor ≡ e.scale_factor) × (r.1.scr ≡ e.scr))
          (pay_out now provider amount e x)
  unfolding pay_out
  pay_out-Returns now provider amount e x = Returns-then _ _ (
      Returns-bind _ _ λ units _. Returns-bind _ _ λ base _.
        Returns-after _ _ (update_token_interest_rate-Returns now (record e { base = base }))
          λ e2 _ (rate, same2). Returns-bind _ _ λ x' _. returns (rw same2 (refl, refl, refl)))

  pub repay_loan-Returns :
      (now amount : ℤ) (borrower : ℕ) (e : EToken L) (x : W)
      → Returns (λ r. Kept e r.0) (repay_loan now amount borrower e x)
  unfolding repay_loan
  repay_loan-Returns now amount borrower e x = Returns-then _ _ (
      Returns-bind _ _ λ loan _. Returns-bind _ _ λ loan' _.
        Returns-after _ _ (update_current_scale-Returns now _) λ e1 _ (_, _, same1, _).
          Returns-after _ _ (discrete_earning-Returns now amount e1)
            λ e2 _ (scale, rate, same2, large).
              Returns-bind _ _
                λ x' _. Returns-then _ _ (returns (rw same2 (rw same1 (large, refl)))))

  pub lend-Returns :
      (now : ℤ) (borrower : ℕ) (asked amount : ℤ) (receiver : ℕ) (e : EToken L) (x : W)
      → Returns
          (λ r. (r.0 ≡ asked -ℤ amount) × Kept e r.1)
          (lend now borrower asked amount receiver e x)
  unfolding lend
  lend-Returns now borrower asked amount receiver e x = Returns-bind _ _ λ loan _.
      Returns-bind _ _ λ loan' _.
        Returns-after _ _ (update_current_scale-Returns now _) λ e1 _ (_, _, same1, _).
          Returns-after _ _ (discrete_earning-Returns now (negℤ amount) e1)
            λ e2 _ (scale, rate, same2, large).
              Returns-bind _ _
                λ x' _. Returns-then _ _ (returns (refl, rw same2 (rw same1 (large, refl))))

  -- What a withdrawal pays.
  abbrev pub Pays : ℤ → ℕ → Option ℤ → EToken L → ℤ × EToken L × W → Type 0
  Pays now provider amount e r =
      (balance : ℤ) × (withdrawable : ℤ) × (balance_of now provider e ≡ ok balance)
      × (total_withdrawable now e ≡ ok withdrawable)
      × (r.0 ≡ amount_or amount (min balance withdrawable))
      × ((r.0 ≡ pos 0) ⊎ ((r.0 ≤ℤ balance) × (r.0 ≤ℤ withdrawable)))
      × Kept e r.1

  withdraw-Returns :
      (now : ℤ) (provider : ℕ) (amount : Option ℤ) (e : EToken L) (x : W)
      → Returns (Pays now provider amount e) (withdraw now provider amount e x)
  unfolding withdraw
  withdraw-Returns now provider amount e x =
      Returns-after _ _ (update_current_scale-Returns now e) λ e1 updated (scale, _, same1, large).
        Returns-bind _ _ λ balance has. Returns-bind _ _ λ withdrawable can.
          let (_, _, balance_unseen) = update_current_scale-unseen now provider e updated in
          let has' = sym balance_unseen ∙ has in
          let can' = sym (withdrawable-unseen now e updated) ∙ can in
          let most = min balance withdrawable in
          let asked = amount_or amount most in
          let kept : Kept e e1 = rw same1 (large, refl) in
          elim (Bool-cases (asked =? pos 0)) [
            | inl nothing ↦
                let zero_asked = =?_true asked (pos 0) nothing in
                rw nothing
                  (returns (balance, withdrawable, has', can', sym zero_asked, inl refl, kept))
            | inr something ↦ rw something (
                Returns-require _ _ _ λ fits.
                  Returns-map _ (pay_out-Returns now provider asked e1 x)
                    λ r (paid, scale_kept, scr_kept). (
                      balance,
                      withdrawable,
                      has',
                      can',
                      paid,
                      inr (rw paid (le_min asked balance withdrawable (≤?_true asked most fits))),
                      (rw scale_kept kept.0, scr_kept ∙ kept.1),
                    ))
          ]

  -- What an internal loan lends: nothing, or an amount within what was asked, the supply and what
  -- `max_negative_adjustment` allows.
  abbrev pub Lends : ℤ → ℤ → EToken L → W → ℤ × EToken L × W → Type 0
  Lends now asked e x r =
      ((r.0 ≡ asked) × (r.1 ≡ e) × (r.2 ≡ x))
      ⊎ ((lent : ℤ) × (supply : ℤ) × (allowed : ℤ) × (total_supply now e ≡ ok supply)
          × (max_negative_adjustment now e ≡ ok allowed)
          × (r.0 ≡ asked -ℤ lent)
          × (lent ≤ℤ asked)
          × (lent ≤ℤ supply)
          × (lent ≤ℤ allowed)
          × Kept e r.1)

  internal_loan-Returns :
      (now : ℤ) (borrower : ℕ) (asked : ℤ) (receiver : ℕ) (e : EToken L) (x : W)
      → Returns (Lends now asked e x) (internal_loan now borrower asked receiver e x)
  unfolding internal_loan
  internal_loan-Returns now borrower asked receiver e x = Returns-bind _ _ λ supply at_supply.
      Returns-bind _ _ λ allowed at_allowed.
        let capped = min asked supply in
        let give : (amount : ℤ)
            → (amount ≤ℤ capped)
            → (amount ≤ℤ allowed)
            → Returns (Lends now asked e x) (lend now borrower asked amount receiver e x) =
          λ amount small safe.
            let (below_asked, below_supply) = le_min amount asked supply small in
            Returns-map _ (lend-Returns now borrower asked amount receiver e x) λ r (rest, kept).
              inr (
                amount, supply, allowed, at_supply, at_allowed, rest, below_asked, below_supply,
                safe, kept,
              ) in
        elim (Bool-cases (allowed <? capped)) [
          | inl over ↦
              let less = <?_true allowed capped over in
              rw over (elim (Bool-cases (allowed ≤? pos 0)) [
                | inl nothing ↦ rw nothing (returns (inl (refl, refl, refl)))
                | inr something ↦ rw something (give allowed (omega arith) (omega arith))
              ])
          | inr within ↦ rw within (give capped (omega arith) (<?_false allowed capped within))
        ]

  -- A withdrawal pays what was asked for, or all that can be withdrawn where no amount was given;
  -- it pays nothing, or at most the provider's balance and at most what `total_withdrawable` gives. It keeps the SCR, and the scale above its minimum.
  pub withdraw_lem :
      (now : ℤ) (provider : ℕ) (amount : Option ℤ) (e : EToken L) (x : W) {r : ℤ × EToken L × W}
      → withdraw now provider amount e x ≡ ok r
      → Pays now provider amount e r
  withdraw_lem now provider amount e x = Returns-eq_ok _ (withdraw-Returns now provider amount e x)

  -- An internal loan lends nothing and changes nothing, or lends an amount that with what is left
  -- makes what was asked, and that is at most the amount asked, the supply, and what
  -- `max_negative_adjustment` allows. It keeps the SCR, and the scale above its minimum.
  pub internal_loan_lem :
      (now : ℤ) (borrower : ℕ) (asked : ℤ) (receiver : ℕ) (e : EToken L) (x : W)
      {r : ℤ × EToken L × W}
      → internal_loan now borrower asked receiver e x ≡ ok r
      → Lends now asked e x r
  internal_loan_lem now borrower asked receiver e x =
      Returns-eq_ok _ (internal_loan-Returns now borrower asked receiver e x)
