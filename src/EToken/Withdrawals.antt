-- ===== src/EToken/Withdrawals.antt =====
-- What a withdrawal pays, burns and transfers (`EToken.withdraw`, prototype/ensuro.py).
use ensuro.Prelude.{ℕ, ◌≡◌, refl, sym, ◌∙◌, arith, Option, Bool-cases, ◌⊎◌, inl, inr}
use ensuro.Prelude.Int.{ℤ, pos, ◌-ℤ◌, ◌≤ℤ◌, ◌=?◌, max, min, ≤?_true, =?_true}
use ensuro.Prelude.Calls.{
  ok, Returns, returns, Returns-bind, Returns-after, Returns-map, Returns-require, Returns-eq_ok,
}
use ensuro.WadRay.{WadRay, ◌*W◌, ◌/R◌}
use ensuro.Outside.{Outside, TokenBase}
use ensuro.Reserve.{transfer_to}
use ensuro.EToken.State.{EToken}
use ensuro.EToken.Scale.{calculate_current_scale, total_supply, balance_of, total_withdrawable}
use ensuro.EToken.Liquidity.{amount_or, pay_out, withdraw}
use ensuro.EToken.Scales.{
  update_current_scale-Returns, update_current_scale-unseen, update_token_interest_rate-Returns,
}

-- What the locked capital leaves of a supply.
abbrev pub left_over : {L : Type 0} ⦃w : WadRay⦄ → ℤ → EToken L → ℤ
left_over supply e = max (pos 0) (supply -ℤ e.scr *W e.liquidity_requirement)

-- The smaller of two is at most each.
pub le_min : (a m n : ℤ) → a ≤ℤ min m n → (a ≤ℤ m) × (a ≤ℤ n)
le_min a m n h = ground arith

module _ {L : Type 0} ⦃w : WadRay⦄ ⦃b : TokenBase L⦄ where
  withdrawable_lem :
      (now : ℤ) (e : EToken L)
      → Returns
          (λ most. (supply : ℤ) × (total_supply now e ≡ ok supply) × (most ≡ left_over supply e))
          (total_withdrawable now e)
  unfolding total_withdrawable
  withdrawable_lem now e = Returns-bind _ _ λ supply at. returns (supply, at, refl)

module _ {L W : Type 0} ⦃w : WadRay⦄ ⦃b : TokenBase L⦄ ⦃o : Outside W⦄ where
  -- A payment of `amount`, whose units at a scale are burnt.
  pub record Paid (scale : ℤ) (provider : ℕ) (amount : ℤ) (e : EToken L) (x : W) (e' : EToken L)
      (x' : W) : Type 0 where
    pub sent : transfer_to e.contract_id e.asset_manager provider amount x ≡ ok x'
    pub units : ℤ
    pub of_amount : w.to_ray amount /R scale ≡ ok units
    pub burnt : b.burn provider (w.to_wad units) e.base ≡ ok e'.base

  pay_out-Paid :
      (now : ℤ) (provider : ℕ) (amount : ℤ) (e : EToken L) (x : W)
      → Returns
          (λ r.
            (r.0 ≡ amount) × (r.1.scr ≡ e.scr) × Paid e.scale_factor provider amount e x r.1 r.2)
          (pay_out now provider amount e x)
  unfolding pay_out
  pay_out-Paid now provider amount e x = Returns-require _ _ _ λ _.
      Returns-bind _ _ λ units of_amount. Returns-bind _ _ λ base burnt.
        Returns-after _ _ (update_token_interest_rate-Returns now (record e { base = base }))
          λ e2 _ (rate, same). Returns-bind _ _ λ x' sent. returns (
            refl,
            rw same refl,
            record {
              sent = rw same at sent;
              units = units;
              of_amount = of_amount;
              burnt = burnt ∙ rw same refl;
            },
          )

  -- A withdrawal's result, against the balance, the scale and the supply before it.
  pub record Withdrawn (now : ℤ) (provider : ℕ) (amount : Option ℤ) (e : EToken L) (x : W)
      (r : ℤ × EToken L × W) : Type 0 where
    pub balance : ℤ
    pub supply : ℤ
    pub scale : ℤ
    pub has : balance_of now provider e ≡ ok balance
    pub at_supply : total_supply now e ≡ ok supply
    pub at_scale : calculate_current_scale now e ≡ ok scale
    pub amount_is : r.0 ≡ amount_or amount (min balance (left_over supply e))
    pub paid :
        ((r.0 ≡ pos 0) × (r.1.base ≡ e.base) × (r.2 ≡ x))
        ⊎ ((r.0 ≤ℤ balance) × (r.0 ≤ℤ left_over supply e) × Paid scale provider r.0 e x r.1 r.2)
    pub same_scr : r.1.scr ≡ e.scr

  Paid-before :
      (scale now : ℤ) (provider : ℕ) (amount : ℤ) (e : EToken L) (x : W) (e1 : EToken L)
      {e' : EToken L} {x' : W}
      → e1 ≡ record e { scale_factor = scale; last_scale_update = now }
      → Paid e1.scale_factor provider amount e1 x e' x'
      → Paid scale provider amount e x e' x'
  Paid-before scale now provider amount e x e1 same p = record {
    sent = rw same at p.sent;
    units = p.units;
    of_amount = rw same at p.of_amount;
    burnt = rw same at p.burnt;
  }

  withdraw-Returns :
      (now : ℤ) (provider : ℕ) (amount : Option ℤ) (e : EToken L) (x : W)
      → Returns (Withdrawn now provider amount e x) (withdraw now provider amount e x)
  unfolding withdraw
  withdraw-Returns now provider amount e x =
      Returns-after _ _ (update_current_scale-Returns now e) λ e1 updated (scale, current, same, _).
        Returns-bind _ _ λ balance has.
          Returns-after _ _ (withdrawable_lem now e1) λ most _ (supply, at, most_is).
            let (_, supply_unseen, balance_unseen) =
              update_current_scale-unseen now provider e updated in
            let most_is' : most ≡ left_over supply e = most_is ∙ rw same refl in
            let asked = amount_or amount (min balance most) in
            elim (Bool-cases (asked =? pos 0)) [
              | inl nothing ↦
                  let zero_asked = =?_true asked (pos 0) nothing in
                  rw nothing (
                    returns (record {
                      balance = balance;
                      supply = supply;
                      scale = scale;
                      has = sym balance_unseen ∙ has;
                      at_supply = sym supply_unseen ∙ at;
                      at_scale = current;
                      amount_is = rw (← most_is') (sym zero_asked);
                      paid = inl (refl, rw same refl, refl);
                      same_scr = rw same refl;
                    }))
              | inr something ↦ rw something (
                  Returns-require _ _ _ λ fits.
                    Returns-map _ (pay_out-Paid now provider asked e1 x)
                      λ r (paid, same_scr, payment). record {
                        balance = balance;
                        supply = supply;
                        scale = scale;
                        has = sym balance_unseen ∙ has;
                        at_supply = sym supply_unseen ∙ at;
                        at_scale = current;
                        amount_is = rw (← most_is') paid;
                        paid =
                            let (own, free) = le_min asked balance most (≤?_true asked _ fits) in
                            inr (
                              rw paid own,
                              rw (paid, ← most_is') free,
                              rw paid (Paid-before scale now provider asked e x e1 same payment),
                            );
                        same_scr = same_scr ∙ rw same refl;
                      })
            ]

  pub withdraw-Withdrawn :
      (now : ℤ) (provider : ℕ) (amount : Option ℤ) (e : EToken L) (x : W) {r : ℤ × EToken L × W}
      → withdraw now provider amount e x ≡ ok r
      → Withdrawn now provider amount e x r
  withdraw-Withdrawn now provider amount e x =
      Returns-eq_ok _ (withdraw-Returns now provider amount e x)
