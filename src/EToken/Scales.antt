-- ===== src/EToken/Scales.antt =====
-- The scale of an eToken: an update is not seen in supply and balances at that moment, and no
-- operation leaves a scale below `MIN_SCALE`.
use ensuro.Prelude.{ℕ, ◌≡◌, refl, sym, ◌∙◌, true, Bool-cases, inl, inr}
use ensuro.Prelude.Int.{ℤ, pos, ◌-ℤ◌, ◌≤ℤ◌, ◌≤?◌, ◌=?◌, int_laws, ≤?_true, ≤?_of_le}
use ensuro.Prelude.Calls.{
  ok, Returns, returns, Returns-bind, Returns-after, Returns-map, Returns-then, Returns-require,
  Returns-eq_ok,
}
use ensuro.WadRay.{WadRay}
use ensuro.Outside.{TokenBase}
use ensuro.ScaledAmount.{grown_scale}
use ensuro.EToken.State.{EToken}
use ensuro.EToken.Scale.{
  calculate_current_scale, set_scale_factor, update_current_scale, total_supply, balance_of,
  update_token_interest_rate, discrete_earning,
}

module _ {L : Type 0} ⦃w : WadRay⦄ ⦃b : TokenBase L⦄ where
  pub set_scale_factor-Returns :
      (scale : ℤ) (e : EToken L)
      → Returns
          (λ e'. (e' ≡ record e { scale_factor = scale }) × (w.min_scale ≤ℤ scale))
          (set_scale_factor scale e)
  unfolding set_scale_factor
  set_scale_factor-Returns scale e =
      Returns-then _ _
        (Returns-require _ _ _ λ large. returns (refl, ≤?_true w.min_scale scale large))

  pub update_current_scale-Returns :
      (now : ℤ) (e : EToken L)
      → Returns
          (λ e'.
            (scale : ℤ) × (calculate_current_scale now e ≡ ok scale)
            × (e' ≡ record e { scale_factor = scale; last_scale_update = now })
            × (w.min_scale ≤ℤ scale))
          (update_current_scale now e)
  unfolding update_current_scale
  update_current_scale-Returns now e = Returns-bind _ _ λ scale current. Returns-bind _ _ λ e1 set.
      let (same, large) = Returns-eq_ok _ (set_scale_factor-Returns scale e) set in
      returns (scale, current, rw same, large)

  -- No time has passed since an update.
  calculate_current_scale-now :
      (now : ℤ) (e : EToken L)
      → e.last_scale_update ≡ now
      → calculate_current_scale now e ≡ ok e.scale_factor
  unfolding calculate_current_scale grown_scale
  calculate_current_scale-now now e h =
      let past : (now -ℤ e.last_scale_update ≤? pos 0) ≡ true =
        ≤?_of_le (now -ℤ e.last_scale_update) (pos 0) (rw h (omega int_laws)) in
      rw past

  same_scale :
      (now scale : ℤ) (e : EToken L)
      → calculate_current_scale now e ≡ ok scale
      → calculate_current_scale now (record e { scale_factor = scale; last_scale_update = now })
        ≡ calculate_current_scale now e
  same_scale now scale e current =
      calculate_current_scale-now now (record e { scale_factor = scale; last_scale_update = now })
        refl
      ∙ sym current

  -- An update of the scale changes neither the scale in force at that moment, nor the supply, nor
  -- a balance: it only stores the interests accrued.
  pub update_current_scale-unseen :
      (now : ℤ) (provider : ℕ) (e : EToken L) {e' : EToken L}
      → update_current_scale now e ≡ ok e'
      → (calculate_current_scale now e' ≡ calculate_current_scale now e)
        × (total_supply now e' ≡ total_supply now e)
        × (balance_of now provider e' ≡ balance_of now provider e)
  unfolding total_supply balance_of
  update_current_scale-unseen now provider e updated =
      let (scale, current, same, _) =
        Returns-eq_ok _ (update_current_scale-Returns now e) updated in
      let kept = same_scale now scale e current in rw same (kept, rw kept refl, rw kept refl)

  pub update_token_interest_rate-Returns :
      (now : ℤ) (e : EToken L)
      → Returns
          (λ e'. (rate : ℤ) × (e' ≡ record e { token_interest_rate = rate }))
          (update_token_interest_rate now e)
  unfolding update_token_interest_rate
  update_token_interest_rate-Returns now e = Returns-bind _ _ λ supply _.
      elim (Bool-cases (supply =? pos 0)) [
        | inl empty ↦ rw empty (returns (pos 0, refl))
        | inr full ↦ rw full (Returns-bind _ _ λ rate _. returns (rate, refl))
      ]

  -- What an operation does to the scale and the rate of the token, and to no other field.
  abbrev pub Rescaled : ℤ → EToken L → EToken L → Type 0
  Rescaled now e e' =
      (scale : ℤ) × (rate : ℤ) × (e'
        ≡ record e { scale_factor = scale; last_scale_update = now; token_interest_rate = rate })
      × (w.min_scale ≤ℤ scale)

  -- A discrete earning or loss changes the scale and the token's rate alone.
  pub discrete_earning-Returns :
      (now amount : ℤ) (e : EToken L) → Returns (Rescaled now e) (discrete_earning now amount e)
  unfolding discrete_earning
  discrete_earning-Returns now amount e =
      Returns-after _ _ (update_current_scale-Returns now e) λ e1 _ (_, _, same1, _).
        Returns-bind _ _ λ supply _. Returns-bind _ _ λ scale _.
          Returns-after _ _ (set_scale_factor-Returns scale e1) λ e2 _ (same2, large).
            Returns-map _ (update_token_interest_rate-Returns now e2)
              λ e3 (rate, same3). (scale, rate, rw same3 (rw same2 (rw same1)), large)
