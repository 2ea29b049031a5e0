-- ===== src/EToken/Locking.antt =====
-- What locking and unlocking do to the capital of an eToken.
use ensuro.Prelude.{◌≡◌, refl, sym, ◌∙◌, ap, arith, Bool-cases, inl, inr}
use ensuro.Prelude.Int.{
  ℤ, pos, ◌+ℤ◌, ◌-ℤ◌, ◌≤ℤ◌, ◌<ℤ◌, ◌<?◌, ◌=?◌, max, int_laws, ≤?_true, =?_true, parts_of_eq,
  +ℤ_cancel,
}
use ensuro.Prelude.Calls.{
  ok, Returns, returns, Returns-bind, Returns-after, Returns-then, Returns-require, Returns-eq_ok,
}
use ensuro.WadRay.{WadRay, ◌*W◌}
use ensuro.Outside.{Outside, TokenBase}
use ensuro.EToken.State.{EToken}
use ensuro.EToken.Scale.{total_supply, update_current_scale, funds_available_to_lock}
use ensuro.EToken.Capital.{add_scr, remove_scr, lock_scr, unlock_scr}
use ensuro.EToken.Scales.{
  update_current_scale-Returns, update_current_scale-unseen, update_token_interest_rate-Returns,
  discrete_earning-Returns,
}

-- A positive amount within the funds fits into the capacity.
capacity :
    (amount scr total : ℤ)
    → pos 0 <ℤ amount
    → amount ≤ℤ max (total -ℤ scr) (pos 0)
    → scr +ℤ amount ≤ℤ total
capacity amount scr total h k = elim (Bool-cases ((total -ℤ scr) <? pos 0)) [
  | inl over ↦ absurd (let none_left : amount ≤ℤ pos 0 = rw over at k in omega arith)
  | inr room ↦ let fits : amount ≤ℤ total -ℤ scr = rw room at k in omega int_laws
]

module _ {L : Type 0} ⦃w : WadRay⦄ where
  add_scr-Returns :
      (amount interest_rate : ℤ) (e : EToken L)
      → Returns
          (λ e'. (rate : ℤ) × (e' ≡ record e { scr = e.scr +ℤ amount; scr_interest_rate = rate }))
          (add_scr amount interest_rate e)
  unfolding add_scr
  add_scr-Returns amount interest_rate e = elim (Bool-cases (e.scr =? pos 0)) [
    | inl none_locked ↦
        let zero_scr = parts_of_eq e.scr (pos 0) (=?_true e.scr (pos 0) none_locked) in
        let same : amount ≡ e.scr +ℤ amount = omega (int_laws, zero_scr) in
        rw none_locked (
          returns
            (interest_rate, ap (λ s. record e { scr = s; scr_interest_rate = interest_rate }) same))
    | inr locked ↦ rw locked (Returns-bind _ _ λ rate _. returns (rate, refl))
  ]

  remove_scr-Returns :
      (amount interest_rate : ℤ) (e : EToken L)
      → Returns
          (λ e'. (rate : ℤ) × (e' ≡ record e { scr = e.scr -ℤ amount; scr_interest_rate = rate }))
          (remove_scr amount interest_rate e)
  unfolding remove_scr
  remove_scr-Returns amount interest_rate e = elim (Bool-cases (e.scr =? amount)) [
    | inl all ↦
        let all_scr = parts_of_eq e.scr amount (=?_true e.scr amount all) in
        let same : pos 0 ≡ e.scr -ℤ amount = omega (int_laws, all_scr) in
        rw all (returns (pos 0, ap (λ s. record e { scr = s; scr_interest_rate = pos 0 }) same))
    | inr part ↦ rw part (Returns-bind _ _ λ rate _. returns (rate, refl))
  ]

  -- The fields that a lock or an unlock writes, with `scr` given.
  abbrev pub Relocked : ℤ → ℤ → EToken L → EToken L → Type 0
  Relocked now scr e e' =
      (scale : ℤ) × (scr_rate : ℤ) × (rate : ℤ) × (e' ≡ record e {
        scale_factor = scale;
        last_scale_update = now;
        scr = scr;
        scr_interest_rate = scr_rate;
        token_interest_rate = rate;
      })
      × (w.min_scale ≤ℤ scale)

  funds-Returns :
      ⦃b : TokenBase L⦄ (now : ℤ) (e : EToken L)
      → Returns
          (λ funds.
            (supply : ℤ) × (total_supply now e ≡ ok supply)
            × (funds ≡ max (supply *W e.max_utilization_rate -ℤ e.scr) (pos 0)))
          (funds_available_to_lock now e)
  unfolding funds_available_to_lock
  funds-Returns now e = Returns-bind _ _ λ supply s. returns (supply, s, refl)

  funds-unseen :
      ⦃b : TokenBase L⦄ (now : ℤ) (e : EToken L) {e' : EToken L}
      → update_current_scale now e ≡ ok e'
      → funds_available_to_lock now e' ≡ funds_available_to_lock now e
  unfolding funds_available_to_lock
  funds-unseen now e updated =
      let (_, _, same, _) = Returns-eq_ok _ (update_current_scale-Returns now e) updated in
      let (_, supply, _) = update_current_scale-unseen now 0 e updated in rw supply (rw same refl)

module _ {L W : Type 0} ⦃w : WadRay⦄ ⦃b : TokenBase L⦄ ⦃o : Outside W⦄ where
  pub lock_scr-Returns :
      (now amount interest_rate : ℤ) (e : EToken L) (x : W)
      → Returns
          (λ e'.
            Relocked now (e.scr +ℤ amount) e e'
            × ((funds : ℤ) × (funds_available_to_lock now e ≡ ok funds) × (amount ≤ℤ funds)))
          (lock_scr now amount interest_rate e x)
  unfolding lock_scr
  lock_scr-Returns now amount interest_rate e x =
      Returns-after _ _ (update_current_scale-Returns now e) λ e1 updated (scale, _, same1, large).
        Returns-bind _ _ λ funds enough_for. Returns-require _ _ _ λ enough.
          Returns-after _ _ (add_scr-Returns amount interest_rate e1) λ e2 _ (scr_rate, same2).
            Returns-after _ _ (update_token_interest_rate-Returns now e2) λ e3 _ (rate, same3).
              Returns-then _ _ (
                returns (
                  (scale, scr_rate, rate, rw same3 (rw same2 (rw same1)), large),
                  (
                    funds,
                    sym (funds-unseen now e updated) ∙ enough_for,
                    ≤?_true amount funds enough,
                  ),
                ))

  pub unlock_scr-Returns :
      (now amount interest_rate adjustment : ℤ) (e : EToken L) (x : W)
      → Returns
          (λ e'. Relocked now (e.scr -ℤ amount) e e' × (amount ≤ℤ e.scr))
          (unlock_scr now amount interest_rate adjustment e x)
  unfolding unlock_scr
  unlock_scr-Returns now amount interest_rate adjustment e x = Returns-require _ _ _ λ enough.
      Returns-after _ _ (update_current_scale-Returns now e) λ e1 _ (_, _, same1, _).
        Returns-after _ _ (remove_scr-Returns amount interest_rate e1) λ e2 _ (scr_rate, same2).
          Returns-after _ _ (discrete_earning-Returns now adjustment e2)
            λ e3 _ (scale, rate, same3, large). Returns-then _ _ (
              returns (
                (scale, scr_rate, rate, rw same3 (rw same2 (rw same1)), large),
                ≤?_true amount e.scr enough,
              ))

  -- A lock of a positive amount adds it to the SCR, and the SCR then is at most the part of the
  -- supply that may be used. The scale stays above its minimum.
  pub lock_scr_lem :
      (now amount interest_rate : ℤ) (e : EToken L) (x : W) {e' : EToken L}
      → pos 0 <ℤ amount
      → lock_scr now amount interest_rate e x ≡ ok e'
      → (e'.scr ≡ e.scr +ℤ amount)
        × (w.min_scale ≤ℤ e'.scale_factor)
        × ((supply : ℤ) × (total_supply now e ≡ ok supply)
            × (e'.scr ≤ℤ supply *W e.max_utilization_rate))
  lock_scr_lem now amount interest_rate e x {e'} h locked =
      let ((scale, scr_rate, rate, same, large), (funds, available, enough)) =
        Returns-eq_ok _ (lock_scr-Returns now amount interest_rate e x) locked in
      let (supply, at_supply, is_max) = Returns-eq_ok _ (funds-Returns now e) available in
      let bound =
        capacity amount e.scr (supply *W e.max_utilization_rate) h (rw is_max at enough) in
      rw same (refl, large, (supply, at_supply, bound))

  -- What is locked and unlocked again, at any later times and rates, leaves the SCR as it was.
  pub unlock_scr-lock_scr :
      (now later amount rate rate' adjustment : ℤ) (e : EToken L) (x y : W) {e' e'' : EToken L}
      → lock_scr now amount rate e x ≡ ok e'
      → unlock_scr later amount rate' adjustment e' y ≡ ok e''
      → e''.scr ≡ e.scr
  unlock_scr-lock_scr now later amount rate rate' adjustment e x y {e' = e'} locked unlocked =
      let ((_, _, _, same, _), _) = Returns-eq_ok _ (lock_scr-Returns now amount rate e x) locked in
      let ((_, _, _, same', _), _) =
        Returns-eq_ok _ (unlock_scr-Returns later amount rate' adjustment e' y) unlocked in
      rw same' (rw same (+ℤ_cancel e.scr amount))
