-- ===== src/PremiumsAccount/Calls.antt =====
-- The calls of a premiums account that are not about one policy (prototype/ensuro.py), as a relation,
-- and what they leave of its eTokens.
use ensuro.Prelude.{ℕ, ◌≡◌, refl, ◌∙◌, Bool, true, false, Bool-cases, Option, none, some, inl, inr}
use ensuro.Prelude.Int.{ℤ, pos, negℤ, ◌≤?◌, ◌<?◌, ◌=?◌, min, int_laws}
use ensuro.Prelude.Calls.{
  ok, Returns, returns, Returns-bind, Returns-after, Returns-map, Returns-then, Returns-eq_ok,
}
use ensuro.WadRay.{WadRay, ◌*W◌}
use ensuro.Outside.{Outside, TokenBase, negligible}
use ensuro.Roles.{Caller}
use ensuro.EToken.Loans.{repay_loan}
use ensuro.EToken.Movements.{repay_loan-Returns}
use ensuro.World.{World, put_etk, on_etk_out}
use ensuro.PremiumsAccount.State.{
  PremiumsAccount, funds_available, set_loan_limits, asset_earnings, receive_grant,
  withdraw_won_premiums,
}
use ensuro.PremiumsAccount.Borrow.{
  store_ratio, set_deficit_ratio, pay_back, repay_borrowed, repay_etk, repay_if, repay_loans,
}
use ensuro.PremiumsAccount.Shifts.{
  Shifts, Shifts-nothing, Shifts-then, Shifts-out, put_etk-Unmoved, Unmoved, borrow-Unmoved,
}
use ensuro.PremiumsAccount.Backing.{SameEtks, store-SameEtks, pay-SameEtks}

module _ ⦃w : WadRay⦄ where
  earned-Same :
      (amount : ℤ) (pa : PremiumsAccount) → Returns (SameEtks pa) (asset_earnings amount pa)
  unfolding asset_earnings
  earned-Same amount pa = elim (Bool-cases (pos 0 ≤? amount)) [
    | inl gain ↦ rw gain (returns (store-SameEtks amount pa))
    | inr loss ↦ rw loss (Returns-then _ _ (returns (pay-SameEtks (negℤ amount) pa)))
  ]

limits-Same :
    (c : Caller) (jr sr : Option ℤ) (pa : PremiumsAccount)
    → Returns (SameEtks pa) (set_loan_limits c jr sr pa)
unfolding set_loan_limits
limits-Same c jr sr pa = Returns-then _ _ (returns (refl, refl))

module _ {W : Type 0} ⦃w : WadRay⦄ ⦃o : Outside W⦄ where
  granted-Same :
      (sender : ℕ) (amount : ℤ) (pa : PremiumsAccount) (x : W)
      → Returns (λ r. SameEtks pa r.0) (receive_grant sender amount pa x)
  unfolding receive_grant
  granted-Same sender amount pa x = Returns-bind _ _ λ x' _. returns (store-SameEtks amount pa)

  withdrawn-Same :
      (c : Caller) (amount : ℤ) (to : Option ℕ) (pa : PremiumsAccount) (x : W)
      → Returns (λ r. SameEtks pa r.1) (withdraw_won_premiums c amount to pa x)
  unfolding withdraw_won_premiums
  withdrawn-Same c amount to pa x = Returns-then _ _ (
      Returns-bind _ _
        λ target _. Returns-then _ _ (Returns-bind _ _ λ x' _. returns (pay-SameEtks _ pa)))

module _ {L W : Type 0} ⦃w : WadRay⦄ ⦃b : TokenBase L⦄ ⦃o : Outside W⦄ where
  -- A call that returns, from an account and a world to others.
  pub data AccountCall (pa : PremiumsAccount) (s : World L W)
      : PremiumsAccount → World L W → Type 0 where
    repaid :
        {pa' : PremiumsAccount} {s' : World L W} {left : ℤ} (c : Caller)
        → repay_loans c pa s ≡ ok (left, pa', s')
        → AccountCall pa s pa' s'
    ratio_set :
        {pa' : PremiumsAccount} {s' : World L W} (c : Caller) (ratio : ℤ) (adjustment : Bool)
        → set_deficit_ratio c ratio adjustment pa s ≡ ok (pa', s')
        → AccountCall pa s pa' s'
    limits_set :
        {pa' : PremiumsAccount} (c : Caller) (jr sr : Option ℤ)
        → set_loan_limits c jr sr pa ≡ ok pa'
        → AccountCall pa s pa' s
    granted :
        {pa' : PremiumsAccount} {x : W} (sender : ℕ) (amount : ℤ)
        → receive_grant sender amount pa s.out ≡ ok (pa', x)
        → AccountCall pa s pa' (record s { out = x })
    won_withdrawn :
        {pa' : PremiumsAccount} {x : W} {sent : ℤ} (c : Caller) (amount : ℤ) (to : Option ℕ)
        → withdraw_won_premiums c amount to pa s.out ≡ ok (sent, pa', x)
        → AccountCall pa s pa' (record s { out = x })
    earned :
        {pa' : PremiumsAccount} (amount : ℤ)
        → asset_earnings amount pa ≡ ok pa'
        → AccountCall pa s pa' s

  -- The account keeps its eTokens, and no eToken's locked capital changes.
  abbrev pub Harmless : PremiumsAccount → World L W → PremiumsAccount → World L W → Type 0
  Harmless pa s pa' s' = SameEtks pa pa' × Shifts (λ a. pos 0) s s'

  Harmless-then :
      (pa pa1 pa2 : PremiumsAccount) (s s1 s2 : World L W)
      → Harmless pa s pa1 s1
      → Harmless pa1 s1 pa2 s2
      → Harmless pa s pa2 s2
  Harmless-then pa pa1 pa2 s s1 s2 (same, first) (same', next) =
      ((same'.0 ∙ same.0, same'.1 ∙ same.1), Shifts-then first next (λ a. omega int_laws))

  repaid-Unmoved :
      (etk : ℕ) (amount : ℤ) (borrower : ℕ) (x : W) (s : World L W)
      → Returns
          (Unmoved s)
          (on_etk_out etk (repay_loan s.now amount borrower) (record s { out = x }))
  unfolding on_etk_out put_etk
  repaid-Unmoved etk amount borrower x s =
      Returns-after _ _ (repay_loan-Returns s.now amount borrower (s.etk etk) x)
        λ r _ (_, same). returns (record { scr_of = (put_etk-Unmoved etk r.0 r.1 s same).scr_of })

  pay_back-Harmless :
      (amount borrowed : ℤ) (etk : ℕ) (pa : PremiumsAccount) (s : World L W)
      → Returns (λ r. Harmless pa s r.0 r.1) (pay_back amount borrowed etk pa s)
  unfolding pay_back
  pay_back-Harmless amount borrowed etk pa s = Returns-bind _ _ λ x _. Returns-bind _ _ λ x' _.
      Returns-after _ _ (repaid-Unmoved etk amount pa.contract_id x' s)
        λ s' _ unmoved. Returns-then _ _ (returns ((refl, refl), unmoved))

  repay_etk-Harmless :
      (funds : ℤ) (etk : ℕ) (pa : PremiumsAccount) (s : World L W)
      → Returns (λ r. Harmless pa s r.1 r.2) (repay_etk funds etk pa s)
  unfolding repay_etk repay_borrowed
  repay_etk-Harmless funds etk pa s = elim (Bool-cases (funds <? negligible o)) [
    | inl little ↦ rw little (returns ((refl, refl), Shifts-nothing s))
    | inr enough ↦ rw enough (
        Returns-bind _ _ λ borrowed _. elim (Bool-cases (borrowed =? pos 0)) [
          | inl nothing ↦ rw nothing (returns ((refl, refl), Shifts-nothing s))
          | inr something ↦ rw something (
              Returns-after _ _ (pay_back-Harmless (min borrowed funds) borrowed etk pa s)
                λ r _ h. returns h)
        ])
  ]

  repay_if-Harmless :
      (wanted : Bool) (etoken : Option ℕ) (funds : ℤ) (pa : PremiumsAccount) (s : World L W)
      → Returns (λ r. Harmless pa s r.1 r.2) (repay_if wanted etoken funds pa s)
  unfolding repay_if
  repay_if-Harmless wanted none funds pa s = returns ((refl, refl), Shifts-nothing s)
  repay_if-Harmless true (some etk) funds pa s = repay_etk-Harmless funds etk pa s
  repay_if-Harmless false (some etk) funds pa s = returns ((refl, refl), Shifts-nothing s)

  repay_loans-Harmless :
      (c : Caller) (pa : PremiumsAccount) (s : World L W)
      → Returns (λ r. Harmless pa s r.1 r.2) (repay_loans c pa s)
  unfolding repay_loans
  repay_loans-Harmless c pa s = Returns-then _ _ (
      Returns-after _ _ (repay_if-Harmless _ pa.senior_etk (funds_available pa) pa s) λ r _ h.
        Returns-map _ (repay_if-Harmless true r.1.junior_etk r.0 r.1 r.2)
          λ r' h'. Harmless-then pa r.1 r'.1 s r.2 r'.2 h h')

  store_ratio-Harmless :
      (ratio : ℤ) (adjustment : Bool) (pa : PremiumsAccount) (s : World L W)
      → Returns (λ r. Harmless pa s r.0 r.1) (store_ratio ratio adjustment pa s)
  unfolding store_ratio
  store_ratio-Harmless ratio false pa s =
      Returns-then _ _ (returns ((refl, refl), Shifts-nothing s))
  store_ratio-Harmless ratio true pa s =
      elim (Bool-cases ((negℤ pa.active_pure_premiums *W ratio) ≤? pa.surplus)) [
        | inl fits ↦ rw fits (returns ((refl, refl), Shifts-nothing s))
        | inr lacks ↦
            rw lacks
              (Returns-after _ _ (borrow-Unmoved _ _ _ _ s) λ s' _ h. returns ((refl, refl), h))
      ]

  ratio-Harmless :
      (c : Caller) (ratio : ℤ) (adjustment : Bool) (pa : PremiumsAccount) (s : World L W)
      → Returns (λ r. Harmless pa s r.0 r.1) (set_deficit_ratio c ratio adjustment pa s)
  unfolding set_deficit_ratio
  ratio-Harmless c ratio adjustment pa s =
      Returns-then _ _
        (Returns-then _ _ (Returns-then _ _ (store_ratio-Harmless ratio adjustment pa s)))

  pub call-Harmless :
      {pa pa' : PremiumsAccount} {s s' : World L W} → AccountCall pa s pa' s' → Harmless pa s pa' s'
  call-Harmless {pa} {s = s} (AccountCall.repaid c e) =
      Returns-eq_ok _ (repay_loans-Harmless c pa s) e
  call-Harmless {pa} {s = s} (AccountCall.ratio_set c ratio adjustment e) =
      Returns-eq_ok _ (ratio-Harmless c ratio adjustment pa s) e
  call-Harmless {pa} {s = s} (AccountCall.limits_set c jr sr e) =
      (Returns-eq_ok _ (limits-Same c jr sr pa) e, Shifts-nothing s)
  call-Harmless {pa} {s = s} (AccountCall.granted {x = x} sender amount e) =
      (Returns-eq_ok _ (granted-Same sender amount pa s.out) e, Shifts-out x (Shifts-nothing s))
  call-Harmless {pa} {s = s} (AccountCall.won_withdrawn {x = x} c amount to e) =
      (Returns-eq_ok _ (withdrawn-Same c amount to pa s.out) e, Shifts-out x (Shifts-nothing s))
  call-Harmless {pa} {s = s} (AccountCall.earned amount e) =
      (Returns-eq_ok _ (earned-Same amount pa) e, Shifts-nothing s)
