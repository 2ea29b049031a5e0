-- ===== src/EToken/Lending.antt =====
-- What an internal loan lends, owes and costs the eToken (`EToken.internal_loan`, prototype/ensuro.py).
use ensuro.Prelude.{ℕ, ◌≡◌, refl, sym, ◌∙◌, Bool-cases, some, List, inl, inr}
use ensuro.Prelude.Int.{
  ℤ, pos, ◌+ℤ◌, ◌-ℤ◌, negℤ, ◌≤ℤ◌, ◌<ℤ◌, ◌≤?◌, ◌<?◌, max, min, <?_true, ≤?_true,
}
use ensuro.Prelude.Calls.{
  ok, Returns, returns, Returns-bind, Returns-after, Returns-map, Returns-then, Returns-found,
  Returns-eq_ok,
}
use ensuro.Prelude.Dict.{entry, enter}
use ensuro.WadRay.{WadRay, ◌*R◌, ◌/R◌}
use ensuro.Outside.{Outside, TokenBase}
use ensuro.Reserve.{transfer_to}
use ensuro.ScaledAmount
use ensuro.ScaledAmount.{ScaledAmount}
use ensuro.EToken.State.{EToken}
use ensuro.EToken.Scale.{
  calculate_current_scale, total_supply, max_negative_adjustment, discrete_earning,
}
use ensuro.EToken.Loans.{lend, internal_loan}
use ensuro.EToken.Scales.{
  update_current_scale-Returns, update_current_scale-unseen, update_token_interest_rate-Returns,
  set_scale_factor-Returns,
}

module _ {L : Type 0} ⦃w : WadRay⦄ ⦃b : TokenBase L⦄ where
  -- What a supply has over ten times the smallest scale.
  abbrev pub spare : ℤ → EToken L → ℤ
  spare supply e =
      max (supply -ℤ w.to_wad (w.min_scale *R w.ray (pos 10) *R w.to_ray (b.total_supply e.base)))
        (pos 0)

  spare_lem :
      (now : ℤ) (e : EToken L)
      → Returns
          (λ allowed. (supply : ℤ) × (total_supply now e ≡ ok supply) × (allowed ≡ spare supply e))
          (max_negative_adjustment now e)
  unfolding max_negative_adjustment
  spare_lem now e = Returns-bind _ _ λ supply at. returns (supply, at, refl)

  -- The loans do not count in the supply.
  supply_loans :
      (now : ℤ) (d : List (ℕ × ScaledAmount)) (e : EToken L)
      → total_supply now (record e { loans = d }) ≡ total_supply now e
  unfolding total_supply calculate_current_scale
  supply_loans now d e = refl

  -- After an earning the scale is the one at which the base supply makes the sum.
  abbrev pub Revalued : ℤ → ℤ → EToken L → EToken L → Type 0
  Revalued supply amount e e' =
      w.to_ray (amount +ℤ supply) /R w.to_ray (b.total_supply e.base) ≡ ok e'.scale_factor

  -- An earning keeps all but the scale and the token's rate.
  earning_lem :
      (now amount : ℤ) (e : EToken L)
      → Returns
          (λ e'.
            (supply : ℤ) × (total_supply now e ≡ ok supply)
            × Revalued supply amount e e'
            × (e'.loans ≡ e.loans)
            × (e'.contract_id ≡ e.contract_id)
            × (e'.asset_manager ≡ e.asset_manager)
            × (e'.scr ≡ e.scr))
          (discrete_earning now amount e)
  unfolding discrete_earning
  earning_lem now amount e =
      Returns-after _ _ (update_current_scale-Returns now e) λ e1 updated (_, _, same1, _).
        Returns-bind _ _ λ supply at. Returns-bind _ _ λ scale at_scale.
          let (_, unseen, _) = update_current_scale-unseen now 0 e updated in
          Returns-after _ _ (set_scale_factor-Returns scale e1) λ e2 _ (same2, _).
            Returns-map _ (update_token_interest_rate-Returns now e2) λ e3 (rate, same3). (
              supply,
              sym unseen ∙ at,
              rw (same3, same2) (rw same1 at at_scale),
              rw same3 (rw same2 (rw same1 refl)),
              rw same3 (rw same2 (rw same1 refl)),
              rw same3 (rw same2 (rw same1 refl)),
              rw same3 (rw same2 (rw same1 refl)),
            )

module _ {L W : Type 0} ⦃w : WadRay⦄ ⦃b : TokenBase L⦄ ⦃o : Outside W⦄ where
  -- A loan of `lent` to a borrower, paid to a receiver.
  pub record IsLent (now : ℤ) (borrower : ℕ) (lent : ℤ) (receiver : ℕ) (e : EToken L) (x : W)
      (e' : EToken L) (x' : W) : Type 0 where
    pub loan : ScaledAmount
    pub owed : entry borrower e.loans ≡ some loan
    pub loan' : ScaledAmount
    pub owes : ScaledAmount.add now lent e.internal_loan_interest_rate loan ≡ ok loan'
    pub recorded : e'.loans ≡ enter borrower loan' e.loans
    pub sent : transfer_to e.contract_id e.asset_manager receiver lent x ≡ ok x'
    pub supply : ℤ
    pub at_supply : total_supply now e ≡ ok supply
    pub costs : Revalued supply (negℤ lent) e e'
    pub same_scr : e'.scr ≡ e.scr

  lend-IsLent :
      (now : ℤ) (borrower : ℕ) (asked amount : ℤ) (receiver : ℕ) (e : EToken L) (x : W)
      → Returns
          (λ r. (r.0 ≡ asked -ℤ amount) × IsLent now borrower amount receiver e x r.1 r.2)
          (lend now borrower asked amount receiver e x)
  unfolding lend
  lend-IsLent now borrower asked amount receiver e x = Returns-found _ _ _ λ loan owed.
      Returns-bind _ _ λ loan' owes.
        let e0 = record e { loans = enter borrower loan' e.loans } in
        Returns-after _ _ (update_current_scale-Returns now e0) λ e1 updated (_, _, same1, _).
          Returns-after _ _ (earning_lem now (negℤ amount) e1)
            λ e2 _ (supply, at, costs, loans, id, manager, scr).
              let (_, unseen, _) = update_current_scale-unseen now 0 e0 updated in
              Returns-bind _ _ λ x' sent. Returns-then _ _ (
                returns (
                  refl,
                  record {
                    loan = loan;
                    owed = owed;
                    loan' = loan';
                    owes = owes;
                    recorded = loans ∙ rw same1 refl;
                    sent = rw same1 at (rw (id, manager) at sent);
                    supply = supply;
                    at_supply =
                        sym (supply_loans now (enter borrower loan' e.loans) e) ∙ (sym unseen ∙ at);
                    costs = rw same1 at costs;
                    same_scr = scr ∙ rw same1 refl;
                  },
                ))

  -- An internal loan's result: nothing is lent, or a loan is made.
  pub data Loaned (now : ℤ) (borrower : ℕ) (asked : ℤ) (receiver : ℕ) (e : EToken L) (x : W)
      (r : ℤ × EToken L × W) : Type 0 where
    nothing :
        (supply : ℤ)
        → total_supply now e ≡ ok supply
        → spare supply e ≤ℤ pos 0
        → spare supply e <ℤ min asked supply
        → r ≡ (asked, e, x)
        → Loaned now borrower asked receiver e x r
    something :
        (supply lent : ℤ)
        → total_supply now e ≡ ok supply
        → lent ≡ min (min asked supply) (spare supply e)
        → r.0 ≡ asked -ℤ lent
        → IsLent now borrower lent receiver e x r.1 r.2
        → Loaned now borrower asked receiver e x r

  internal_loan-Returns :
      (now : ℤ) (borrower : ℕ) (asked : ℤ) (receiver : ℕ) (e : EToken L) (x : W)
      → Returns
          (Loaned now borrower asked receiver e x)
          (internal_loan now borrower asked receiver e x)
  unfolding internal_loan
  internal_loan-Returns now borrower asked receiver e x = Returns-bind _ _ λ supply at.
      Returns-after _ _ (spare_lem now e) λ allowed _ (supply', at', allowed_is).
        let again : ok supply' ≡ ok supply = sym at' ∙ at in
        let same : supply' ≡ supply = cc in
        let room : allowed ≡ spare supply e = rw same at allowed_is in
        let capped = min asked supply in
        let give : (amount : ℤ)
            → amount ≡ min capped allowed
            → Returns (Loaned now borrower asked receiver e x)
                (lend now borrower asked amount receiver e x) =
          λ amount smaller.
            Returns-map _ (lend-IsLent now borrower asked amount receiver e x)
              λ r (rest, lent). Loaned.something supply amount at (rw (← room) smaller) rest lent in
        elim (Bool-cases (allowed <? capped)) [
          | inl over ↦ rw over (elim (Bool-cases (allowed ≤? pos 0)) [
            | inl none_left ↦ rw none_left (
                returns (
                  Loaned.nothing supply at (rw (← room) (≤?_true allowed (pos 0) none_left))
                    (rw (← room) (<?_true allowed capped over)) refl))
            | inr some_left ↦ rw some_left (give allowed (rw over refl))
          ])
          | inr within ↦ rw within (give capped (rw within refl))
        ]

  -- An internal loan lends the smallest of the amount asked, the supply, and what the supply has over
  -- ten times the smallest scale; or it changes nothing where that last one is 0 and smaller than the
  -- others. The result is the rest of the amount. What is lent is added to the borrower's loan at the
  -- rate of the loans and sent to the receiver by `_transfer_to`, and the scale becomes the one at which the
  -- base supply makes the supply less what was lent. The SCR stays.
  pub internal_loan-Loaned :
      (now : ℤ) (borrower : ℕ) (asked : ℤ) (receiver : ℕ) (e : EToken L) (x : W)
      {r : ℤ × EToken L × W}
      → internal_loan now borrower asked receiver e x ≡ ok r
      → Loaned now borrower asked receiver e x r
  internal_loan-Loaned now borrower asked receiver e x =
      Returns-eq_ok _ (internal_loan-Returns now borrower asked receiver e x)
