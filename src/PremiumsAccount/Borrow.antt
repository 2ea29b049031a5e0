-- ===== src/PremiumsAccount/Borrow.antt =====
-- The loans of a premiums account from its eTokens (`_borrow_from_etk`, `_repay_loan`, `repay_loans`,
-- `set_deficit_ratio` of `PremiumsAccount`, prototype/ensuro.py).
use ensuro.Prelude.{
  ℕ, ◌*◌, ◌/◌, ◌^◌, Bool, true, false, not, ◌&&◌, Option, none, some, [], ◌∷◌, ◌==◌, if◌then◌else◌,
}
use ensuro.Prelude.Int.{ℤ, pos, pos_part, ◌+ℤ◌, ◌-ℤ◌, negℤ, ◌≤?◌, ◌<?◌, ◌=?◌, min}
use ensuro.Prelude.Calls.{Fault, Result, ok, ◌>>=◌, ◌>>◌, require, or_fault}
use ensuro.WadRay.{WadRay, ◌*W◌}
use ensuro.Outside.{Outside, TokenBase, negligible}
use ensuro.Roles.{
  RoleName, Caller, only_component_or_global_role, only_component_or_global_or_open_role,
}
use ensuro.EToken.Loans.{get_loan, internal_loan, repay_loan}
use ensuro.World.{World, on_etk_out, on_etk_value}
use ensuro.PremiumsAccount.State.{PremiumsAccount, loan_limit, max_deficit, funds_available}

unfoldable pub is_some : Option ℕ → Bool
is_some none = false
is_some (some a) = true

-- A ratio with at most four decimals. The source divides floats, which are exact at the multiples
-- of 10^14 up to 10^18.
unfoldable pub four_decimals : ℤ → Bool
four_decimals ratio = pos_part ratio / 10 ^ 14 * 10 ^ 14 == pos_part ratio

module _ {W : Type 0} ⦃o : Outside W⦄ where
  -- Cash and allowance are topped up before a repayment.
  unfoldable pub refill_for : PremiumsAccount → ℤ → W → Result W
  refill_for pa repay_amount x =
      if o.balance_of x pa.contract_id <? repay_amount
      then (do
        manager ← or_fault pa.asset_manager Fault.attribute_error
        o.refill_wallet manager repay_amount x)
      else ok x

  unfoldable pub approve_for : PremiumsAccount → ℕ → ℤ → ℤ → W → Result W
  approve_for pa etk repay_amount borrowed x =
      if o.allowance x pa.contract_id etk <? repay_amount
      then o.approve pa.contract_id etk borrowed x
      else ok x

module _ {L W : Type 0} ⦃w : WadRay⦄ ⦃b : TokenBase L⦄ ⦃o : Outside W⦄ where
  -- The junior eToken lends all, the part within the limit, or nothing. The result is what is left.
  unfoldable pub borrow_junior : PremiumsAccount → ℤ → ℕ → World L W → Result (ℤ × World L W)
  borrow_junior pa borrow receiver s = do
    etk ← or_fault pa.junior_etk Fault.attribute_error
    loan ← get_loan s.now pa.contract_id (s.etk etk)
    let limit = loan_limit pa.jr_loan_limit_
    if (loan +ℤ borrow) ≤? limit
        then on_etk_value etk (internal_loan s.now pa.contract_id borrow receiver) s
        else (if loan <? limit
            then (do
              let loan_excess = loan +ℤ borrow -ℤ limit
              r ←
                  on_etk_value etk
                    (internal_loan s.now pa.contract_id (borrow -ℤ loan_excess) receiver) s
              ok (loan_excess +ℤ r.0, r.1))
            else ok (borrow, s))

  -- The senior eToken lends what the junior did not, or the call raises.
  unfoldable pub borrow_senior : PremiumsAccount → ℤ → ℕ → World L W → Result (World L W)
  borrow_senior pa amount_left receiver s = do
    etk ← or_fault pa.senior_etk Fault.attribute_error
    loan ← get_loan s.now pa.contract_id (s.etk etk)
    r ←
        (if (loan +ℤ amount_left) ≤? loan_limit pa.sr_loan_limit_
          then on_etk_value etk (internal_loan s.now pa.contract_id amount_left receiver) s
          else ok (amount_left, s))
    require (r.0 ≤? negligible o) Fault.no_source_of_money
    ok r.1

  unfoldable pub borrow_from_etk :
      PremiumsAccount → ℤ → Option ℕ → Bool → World L W → Result (World L W)
  borrow_from_etk pa borrow receiver jr_etk s = do
    target ← or_fault receiver Fault.no_receiver
    r ← (if jr_etk then borrow_junior pa borrow target s else ok (borrow, s))
    if negligible o <? r.0 then borrow_senior pa r.0 target r.1 else ok r.1

  -- `set_deficit_ratio` after its checks. Without `adjustment` the surplus has to fit the new ratio;
  -- with it, what is missing is borrowed.
  unfoldable pub store_ratio :
      ℤ → Bool → PremiumsAccount → World L W → Result (PremiumsAccount × World L W)
  store_ratio new_ratio false pa s = do
    require ((negℤ pa.active_pure_premiums *W new_ratio) ≤? pa.surplus) Fault.surplus_under_deficit
    ok (record pa { deficit_ratio = new_ratio }, s)
  store_ratio new_ratio true pa s =
      let allowed = negℤ pa.active_pure_premiums *W new_ratio in
      if allowed ≤? pa.surplus then ok (record pa { deficit_ratio = new_ratio }, s) else (do
        let pa' = record pa { surplus = allowed; deficit_ratio = new_ratio }
        s' ←
            borrow_from_etk pa' (allowed -ℤ pa.surplus) (some pa.contract_id)
              (is_some pa.junior_etk) s
        ok (pa', s'))

  unfoldable pub set_deficit_ratio :
      Caller → ℤ → Bool → PremiumsAccount → World L W → Result (PremiumsAccount × World L W)
  set_deficit_ratio c new_ratio adjustment pa s = do
    only_component_or_global_role c pa.contract_id (RoleName.level2 ∷ [])
    require (new_ratio ≤? w.wad (pos 1) && (pos 0 ≤? new_ratio)) Fault.deficit_ratio_range
    require (four_decimals new_ratio) Fault.deficit_ratio_decimals
    store_ratio new_ratio adjustment pa s

  -- `_repay_loan` from where the amounts are known.
  unfoldable pub pay_back :
      ℤ → ℤ → ℕ → PremiumsAccount → World L W → Result (PremiumsAccount × World L W)
  pay_back repay_amount borrowed etk pa s = do
    x ← refill_for pa repay_amount s.out
    x' ← approve_for pa etk repay_amount borrowed x
    s' ← on_etk_out etk (repay_loan s.now repay_amount pa.contract_id) (record s { out = x' })
    let pa' = record pa { surplus = pa.surplus -ℤ repay_amount }
    require (max_deficit pa' ≤? pa'.surplus) Fault.assertion_failed
    ok (pa', s')

  -- The funds against the loan that is outstanding: the funds left, the account and the world.
  unfoldable pub repay_borrowed :
      ℤ → ℤ → ℕ → PremiumsAccount → World L W → Result (ℤ × PremiumsAccount × World L W)
  repay_borrowed borrowed funds etk pa s = if borrowed =? pos 0 then ok (funds, pa, s) else do
    r ← pay_back (min borrowed funds) borrowed etk pa s
    ok (funds -ℤ min borrowed funds, r.0, r.1)

  -- `_repay_loan`
  unfoldable pub repay_etk :
      ℤ → ℕ → PremiumsAccount → World L W → Result (ℤ × PremiumsAccount × World L W)
  repay_etk funds etk pa s = if funds <? negligible o then ok (funds, pa, s) else do
    borrowed ← get_loan s.now pa.contract_id (s.etk etk)
    repay_borrowed borrowed funds etk pa s

  -- One eToken of `repay_loans`, where there is one and `wanted` holds.
  unfoldable pub repay_if :
      Bool → Option ℕ → ℤ → PremiumsAccount → World L W → Result (ℤ × PremiumsAccount × World L W)
  repay_if wanted none funds pa s = ok (funds, pa, s)
  repay_if wanted (some etk) funds pa s =
      if wanted then repay_etk funds etk pa s else ok (funds, pa, s)

  unfoldable pub repay_loans :
      Caller → PremiumsAccount → World L W → Result (ℤ × PremiumsAccount × World L W)
  repay_loans c pa s = do
    only_component_or_global_or_open_role c pa.contract_id (RoleName.repay_loans ∷ [])
    let funds = funds_available pa
    r ← repay_if (not (funds =? pos 0)) pa.senior_etk funds pa s
    repay_if true r.1.junior_etk r.0 r.1 r.2
