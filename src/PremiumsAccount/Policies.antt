-- ===== src/PremiumsAccount/Policies.antt =====
-- A premiums account through the life of a policy (`policy_created`, `policy_replaced`,
-- `policy_resolved_with_payout`, `policy_expired`, `_unlock_scr` of `PremiumsAccount`,
-- prototype/ensuro.py).
use ensuro.Prelude.{ℕ, Bool, not, ◌&&◌, Option, some, if◌then◌else◌}
use ensuro.Prelude.Int.{ℤ, pos, ◌+ℤ◌, ◌-ℤ◌, ◌<?◌, ◌=?◌}
use ensuro.Prelude.Calls.{Fault, Result, ok, ◌>>=◌, ◌>>◌, require, or_fault}
use ensuro.WadRay.{WadRay}
use ensuro.Outside.{Outside, TokenBase}
use ensuro.Reserve.{transfer_to}
use ensuro.Policy.{
  Policy, sr_interest_rate, jr_interest_rate, sr_accrued_interest, jr_accrued_interest,
}
use ensuro.EToken.Capital.{lock_scr, unlock_scr}
use ensuro.World.{World, on_etk}
use ensuro.PremiumsAccount.State.{PremiumsAccount, store_pure_premium_won, pay_from_premiums}
use ensuro.PremiumsAccount.Borrow.{borrow_from_etk}

-- `if amount:`
abbrev pub is_nonzero : ℤ → Bool
is_nonzero x = not (x =? pos 0)

module _ ⦃w : WadRay⦄ where
  -- The rate of a replacement equals the old one up to four decimals, where both lock capital.
  unfoldable pub require_same_rate : ℤ → ℤ → Result ℤ → Result ℤ → Result (Unit {0})
  require_same_rate new_scr old_scr new_rate old_rate =
      if pos 0 <? new_scr && (pos 0 <? old_scr)
      then (do
        new ← new_rate
        old ← old_rate
        require (w.equal4 new old) Fault.interest_rate_changed)
      else ok tt

  -- What the policy's capital has earned beyond the interests accrued.
  unfoldable pub sr_adjustment : ℤ → Policy → Result ℤ
  sr_adjustment now p = do accrued ← sr_accrued_interest now p; ok (p.sr_coc -ℤ accrued)

  unfoldable pub jr_adjustment : ℤ → Policy → Result ℤ
  jr_adjustment now p = do accrued ← jr_accrued_interest now p; ok (p.jr_coc -ℤ accrued)

module _ {L W : Type 0} ⦃w : WadRay⦄ ⦃b : TokenBase L⦄ ⦃o : Outside W⦄ where
  -- Locks `scr` at the policy's rate in an eToken, where `wanted` holds.
  unfoldable pub lock_if : Bool → Option ℕ → ℤ → Result ℤ → World L W → Result (World L W)
  lock_if wanted etoken scr interest_rate s =
      if wanted
      then (do
        etk ← or_fault etoken Fault.attribute_error
        rate ← interest_rate
        on_etk etk (lock_scr s.now scr rate) s)
      else ok s

  -- Unlocks `scr` with an adjustment of the eToken's earnings.
  unfoldable pub unlock_if :
      Bool → Option ℕ → ℤ → Result ℤ → Result ℤ → World L W → Result (World L W)
  unlock_if wanted etoken scr interest_rate adjustment s =
      if wanted
      then (do
        change ← adjustment
        etk ← or_fault etoken Fault.attribute_error
        rate ← interest_rate
        on_etk etk (unlock_scr s.now scr rate change) s)
      else ok s

  unfoldable pub policy_created :
      Policy → PremiumsAccount → World L W → Result (PremiumsAccount × World L W)
  policy_created p pa s = do
    s1 ← lock_if (is_nonzero p.sr_scr) pa.senior_etk p.sr_scr (sr_interest_rate p) s
    s2 ← lock_if (is_nonzero p.jr_scr) pa.junior_etk p.jr_scr (jr_interest_rate p) s1
    ok (record pa { active_pure_premiums = pa.active_pure_premiums +ℤ p.pure_premium }, s2)

  unfoldable pub policy_replaced :
      Policy → Policy → PremiumsAccount → World L W → Result (PremiumsAccount × World L W)
  policy_replaced old new pa s = do
    require_same_rate new.sr_scr old.sr_scr (sr_interest_rate new) (sr_interest_rate old)
    require_same_rate new.jr_scr old.jr_scr (jr_interest_rate new) (jr_interest_rate old)
    let active = pa.active_pure_premiums +ℤ (new.pure_premium -ℤ old.pure_premium)
    s1 ←
        unlock_if (pos 0 <? old.sr_scr) pa.senior_etk old.sr_scr (sr_interest_rate old) (ok (pos 0))
          s
    s2 ← lock_if (pos 0 <? new.sr_scr) pa.senior_etk new.sr_scr (sr_interest_rate new) s1
    s3 ←
        unlock_if (pos 0 <? old.jr_scr) pa.junior_etk old.jr_scr (jr_interest_rate old) (ok (pos 0))
          s2
    s4 ← lock_if (pos 0 <? new.jr_scr) pa.junior_etk new.jr_scr (jr_interest_rate new) s3
    ok (record pa { active_pure_premiums = active }, s4)

  unfoldable pub unlock_policy : Policy → PremiumsAccount → World L W → Result (World L W)
  unlock_policy p pa s = do
    s1 ←
        unlock_if (is_nonzero p.sr_scr) pa.senior_etk p.sr_scr (sr_interest_rate p)
          (sr_adjustment s.now p) s
    unlock_if (is_nonzero p.jr_scr) pa.junior_etk p.jr_scr (jr_interest_rate p)
        (jr_adjustment s1.now p) s1

  -- The result is what was borrowed from the eTokens.
  unfoldable pub policy_resolved_with_payout :
      ℕ → Policy → ℤ → PremiumsAccount → World L W → Result (ℤ × PremiumsAccount × World L W)
  policy_resolved_with_payout customer p payout pa s = do
    let released = record pa { active_pure_premiums = pa.active_pure_premiums -ℤ p.pure_premium }
    let (borrow_from_scr, pa') = pay_from_premiums (payout -ℤ p.pure_premium) released
    s1 ← unlock_policy p pa' s
    s2 ←
        (if is_nonzero borrow_from_scr
          then borrow_from_etk pa' borrow_from_scr (some customer) (pos 0 <? p.jr_scr) s1
          else ok s1)
    x ← transfer_to pa'.contract_id pa'.asset_manager customer (payout -ℤ borrow_from_scr) s2.out
    ok (borrow_from_scr, pa', record s2 { out = x })

  unfoldable pub policy_expired :
      Policy → PremiumsAccount → World L W → Result (PremiumsAccount × World L W)
  policy_expired p pa s = do
    let released = record pa { active_pure_premiums = pa.active_pure_premiums -ℤ p.pure_premium }
    let pa' = store_pure_premium_won p.pure_premium released
    s' ← unlock_policy p pa' s
    ok (pa', s')
