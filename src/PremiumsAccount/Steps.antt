-- ===== src/PremiumsAccount/Steps.antt =====
-- Everything that changes a premiums account, as a step relation, and the invariant that all steps
-- keep: the deficit is within the limit, whatever the eTokens and the currency do.
use ensuro.Prelude.{ℕ, ◌≡◌, Bool, Option, Bool-cases, inl, inr}
use ensuro.Prelude.Int.{ℤ, pos, ◌-ℤ◌, negℤ, ◌≤ℤ◌, ◌≤?◌, int_laws, ≤?_true}
use ensuro.Prelude.Calls.{ok, Returns, returns, Returns-bind, Returns-then, Returns-eq_ok}
use ensuro.WadRay.{WadRay, IsWadRay}
use ensuro.Outside.{Outside, TokenBase}
use ensuro.Roles.{Caller}
use ensuro.Policy.{Policy}
use ensuro.World.{World}
use ensuro.PremiumsAccount.State.{
  PremiumsAccount, max_deficit, set_loan_limits, asset_earnings, receive_grant,
  withdraw_won_premiums,
}
use ensuro.PremiumsAccount.Borrow.{set_deficit_ratio, repay_loans}
use ensuro.PremiumsAccount.Policies.{
  policy_created, policy_replaced, policy_resolved_with_payout, policy_expired,
}
use ensuro.PremiumsAccount.Deficit.{repay_loans-Returns, ratio-Returns}
use ensuro.PremiumsAccount.Solvency.{
  IsSound, pay_from_premiums-IsSound, activate-IsSound, expire-IsSound, store-IsSound,
}

module _ {L W : Type 0} ⦃w : WadRay⦄ ⦃b : TokenBase L⦄ ⦃o : Outside W⦄ where
  created-Returns :
      IsWadRay w
      → (p : Policy) (pa : PremiumsAccount) (s : World L W) → pos 0 ≤ℤ p.pure_premium
      → IsSound pa
      → Returns (λ r. IsSound r.0) (policy_created p pa s)
  unfolding policy_created
  created-Returns laws p pa s h v =
      Returns-bind _ _
        λ s1 _. Returns-bind _ _ λ s2 _. returns (activate-IsSound laws p.pure_premium pa h v)

  replaced-Returns :
      IsWadRay w
      → (old new : Policy) (pa : PremiumsAccount) (s : World L W)
      → old.pure_premium ≤ℤ new.pure_premium
      → IsSound pa
      → Returns (λ r. IsSound r.0) (policy_replaced old new pa s)
  unfolding policy_replaced
  replaced-Returns laws old new pa s h v = Returns-then _ _ (
      Returns-then _ _ (
        Returns-bind _ _ λ s1 _. Returns-bind _ _ λ s2 _. Returns-bind _ _ λ s3 _.
          Returns-bind _ _ λ s4 _.
            returns
              (activate-IsSound laws (new.pure_premium -ℤ old.pure_premium) pa (omega int_laws) v)))

  expired-Returns :
      IsWadRay w
      → (p : Policy) (pa : PremiumsAccount) (s : World L W) → pos 0 ≤ℤ p.pure_premium
      → IsSound pa
      → Returns (λ r. IsSound r.0) (policy_expired p pa s)
  unfolding policy_expired
  expired-Returns laws p pa s h v =
      Returns-bind _ _ λ s1 _. returns (expire-IsSound laws p.pure_premium pa h v)

  resolved-Returns :
      (customer : ℕ) (p : Policy) (payout : ℤ) (pa : PremiumsAccount) (s : World L W)
      → IsSound pa
      → Returns (λ r. IsSound r.1) (policy_resolved_with_payout customer p payout pa s)
  unfolding policy_resolved_with_payout
  resolved-Returns customer p payout pa s v = Returns-bind _ _ λ s1 _.
      Returns-bind _ _
        λ s2 _. Returns-bind _ _ λ x _. returns (pay_from_premiums-IsSound _ _ v.ratio)

limits-Returns :
    ⦃w : WadRay⦄ (c : Caller) (jr sr : Option ℤ) (pa : PremiumsAccount)
    → IsSound pa
    → Returns IsSound (set_loan_limits c jr sr pa)
unfolding set_loan_limits max_deficit
limits-Returns c jr sr pa v =
    Returns-then _ _ (returns (record { ratio = v.ratio; solvent = v.solvent }))

module _ {W : Type 0} ⦃w : WadRay⦄ ⦃o : Outside W⦄ where
  granted-Returns :
      (sender : ℕ) (amount : ℤ) (pa : PremiumsAccount) (x : W)
      → IsWadRay w
      → pos 0 ≤ℤ amount
      → IsSound pa
      → Returns (λ r. IsSound r.0) (receive_grant sender amount pa x)
  unfolding receive_grant
  granted-Returns sender amount pa x laws h v =
      Returns-bind _ _ λ x' _. returns (store-IsSound laws amount pa h v)

  withdrawn-Returns :
      (c : Caller) (amount : ℤ) (to : Option ℕ) (pa : PremiumsAccount) (x : W)
      → IsSound pa
      → Returns (λ r. IsSound r.1) (withdraw_won_premiums c amount to pa x)
  unfolding withdraw_won_premiums
  withdrawn-Returns c amount to pa x v = Returns-then _ _ (
      Returns-bind _ _ λ target _.
        Returns-then _ _
          (Returns-bind _ _ λ x' _. returns (pay_from_premiums-IsSound _ pa v.ratio)))

module _ (L W : Type 0) ⦃w : WadRay⦄ ⦃b : TokenBase L⦄ ⦃o : Outside W⦄ where
  -- A successful call of an operation.
  pub data Step : PremiumsAccount → PremiumsAccount → Type 0 where
    created :
        {pa pa' : PremiumsAccount} (p : Policy) (s s' : World L W)
        → policy_created p pa s ≡ ok (pa', s')
        → Step pa pa'
    replaced :
        {pa pa' : PremiumsAccount} (old new : Policy) (s s' : World L W)
        → policy_replaced old new pa s ≡ ok (pa', s')
        → Step pa pa'
    expired :
        {pa pa' : PremiumsAccount} (p : Policy) (s s' : World L W)
        → policy_expired p pa s ≡ ok (pa', s')
        → Step pa pa'
    resolved :
        {pa pa' : PremiumsAccount} (customer : ℕ) (p : Policy) (payout borrowed : ℤ)
        (s s' : World L W)
        → policy_resolved_with_payout customer p payout pa s ≡ ok (borrowed, pa', s')
        → Step pa pa'
    repaid :
        {pa pa' : PremiumsAccount} (c : Caller) (left : ℤ) (s s' : World L W)
        → repay_loans c pa s ≡ ok (left, pa', s')
        → Step pa pa'
    ratio_set :
        {pa pa' : PremiumsAccount} (c : Caller) (ratio : ℤ) (adjustment : Bool) (s s' : World L W)
        → set_deficit_ratio c ratio adjustment pa s ≡ ok (pa', s')
        → Step pa pa'
    limits_set :
        {pa pa' : PremiumsAccount} (c : Caller) (jr sr : Option ℤ)
        → set_loan_limits c jr sr pa ≡ ok pa'
        → Step pa pa'
    granted :
        {pa pa' : PremiumsAccount} (sender : ℕ) (amount : ℤ) (x x' : W)
        → receive_grant sender amount pa x ≡ ok (pa', x')
        → Step pa pa'
    withdrawn :
        {pa pa' : PremiumsAccount} (c : Caller) (amount sent : ℤ) (to : Option ℕ) (x x' : W)
        → withdraw_won_premiums c amount to pa x ≡ ok (sent, pa', x')
        → Step pa pa'
    earned :
        {pa pa' : PremiumsAccount} (amount : ℤ) → asset_earnings amount pa ≡ ok pa' → Step pa pa'

module _ {L W : Type 0} ⦃w : WadRay⦄ ⦃b : TokenBase L⦄ ⦃o : Outside W⦄ where
  -- The pure premium of a policy that is created or expires, and a grant, are not negative. The
  -- pure premium of a replacement is not below the old one.
  unfoldable pub IsFair : {pa pa' : PremiumsAccount} → Step L W pa pa' → Type 0
  IsFair (created p s s' e) = pos 0 ≤ℤ p.pure_premium
  IsFair (replaced old new s s' e) = old.pure_premium ≤ℤ new.pure_premium
  IsFair (expired p s s' e) = pos 0 ≤ℤ p.pure_premium
  IsFair (granted sender amount x x' e) = pos 0 ≤ℤ amount
  IsFair _ = Unit {0}

earned-Returns :
    ⦃w : WadRay⦄ (amount : ℤ) (pa : PremiumsAccount)
    → IsWadRay w
    → IsSound pa
    → Returns IsSound (asset_earnings amount pa)
unfolding asset_earnings
earned-Returns amount pa laws v = elim (Bool-cases (pos 0 ≤? amount)) [
  | inl gain ↦ rw gain (returns (store-IsSound laws amount pa (≤?_true (pos 0) amount gain) v))
  | inr loss ↦
      rw loss (Returns-then _ _ (returns (pay_from_premiums-IsSound (negℤ amount) pa v.ratio)))
]

module _ {L W : Type 0} ⦃w : WadRay⦄ ⦃b : TokenBase L⦄ ⦃o : Outside W⦄ (laws : IsWadRay w) where
  Step-IsSound :
      {pa pa' : PremiumsAccount} (step : Step L W pa pa') → IsFair step → IsSound pa → IsSound pa'
  unfolding IsFair
  Step-IsSound {pa} (created p s s' e) h v = Returns-eq_ok _ (created-Returns laws p pa s h v) e
  Step-IsSound {pa} (replaced old new s s' e) h v =
      Returns-eq_ok _ (replaced-Returns laws old new pa s h v) e
  Step-IsSound {pa} (expired p s s' e) h v = Returns-eq_ok _ (expired-Returns laws p pa s h v) e
  Step-IsSound {pa} (resolved customer p payout borrowed s s' e) h v =
      Returns-eq_ok _ (resolved-Returns customer p payout pa s v) e
  Step-IsSound {pa} (repaid c left s s' e) h v = Returns-eq_ok _ (repay_loans-Returns c pa s v) e
  Step-IsSound {pa} (ratio_set c ratio adjustment s s' e) h v =
      Returns-eq_ok _ (ratio-Returns c ratio adjustment pa s) e
  Step-IsSound {pa} (limits_set c jr sr e) h v = Returns-eq_ok _ (limits-Returns c jr sr pa v) e
  Step-IsSound {pa} (granted sender amount x x' e) h v =
      Returns-eq_ok _ (granted-Returns sender amount pa x laws h v) e
  Step-IsSound {pa} (withdrawn c amount sent to x x' e) h v =
      Returns-eq_ok _ (withdrawn-Returns c amount to pa x v) e
  Step-IsSound {pa} (earned amount e) h v = Returns-eq_ok _ (earned-Returns amount pa laws v) e

-- The accounts that calls lead to.
pub data Reach (L W : Type 0) ⦃w : WadRay⦄ ⦃b : TokenBase L⦄ ⦃o : Outside W⦄ (pa : PremiumsAccount)
    : PremiumsAccount → Type 0 where
  here : Reach L W pa pa
  next : {mid pa' : PremiumsAccount} → Reach L W pa mid → Step L W mid pa' → Reach L W pa pa'

unfoldable pub AllFair :
    {L W : Type 0} ⦃w : WadRay⦄ ⦃b : TokenBase L⦄ ⦃o : Outside W⦄ {pa pa' : PremiumsAccount}
    → Reach L W pa pa'
    → Type 0
AllFair here = Unit {0}
AllFair (next r step) = AllFair r × IsFair step

-- Under the laws of `IsWadRay`, from an account with a deficit ratio between 0 and 1 and a deficit within the limit, a sequence of
-- successful calls leads to such an account, if the policies that it creates or expires have pure
-- premiums that are not negative, its replacements do not lower the pure premium, and its grants are
-- not negative. Payouts, loans, withdrawals and the results of investments may be any amounts.
pub Reach-IsSound :
    {L W : Type 0} ⦃w : WadRay⦄ ⦃b : TokenBase L⦄ ⦃o : Outside W⦄
    → IsWadRay w
    → {pa pa' : PremiumsAccount} → IsSound pa
    → (reach : Reach L W pa pa') → AllFair reach
    → IsSound pa'
unfolding AllFair
Reach-IsSound laws v here fair = v
Reach-IsSound laws v (next r step) (fair, fair') =
    Step-IsSound laws step fair' (Reach-IsSound laws v r fair)
