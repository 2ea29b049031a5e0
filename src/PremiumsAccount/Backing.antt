-- ===== src/PremiumsAccount/Backing.antt =====
-- What the calls of `PremiumsAccount` for a policy do to the capital that each eToken has locked
-- (prototype/ensuro.py).
use ensuro.Prelude.{
  ℕ, ◌≡◌, refl, ap, arith, Bool, true, false, Bool-cases, some, inl, inr, if◌then◌else◌,
}
use ensuro.Prelude.Int.{ℤ, pos, ◌-ℤ◌, negℤ, ◌≤ℤ◌, ◌≤?◌, ◌<?◌, ◌=?◌, int_laws, =?_true}
use ensuro.Prelude.Calls.{
  ok, Returns, returns, Returns-bind, Returns-after, Returns-map, Returns-then,
}
use ensuro.WadRay.{WadRay}
use ensuro.Outside.{Outside, TokenBase}
use ensuro.Policy.{Policy}
use ensuro.World.{World}
use ensuro.PremiumsAccount.State.{
  PremiumsAccount, max_deficit, pay_from_premiums, store_pure_premium_won,
}
use ensuro.PremiumsAccount.Borrow.{borrow_from_etk}
use ensuro.PremiumsAccount.Policies.{
  is_nonzero, unlock_policy, policy_created, policy_replaced, policy_resolved_with_payout,
  policy_expired,
}
use ensuro.PremiumsAccount.Shifts.{
  capital, Shifts, Shifts-nothing, Shifts-then, Shifts-ext, Shifts-out, lock_if-Shifts,
  unlock_if-Shifts, Unmoved, borrow-Unmoved,
}

-- The eTokens of an account stay the same.
abbrev pub SameEtks : PremiumsAccount → PremiumsAccount → Type 0
SameEtks pa pa' = (pa'.senior_etk ≡ pa.senior_etk) × (pa'.junior_etk ≡ pa.junior_etk)

-- What a policy locks is not negative.
abbrev pub LocksNonneg : Policy → Type 0
LocksNonneg p = (pos 0 ≤ℤ p.sr_scr) × (pos 0 ≤ℤ p.jr_scr)

abbrev pub of_account : PremiumsAccount → ℕ → Policy → ℤ
of_account pa a p = capital pa.senior_etk pa.junior_etk a p

zero_unless : (x : ℤ) → is_nonzero x ≡ false → x ≡ pos 0
zero_unless x h = ground (arith, =?_true x (pos 0))

zero_unless_positive : (x : ℤ) → pos 0 ≤ℤ x → (pos 0 <? x) ≡ false → x ≡ pos 0
zero_unless_positive x h none_locked = ground arith

pub store-SameEtks : (x : ℤ) (pa : PremiumsAccount) → SameEtks pa (store_pure_premium_won x pa)
unfolding store_pure_premium_won
store-SameEtks x pa = elim (Bool-cases (x =? pos 0)) [
  | inl nothing ↦ rw nothing (refl, refl)
  | inr something ↦ rw something (refl, refl)
]

pub pay-SameEtks :
    ⦃w : WadRay⦄ (x : ℤ) (pa : PremiumsAccount) → SameEtks pa (pay_from_premiums x pa).1
unfolding pay_from_premiums
pay-SameEtks x pa = elim (Bool-cases (max_deficit pa ≤? (pa.surplus -ℤ x))) [
  | inl within ↦ rw within (refl, refl)
  | inr beyond ↦ rw beyond (refl, refl)
]

of_account_same :
    (pa pa' : PremiumsAccount) (a : ℕ) (p : Policy)
    → SameEtks pa pa'
    → of_account pa' a p ≡ of_account pa a p
of_account_same pa pa' a p (senior, junior) = rw (senior, junior) refl

module _ {L W : Type 0} ⦃w : WadRay⦄ ⦃b : TokenBase L⦄ ⦃o : Outside W⦄ where
  pub created-Shifts :
      (p : Policy) (pa : PremiumsAccount) (s : World L W)
      → Returns
          (λ r. SameEtks pa r.0 × Shifts (λ a. of_account pa a p) s r.1)
          (policy_created p pa s)
  unfolding policy_created
  created-Shifts p pa s =
      Returns-after _ _ (lock_if-Shifts _ _ _ _ s (zero_unless p.sr_scr)) λ s1 _ senior.
        Returns-after _ _ (lock_if-Shifts _ _ _ _ s1 (zero_unless p.jr_scr))
          λ s2 _ junior. returns ((refl, refl), Shifts-then senior junior (λ a. refl))

  unlock-Shifts :
      (p : Policy) (pa : PremiumsAccount) (s : World L W)
      → Returns (Shifts (λ a. negℤ (of_account pa a p)) s) (unlock_policy p pa s)
  unfolding unlock_policy
  unlock-Shifts p pa s =
      Returns-after _ _ (unlock_if-Shifts _ _ _ _ _ s (zero_unless p.sr_scr)) λ s1 _ senior.
        Returns-map _ (unlock_if-Shifts _ _ _ _ _ s1 (zero_unless p.jr_scr))
          λ s2 junior. Shifts-then senior junior (λ a. omega int_laws)

  pub expired-Shifts :
      (p : Policy) (pa : PremiumsAccount) (s : World L W)
      → Returns
          (λ r. SameEtks pa r.0 × Shifts (λ a. negℤ (of_account pa a p)) s r.1)
          (policy_expired p pa s)
  unfolding policy_expired
  expired-Shifts p pa s =
      let released = record pa {
        active_pure_premiums = pa.active_pure_premiums -ℤ p.pure_premium;
      } in
      let pa' = store_pure_premium_won p.pure_premium released in
      let same = store-SameEtks p.pure_premium released in
      Returns-after _ _ (unlock-Shifts p pa' s) λ s' _ shifts.
        returns (same, Shifts-ext shifts λ a. ap negℤ (of_account_same pa pa' a p same))

  pub resolved-Shifts :
      (customer : ℕ) (p : Policy) (payout : ℤ) (pa : PremiumsAccount) (s : World L W)
      → Returns
          (λ r. SameEtks pa r.1 × Shifts (λ a. negℤ (of_account pa a p)) s r.2)
          (policy_resolved_with_payout customer p payout pa s)
  unfolding policy_resolved_with_payout
  resolved-Shifts customer p payout pa s =
      let released = record pa {
        active_pure_premiums = pa.active_pure_premiums -ℤ p.pure_premium;
      } in
      let paid = pay_from_premiums (payout -ℤ p.pure_premium) released in
      let same = pay-SameEtks (payout -ℤ p.pure_premium) released in
      Returns-after _ _ (unlock-Shifts p paid.1 s) λ s1 _ shifts.
        Returns-after _ _ (borrowed paid.1 paid.0 s1 (is_nonzero paid.0)) λ s2 _ unmoved.
          Returns-bind _ _ λ x _.
            let unlocked = Shifts-ext shifts λ a. ap negℤ (of_account_same pa paid.1 a p same) in
            returns (same, Shifts-out x (Shifts-then unlocked unmoved (λ a. omega int_laws)))
    where
      borrowed :
          (pa' : PremiumsAccount) (amount : ℤ) (s1 : World L W) (wanted : Bool)
          → Returns (Unmoved s1) (
              if wanted
              then borrow_from_etk pa' amount (some customer) (pos 0 <? p.jr_scr) s1
              else ok s1)
      borrowed pa' amount s1 true = borrow-Unmoved pa' amount (some customer) (pos 0 <? p.jr_scr) s1
      borrowed pa' amount s1 false = returns (Shifts-nothing s1)

  pub replaced-Shifts :
      (old new : Policy) (pa : PremiumsAccount) (s : World L W)
      → LocksNonneg old
      → LocksNonneg new
      → Returns
          (λ r. SameEtks pa r.0 × Shifts (λ a. of_account pa a new -ℤ of_account pa a old) s r.1)
          (policy_replaced old new pa s)
  unfolding policy_replaced
  replaced-Shifts old new pa s (old_sr, old_jr) (new_sr, new_jr) = Returns-then _ _ (
      Returns-then _ _ (
        Returns-after _ _ (unlock_if-Shifts _ _ _ _ _ s (zero_unless_positive _ old_sr)) λ s1 _ h1.
          Returns-after _ _ (lock_if-Shifts _ _ _ _ s1 (zero_unless_positive _ new_sr)) λ s2 _ h2.
            Returns-after _ _ (unlock_if-Shifts _ _ _ _ _ s2 (zero_unless_positive _ old_jr))
              λ s3 _ h3.
                Returns-after _ _ (lock_if-Shifts _ _ _ _ s3 (zero_unless_positive _ new_jr))
                  λ s4 _ h4.
                    let first = Shifts-then h1 h2 (λ a. refl) in
                    let second = Shifts-then first h3 (λ a. refl) in
                    returns ((refl, refl), Shifts-then second h4 (λ a. omega int_laws))))
