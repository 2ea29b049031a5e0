-- ===== src/PolicyPool/Locks.antt =====
-- What the active policies lock in the eTokens (prototype/ensuro.py).
use ensuro.Prelude.{ℕ, ◌≡◌, arith, Bool-cases, Option, some, inl, inr, [], ◌∷◌}
use ensuro.Prelude.Int.{ℤ, pos, ◌≤ℤ◌, ◌=?◌, int_laws}
use ensuro.Policy.{Policy}
use ensuro.PremiumsAccount.Shifts.{capital, portion-nonneg}
use ensuro.PremiumsAccount.Backing.{LocksNonneg}
use ensuro.PolicyPool.State.{Policies, find_policy, put_policy, remove_policy}
use ensuro.PolicyPool.Exposure.{total}

unfoldable pub AllLock : Policies → Type 0
AllLock [] = Unit
AllLock ((k, p) ∷ d) = LocksNonneg p × AllLock d

pub AllLock-find :
    (k : ℤ) (d : Policies) {p : Policy} → AllLock d → find_policy k d ≡ some p → LocksNonneg p
unfolding AllLock find_policy
AllLock-find k [] h found = cc
AllLock-find k ((j, u) ∷ d) {p} (first, h) found = elim (Bool-cases (k =? j)) [
  | inl here ↦ (let same : u ≡ p = cc in rw (← same) first)
  | inr later ↦ AllLock-find k d h (rw later at found)
]

pub AllLock-put :
    (k : ℤ) (p : Policy) (d : Policies) → LocksNonneg p → AllLock d → AllLock (put_policy k p d)
unfolding AllLock put_policy
AllLock-put k p [] new h = (new, tt)
AllLock-put k p ((j, u) ∷ d) new (first, h) = elim (Bool-cases (k =? j)) [
  | inl here ↦ rw here (new, h)
  | inr later ↦ rw later (first, AllLock-put k p d new h)
]

pub AllLock-remove : (k : ℤ) (d : Policies) → AllLock d → AllLock (remove_policy k d)
unfolding AllLock remove_policy
AllLock-remove k [] h = tt
AllLock-remove k ((j, u) ∷ d) (first, h) = elim (Bool-cases (k =? j)) [
  | inl here ↦ rw here h
  | inr later ↦ rw later (first, AllLock-remove k d h)
]

-- What a policy locks in the eToken `a`, where the policies of the risk module `m` go to the eTokens
-- `senior m` and `junior m`.
abbrev pub locks : (ℕ → Option ℕ) → (ℕ → Option ℕ) → ℕ → Policy → ℤ
locks senior junior a p = capital (senior p.risk_module) (junior p.risk_module) a p

locks-nonneg :
    (senior junior : ℕ → Option ℕ) (a : ℕ) (p : Policy)
    → LocksNonneg p
    → pos 0 ≤ℤ locks senior junior a p
locks-nonneg senior junior a p (sr, jr) =
    let sr' = portion-nonneg (senior p.risk_module) a p.sr_scr sr in
    let jr' = portion-nonneg (junior p.risk_module) a p.jr_scr jr in omega int_laws

total-nonneg :
    (senior junior : ℕ → Option ℕ) (a : ℕ) (d : Policies)
    → AllLock d
    → pos 0 ≤ℤ total (locks senior junior a) d
unfolding total AllLock
total-nonneg senior junior a [] h = omega arith
total-nonneg senior junior a ((k, p) ∷ d) (first, h) =
    let one = locks-nonneg senior junior a p first in
    let rest = total-nonneg senior junior a d h in omega int_laws

pub locks-total :
    (senior junior : ℕ → Option ℕ) (a : ℕ) (k : ℤ) (d : Policies) {p : Policy}
    → AllLock d
    → find_policy k d ≡ some p
    → locks senior junior a p ≤ℤ total (locks senior junior a) d
unfolding total AllLock find_policy
locks-total senior junior a k [] h found = cc
locks-total senior junior a k ((j, u) ∷ d) {p} (first, h) found = elim (Bool-cases (k =? j)) [
  | inl here ↦
      let same : u ≡ p = cc in
      let rest = total-nonneg senior junior a d h in rw (← same) (omega int_laws)
  | inr later ↦
      let one = locks-nonneg senior junior a u first in
      let within = locks-total senior junior a k d h (rw later at found) in omega int_laws
]
