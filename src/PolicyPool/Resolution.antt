-- ===== src/PolicyPool/Resolution.antt =====
-- What a resolution does to the active policies (prototype/ensuro.py, `PolicyPool.resolve_policy`).
use ensuro.Prelude.{
  ◌≡◌, refl, arith, Bool-cases, true, false, ◌||◌, none, some, [], ◌∷◌, inl, inr, if◌then◌else◌,
}
use ensuro.Prelude.Int.{ℤ, pos, ◌=?◌, ◌<?◌, =?_true}
use ensuro.Prelude.Calls.{
  Fault, ok, err, ◌>>=◌, Returns, returns, Returns-found, Returns-require, Returns-bind,
  Returns-eq_ok,
}
use ensuro.WadRay.{WadRay}
use ensuro.Outside.{Outside, TokenBase}
use ensuro.Policy.{Policy}
use ensuro.PolicyPool.State.{
  Nft, Policies, Pool, find_policy, put_policy, remove_policy, put_account, put_risk_module,
}
use ensuro.PolicyPool.Operations.{Payout, payout_of, close_policy, resolve_policy}

-- No id has two entries.
unfoldable pub OneEach : Policies → Type 0
OneEach [] = Unit
OneEach ((k, p) ∷ d) = (find_policy k d ≡ none) × OneEach d

find-remove_policy :
    (j k : ℤ) (d : Policies)
    → OneEach d
    → find_policy j (remove_policy k d) ≡ (if j =? k then none else find_policy j d)
unfolding OneEach remove_policy find_policy
find-remove_policy j k [] h = ground arith
find-remove_policy j k ((i, u) ∷ d) (absent, h) = elim (Bool-cases (k =? i)) [
  | inl same ↦ let equal = =?_true k i same in rw same (only_entry equal)
  | inr other ↦
      let apart : (i =? k) ≡ false = ground arith in
      rw other (ground (arith, find-remove_policy j k d h, apart))
]
  where
    only_entry :
        k ≡ i
        → find_policy j d ≡ (if j =? k then none else (if j =? i then some u else find_policy j d))
    only_entry equal = elim (Bool-cases (j =? k)) [
      | inl first ↦ let j_is = =?_true j k first in rw (first, j_is, equal) absent
      | inr later ↦ let apart : (j =? i) ≡ false = rw (← equal) later in rw (later, apart) refl
    ]

pub OneEach-remove_policy : (k : ℤ) (d : Policies) → OneEach d → OneEach (remove_policy k d)
unfolding OneEach remove_policy
OneEach-remove_policy k [] h = tt
OneEach-remove_policy k ((i, u) ∷ d) (absent, h) = elim (Bool-cases (k =? i)) [
  | inl same ↦ rw same h
  | inr other ↦
      let apart : (i =? k) ≡ false = ground arith in
      rw other ((rw (find-remove_policy i k d h, apart) absent), OneEach-remove_policy k d h)
]

find-put_policy :
    (j k : ℤ) (p : Policy) (d : Policies)
    → find_policy j (put_policy k p d) ≡ (if j =? k then some p else find_policy j d)
unfolding put_policy find_policy
find-put_policy j k p [] = refl
find-put_policy j k p ((i, u) ∷ d) = ground (arith, find-put_policy j k p d)

pub OneEach-put_policy :
    (k : ℤ) (p : Policy) (d : Policies) → OneEach d → OneEach (put_policy k p d)
unfolding OneEach put_policy find_policy
OneEach-put_policy k p [] h = (refl, tt)
OneEach-put_policy k p ((i, u) ∷ d) (absent, h) = elim (Bool-cases (k =? i)) [
  | inl same ↦ let equal = =?_true k i same in rw (same, equal) (absent, h)
  | inr other ↦
      let apart : (i =? k) ≡ false = ground arith in
      rw other ((rw (find-put_policy i k p d, apart) absent), OneEach-put_policy k p d h)
]

module _ {L W N : Type 0} ⦃w : WadRay⦄ ⦃b : TokenBase L⦄ ⦃o : Outside W⦄ ⦃n : Nft N⦄ where
  pub resolved-Returns :
      (k : ℤ) (asked : Payout) (s : Pool L W N)
      → Returns
          (λ s'.
            (s'.policies ≡ remove_policy k s.policies)
            × (p : Policy) × (find_policy k s.policies ≡ some p)
            × ((payout_of p asked =? pos 0 || (s.world.now <? p.expiration)) ≡ true))
          (resolve_policy k asked s)
  unfolding resolve_policy close_policy put_account put_risk_module
  resolved-Returns k asked s = Returns-found _ _ _ λ p found.
      Returns-require _ _ _ λ allowed. Returns-bind _ _ λ r _. returns (refl, p, found, allowed)

  unknown-err :
      (k : ℤ) (asked : Payout) (s : Pool L W N)
      → find_policy k s.policies ≡ none
      → resolve_policy k asked s ≡ err Fault.policy_unknown
  unfolding resolve_policy ◌>>=◌
  unknown-err k asked s unknown = rw unknown refl

  -- Of a pool where no id has two entries, a resolution is that of an active policy, with no payout
  -- or before its expiration. It takes this policy alone: every other id finds what it found before,
  -- and resolving the same id again raises "Policy not found", whatever payout is asked.
  pub resolve_policy-once :
      (k : ℤ) (asked again : Payout) (s : Pool L W N) {s' : Pool L W N}
      → OneEach s.policies
      → resolve_policy k asked s ≡ ok s'
      → ((p : Policy) × (find_policy k s.policies ≡ some p)
          × ((payout_of p asked =? pos 0 || (s.world.now <? p.expiration)) ≡ true))
        × OneEach s'.policies
        × ((j : ℤ)
            → find_policy j s'.policies ≡ (if j =? k then none else find_policy j s.policies))
        × (resolve_policy k again s' ≡ err Fault.policy_unknown)
  resolve_policy-once k asked again s {s'} one_each resolved =
      let (left, p, stored, allowed) = Returns-eq_ok _ (resolved-Returns k asked s) resolved in
      let self : (k =? k) ≡ true = ground arith in
      let gone : find_policy k s'.policies ≡ none =
        rw (left, find-remove_policy k k s.policies one_each, self) refl in
      (
        (p, stored, allowed),
        rw left (OneEach-remove_policy k s.policies one_each),
        λ j. rw left (find-remove_policy j k s.policies one_each),
        unknown-err k again s' gone,
      )
