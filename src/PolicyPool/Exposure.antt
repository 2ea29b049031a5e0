-- ===== src/PolicyPool/Exposure.antt =====
-- The active exposure of the risk modules against the policies of the pool (prototype/ensuro.py).
use ensuro.Prelude.{
  ℕ, ◌≡◌, refl, arith, true, Bool-cases, none, some, inl, inr, List, [], ◌∷◌, ◌==◌, if◌then◌else◌,
}
use ensuro.Prelude.Int.{ℤ, pos, ◌+ℤ◌, ◌-ℤ◌, ◌=?◌, int_laws}
use ensuro.Prelude.Calls.{
  ok, Returns, returns, Returns-bind, Returns-found, Returns-after, Returns-require, Returns-eq_ok,
}
use ensuro.WadRay.{WadRay}
use ensuro.Outside.{Outside, TokenBase}
use ensuro.Policy.{Policy}
use ensuro.PolicyPool.State.{
  Nft, Policies, Pool, find_policy, put_policy, remove_policy, put_account, put_risk_module,
  make_policy_id,
}
use ensuro.PolicyPool.Operations.{
  Payout, close_policy, release_exposure, resolve_policy, expire_policy, expire_policies,
  new_policy, replace_policy, not_smaller,
}

-- What a policy counts for the exposure of the risk module `a`.
unfoldable pub share : ℕ → Policy → ℤ
share a p = if p.risk_module == a then p.payout else pos 0

-- A sum over the active policies.
unfoldable pub total : (Policy → ℤ) → Policies → ℤ
total f [] = pos 0
total f ((k, p) ∷ d) = f p +ℤ total f d

-- The payouts of the active policies of the risk module `a`.
abbrev pub payouts_of : ℕ → Policies → ℤ
payouts_of a d = total (share a) d

pub total-remove_policy :
    (f : Policy → ℤ) (k : ℤ) (d : Policies) {p : Policy}
    → find_policy k d ≡ some p
    → total f (remove_policy k d) ≡ total f d -ℤ f p
unfolding total find_policy remove_policy
total-remove_policy f k [] h = cc
total-remove_policy f k ((j, u) ∷ d) {p = p} h = elim (Bool-cases (k =? j)) [
  | inl found ↦ let same : u ≡ p = cc in rw (found, same) (omega int_laws)
  | inr other ↦
      let next : find_policy k d ≡ some p = rw other at h in
      rw (other, total-remove_policy f k d next) (omega int_laws)
]

pub total-put_policy :
    (f : Policy → ℤ) (k : ℤ) (p : Policy) (d : Policies)
    → find_policy k d ≡ none
    → total f (put_policy k p d) ≡ total f d +ℤ f p
unfolding total find_policy put_policy
total-put_policy f k p [] h = omega int_laws
total-put_policy f k p ((j, u) ∷ d) h = elim (Bool-cases (k =? j)) [
  | inl found ↦ cc
  | inr other ↦
      let next : find_policy k d ≡ none = rw other at h in
      rw (other, total-put_policy f k p d next) (omega int_laws)
]

pub not_smaller_module :
    (old new : Policy) → not_smaller old new ≡ true → old.risk_module ≡ new.risk_module
unfolding not_smaller
not_smaller_module old new h = grind arith

-- A look-up that succeeded still does after the entry of a new key.
find_policy-put_policy_other :
    (j k : ℤ) (p : Policy) (d : Policies) {v : Policy}
    → find_policy k d ≡ none
    → find_policy j d ≡ some v
    → find_policy j (put_policy k p d) ≡ some v
unfolding find_policy put_policy
find_policy-put_policy_other j k p [] fresh found = cc
find_policy-put_policy_other j k p ((i, u) ∷ d) {v = v} fresh found = elim (Bool-cases (k =? i)) [
  | inl same ↦ cc
  | inr new ↦
      let fresh' : find_policy k d ≡ none = rw new at fresh in
      rw new (elim (Bool-cases (j =? i)) [
        | inl first ↦ (let at : some u ≡ some v = rw first at found in rw (first, at) refl)
        | inr later ↦
            let found' : find_policy j d ≡ some v = rw later at found in
            rw (later, find_policy-put_policy_other j k p d fresh' found') refl
      ])
]

-- The sum where a new policy takes the place of an old one.
pub total-replaced :
    (f : Policy → ℤ) (old new : Policy) (d : Policies)
    → find_policy old.id d ≡ some old
    → find_policy new.id d ≡ none
    → total f (remove_policy old.id (put_policy new.id new d)) ≡ (total f d +ℤ f new) -ℤ f old
total-replaced f old new d stored fresh = rw (
  total-remove_policy f old.id (put_policy new.id new d)
      (find_policy-put_policy_other old.id new.id new d fresh stored),
  total-put_policy f new.id new d fresh,
)

module _ {L W N : Type 0} where
  -- Each risk module's active exposure is what its active policies can pay.
  unfoldable pub IsBooked : Pool L W N → Type 0
  IsBooked s = (a : ℕ) → (s.risk_modules a).active_exposure ≡ payouts_of a s.policies

  pub close_policy-IsBooked :
      (p : Policy) (k : ℤ) (s : Pool L W N)
      → find_policy k s.policies ≡ some p
      → IsBooked s
      → IsBooked (close_policy p k s)
  unfolding IsBooked close_policy put_risk_module release_exposure share
  close_policy-IsBooked p k s found booked a =
      let less = total-remove_policy (share a) k s.policies found in
      elim (Bool-cases (p.risk_module == a)) [
        | inl own ↦
            let at : (s.risk_modules p.risk_module).active_exposure ≡ payouts_of a s.policies =
              grind arith in
            let less' : payouts_of a (remove_policy k s.policies)
                ≡ payouts_of a s.policies -ℤ p.payout =
              rw own at less in
            rw (own, less', at) refl
        | inr other ↦
            let less' : payouts_of a (remove_policy k s.policies)
                ≡ payouts_of a s.policies -ℤ pos 0 =
              rw other at less in
            rw (other, less', booked a) (omega int_laws)
      ]

module _ {L W N : Type 0} ⦃w : WadRay⦄ ⦃b : TokenBase L⦄ ⦃o : Outside W⦄ ⦃n : Nft N⦄ where
  pub resolve_policy-Returns :
      (k : ℤ) (asked : Payout) (s : Pool L W N)
      → IsBooked s
      → Returns IsBooked (resolve_policy k asked s)
  unfolding resolve_policy put_account IsBooked
  resolve_policy-Returns k asked s booked = Returns-found _ _ _ λ p found.
      Returns-require _ _ _
        λ _. Returns-bind _ _ λ r _. returns (close_policy-IsBooked p k _ found booked)

  pub expire_policy-Returns :
      (k : ℤ) (s : Pool L W N) → IsBooked s → Returns IsBooked (expire_policy k s)
  unfolding expire_policy
  expire_policy-Returns k s booked =
      Returns-found _ _ _ λ p _. Returns-require _ _ _ λ _. resolve_policy-Returns k _ s booked

  expire_policies-Returns :
      (ks : List ℤ) (s : Pool L W N) → IsBooked s → Returns IsBooked (expire_policies ks s)
  unfolding expire_policies
  expire_policies-Returns [] s booked = returns booked
  expire_policies-Returns (k ∷ ks) s booked =
      Returns-after _ _ (expire_policy-Returns k s booked)
        λ s' _ booked'. expire_policies-Returns ks s' booked'

  -- A resolution keeps the books: each risk module's active exposure stays the sum of the payouts of
  -- its active policies.
  pub resolve_policy-IsBooked :
      (k : ℤ) (asked : Payout) (s : Pool L W N) {s' : Pool L W N}
      → IsBooked s
      → resolve_policy k asked s ≡ ok s'
      → IsBooked s'
  resolve_policy-IsBooked k asked s booked =
      Returns-eq_ok _ (resolve_policy-Returns k asked s booked)

  -- The expiration of any list of policies keeps the books too.
  pub expire_policies-IsBooked :
      (ks : List ℤ) (s : Pool L W N) {s' : Pool L W N}
      → IsBooked s
      → expire_policies ks s ≡ ok s'
      → IsBooked s'
  expire_policies-IsBooked ks s booked = Returns-eq_ok _ (expire_policies-Returns ks s booked)

  -- What the pool's `new_policy` changes of the policies and the risk modules.
  pub new_policy-Returns :
      (policy : Policy) (payer holder : ℕ) (internal_id : ℤ) (s : Pool L W N)
      → Returns
          (λ r.
            (r.0 ≡ record policy { id = make_policy_id n.digest policy.risk_module internal_id })
            × (r.1.risk_modules ≡ s.risk_modules)
            × (r.1.policies ≡ put_policy r.0.id r.0 s.policies))
          (new_policy policy payer holder internal_id s)
  unfolding new_policy put_account
  new_policy-Returns policy payer holder internal_id s =
      Returns-bind _ _
        λ nft _. Returns-bind _ _ λ r _. Returns-bind _ _ λ x _. returns (refl, refl, refl)

  -- What the pool's `replace_policy` changes of them, where the old policy is stored under its id.
  pub replace_policy-Returns :
      (old policy : Policy) (payer : ℕ) (internal_id : ℤ) (s : Pool L W N)
      → find_policy old.id s.policies ≡ some old
      → Returns
          (λ r.
            (r.0 ≡ record policy { id = make_policy_id n.digest policy.risk_module internal_id })
            × (r.1.risk_modules ≡ s.risk_modules)
            × (r.1.policies ≡ remove_policy old.id (put_policy r.0.id r.0 s.policies))
            × (old.risk_module ≡ policy.risk_module))
          (replace_policy old.id policy payer internal_id s)
  unfolding replace_policy put_account
  replace_policy-Returns old policy payer internal_id s stored = Returns-found _ _ _ λ old' found.
      let same : old' ≡ old = cc in
      rw same (
        Returns-require _ _ _ λ _. Returns-require _ _ _ λ larger. Returns-bind _ _ λ holder _.
          Returns-bind _ _ λ nft _. Returns-bind _ _ λ r _.
            Returns-bind _ _
              λ x _. returns (refl, refl, refl, not_smaller_module old policy larger))
