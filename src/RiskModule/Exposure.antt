-- ===== src/RiskModule/Exposure.antt =====
-- What `RiskModule.new_policy` does to the exposure and to the pool's policies
-- (prototype/ensuro.py).
use ensuro.Prelude.{
  ℕ, ◌≡◌, ◌∙◌, refl, arith, true, Bool-cases, Option, none, some, inl, inr, [], ◌∷◌, ◌==◌,
}
use ensuro.Prelude.Int.{ℤ, pos, ◌+ℤ◌, ◌≤ℤ◌, ◌<ℤ◌, ◌=?◌, ≤?_true, <?_true, int_laws}
use ensuro.Prelude.Calls.{
  ok, Returns, returns, Returns-bind, Returns-found, Returns-after, Returns-then, Returns-require,
  Returns-eq_ok,
}
use ensuro.WadRay.{WadRay}
use ensuro.Outside.{Outside, TokenBase}
use ensuro.Roles.{Caller}
use ensuro.Policy.{Policy, split_at}
use ensuro.Policy.Split.{do_premium_split-Returns}
use ensuro.RiskModule.State.{RiskModule}
use ensuro.RiskModule.Underwriting.{Request, take_exposure, new_policy}
use ensuro.PolicyPool.State.{
  Nft, Policies, Pool, find_policy, put_policy, make_policy_id, put_risk_module,
}
use ensuro.PolicyPool.Exposure.{share, payouts_of, total-put_policy, IsBooked, new_policy-Returns}

pub take_exposure-Returns :
    (more : ℤ) (rm : RiskModule)
    → Returns
        (λ rm'.
          (rm' ≡ record rm { active_exposure = rm.active_exposure +ℤ more })
          × (rm.active_exposure +ℤ more ≤ℤ rm.exposure_limit))
        (take_exposure more rm)
unfolding take_exposure
take_exposure-Returns more rm =
    Returns-require _ _ _
      λ h. returns (refl, ≤?_true (rm.active_exposure +ℤ more) rm.exposure_limit h)

=?_refl : (k : ℤ) → (k =? k) ≡ true
=?_refl k = ground arith

pub find_policy-put_policy :
    (k : ℤ) (p : Policy) (d : Policies) → find_policy k (put_policy k p d) ≡ some p
unfolding find_policy put_policy
find_policy-put_policy k p [] = rw (=?_refl k) refl
find_policy-put_policy k p ((j, u) ∷ d) = elim (Bool-cases (k =? j)) [
  | inl found ↦ rw (found, =?_refl k) refl
  | inr other ↦ rw (other, other) (find_policy-put_policy k p d)
]

module _ {L W N : Type 0} ⦃w : WadRay⦄ ⦃b : TokenBase L⦄ ⦃o : Outside W⦄ ⦃n : Nft N⦄ where
  -- The result of `new_policy` on the risk module at `m`.
  pub Underwrites : ℕ → Request → Pool L W N → Policy × Pool L W N → Type 0
  Underwrites m q s (p, s') =
      (p.payout ≡ q.payout)
      × (p.risk_module ≡ (s.risk_modules m).contract_id)
      × (p.payout ≤ℤ (s.risk_modules m).max_payout_per_policy)
      × (p.premium <ℤ p.payout)
      × ((s.risk_modules m).active_exposure +ℤ p.payout ≤ℤ (s.risk_modules m).exposure_limit)
      × (s'.risk_modules
          ≡ (put_risk_module m
              (record (s.risk_modules m) {
                active_exposure = (s.risk_modules m).active_exposure +ℤ p.payout;
              })
              s).risk_modules)
      × (s'.policies ≡ put_policy p.id p s.policies)
      × (p.id ≡ make_policy_id n.digest p.risk_module q.internal_id)

  new_policy-Underwrites :
      (c : Caller) (m : ℕ) (q : Request) (holder : Option ℕ) (s : Pool L W N)
      → Returns (Underwrites m q s) (new_policy c m q holder s)
  unfolding new_policy Underwrites split_at put_risk_module
  new_policy-Underwrites c m q holder s =
      let rm = s.risk_modules m in
      Returns-bind _ _ λ premium _. Returns-require _ _ _ λ below. Returns-require _ _ _ λ _.
        Returns-require _ _ _ λ _. Returns-found _ _ _ λ customer _. Returns-then _ _ (
          Returns-require _ _ _ λ small.
            Returns-after _ _ (do_premium_split-Returns rm _) λ policy _ split.
              Returns-after _ _ (take_exposure-Returns policy.payout rm) λ rm' _ taken.
                Returns-after _ _ (new_policy-Returns policy q.payer customer q.internal_id _)
                  λ r _ new. Returns-require _ _ _ λ _.
                    let (_, _, _, _, same, _) = split in
                    let (same', under) = taken in
                    let (same_id, same_modules, same_policies) = new in
                    let pay : policy.payout ≡ q.payout = rw same refl in
                    let price : policy.premium ≡ premium = rw same refl in
                    let own : policy.risk_module ≡ rm.contract_id = rw same refl in
                    returns (
                      rw same_id pay,
                      rw same_id own,
                      rw same_id (rw pay (≤?_true q.payout _ small)),
                      rw same_id (rw (price, pay) (<?_true premium q.payout below)),
                      rw same_id under,
                      rw (same_modules, same', same_id) refl,
                      same_policies,
                      rw same_id refl,
                    ))

  pub new_policy-policies :
      (c : Caller) (m : ℕ) (q : Request) (holder : Option ℕ) (s : Pool L W N) {p : Policy}
      {s' : Pool L W N}
      → new_policy c m q holder s ≡ ok (p, s')
      → s'.policies ≡ put_policy p.id p s.policies
  unfolding Underwrites
  new_policy-policies c m q holder s sold =
      (Returns-eq_ok _ (new_policy-Underwrites c m q holder s) sold).6

  -- The books with a policy and its exposure added.
  booked_with :
      (m : ℕ) (p : Policy) (s : Pool L W N)
      → IsBooked s
      → p.risk_module ≡ m
      → find_policy p.id s.policies ≡ none
      → (a : ℕ)
      → ((put_risk_module m
            (record (s.risk_modules m) {
              active_exposure = (s.risk_modules m).active_exposure +ℤ p.payout;
            })
            s).risk_modules
          a).active_exposure
        ≡ payouts_of a (put_policy p.id p s.policies)
  unfolding put_risk_module IsBooked share
  booked_with m p s booked at_m fresh a =
      let more = total-put_policy (share a) p.id p s.policies fresh in
      elim (Bool-cases (m == a)) [
        | inl same ↦
            let at : (s.risk_modules m).active_exposure ≡ payouts_of a s.policies = grind arith in
            let mine : share a p ≡ p.payout = rw (at_m, same) refl in rw (same, more, mine, at) refl
        | inr other ↦
            let theirs : share a p ≡ pos 0 = rw (at_m, other) refl in
            rw (other, more, theirs, booked a) (omega int_laws)
      ]

  -- A new policy is below its premium's and its module's bounds: its premium is below its payout, the
  -- payout is the one asked and at most the module's maximum, and the exposure with it is within
  -- the module's limit. The policy is then one of the pool's, and where the policies were booked,
  -- none had its id and the module's address is its contract id, they are booked again.
  pub new_policy-IsBooked :
      (c : Caller) (m : ℕ) (q : Request) (holder : Option ℕ) (s : Pool L W N) {p : Policy}
      {s' : Pool L W N}
      → IsBooked s
      → (s.risk_modules m).contract_id ≡ m
      → find_policy (make_policy_id n.digest m q.internal_id) s.policies ≡ none
      → new_policy c m q holder s ≡ ok (p, s')
      → IsBooked s'
        × (p.payout ≡ q.payout)
        × (p.premium <ℤ p.payout)
        × (p.payout ≤ℤ (s.risk_modules m).max_payout_per_policy)
        × ((s'.risk_modules m).active_exposure ≤ℤ (s'.risk_modules m).exposure_limit)
        × (find_policy p.id s'.policies ≡ some p)
  unfolding Underwrites put_risk_module IsBooked
  new_policy-IsBooked c m q holder s {p} {s'} booked own fresh created =
      let (pay, module_id, small, below, under, modules, policies, id) =
        Returns-eq_ok _ (new_policy-Underwrites c m q holder s) created in
      let at_m : p.risk_module ≡ m = module_id ∙ own in
      let fresh' : find_policy p.id s.policies ≡ none = rw (id, at_m) fresh in
      let self : (m == m) ≡ true = ground arith in
      (
        λ a. rw (modules, policies) (booked_with m p s booked at_m fresh' a),
        pay,
        below,
        small,
        rw (modules, self) under,
        rw policies (find_policy-put_policy p.id p s.policies),
      )
