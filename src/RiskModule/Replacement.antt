-- ===== src/RiskModule/Replacement.antt =====
-- What `RiskModule.replace_policy` does to the exposure and to the pool's policies
-- (prototype/ensuro.py).
use ensuro.Prelude.{ℕ, ◌≡◌, ◌∙◌, refl, arith, true, Bool-cases, none, some, inl, inr, ◌==◌}
use ensuro.Prelude.Int.{pos, ◌+ℤ◌, ◌-ℤ◌, ◌≤ℤ◌, ◌<ℤ◌, ≤?_true, <?_true, int_laws}
use ensuro.Prelude.Calls.{
  ok, Returns, returns, Returns-bind, Returns-after, Returns-then, Returns-require, Returns-eq_ok,
}
use ensuro.WadRay.{WadRay}
use ensuro.Outside.{Outside, TokenBase}
use ensuro.Roles.{Caller}
use ensuro.Policy.{Policy, split_at}
use ensuro.Policy.Split.{do_premium_split-Returns}
use ensuro.RiskModule.Underwriting.{Request, replace_policy}
use ensuro.RiskModule.Exposure.{take_exposure-Returns}
use ensuro.PolicyPool.State.{
  Nft, Pool, find_policy, put_policy, remove_policy, make_policy_id, put_risk_module,
}
use ensuro.PolicyPool.Exposure.{share, payouts_of, total-replaced, IsBooked, replace_policy-Returns}

module _ {L W N : Type 0} ⦃w : WadRay⦄ ⦃b : TokenBase L⦄ ⦃o : Outside W⦄ ⦃n : Nft N⦄ where
  -- The result of `replace_policy` on the risk module at `m`.
  Replaces : ℕ → Policy → Request → Pool L W N → Policy × Pool L W N → Type 0
  Replaces m old q s (p, s') =
      (p.payout ≡ q.payout)
      × (old.payout ≤ℤ p.payout)
      × (p.payout ≤ℤ (s.risk_modules m).max_payout_per_policy)
      × (s.world.now <ℤ old.expiration)
      × ((s.risk_modules m).active_exposure +ℤ (p.payout -ℤ old.payout)
          ≤ℤ (s.risk_modules m).exposure_limit)
      × (old.risk_module ≡ p.risk_module)
      × (p.risk_module ≡ (s.risk_modules m).contract_id)
      × (p.id ≡ make_policy_id n.digest p.risk_module q.internal_id)
      × (s'.policies ≡ remove_policy old.id (put_policy p.id p s.policies))
      × (s'.risk_modules
          ≡ (put_risk_module m
              (record (s.risk_modules m) {
                active_exposure = (s.risk_modules m).active_exposure +ℤ (p.payout -ℤ old.payout);
              })
              s).risk_modules)

  replace_policy-Replaces :
      (c : Caller) (m : ℕ) (old : Policy) (q : Request) (s : Pool L W N)
      → find_policy old.id s.policies ≡ some old
      → Returns (Replaces m old q s) (replace_policy c m old q s)
  unfolding replace_policy Replaces split_at put_risk_module
  replace_policy-Replaces c m old q s stored =
      let rm = s.risk_modules m in
      Returns-then _ _ (
        Returns-require _ _ _ λ active. Returns-bind _ _ λ premium _.
          Returns-require _ _ _ λ larger. Returns-require _ _ _ λ below. Returns-require _ _ _ λ _.
            Returns-then _ _ (
              Returns-require _ _ _ λ small.
                Returns-after _ _ (do_premium_split-Returns rm _) λ policy _ split.
                  Returns-after _ _ (take_exposure-Returns (policy.payout -ℤ old.payout) rm)
                    λ rm' _ taken.
                      Returns-after _ _
                        (replace_policy-Returns old policy q.payer q.internal_id _ stored)
                        λ r _ new. Returns-require _ _ _ λ _.
                          let (_, _, _, _, same, _) = split in
                          let (same', under) = taken in
                          let (same_id, same_modules, same_policies, one_module) = new in
                          let pay : policy.payout ≡ q.payout = rw same refl in
                          let own : policy.risk_module ≡ rm.contract_id = rw same refl in
                          let more : old.payout ≤ℤ q.payout = ground arith in
                          returns (
                            rw same_id pay,
                            rw same_id (rw pay more),
                            rw same_id (rw pay (≤?_true q.payout _ small)),
                            <?_true s.world.now old.expiration active,
                            rw same_id under,
                            rw same_id one_module,
                            rw same_id own,
                            rw same_id refl,
                            same_policies,
                            rw (same_modules, same', same_id) refl,
                          )))

  pub replace_policy-policies :
      (c : Caller) (m : ℕ) (old : Policy) (q : Request) (s : Pool L W N) {p : Policy}
      {s' : Pool L W N}
      → find_policy old.id s.policies ≡ some old
      → replace_policy c m old q s ≡ ok (p, s')
      → s'.policies ≡ remove_policy old.id (put_policy p.id p s.policies)
  unfolding Replaces
  replace_policy-policies c m old q s stored replaced =
      (Returns-eq_ok _ (replace_policy-Replaces c m old q s stored) replaced).8

  -- The books where the old policy gives its exposure to the new one.
  booked_instead :
      (m : ℕ) (old new : Policy) (s : Pool L W N)
      → IsBooked s
      → old.risk_module ≡ m
      → new.risk_module ≡ m
      → find_policy old.id s.policies ≡ some old
      → find_policy new.id s.policies ≡ none
      → (a : ℕ)
      → ((put_risk_module m
            (record (s.risk_modules m) {
              active_exposure = (s.risk_modules m).active_exposure +ℤ (new.payout -ℤ old.payout);
            })
            s).risk_modules
          a).active_exposure
        ≡ payouts_of a (remove_policy old.id (put_policy new.id new s.policies))
  unfolding put_risk_module IsBooked share
  booked_instead m old new s booked was at_m stored fresh a =
      let moved = total-replaced (share a) old new s.policies stored fresh in
      elim (Bool-cases (m == a)) [
        | inl same ↦
            let at : (s.risk_modules m).active_exposure ≡ payouts_of a s.policies = grind arith in
            let more : share a new ≡ new.payout = rw (at_m, same) refl in
            let less : share a old ≡ old.payout = rw (was, same) refl in
            rw (same, moved, more, less, at) (omega int_laws)
        | inr other ↦
            let more : share a new ≡ pos 0 = rw (at_m, other) refl in
            let less : share a old ≡ pos 0 = rw (was, other) refl in
            rw (other, moved, more, less, booked a) (omega int_laws)
      ]

  -- A replacement of an active policy by its module, under an id that no policy had, keeps the
  -- books. The old policy had not expired; the new one pays what was asked, not less than the old
  -- one and at most the module's maximum, and the exposure is within the module's limit.
  pub replace_policy-IsBooked :
      (c : Caller) (m : ℕ) (old : Policy) (q : Request) (s : Pool L W N) {p : Policy}
      {s' : Pool L W N}
      → IsBooked s
      → (s.risk_modules m).contract_id ≡ m
      → find_policy old.id s.policies ≡ some old
      → find_policy (make_policy_id n.digest m q.internal_id) s.policies ≡ none
      → replace_policy c m old q s ≡ ok (p, s')
      → IsBooked s'
        × (s.world.now <ℤ old.expiration)
        × (p.payout ≡ q.payout)
        × (old.payout ≤ℤ p.payout)
        × (p.payout ≤ℤ (s.risk_modules m).max_payout_per_policy)
        × ((s'.risk_modules m).active_exposure ≤ℤ (s'.risk_modules m).exposure_limit)
  unfolding Replaces put_risk_module IsBooked
  replace_policy-IsBooked c m old q s {p} {s'} booked own stored fresh replaced =
      let (pay, larger, small, active, under, one_module, module_id, id, policies, modules) =
        Returns-eq_ok _ (replace_policy-Replaces c m old q s stored) replaced in
      let at_m : p.risk_module ≡ m = module_id ∙ own in
      let fresh' : find_policy p.id s.policies ≡ none = rw (id, at_m) fresh in
      let self : (m == m) ≡ true = ground arith in
      (
        λ a.
            rw (modules, policies)
              (booked_instead m old p s booked (one_module ∙ at_m) at_m stored fresh' a),
        active,
        pay,
        larger,
        small,
        rw (modules, self) under,
      )
