-- ===== src/RiskModule/Backing.antt =====
-- In every state that calls lead to, each eToken has locked the capital of the active policies
-- (prototype/ensuro.py).
use ensuro.Prelude.{ℕ, ◌≡◌, refl, ap, arith, Bool-cases, Option, none, some, inl, inr}
use ensuro.Prelude.Int.{ℤ, pos, ◌-ℤ◌, ◌≤ℤ◌, ◌<?◌, ◌=?◌, int_laws, <?_false}
use ensuro.Prelude.Calls.{
  Returns, returns, Returns-bind, Returns-found, Returns-require, Returns-after, Returns-then,
  Returns-map, Returns-eq_ok,
}
use ensuro.WadRay.{WadRay, ◌*W◌}
use ensuro.Outside.{Outside, TokenBase}
use ensuro.Roles.{Caller}
use ensuro.Policy.{Policy, Terms, split_at, junior_scr, senior_scr, do_premium_split}
use ensuro.Policy.Split.{do_premium_split-Returns}
use ensuro.RiskModule.State.{RiskModule}
use ensuro.RiskModule.Underwriting.{Request, new_policy, replace_policy}
use ensuro.RiskModule.Exposure.{take_exposure-Returns}
use ensuro.RiskModule.Books.{Call, History, IsProper, AllProper}
use ensuro.EToken.Steps.{step-Moved}
use ensuro.PremiumsAccount.Shifts.{Shifts-nothing, put_etk-Unmoved}
use ensuro.PremiumsAccount.Backing.{LocksNonneg}
use ensuro.PremiumsAccount.Calls.{call-Harmless}
use ensuro.PolicyPool.State.{Nft, Pool, find_policy, make_policy_id, put_account, put_risk_module}
use ensuro.PolicyPool.Locks.{locks, locks-total}
use ensuro.PolicyPool.Backing.{
  IsBacked, IsBacked-after, put_account-SameEtks, unmoved-IsBacked, put_risk_module-IsBacked,
  new_policy-Backed, replace_policy-Backed, resolve_policy-Backed, expire_policies-Backed,
  deposit-Backed, withdraw-Backed,
}

module _ ⦃w : WadRay⦄ where
  junior_scr-nonneg : (rm : RiskModule) (payout pure : ℤ) → pos 0 ≤ℤ junior_scr rm payout pure
  unfolding junior_scr
  junior_scr-nonneg rm payout pure = elim (Bool-cases (rm.jr_coll_ratio =? pos 0)) [
    | inl none_wanted ↦ rw none_wanted (omega arith)
    | inr wanted ↦ rw wanted (elim (Bool-cases ((payout *W rm.jr_coll_ratio) <? pure)) [
      | inl covered ↦ rw covered (omega arith)
      | inr short ↦
          let above = <?_false (payout *W rm.jr_coll_ratio) pure short in rw short (omega int_laws)
    ])
  ]

  senior_scr-nonneg : (rm : RiskModule) (payout pure jr : ℤ) → pos 0 ≤ℤ senior_scr rm payout pure jr
  unfolding senior_scr
  senior_scr-nonneg rm payout pure jr = ground arith

  split-LocksNonneg :
      (rm : RiskModule) (t : Terms)
      → Returns (λ p. LocksNonneg p × (p.risk_module ≡ rm.contract_id)) (do_premium_split rm t)
  unfolding split_at
  split-LocksNonneg rm t = Returns-map _ (do_premium_split-Returns rm t) λ p (a, b, _, _, same, _).
      let pure = t.payout *W t.loss_prob *W rm.moc in
      rw same (
        (
          senior_scr-nonneg rm t.payout pure (junior_scr rm t.payout pure),
          junior_scr-nonneg rm t.payout pure,
        ),
        refl,
      )

module _ {L W N : Type 0} ⦃w : WadRay⦄ ⦃b : TokenBase L⦄ ⦃o : Outside W⦄ ⦃n : Nft N⦄
    (senior junior : ℕ → Option ℕ) where
  new_policy-Returns :
      (c : Caller) (m : ℕ) (q : Request) (holder : Option ℕ) (s : Pool L W N)
      → IsBacked senior junior s
      → (s.risk_modules m).contract_id ≡ m
      → find_policy (make_policy_id n.digest m q.internal_id) s.policies ≡ none
      → Returns (λ r. IsBacked senior junior r.1) (new_policy c m q holder s)
  unfolding new_policy put_risk_module
  new_policy-Returns c m q holder s v own fresh =
      let rm = s.risk_modules m in
      Returns-bind _ _ λ premium _. Returns-require _ _ _ λ _. Returns-require _ _ _ λ _.
        Returns-require _ _ _ λ _. Returns-found _ _ _ λ customer _. Returns-then _ _ (
          Returns-require _ _ _ λ _.
            Returns-after _ _ (split-LocksNonneg rm _) λ policy _ (nonneg, at).
              Returns-after _ _ (take_exposure-Returns policy.payout rm) λ rm' _ (taken, _).
                Returns-after _ _
                  (new_policy-Backed senior junior policy q.payer customer q.internal_id _
                    (put_risk_module-IsBacked senior junior m rm' s
                      (ap (λ t. t.premiums_account) taken) v)
                    nonneg (rw (at, own) fresh))
                  λ r _ v'. Returns-require _ _ _ λ _. returns v')

  replace_policy-Returns :
      (c : Caller) (m : ℕ) (old : Policy) (q : Request) (s : Pool L W N)
      → IsBacked senior junior s
      → (s.risk_modules m).contract_id ≡ m
      → find_policy old.id s.policies ≡ some old
      → find_policy (make_policy_id n.digest m q.internal_id) s.policies ≡ none
      → Returns (λ r. IsBacked senior junior r.1) (replace_policy c m old q s)
  unfolding replace_policy put_risk_module
  replace_policy-Returns c m old q s v own stored fresh =
      let rm = s.risk_modules m in
      Returns-then _ _ (
        Returns-require _ _ _ λ _. Returns-bind _ _ λ premium _. Returns-require _ _ _ λ _.
          Returns-require _ _ _ λ _. Returns-require _ _ _ λ _. Returns-then _ _ (
            Returns-require _ _ _ λ _.
              Returns-after _ _ (split-LocksNonneg rm _) λ policy _ (nonneg, at).
                Returns-after _ _ (take_exposure-Returns (policy.payout -ℤ old.payout) rm)
                  λ rm' _ (taken, _).
                    Returns-after _ _
                      (replace_policy-Backed senior junior old policy q.payer q.internal_id _
                        (put_risk_module-IsBacked senior junior m rm' s
                          (ap (λ t. t.premiums_account) taken) v)
                        nonneg stored (rw (at, own) fresh))
                      λ r _ v'. Returns-require _ _ _ λ _. returns v'))

  call-IsBacked :
      {s s' : Pool L W N} (call : Call L W N s s')
      → IsProper call
      → IsBacked senior junior s
      → IsBacked senior junior s'
  unfolding put_account IsProper
  call-IsBacked (Call.created c m q holder e) (own, fresh) v =
      Returns-eq_ok _ (new_policy-Returns c m q holder _ v own fresh) e
  call-IsBacked (Call.replaced c m old q e) (own, stored, fresh) v =
      Returns-eq_ok _ (replace_policy-Returns c m old q _ v own stored fresh) e
  call-IsBacked (Call.resolved k asked e) proper v =
      Returns-eq_ok _ (resolve_policy-Backed senior junior k asked _ v) e
  call-IsBacked (Call.expired ks e) proper v =
      Returns-eq_ok _ (expire_policies-Backed senior junior ks _ v) e
  call-IsBacked (Call.deposited etoken provider amount e) proper v =
      Returns-eq_ok _ (deposit-Backed senior junior etoken provider amount _ v) e
  call-IsBacked (Call.withdrawn etoken provider amount e) proper v =
      Returns-eq_ok _ (withdraw-Backed senior junior etoken provider amount _ v) e
  call-IsBacked {s} (Call.waited later after) proper v =
      unmoved-IsBacked senior junior s _ v (record { scr_of = (Shifts-nothing s.world).scr_of })
  call-IsBacked {s} (Call.account_called {pa = pa} {x = x} a call) proper v =
      let (same, shifts) = call-Harmless call in
      IsBacked-after senior junior s (record (put_account a pa s) { world = x }) (λ k. pos 0) v
        (λ m. refl) (put_account-SameEtks senior junior a pa s same) shifts (λ k. omega int_laws)
        v.all_lock
  call-IsBacked {s} (Call.token_called {e = e} a x step) proper v =
      let moved = step-Moved step in
      unmoved-IsBacked senior junior s _ v
        (put_etk-Unmoved a e x s.world (rw moved.capital (omega int_laws)))

  -- In every state that calls, and time between them, lead to from a backed one, whatever the currency
  -- and the asset managers do, each eToken has locked exactly the sum of what the active policies
  -- lock in it: the senior capital of the policies whose risk module's account has it as its senior
  -- eToken, and the junior capital of those whose account has it as its junior one. No policy locks
  -- less than nothing. The condition is that risk modules are called at their own addresses and with
  -- internal ids of which no active policy is, and that each policy given as the one to replace is
  -- the one that the pool has stored under its id.
  pub History-IsBacked :
      {s s' : Pool L W N}
      → IsBacked senior junior s
      → (history : History L W N s s') → AllProper history
      → IsBacked senior junior s'
  unfolding AllProper
  History-IsBacked v History.start proper = v
  History-IsBacked v (History.then_call before call) (proper, proper') =
      call-IsBacked call proper' (History-IsBacked v before proper)

  -- In every state that calls, and time between them, lead to from a backed one, an active policy locks
  -- in no eToken more than the eToken has locked, so that the check of `unlock_scr` on the SCR passes
  -- when it is resolved. The calls meet a condition: modules at their own addresses,
  -- fresh internal ids, and replacements of policies as the pool has stored them.
  pub History-locks :
      {s s' : Pool L W N} {p : Policy} (k : ℤ) (a : ℕ)
      → IsBacked senior junior s
      → (history : History L W N s s') → AllProper history
      → find_policy k s'.policies ≡ some p
      → locks senior junior a p ≤ℤ (s'.world.etk a).scr
  History-locks {s' = s'} k a v history proper found =
      let v' = History-IsBacked v history proper in
      rw (v'.backed a) (locks-total senior junior a k s'.policies v'.all_lock found)
