-- ===== src/PolicyPool/Backing.antt =====
-- The capital that the eTokens have locked, against the active policies (prototype/ensuro.py).
use ensuro.Prelude.{
  ℕ, ◌≡◌, refl, sym, ◌∙◌, ap, arith, Bool-cases, Option, none, some, inl, inr, List, [], ◌∷◌, ◌==◌,
}
use ensuro.Prelude.Int.{ℤ, pos, ◌+ℤ◌, negℤ, ◌<?◌, int_laws}
use ensuro.Prelude.Calls.{
  Returns, returns, Returns-bind, Returns-found, Returns-after, Returns-require,
}
use ensuro.WadRay.{WadRay}
use ensuro.Outside.{Outside, TokenBase}
use ensuro.Policy.{Policy}
use ensuro.RiskModule.State.{RiskModule}
use ensuro.World.{World}
use ensuro.PremiumsAccount.State.{PremiumsAccount}
use ensuro.EToken.Movements.{deposit-Returns, withdraw_lem}
use ensuro.PremiumsAccount.Shifts.{Shifts, Shifts-out, put_etk-Unmoved}
use ensuro.PremiumsAccount.Backing.{
  SameEtks, LocksNonneg, of_account, created-Shifts, replaced-Shifts, resolved-Shifts,
  expired-Shifts,
}
use ensuro.PolicyPool.State.{Nft, Pool, find_policy, make_policy_id, put_account, put_risk_module}
use ensuro.PolicyPool.Exposure.{
  total, total-remove_policy, total-put_policy, total-replaced, not_smaller_module,
}
use ensuro.PolicyPool.Operations.{
  Payout, payout_of, account_of, close_policy, release_exposure, settle, deposit, withdraw,
  new_policy, replace_policy, resolve_policy, expire_policy, expire_policies,
}
use ensuro.PolicyPool.Locks.{AllLock, AllLock-find, AllLock-put, AllLock-remove, locks}

module _ {L W N : Type 0} (senior junior : ℕ → Option ℕ) where
  -- Each risk module's account uses these eTokens, and each eToken has locked what the active policies
  -- lock in it.
  pub record IsBacked (s : Pool L W N) : Type 0 where
    pub backed : (a : ℕ) → (s.world.etk a).scr ≡ total (locks senior junior a) s.policies
    pub routed :
        (m : ℕ)
        → ((s.accounts (s.risk_modules m).premiums_account).senior_etk ≡ senior m)
          × ((s.accounts (s.risk_modules m).premiums_account).junior_etk ≡ junior m)
    pub all_lock : AllLock s.policies

  -- A call that keeps the eTokens of each account and the account of each risk module, and locks
  -- `f` more, as do the policies.
  pub IsBacked-after :
      (s s' : Pool L W N) (f : ℕ → ℤ)
      → IsBacked s
      → ((m : ℕ) → (s'.risk_modules m).premiums_account ≡ (s.risk_modules m).premiums_account)
      → ((k : ℕ) → SameEtks (s.accounts k) (s'.accounts k))
      → Shifts f s.world s'.world
      → ((a : ℕ)
          → total (locks senior junior a) s'.policies
            ≡ total (locks senior junior a) s.policies +ℤ f a)
      → AllLock s'.policies
      → IsBacked s'
  IsBacked-after s s' f v modules accounts shifts sums all = record {
    backed = λ a. rw (shifts.scr_of a, sums a, v.backed a) refl;
    routed = λ m.
        let same = accounts (s.risk_modules m).premiums_account in
        let route = v.routed m in rw (modules m) (same.0 ∙ route.0, same.1 ∙ route.1);
    all_lock = all;
  }

  of_account-locks :
      (s : Pool L W N) (p : Policy) (a : ℕ)
      → IsBacked s
      → of_account (s.accounts (account_of p s)) a p ≡ locks senior junior a p
  unfolding account_of
  of_account-locks s p a v = let route = v.routed p.risk_module in rw (route.0, route.1) refl

  pub put_account-SameEtks :
      (k : ℕ) (pa : PremiumsAccount) (s : Pool L W N)
      → SameEtks (s.accounts k) pa
      → (j : ℕ) → SameEtks (s.accounts j) ((put_account k pa s).accounts j)
  unfolding put_account
  put_account-SameEtks k pa s same j = elim (Bool-cases (k == j)) [
    | inl here ↦ (let at : k ≡ j = ground arith in rw (here, ← at) same)
    | inr other ↦ rw other (refl, refl)
  ]

  pub put_risk_module-IsBacked :
      (m : ℕ) (rm : RiskModule) (s : Pool L W N)
      → rm.premiums_account ≡ (s.risk_modules m).premiums_account
      → IsBacked s
      → IsBacked (put_risk_module m rm s)
  unfolding put_risk_module
  put_risk_module-IsBacked m rm s same v = record {
    backed = v.backed;
    routed = λ k. elim (Bool-cases (m == k)) [
      | inl here ↦
          (let at : m ≡ k = ground arith in let route = v.routed k in rw (here, same, at) route)
      | inr other ↦ rw other (v.routed k)
    ];
    all_lock = v.all_lock;
  }

  close_policy-IsBacked :
      (k : ℤ) (p : Policy) (pa : PremiumsAccount) (x : World L W) (s : Pool L W N)
      → IsBacked s
      → find_policy k s.policies ≡ some p
      → SameEtks (s.accounts (account_of p s)) pa
      → Shifts (λ a. negℤ (of_account (s.accounts (account_of p s)) a p)) s.world x
      → IsBacked (close_policy p k (record (put_account (account_of p s) pa s) { world = x }))
  unfolding close_policy put_risk_module release_exposure put_account
  close_policy-IsBacked k p pa x s v found same shifts =
      IsBacked-after s _ _ v
        (λ m. elim (Bool-cases (p.risk_module == m)) [
          | inl own ↦
              (let at : p.risk_module ≡ m = ground arith in
                rw own (ap (λ j. (s.risk_modules j).premiums_account) at))
          | inr other ↦ rw other refl
        ])
        (put_account-SameEtks (account_of p s) pa s same) shifts
        (λ a.
          rw
            (
              total-remove_policy (locks senior junior a) k s.policies found,
              of_account-locks s p a v,
            )
            (omega int_laws))
        (AllLock-remove k s.policies v.all_lock)

module _ {L W N : Type 0} ⦃w : WadRay⦄ ⦃b : TokenBase L⦄ ⦃o : Outside W⦄ ⦃n : Nft N⦄
    (senior junior : ℕ → Option ℕ) where
  settle-Returns :
      (p : Policy) (payout : ℤ) (s : Pool L W N)
      → let pa = s.accounts (account_of p s) in
        Returns
          (λ r. SameEtks pa r.0 × Shifts (λ a. negℤ (of_account pa a p)) s.world r.1)
          (settle p payout s)
  unfolding settle
  settle-Returns p payout s = elim (Bool-cases (pos 0 <? payout)) [
    | inl won ↦ rw won (
        Returns-bind _ _ λ owner _.
          Returns-after _ _ (resolved-Shifts owner p payout (s.accounts (account_of p s)) s.world)
            λ r _ h. returns h)
    | inr lost ↦ rw lost (expired-Shifts p (s.accounts (account_of p s)) s.world)
  ]

  pub resolve_policy-Backed :
      (k : ℤ) (asked : Payout) (s : Pool L W N)
      → IsBacked senior junior s
      → Returns (IsBacked senior junior) (resolve_policy k asked s)
  unfolding resolve_policy
  resolve_policy-Backed k asked s v = Returns-found _ _ _ λ p found. Returns-require _ _ _ λ _.
      Returns-after _ _ (settle-Returns p (payout_of p asked) s) λ r _ (same, shifts).
        returns (close_policy-IsBacked senior junior k p r.0 r.1 s v found same shifts)

  pub expire_policies-Backed :
      (ks : List ℤ) (s : Pool L W N)
      → IsBacked senior junior s
      → Returns (IsBacked senior junior) (expire_policies ks s)
  unfolding expire_policies expire_policy
  expire_policies-Backed [] s v = returns v
  expire_policies-Backed (k ∷ ks) s v =
      Returns-after _ _
        (Returns-found _ _ _ λ p _. Returns-require _ _ _ λ _. resolve_policy-Backed k _ s v)
        λ s' _ v'. expire_policies-Backed ks s' v'

  pub unmoved-IsBacked :
      (s : Pool L W N) (x : World L W)
      → IsBacked senior junior s
      → Shifts (λ a. pos 0) s.world x
      → IsBacked senior junior (record s { world = x })
  unmoved-IsBacked s x v shifts =
      IsBacked-after senior junior s (record s { world = x }) (λ a. pos 0) v (λ m. refl)
        (λ k. (refl, refl)) shifts (λ a. omega int_laws) v.all_lock

  pub deposit-Backed :
      (name provider : ℕ) (amount : ℤ) (s : Pool L W N)
      → IsBacked senior junior s
      → Returns (λ r. IsBacked senior junior r.1) (deposit name provider amount s)
  unfolding deposit
  deposit-Backed name provider amount s v = Returns-bind _ _ λ token _. Returns-bind _ _ λ x _.
      Returns-after _ _ (deposit-Returns s.world.now provider amount (s.world.etk token) x)
        λ r _ kept. returns (unmoved-IsBacked s _ v (put_etk-Unmoved token r.1 x s.world kept.1))

  pub withdraw-Backed :
      (name provider : ℕ) (amount : Option ℤ) (s : Pool L W N)
      → IsBacked senior junior s
      → Returns (λ r. IsBacked senior junior r.1) (withdraw name provider amount s)
  unfolding withdraw
  withdraw-Backed name provider amount s v = Returns-bind _ _ λ token _.
      Returns-bind _ _ λ r withdrawn.
        let (_, _, _, _, _, _, kept) =
          withdraw_lem s.world.now provider amount (s.world.etk token) s.world.out withdrawn in
        returns (unmoved-IsBacked s _ v (put_etk-Unmoved token r.1 r.2 s.world kept.1))

  pub new_policy-Backed :
      (policy : Policy) (payer holder : ℕ) (internal_id : ℤ) (s : Pool L W N)
      → IsBacked senior junior s
      → LocksNonneg policy
      → find_policy (make_policy_id n.digest policy.risk_module internal_id) s.policies ≡ none
      → Returns (λ r. IsBacked senior junior r.1) (new_policy policy payer holder internal_id s)
  unfolding new_policy put_account
  new_policy-Backed policy payer holder internal_id s v nonneg fresh =
      let p = record policy { id = make_policy_id n.digest policy.risk_module internal_id } in
      Returns-bind _ _ λ nft _.
        Returns-after _ _ (created-Shifts p (s.accounts (account_of p s)) s.world)
          λ r _ (same, shifts). Returns-bind _ _ λ x _. returns (
            IsBacked-after senior junior s _ _ v (λ m. refl)
              (put_account-SameEtks senior junior (account_of p s) r.0 s same) (Shifts-out x shifts)
              (λ a.
                rw
                  (
                    total-put_policy (locks senior junior a) p.id p s.policies fresh,
                    of_account-locks senior junior s p a v,
                  )
                  refl)
              (AllLock-put p.id p s.policies nonneg v.all_lock))

  pub replace_policy-Backed :
      (old policy : Policy) (payer : ℕ) (internal_id : ℤ) (s : Pool L W N)
      → IsBacked senior junior s
      → LocksNonneg policy
      → find_policy old.id s.policies ≡ some old
      → find_policy (make_policy_id n.digest policy.risk_module internal_id) s.policies ≡ none
      → Returns (λ r. IsBacked senior junior r.1) (replace_policy old.id policy payer internal_id s)
  unfolding replace_policy put_account account_of
  replace_policy-Backed old policy payer internal_id s v nonneg stored fresh =
      let p = record policy { id = make_policy_id n.digest policy.risk_module internal_id } in
      let old_nonneg = AllLock-find old.id s.policies v.all_lock stored in
      Returns-found _ _ _ λ old' found.
        let same_old : old' ≡ old = cc in
        rw same_old (
          Returns-require _ _ _ λ _. Returns-require _ _ _ λ larger. Returns-bind _ _ λ holder _.
            Returns-bind _ _ λ nft _.
              let one_module = not_smaller_module old policy larger in
              Returns-after _ _
                (replaced-Shifts old p (s.accounts (account_of p s)) s.world old_nonneg nonneg)
                λ r _ (same, shifts). Returns-bind _ _ λ x _. returns (
                  IsBacked-after senior junior s _ _ v (λ m. refl)
                    (put_account-SameEtks senior junior (account_of p s) r.0 s same)
                    (Shifts-out x shifts)
                    (λ a.
                      let mine = of_account-locks senior junior s p a v in
                      let theirs =
                        ap (λ m. of_account (s.accounts (s.risk_modules m).premiums_account) a old)
                          (sym one_module)
                        ∙ of_account-locks senior junior s old a v in
                      rw
                        (
                          total-replaced (locks senior junior a) old p s.policies stored fresh,
                          mine,
                          theirs,
                        )
                        (omega int_laws))
                    (AllLock-remove old.id _ (AllLock-put p.id p s.policies nonneg v.all_lock))))
