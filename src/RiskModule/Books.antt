-- ===== src/RiskModule/Books.antt =====
-- The calls of the pool, of its risk modules, of the premiums accounts and of the eTokens, and the
-- passing of time, as a step relation (prototype/ensuro.py).
use ensuro.Prelude.{ℕ, ◌≡◌, Option, none, some, List}
use ensuro.Prelude.Int.{ℤ, pos, ◌≤ℤ◌}
use ensuro.Prelude.Calls.{ok, Returns, returns, Returns-bind, Returns-eq_ok}
use ensuro.WadRay.{WadRay}
use ensuro.Outside.{Outside, TokenBase}
use ensuro.Roles.{Caller}
use ensuro.Policy.{Policy}
use ensuro.EToken.State.{EToken}
use ensuro.EToken.Steps.{Step}
use ensuro.World.{World, put_etk}
use ensuro.PremiumsAccount.State.{PremiumsAccount}
use ensuro.PremiumsAccount.Calls.{AccountCall}
use ensuro.RiskModule.Underwriting.{Request, new_policy, replace_policy}
use ensuro.RiskModule.Exposure.{new_policy-IsBooked}
use ensuro.RiskModule.Replacement.{replace_policy-IsBooked}
use ensuro.PolicyPool.State.{Nft, Pool, find_policy, make_policy_id, put_account}
use ensuro.PolicyPool.Operations.{Payout, deposit, withdraw, resolve_policy, expire_policies}
use ensuro.PolicyPool.Exposure.{IsBooked, resolve_policy-IsBooked, expire_policies-IsBooked}

module _ (L W N : Type 0) ⦃w : WadRay⦄ ⦃b : TokenBase L⦄ ⦃o : Outside W⦄ ⦃n : Nft N⦄ where
  -- One call that returns, or time that passes. An eToken is called, by others than a premiums
  -- account, for anything but capital.
  pub data Call : Pool L W N → Pool L W N → Type 0 where
    created :
        {s s' : Pool L W N} {p : Policy} (c : Caller) (m : ℕ) (q : Request) (holder : Option ℕ)
        → new_policy c m q holder s ≡ ok (p, s')
        → Call s s'
    replaced :
        {s s' : Pool L W N} {p : Policy} (c : Caller) (m : ℕ) (old : Policy) (q : Request)
        → replace_policy c m old q s ≡ ok (p, s')
        → Call s s'
    resolved :
        {s s' : Pool L W N} (k : ℤ) (asked : Payout) → resolve_policy k asked s ≡ ok s' → Call s s'
    expired : {s s' : Pool L W N} (ks : List ℤ) → expire_policies ks s ≡ ok s' → Call s s'
    deposited :
        {s s' : Pool L W N} {x : ℤ} (etoken provider : ℕ) (amount : ℤ)
        → deposit etoken provider amount s ≡ ok (x, s')
        → Call s s'
    withdrawn :
        {s s' : Pool L W N} {x : ℤ} (etoken provider : ℕ) (amount : Option ℤ)
        → withdraw etoken provider amount s ≡ ok (x, s')
        → Call s s'
    waited :
        {s : Pool L W N} (later : ℤ)
        → s.world.now ≤ℤ later
        → Call s (record s { world = record s.world { now = later } })
    account_called :
        {s : Pool L W N} {pa : PremiumsAccount} {x : World L W} (a : ℕ)
        → AccountCall (s.accounts a) s.world pa x
        → Call s (record (put_account a pa s) { world = x })
    token_called :
        {s : Pool L W N} {e : EToken L} (a : ℕ) (x : W)
        → Step L W (pos 0) (s.world.etk a) e
        → Call s (record s { world = record (put_etk a e s.world) { out = x } })

  pub data History : Pool L W N → Pool L W N → Type 0 where
    start : {s : Pool L W N} → History s s
    then_call : {s s' s'' : Pool L W N} → History s s' → Call s' s'' → History s s''

module _ {L W N : Type 0} ⦃w : WadRay⦄ ⦃b : TokenBase L⦄ ⦃o : Outside W⦄ ⦃n : Nft N⦄ where
  -- A risk module is called at its own address, with an internal id of which no active policy is,
  -- and the policy that it is to replace is the one that the pool has under this id.
  unfoldable pub IsProper : {s s' : Pool L W N} → Call L W N s s' → Type 0
  IsProper (Call.created {s} c m q holder e) =
      ((s.risk_modules m).contract_id ≡ m)
      × (find_policy (make_policy_id n.digest m q.internal_id) s.policies ≡ none)
  IsProper (Call.replaced {s} c m old q e) =
      ((s.risk_modules m).contract_id ≡ m)
      × (find_policy old.id s.policies ≡ some old)
      × (find_policy (make_policy_id n.digest m q.internal_id) s.policies ≡ none)
  IsProper _ = Unit {0}

  unfoldable pub AllProper : {s s' : Pool L W N} → History L W N s s' → Type 0
  AllProper History.start = Unit {0}
  AllProper (History.then_call before call) = AllProper before × IsProper call

  deposit-Returns :
      (etoken provider : ℕ) (amount : ℤ) (s : Pool L W N)
      → IsBooked s
      → Returns (λ r. IsBooked r.1) (deposit etoken provider amount s)
  unfolding deposit IsBooked
  deposit-Returns etoken provider amount s booked =
      Returns-bind _ _ λ token _. Returns-bind _ _ λ x _. Returns-bind _ _ λ r _. returns booked

  withdraw-Returns :
      (etoken provider : ℕ) (amount : Option ℤ) (s : Pool L W N)
      → IsBooked s
      → Returns (λ r. IsBooked r.1) (withdraw etoken provider amount s)
  unfolding withdraw IsBooked
  withdraw-Returns etoken provider amount s booked =
      Returns-bind _ _ λ token _. Returns-bind _ _ λ r _. returns booked

  call-IsBooked :
      {s s' : Pool L W N} (call : Call L W N s s') → IsProper call → IsBooked s → IsBooked s'
  unfolding IsBooked put_account IsProper
  call-IsBooked (Call.created c m q holder e) (own, fresh) v =
      (new_policy-IsBooked c m q holder _ v own fresh e).0
  call-IsBooked (Call.replaced c m old q e) (own, stored, fresh) v =
      (replace_policy-IsBooked c m old q _ v own stored fresh e).0
  call-IsBooked (Call.resolved k asked e) proper v = resolve_policy-IsBooked k asked _ v e
  call-IsBooked (Call.expired ks e) proper v = expire_policies-IsBooked ks _ v e
  call-IsBooked (Call.deposited etoken provider amount e) proper v =
      Returns-eq_ok _ (deposit-Returns etoken provider amount _ v) e
  call-IsBooked (Call.withdrawn etoken provider amount e) proper v =
      Returns-eq_ok _ (withdraw-Returns etoken provider amount _ v) e
  call-IsBooked (Call.waited later h) proper v = v
  call-IsBooked (Call.account_called a call) proper v = v
  call-IsBooked (Call.token_called a x step) proper v = v

  -- In every state that calls, and time between them, lead to from a booked one, each risk module's
  -- active exposure is the sum of the payouts of its active policies, under this condition: risk
  -- modules are called at their own addresses and with internal ids of which no active policy is,
  -- and each policy that is given as the one to replace is the very policy that the pool has stored
  -- under its id. `replace_policy` takes the payout of the given policy, and does not compare it with
  -- the stored one.
  pub History-IsBooked :
      {s s' : Pool L W N}
      → IsBooked s
      → (history : History L W N s s') → AllProper history
      → IsBooked s'
  unfolding AllProper
  History-IsBooked v History.start proper = v
  History-IsBooked v (History.then_call before call) (proper, proper') =
      call-IsBooked call proper' (History-IsBooked v before proper)
