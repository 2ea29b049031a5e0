-- ===== src/RiskModule/Callers.antt =====
-- Whose allowances `RiskModule.replace_policy` asks for (prototype/ensuro.py).
use ensuro.Prelude.{ℕ, ◌≡◌, refl, sym, ◌∙◌, ap, arith, Bool, true, false, some, [], ◌∷◌}
use ensuro.Prelude.Int.{pos, ◌≤ℤ◌, ◌≤?◌, ≤?_true}
use ensuro.Prelude.Calls.{Fault, Result, ok, err, ◌>>=◌, ◌>>◌, require}
use ensuro.WadRay.{WadRay}
use ensuro.Outside.{Outside, TokenBase}
use ensuro.Roles.{RoleName, Role, Caller, any_role, only_component_role}
use ensuro.Policy.{Policy}
use ensuro.RiskModule.Underwriting.{Request, replace_policy}
use ensuro.RiskModule.Allowances.{check_allowances-replacement}
use ensuro.PolicyPool.State.{Nft, Pool}

-- Two calls that go on in the same way end in the same way.
bind_same :
    {A B : Type 0} (m : Result A) (f g : A → Result B)
    → ((a : A) → f a ≡ g a)
    → (m >>= f) ≡ (m >>= g)
unfolding ◌>>=◌
bind_same (ok a) f g same = same a
bind_same (err e) f g same = refl

require_same :
    {A : Type 0} (t : Bool) (e : Fault) (m m' : Result A)
    → (t ≡ true → m ≡ m')
    → (require t e >> m) ≡ (require t e >> m')
unfolding ◌>>=◌
require_same true e m m' same = same refl
require_same false e m m' same = refl

then_same : {A : Type 0} (m m' : Result (Unit {0})) (k : Result A) → m ≡ m' → (m >> k) ≡ (m' >> k)
then_same m m' k same = ap (λ t. t >> k) same

role_passes :
    (c : Caller) (contract_id : ℕ)
    → c.has_role (Role.component RoleName.replacer contract_id) (some c.running_as) ≡ true
    → only_component_role c contract_id (RoleName.replacer ∷ []) ≡ ok tt
unfolding only_component_role any_role
role_passes c contract_id has = rw has refl

module _ {L W N : Type 0} ⦃w : WadRay⦄ ⦃b : TokenBase L⦄ ⦃o : Outside W⦄ ⦃n : Nft N⦄ where
  -- A caller that may replace the policies of the module, and to which the payer's allowance is not
  -- negative.
  pub record MayReplace (m : ℕ) (q : Request) (s : Pool L W N) (c : Caller) : Type 0 where
    pub has_role :
        c.has_role
          (Role.component RoleName.replacer (s.risk_modules m).contract_id)
          (some c.running_as)
        ≡ true
    pub allowed : pos 0 ≤ℤ o.allowance s.world.out q.payer c.running_as

  -- A replacement ends in the same way for all callers that have the role for it, whatever the payer
  -- allows them, if that is not negative: the check of the caller's allowance never fails.
  pub replace_policy-any_caller :
      (c c' : Caller) (m : ℕ) (old : Policy) (q : Request) (s : Pool L W N)
      → MayReplace m q s c
      → MayReplace m q s c'
      → replace_policy c m old q s ≡ replace_policy c' m old q s
  unfolding replace_policy
  replace_policy-any_caller c c' m old q s may may' =
      let rm = s.risk_modules m in
      rw (role_passes c rm.contract_id may.has_role, role_passes c' rm.contract_id may'.has_role)
        (bind_same _ _ _ λ done. require_same _ _ _ _ λ _. bind_same _ _ _ λ premium.
          require_same _ _ _ _ λ larger. require_same _ _ _ _ λ _. require_same _ _ _ _ λ _.
            let test : (old.premium ≤? premium) ≡ true = ground arith in
            let more = ≤?_true old.premium premium test in
            then_same _ _ _ (
              check_allowances-replacement c s.contract_id q.payer old.premium premium s.world.out
                more may.allowed
              ∙ sym (
                  check_allowances-replacement c' s.contract_id q.payer old.premium premium
                    s.world.out more may'.allowed)))
