-- ===== src/Roles.antt =====
-- The access-control decorators of prototype/ensuro.py. `has_role` is that of the pool's access
-- manager, an `AccessControlContract` of `ethproto`, and a parameter of each call.
use ensuro.Prelude.{ℕ, Bool, false, ◌||◌, Option, none, some, List, [], ◌∷◌}
use ensuro.Prelude.Calls.{Fault, Result, require}

pub data RoleName : Type 0 where
  level1 level2 guardian rm_provider pricer resolver replacer : RoleName
  repay_loans withdraw_won_premiums lp_whitelist lp_whitelist_admin : RoleName

-- A role, or the role `f"{role}-{contract_id}"` of one component.
pub data Role : Type 0 where
  everywhere : RoleName → Role
  component : RoleName → ℕ → Role

-- Who runs a call, and the roles that are granted; an open role is granted to `None`.
pub record Caller : Type 0 where
  pub running_as : ℕ
  pub has_role : Role → Option ℕ → Bool

-- The loop over the roles, which the first role that passes breaks.
unfoldable pub any_role : (RoleName → Bool) → List RoleName → Bool
any_role test [] = false
any_role test (r ∷ rs) = test r || any_role test rs

unfoldable pub only_component_role : Caller → ℕ → List RoleName → Result (Unit {0})
only_component_role c contract_id roles =
    require (any_role (λ r. c.has_role (component r contract_id) (some c.running_as)) roles)
      Fault.missing_role

unfoldable pub only_component_or_global_role : Caller → ℕ → List RoleName → Result (Unit {0})
only_component_or_global_role c contract_id roles =
    require
      (any_role
        (λ r.
          c.has_role (component r contract_id) (some c.running_as)
          || c.has_role (everywhere r) (some c.running_as))
        roles)
      Fault.missing_role

unfoldable pub only_component_or_global_or_open_role :
    Caller → ℕ → List RoleName → Result (Unit {0})
only_component_or_global_or_open_role c contract_id roles =
    require
      (any_role
        (λ r.
          c.has_role (component r contract_id) none
          || c.has_role (everywhere r) none
          || c.has_role (component r contract_id) (some c.running_as)
          || c.has_role (everywhere r) (some c.running_as))
        roles)
      Fault.missing_role
