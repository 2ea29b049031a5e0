-- ===== src/RiskModule/Attributes.antt =====
-- Which role may set an attribute of a `RiskModule` (`_validate_setattr`, prototype/ensuro.py).
use ensuro.Prelude.{ℕ, ◌≡◌, refl, Bool, true, false, Option, none, some, if◌then◌else◌}
use ensuro.Prelude.Calls.{Fault, Result, ok, err, ◌>>=◌, ◌>>◌, require}
use ensuro.Roles.{RoleName, Role, Caller}

-- The attributes that the class declares, and any other one.
pub data Attribute : Type 0 where
  moc jr_coll_ratio coll_ratio ensuro_pp_fee ensuro_coc_fee jr_roc sr_roc : Attribute
  max_payout_per_policy exposure_limit active_exposure max_duration wallet : Attribute
  other_attribute : ℕ → Attribute

-- The dictionary `pool_set_attr_roles`.
unfoldable pub pool_set_attr_roles : Attribute → Option RoleName
pool_set_attr_roles moc = some RoleName.level2
pool_set_attr_roles jr_coll_ratio = some RoleName.level2
pool_set_attr_roles coll_ratio = some RoleName.level2
pool_set_attr_roles ensuro_pp_fee = some RoleName.level2
pool_set_attr_roles ensuro_coc_fee = none
pool_set_attr_roles jr_roc = some RoleName.level2
pool_set_attr_roles sr_roc = some RoleName.level2
pool_set_attr_roles max_payout_per_policy = some RoleName.level2
pool_set_attr_roles exposure_limit = some RoleName.level1
pool_set_attr_roles active_exposure = none
pool_set_attr_roles max_duration = some RoleName.level2
pool_set_attr_roles wallet = none
pool_set_attr_roles (other_attribute n) = none

-- The dictionary `pool_component_set_attr_roles`.
unfoldable pub pool_component_set_attr_roles : Attribute → Option RoleName
pool_component_set_attr_roles wallet = some RoleName.rm_provider
pool_component_set_attr_roles _ = none

-- The role that a dictionary asks for, if it asks for one.
unfoldable pub require_role : Caller → (RoleName → Role) → Option RoleName → Result (Unit {0})
require_role c where_granted none = ok tt
require_role c where_granted (some r) =
    require (c.has_role (where_granted r) (some c.running_as)) Fault.missing_role

-- `parent` is what the inherited `_validate_setattr` says.
unfoldable pub validate_setattr : Caller → ℕ → Attribute → Result (Unit {0}) → Result (Unit {0})
validate_setattr c contract_id attr parent = do
  require_role c Role.everywhere (pool_set_attr_roles attr)
  require_role c (λ r. Role.component r contract_id) (pool_component_set_attr_roles attr)
  parent

-- The attributes that no dictionary names: of the percentages, the fee on the cost of capital alone.
unfoldable pub is_open : Attribute → Bool
is_open ensuro_coc_fee = true
is_open active_exposure = true
is_open (other_attribute n) = true
is_open _ = false

refused :
    (t : Bool) (m : Result (Unit {0}))
    → t ≡ false
    → (require t Fault.missing_role >> m) ≡ err Fault.missing_role
unfolding ◌>>=◌
refused true m h = cc
refused false m h = refl

-- A caller that has no role can set an attribute, as far as the roles decide, exactly if it is the fee
-- on the cost of capital, the active exposure, or none that the class declares. For every other
-- attribute a role is missing.
pub validate_setattr-no_role :
    (c : Caller) (contract_id : ℕ) (attr : Attribute)
    → ((role : Role) (a : Option ℕ) → c.has_role role a ≡ false)
    → validate_setattr c contract_id attr (ok tt)
      ≡ (if is_open attr then ok tt else err Fault.missing_role)
unfolding validate_setattr require_role pool_set_attr_roles pool_component_set_attr_roles is_open
    ◌>>=◌
validate_setattr-no_role c contract_id moc h =
    refused _ _ (h (Role.everywhere RoleName.level2) (some c.running_as))
validate_setattr-no_role c contract_id jr_coll_ratio h =
    refused _ _ (h (Role.everywhere RoleName.level2) (some c.running_as))
validate_setattr-no_role c contract_id coll_ratio h =
    refused _ _ (h (Role.everywhere RoleName.level2) (some c.running_as))
validate_setattr-no_role c contract_id ensuro_pp_fee h =
    refused _ _ (h (Role.everywhere RoleName.level2) (some c.running_as))
validate_setattr-no_role c contract_id ensuro_coc_fee h = refl
validate_setattr-no_role c contract_id jr_roc h =
    refused _ _ (h (Role.everywhere RoleName.level2) (some c.running_as))
validate_setattr-no_role c contract_id sr_roc h =
    refused _ _ (h (Role.everywhere RoleName.level2) (some c.running_as))
validate_setattr-no_role c contract_id max_payout_per_policy h =
    refused _ _ (h (Role.everywhere RoleName.level2) (some c.running_as))
validate_setattr-no_role c contract_id exposure_limit h =
    refused _ _ (h (Role.everywhere RoleName.level1) (some c.running_as))
validate_setattr-no_role c contract_id active_exposure h = refl
validate_setattr-no_role c contract_id max_duration h =
    refused _ _ (h (Role.everywhere RoleName.level2) (some c.running_as))
validate_setattr-no_role c contract_id wallet h =
    refused _ _ (h (Role.component RoleName.rm_provider contract_id) (some c.running_as))
validate_setattr-no_role c contract_id (other_attribute n) h = refl
