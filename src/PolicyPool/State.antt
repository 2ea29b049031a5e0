-- ===== src/PolicyPool/State.antt =====
-- The state of `PolicyPool`: the active policies, the premiums accounts and risk modules by address,
-- the policy NFTs and the world (prototype/ensuro.py).
use ensuro.Prelude.{ℕ, ◌*◌, ◌^◌, Option, none, some, List, [], ◌∷◌, ◌==◌, if◌then◌else◌}
use ensuro.Prelude.Int.{ℤ, pos, ◌+ℤ◌, ◌=?◌}
use ensuro.Prelude.Calls.{Result}
use ensuro.Policy.{Policy}
use ensuro.RiskModule.State.{RiskModule}
use ensuro.PremiumsAccount.State.{PremiumsAccount}
use ensuro.World.{World}

-- The inherited `ERC721Token` of ethproto with its state `N`, and `md5` of a contract id as
-- a number.
pub record Nft (N : Type 0) : Type 0 where
  pub mint : ℕ → ℤ → N → Result N
  pub owner_of : N → ℤ → Result ℕ
  pub digest : ℕ → ℕ

-- The dictionary `policies`.
abbrev pub Policies : Type 0
Policies = List (ℤ × Policy)

unfoldable pub find_policy : ℤ → Policies → Option Policy
find_policy k [] = none
find_policy k ((j, v) ∷ d) = if k =? j then some v else find_policy k d

-- `policies[id] = policy`
unfoldable pub put_policy : ℤ → Policy → Policies → Policies
put_policy k v [] = (k, v) ∷ []
put_policy k v ((j, u) ∷ d) = if k =? j then (k, v) ∷ d else (j, u) ∷ put_policy k v d

-- `del policies[id]`, where it is known that the key is there
unfoldable pub remove_policy : ℤ → Policies → Policies
remove_policy k [] = []
remove_policy k ((j, u) ∷ d) = if k =? j then d else (j, u) ∷ remove_policy k d

pub record Pool (L W N : Type 0) : Type 0 where
  pub contract_id : ℕ
  pub treasury : ℕ
  pub policies : Policies
  -- `etokens`, `premiums_accounts` and the names of `risk_modules`, with addresses
  pub etokens : List (ℕ × ℕ)
  pub premiums_accounts : List ℕ
  pub module_names : List (ℕ × ℕ)
  pub accounts : ℕ → PremiumsAccount
  pub risk_modules : ℕ → RiskModule
  pub nft : N
  pub world : World L W

-- `RiskModule.make_policy_id`
unfoldable pub make_policy_id : (ℕ → ℕ) → ℕ → ℤ → ℤ
make_policy_id digest contract_id internal_id = pos (digest contract_id * 2 ^ 96) +ℤ internal_id

module _ {L W N : Type 0} where
  unfoldable pub put_account : ℕ → PremiumsAccount → Pool L W N → Pool L W N
  put_account a pa s = record s { accounts = λ k. if a == k then pa else s.accounts k }

  unfoldable pub put_risk_module : ℕ → RiskModule → Pool L W N → Pool L W N
  put_risk_module a rm s = record s { risk_modules = λ k. if a == k then rm else s.risk_modules k }
