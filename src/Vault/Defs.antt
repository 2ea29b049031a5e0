-- ===== src/Vault/Defs.antt =====
-- `FixedRateVault` (prototype/ensuro.py): a vault whose assets earn a fixed rate. Its shares are an
-- `ERC20Token` of ethproto, and its assets are held in the currency.
use ensuro.Prelude.{ℕ, ◌^◌, not, ◌||◌, ◌==◌, if◌then◌else◌}
use ensuro.Prelude.Int.{ℤ, pos, ◌-ℤ◌, ◌*ℤ◌, negℤ, ◌<?◌, ◌=?◌}
use ensuro.Prelude.Calls.{Fault, Result, ok, ◌>>=◌, ◌>>◌, require}
use ensuro.Prelude.Division.{floordiv}
use ensuro.WadRay.{WadRay}
use ensuro.Outside.{Outside, TokenBase}
use ensuro.ScaledAmount
use ensuro.ScaledAmount.{ScaledAmount, empty_amount, get_scaled_amount}

pub record Vault (L : Type 0) : Type 0 where
  pub contract_id : ℕ
  pub base : L
  pub decimals : ℕ
  -- `asset.decimals`
  pub asset_decimals : ℕ
  pub interest_rate : ℤ
  pub total_assets_ : ScaledAmount
  pub broken : ℤ

unfoldable pub init : {L : Type 0} ⦃w : WadRay⦄ → ℕ → L → ℕ → ℤ → Vault L
init contract_id base asset_decimals interest_rate = record {
  contract_id = contract_id;
  base = base;
  decimals = asset_decimals;
  asset_decimals = asset_decimals;
  interest_rate = interest_rate;
  total_assets_ = empty_amount;
  broken = pos 0;
}

module _ {L : Type 0} ⦃w : WadRay⦄ ⦃b : TokenBase L⦄ where
  unfoldable pub total_assets : ℤ → Vault L → Result ℤ
  total_assets now v = do
    require (v.broken =? pos 0) Fault.vault_broken
    get_scaled_amount now v.interest_rate v.total_assets_

  unfoldable pub convert_to_shares : ℤ → ℤ → Vault L → Result ℤ
  convert_to_shares now assets v =
      let supply = b.total_supply v.base in
      if supply =? pos 0 || (assets =? pos 0)
      then floordiv (assets *ℤ pos (10 ^ v.decimals)) (pos (10 ^ v.asset_decimals))
      else (do total ← total_assets now v; floordiv (assets *ℤ supply) total)

  unfoldable pub convert_to_assets : ℤ → ℤ → Vault L → Result ℤ
  convert_to_assets now shares v =
      let supply = b.total_supply v.base in
      if supply =? pos 0
      then floordiv (shares *ℤ pos (10 ^ v.asset_decimals)) (pos (10 ^ v.decimals))
      else (do total ← total_assets now v; w.int_mul_div shares total supply)

  unfoldable pub discrete_earning : ℤ → ℤ → Vault L → Result (Vault L)
  discrete_earning now assets v = do
    total ←
        (if pos 0 <? assets
          then ScaledAmount.add now assets v.interest_rate v.total_assets_
          else ScaledAmount.sub now (negℤ assets) v.interest_rate v.total_assets_)
    ok (record v { total_assets_ = total })

  unfoldable pub max_withdraw : ℤ → ℕ → Vault L → Result ℤ
  max_withdraw now owner v = convert_to_assets now (b.balance_of v.base owner) v

module _ {W : Type 0} ⦃o : Outside W⦄ where
  -- What the vault lacks in cash is minted.
  unfoldable pub top_up : ℕ → ℤ → W → Result W
  top_up vault assets x =
      let balance = o.balance_of x vault in
      if balance <? assets then o.mint vault (assets -ℤ balance) x else ok x

  unfoldable pub pay_assets : ℕ → ℕ → ℤ → W → Result W
  pay_assets vault receiver assets x =
      if not (assets =? pos 0) then o.transfer vault receiver assets x else ok x

module _ {L W : Type 0} ⦃w : WadRay⦄ ⦃b : TokenBase L⦄ ⦃o : Outside W⦄ where
  -- The result is the shares that are minted.
  unfoldable pub deposit : ℤ → ℕ → ℤ → ℕ → Vault L → W → Result (ℤ × Vault L × W)
  deposit now caller assets receiver v x = do
    shares ← convert_to_shares now assets v
    total ← ScaledAmount.add now assets v.interest_rate v.total_assets_
    x' ← o.transfer_from v.contract_id caller v.contract_id assets x
    base ← b.mint receiver shares v.base
    ok (shares, record v { total_assets_ = total; base = base }, x')

  unfoldable pub withdraw : ℤ → ℕ → ℤ → ℕ → ℕ → Vault L → W → Result (Vault L × W)
  withdraw now caller assets receiver owner v x = do
    require (v.broken =? pos 0) Fault.vault_broken
    shares ← convert_to_shares now assets v
    total ← ScaledAmount.sub now assets v.interest_rate v.total_assets_
    x1 ← top_up v.contract_id assets x
    require (caller == owner) Fault.not_owner
    base ← b.burn owner shares v.base
    x2 ← pay_assets v.contract_id receiver assets x1
    ok (record v { total_assets_ = total; base = base }, x2)
