-- ===== src/AssetManager/Vaults.antt =====
-- `ERC4626AssetManager` and `ERC4626PlusVaultAssetManager` (prototype/ensuro.py), with vaults that
-- are `FixedRateVault`s: they provide the interface `Hooks`.
use ensuro.Prelude.{ℕ, not, Option, none, some, if◌then◌else◌}
use ensuro.Prelude.Int.{ℤ, pos, ◌+ℤ◌, ◌-ℤ◌, ◌=?◌, min}
use ensuro.Prelude.Calls.{Result, ok, ◌>>=◌}
use ensuro.WadRay.{WadRay}
use ensuro.Outside.{Outside, TokenBase}
use ensuro.Vault.Defs.{Vault, convert_to_assets, max_withdraw, deposit, withdraw}
use ensuro.PremiumsAccount.State.{max_uint}
use ensuro.AssetManager.Defs.{Hooks}

-- What the managers act on: the reserve's books `R`, the vaults and the currency. The manager of
-- one vault leaves `discretionary` alone.
pub record Fund (L W R : Type 0) : Type 0 where
  pub books : R
  pub vault : Vault L
  pub discretionary : Vault L
  pub out : W

-- A withdrawal of an amount other than 0.
unfoldable pub if_some : {S : Type 0} → (ℤ → S → Result S) → ℤ → S → Result S
if_some call amount s = if not (amount =? pos 0) then call amount s else ok s

-- The `amount` that is given, or all that can be withdrawn.
unfoldable pub amount_or_all : Option ℤ → Result ℤ → Result ℤ
amount_or_all none all = all
amount_or_all (some amount) all = if amount =? max_uint then all else ok amount

module _ {L W R : Type 0} ⦃w : WadRay⦄ ⦃b : TokenBase L⦄ ⦃o : Outside W⦄ (now : ℤ)
    (reserve : ℕ) where
  -- `self.vault.deposit(self.reserve, amount, self.reserve)`, and so for a withdrawal and for the
  -- other vault
  unfoldable pub vault_deposit : ℤ → Fund L W R → Result (Fund L W R)
  vault_deposit amount s = do
    r ← deposit now reserve amount reserve s.vault s.out
    ok (record s { vault = r.1; out = r.2 })

  unfoldable pub vault_withdraw : ℤ → Fund L W R → Result (Fund L W R)
  vault_withdraw amount s = do
    r ← withdraw now reserve amount reserve reserve s.vault s.out
    ok (record s { vault = r.0; out = r.1 })

  unfoldable pub discretionary_deposit : ℤ → Fund L W R → Result (Fund L W R)
  discretionary_deposit amount s = do
    r ← deposit now reserve amount reserve s.discretionary s.out
    ok (record s { discretionary = r.1; out = r.2 })

  unfoldable pub discretionary_withdraw : ℤ → Fund L W R → Result (Fund L W R)
  discretionary_withdraw amount s = do
    r ← withdraw now reserve amount reserve reserve s.discretionary s.out
    ok (record s { discretionary = r.0; out = r.1 })

  -- `get_investment_value` of one vault, and of both
  unfoldable pub vault_value : Fund L W R → Result ℤ
  vault_value s = convert_to_assets now (b.balance_of s.vault.base reserve) s.vault

  unfoldable pub both_value : Fund L W R → Result ℤ
  both_value s = do
    in_vault ← vault_value s
    in_other ← convert_to_assets now (b.balance_of s.discretionary.base reserve) s.discretionary
    ok (in_vault +ℤ in_other)

  -- `ERC4626PlusVaultAssetManager._deinvest`: what the first vault does not give is withdrawn from
  -- the other one.
  unfoldable pub plus_deinvest : ℤ → Fund L W R → Result (Fund L W R)
  plus_deinvest amount s = do
    available ← max_withdraw now reserve s.vault
    let vault_amount = min amount available
    s' ← if_some vault_withdraw vault_amount s
    if_some discretionary_withdraw (amount -ℤ vault_amount) s'

  unfoldable pub vault_to_discretionary : Option ℤ → Fund L W R → Result (Fund L W R)
  vault_to_discretionary asked s = do
    amount ← amount_or_all asked (max_withdraw now reserve s.vault)
    s' ← vault_withdraw amount s
    discretionary_deposit amount s'

  unfoldable pub discretionary_to_vault : Option ℤ → Fund L W R → Result (Fund L W R)
  discretionary_to_vault asked s = do
    amount ← amount_or_all asked (max_withdraw now reserve s.discretionary)
    s' ← discretionary_withdraw amount s
    vault_deposit amount s'

  -- `earn` is the reserve's `asset_earnings`.
  abbrev pub vault_hooks : (ℤ → R → Result R) → Hooks (Fund L W R)
  vault_hooks earn = record {
    cash = λ s. o.balance_of s.out reserve;
    earn = λ amount s. (do books ← earn amount s.books; ok (record s { books = books }));
    value = vault_value;
    move_in = vault_deposit;
    move_out = vault_withdraw;
  }

  abbrev pub plus_hooks : (ℤ → R → Result R) → Hooks (Fund L W R)
  plus_hooks earn = record {
    cash = λ s. o.balance_of s.out reserve;
    earn = λ amount s. (do books ← earn amount s.books; ok (record s { books = books }));
    value = both_value;
    move_in = vault_deposit;
    move_out = plus_deinvest;
  }
