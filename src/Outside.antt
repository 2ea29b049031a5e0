-- ===== src/Outside.antt =====
-- What the pool's contracts call outside of themselves. `Outside W` is the state `W` of the currency
-- (an ERC20 of the `ethproto` package) together with the asset managers and the whitelists that
-- a reserve is plugged to; `TokenBase L` is what `EToken` inherits from ethproto's `ERC20Token`.
-- Both are parameters. Addresses are numbers, and 0 is the zero address.
pub mod Laws
use ensuro.Prelude.{ℕ, ◌^◌, ◌/◌, Bool}
use ensuro.Prelude.Int.{ℤ, pos}
use ensuro.Prelude.Calls.{Result}

pub record Outside (W : Type 0) : Type 0 where
  pub decimals : ℕ
  pub balance_of : W → ℕ → ℤ
  -- `allowance(owner, spender)`
  pub allowance : W → ℕ → ℕ → ℤ
  -- `transfer(sender, recipient, amount)`
  pub transfer : ℕ → ℕ → ℤ → W → Result W
  -- `transfer_from(caller, sender, recipient, amount)`
  pub transfer_from : ℕ → ℕ → ℕ → ℤ → W → Result W
  -- `approve(owner, spender, amount)`
  pub approve : ℕ → ℕ → ℤ → W → Result W
  -- `mint(recipient, amount)` of a test currency
  pub mint : ℕ → ℤ → W → Result W
  -- `asset_manager.refill_wallet(amount)`
  pub refill_wallet : ℕ → ℤ → W → Result W
  -- `whitelist.accepts_…(etoken, …, amount)`
  pub accepts_deposit : W → ℕ → ℕ → ℕ → ℤ → Bool
  pub accepts_withdrawal : W → ℕ → ℕ → ℕ → ℤ → Bool
  pub accepts_transfer : W → ℕ → ℕ → ℕ → ℕ → ℤ → Bool

pub record TokenBase (L : Type 0) : Type 0 where
  pub total_supply : L → ℤ
  pub balance_of : L → ℕ → ℤ
  pub mint : ℕ → ℤ → L → Result L
  pub burn : ℕ → ℤ → L → Result L
  -- `super()._transfer(sender, recipient, amount)`
  pub move : ℕ → ℕ → ℤ → L → Result L

-- `NEGLIGIBLE_AMOUNT`
abbrev pub negligible : {W : Type 0} → Outside W → ℤ
negligible o = pos (10 ^ (o.decimals / 2))
