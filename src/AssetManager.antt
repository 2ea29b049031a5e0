-- ===== src/AssetManager.antt =====
-- The asset managers (prototype/ensuro.py): the strategy by liquidity thresholds (Defs), the managers
-- that invest in one or two vaults (Vaults), and the proofs: what a rebalance and a refill leave in
-- cash (Liquidity), what is recorded of the investments (Records), the vaults behind the
-- strategy's interface (Transfers), from which of two vaults
-- the manager takes (Deinvestment), a reserve's payments with its manager (Payments), the calls that a
-- reserve forwards (Forwarding), and a premiums account's surplus under them (Surplus).
pub mod Defs
pub mod Liquidity
pub mod Vaults
pub mod Transfers
pub mod Records
pub mod Payments
pub mod Deinvestment
pub mod Forwarding
pub mod Surplus
