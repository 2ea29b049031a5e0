-- ===== src/Tests.antt =====
-- The theorems at concrete inputs: a sample currency, token, policy NFT and pool (Samples), results
-- of calls (Runs), the functions that a test runs (Running) and one module for each part of the
-- program.
pub mod Samples
mod Runs
mod Running
mod Accounts
mod Underwriting
mod Histories
mod Tokens
mod Whitelists
mod Assets
mod Pools
mod Managers
mod Surplus
mod Loans
mod Payouts
mod Bindings
mod Periods
mod Variables
