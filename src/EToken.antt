-- ===== src/EToken.antt =====
-- `EToken` (prototype/ensuro.py): its state (State), its scale and supply (Scale), the capital that
-- it locks (Capital), deposits and withdrawals (Liquidity) and its loans (Loans), and the
-- proofs: what a withdrawal (Withdrawals) and an internal loan (Lending) do, and sequences of calls
-- (Steps), among others.
pub mod State
pub mod Scale
pub mod Capital
pub mod Liquidity
pub mod Loans
pub mod Rates
pub mod Receipts
pub mod Settings
pub mod Scales
pub mod Locking
pub mod Movements
pub mod Withdrawals
pub mod Lending
pub mod Steps
