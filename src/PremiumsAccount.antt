-- ===== src/PremiumsAccount.antt =====
-- `PremiumsAccount` (prototype/ensuro.py): its state and payments (State), the loans that it takes
-- and repays (Borrow) and the life of its policies (Policies).
pub mod State
pub mod Borrow
pub mod Policies
pub mod Solvency
pub mod Deficit
pub mod Steps
pub mod Lending
pub mod Payouts
pub mod Shifts
pub mod Backing
pub mod Calls
