-- ===== src/PolicyPool.antt =====
-- `PolicyPool` (prototype/ensuro.py): its state and dictionaries (State), the premium transfers
-- (Premiums) and the operations on policies and deposits (Operations).
pub mod State
pub mod Premiums
pub mod Operations
pub mod Exposure
pub mod Payments
pub mod Increases
pub mod Resolution
pub mod Registry
pub mod Locks
pub mod Backing
