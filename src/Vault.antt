-- ===== src/Vault.antt =====
-- `FixedRateVault` (prototype/ensuro.py): its operations (Defs) and the value of its shares (Shares).
pub mod Defs
pub mod Shares
