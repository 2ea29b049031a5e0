-- ===== src/Whitelist.antt =====
-- `LPManualWhitelist` (prototype/ensuro.py): the state and the operations (Defs), and what a status
-- that was set decides (Statuses).
pub mod Defs
pub mod Statuses
