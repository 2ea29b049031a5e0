-- ===== src/Config.antt =====
-- The periods and the environment variables of a configuration file (prototype/utils.py).
pub mod Periods
pub mod Digits
pub mod Variables
pub mod Expansion
