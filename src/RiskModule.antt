-- ===== src/RiskModule.antt =====
-- The risk modules of prototype/ensuro.py: state and prices (State, Pricing), checks (Setup).
pub mod State
pub mod Pricing
pub mod Setup
pub mod Underwriting
pub mod Exposure
pub mod Replacement
pub mod Books
pub mod Allowances
pub mod Callers
pub mod Buckets
pub mod Attributes
pub mod Backing
