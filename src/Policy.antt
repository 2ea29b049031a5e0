-- ===== src/Policy.antt =====
-- `Policy` of prototype/ensuro.py: its definitions, passed on, and the proofs about the split.
pub mod Defs
pub mod Split
unfoldable pub use Defs.*
