-- ===== src/Bindings.antt =====
-- The bindings of the deployed contracts (prototype/wrappers.py), as far as they have logic of their
-- own: what they rebuild from the chain's events, the policies that they store and pass back, and
-- the calls whose arguments they choose.
pub mod Components
pub mod Buckets
pub mod BucketOrder
pub mod Policies
pub mod Calls
pub mod Stored
