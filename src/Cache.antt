-- ===== src/Cache.antt =====
-- The backend's cache (backend/src/cache).
pub mod Bounded
pub mod Spec
pub mod Invariant
pub mod Nodes
pub mod Refinement
pub mod Insertion
pub mod Sweeping
pub mod Expiry
pub mod Reads
pub mod Everywhere
pub mod Trace
pub mod Sweeper
pub mod Interface
pub mod Overflow
