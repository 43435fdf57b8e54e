-- ===== src/Tests.antt =====
-- Runs on concrete inputs, and what the theorems say of them.
pub mod Sample
pub mod Caches
pub mod Services
pub mod Transparency
pub mod Concurrency
pub mod Dates
pub mod Series
pub mod Sweeper
pub mod Repeats
pub mod Config
pub mod Program
pub mod Overrides
