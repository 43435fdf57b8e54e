-- ===== src/External.antt =====
-- The upstream source of rates (backend/src/external).
pub mod Provider
pub mod Http
pub mod Json
pub mod Payload
pub mod Dates
pub mod Completeness
pub mod Frankfurter
pub mod Observed
pub mod Service
pub mod Timeouts
pub mod Fixed
pub mod Accesses
