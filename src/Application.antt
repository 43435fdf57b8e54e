-- ===== src/Application.antt =====
-- The application services (backend/src/application).
pub mod Constraints
pub mod Catalog
pub mod Conversion
pub mod History
pub mod Keys
pub mod Listing
pub mod Bounds
pub mod Rates
pub mod Series
pub mod Hits
pub mod Storing
pub mod Uncached
pub mod Transparency
pub mod Accesses
