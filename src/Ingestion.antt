-- ===== src/Ingestion.antt =====
-- The ingestion library of src/ingestion: what may be fetched, how it is fetched, and what is stored.
pub mod Error
pub mod Policy
pub mod Scope
pub mod Address
pub mod Headers
pub mod Input
pub mod Fetch
pub mod Revision
pub mod Content
pub mod Semantic
pub mod Limiter
