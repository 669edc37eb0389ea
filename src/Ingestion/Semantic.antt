-- ===== src/Ingestion/Semantic.antt =====
-- The views of a page that are embedded: src/ingestion/semantic_views.rs.
pub mod Chars
pub mod Views
pub mod Ranking
pub mod Tokens
pub mod Entities
pub mod Tags
pub mod Signal
pub mod Extract
