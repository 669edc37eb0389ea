-- ===== src/Runtime.antt =====
-- The crate runtime-worker: URL and envelope validation, the crawl command, the ingest client and
-- the worker loop.
pub mod PublicUrl
pub mod Envelope
pub mod Command
pub mod Api
pub mod Worker
pub mod Owner
pub mod Main
