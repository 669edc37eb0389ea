-- ===== src/Queue.antt =====
-- The durable crawl queue of runtime-worker/src/queue.rs: its tables, its operations and what they
-- guarantee.
pub mod Tables
pub mod Backoff
pub mod Seed
pub mod Lease
pub mod Finish
pub mod Rows
pub mod Invariant
pub mod Leasing
pub mod Holding
pub mod Fencing
pub mod Orphans
pub mod Board
