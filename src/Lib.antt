-- ===== src/Lib.antt =====
-- The crawl runtime and the ingestion library of Embedded Alerts sync.
--
-- The program has two crates. `runtime-worker` keeps a queue of crawl jobs in PostgreSQL; workers lease
-- a job, run an external crawl command for it, post the page to an API and record the result. `src/ingestion`
-- fetches registered sources over HTTP within a scope, extracts text and decides on revisions. Code outside
-- the repository is an argument of what uses it: the url crate (Net/Url), the uuid crate, serde_json,
-- reqwest, DNS, the operating system, `eal_semantic`, `syncer_rs`, tokio's semaphore, Unicode's tables.
--
-- Where to find what:
-- Prelude: numbers, tests, lists, texts, results, JSON values and UTF-8. A text is a list of code points;
--   a number is a natural number, and a fixed width shows where the code saturates.
-- Net/Ip, Net/IpText: the address tests of src/ingestion/network/safety.rs and
--   runtime-worker/src/types.rs, and the parser of std::net that they rest on. Net/Body: the bounded
--   reader of src/ingestion/network/response.rs and runtime-worker/src/api.rs.
-- Queue: runtime-worker/src/queue.rs and runtime-worker/migrations/001_runtime.sql. Tables holds the rows;
--   Seed, Lease, Finish and Backoff the operations (`seed`, `lease`, `complete`, `fail`, `reap_expired`,
--   `retry_backoff_seconds`, `sanitize_code`). An operation takes the tables, the time of its transaction
--   and the identifiers that it draws, and returns its result with the new tables. Invariant/Steps has the
--   step relation: any worker may make any transaction at any time, and a worker that crashes makes no
--   further one. Board is the abstract view: unknown, waiting, or leased until a time. Transactions are atomic; rows locked by a concurrent lease are an argument of `lease`.
-- Runtime: PublicUrl and Envelope are runtime-worker/src/types.rs, Command is runner.rs, Api is api.rs,
--   Worker is `run_worker` and `process_next` of main.rs: a round leases with the worker's owner and lease
--   time, runs Command and posts with Api. Its times, fresh identifiers, operating system and API, and what
--   other workers do in between, are arguments of the round. The shutdown drops a round between two of its
--   transactions.
--   Owner and Main are `default_owner` and `main` of main.rs.
-- Ingestion: Policy and Scope are src/ingestion/network/policy.rs with the URL checks of safety.rs,
--   Address the resolution of a host, Headers response.rs, Fetch fetcher.rs, Limiter its limiters of
--   hosts, Input the embedding inputs of semantic_views.rs, Revision revision.rs, Content content.rs.
--   `follow` is the redirect loop; it recurs on the iterations left, which start at one more than
--   `max_redirects`, as the range of the source does. The requests that go out are part of its result.
--   The loops over the markup (`remove_tag`, `href_values`, `tag_texts`) recur on a number of rounds that
--   starts at the number of characters; each round takes at least one character away. A place in a text
--   is the pair of the texts before and after it.
-- Ingestion/Semantic: the rest of semantic_views.rs. Views has the helpers and the sentences, Ranking the
--   counts and their order, Tokens the keywords, Entities, Tags the texts of elements, Signal the terms
--   of a URL, Extract `extract_semantic_document`. Chars holds the tables of Unicode, an argument.
-- CrawlOnce: src/bin/crawl_once.rs. The environment is a function from names to values.
-- Gateway: src/main.rs. Operation: src/lib.rs.
-- Tests: the theorems at concrete inputs.
--
-- How the parts meet: CrawlOnce calls Fetch with the scope that it reads; Fetch makes its documents with
-- Ingestion/Semantic, whose inputs Revision checks; the worker leases from Queue and hands the result of
-- Command to Api.
--
-- Not modelled: parsing the command line, logging, sockets, running the SQL of the migration, and what
-- other crates do: the merge behind the gateway, serde_json, tokio's semaphore, the url crate. Of an
-- `IngestionError` only the code is kept.
pub mod Prelude
pub mod Net
pub mod Queue
pub mod Runtime
pub mod Ingestion
pub mod CrawlOnce
pub mod Gateway
pub mod Operation
pub mod Tests
