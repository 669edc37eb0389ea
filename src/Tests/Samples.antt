-- ===== src/Tests/Samples.antt =====
-- The values that the runs share: a url crate for plain URLs, tables, and arguments of the operations.
use eal_sync.Prelude.{
  ℕ, ◌≡◌, refl, Bool, true, false, [], ◌∷◌, ◌++◌, Option, none, some, drop, ◌==◌, arith, within,
  if◌then◌else◌,
}
use eal_sync.Prelude.Int.{pos}
use eal_sync.Prelude.Text.{
  Text, codes, split, is_ascii_alphanumeric, is_ascii_alphabetic, is_ascii_digit, to_ascii_lower,
  strip_prefix, starts_with, text_eq,
}
use eal_sync.Net.Url.{UrlCrate}
use eal_sync.Ingestion.Semantic.Chars.{CharTable}
use eal_sync.Queue.Tables.{Job, Db, CrawlJob}
use eal_sync.Queue.Seed.{SeedArgs}
use eal_sync.Queue.Lease.{LeaseArgs, grant, new_attempt, crawl_job}
use eal_sync.Queue.Invariant.{IsConsistent, IsJobRow}
use eal_sync.Queue.Invariant.Jobs.{SerializesHttps}

-- a URL without port, query, fragment and user
pub record PlainUrl : Type 0 where
  pub is_https : Bool
  pub host : Text
  pub path : Text

abbrev pub lead : Bool → Text
lead true = codes "https://"
lead false = codes "http://"

abbrev pub scheme_of : Bool → Text
scheme_of true = codes "https"
scheme_of false = codes "http"

abbrev pub port_of : Bool → ℕ
port_of true = 443
port_of false = 80

abbrev pub upto_slash : Text → Text
upto_slash [] = []
upto_slash (c ∷ s) = if c == b'/' then [] else c ∷ upto_slash s

abbrev pub from_slash : Text → Text
from_slash [] = codes "/"
from_slash (c ∷ s) = if c == b'/' then c ∷ s else from_slash s

unfoldable pub parse_plain : Text → Option PlainUrl
parse_plain s = elim (strip_prefix (codes "https://") s) [
  | some rest ↦ some (record { is_https = true; host = upto_slash rest; path = from_slash rest })
  | none ↦ elim (strip_prefix (codes "http://") s) [
    | some rest ↦ some (record { is_https = false; host = upto_slash rest; path = from_slash rest })
    | none ↦ none
  ]
]

abbrev pub plain_crate : UrlCrate
plain_crate = record {
  Url = PlainUrl;
  parse = parse_plain;
  as_str = λ u. lead u.is_https ++ (u.host ++ u.path);
  scheme = λ u. scheme_of u.is_https;
  username = λ u. [];
  password = λ u. none;
  host_str = λ u. some u.host;
  port = λ u. none;
  port_or_known_default = λ u. some (port_of u.is_https);
  path = λ u. u.path;
  path_segments = λ u. some (split b'/' (drop 1 u.path));
  query = λ u. none;
  fragment = λ u. none;
  join = λ u s. parse_plain s;
  without_fragment = λ u. u;
}

lead-https :
    (is_https : Bool) (rest : Text)
    → text_eq (scheme_of is_https) (codes "https") ≡ true
    → starts_with (codes "https://") (lead is_https ++ rest) ≡ true
unfolding text_eq starts_with strip_prefix
lead-https true rest e = refl
lead-https false rest e = ground (arith, e)

pub plain_crate-SerializesHttps : SerializesHttps plain_crate
plain_crate-SerializesHttps u e = lead-https u.is_https (u.host ++ u.path) e

-- the tables of `char` for ASCII
abbrev pub ascii_table : CharTable
ascii_table = record {
  is_alphanumeric = is_ascii_alphanumeric;
  is_alphabetic = is_ascii_alphabetic;
  is_numeric = is_ascii_digit;
  is_uppercase = λ c. within b'A' b'Z' c;
  to_lowercase = λ c. to_ascii_lower c ∷ [];
}

abbrev pub seed_args : SeedArgs
seed_args = record {
  tenant_id = 7;
  source_id = 8;
  start_url = codes "https://a.bc/x";
  interval_seconds = pos 3_600;
  max_attempts = pos 5;
  enabled = true;
}

abbrev pub idle_job : Job
idle_job = record {
  id = 1;
  tenant_id = 7;
  source_id = 8;
  start_url = codes "https://a.bc/x";
  enabled = true;
  interval_seconds = 3_600;
  next_run_at = 100;
  lease_token = none;
  lease_owner = none;
  lease_expires_at = none;
  attempt_count = 0;
  max_attempts = 5;
  last_error_code = none;
}

abbrev pub later_job : Job
later_job = record idle_job { id = 2; source_id = 9; next_run_at = 300 }

abbrev pub idle_db : Db
idle_db = record { jobs = idle_job ∷ later_job ∷ []; attempts = [] }

abbrev pub lease_args : LeaseArgs
lease_args = record {
  now = 200;
  locked = λ id. false;
  owner = codes "w1";
  lease_seconds = pos 30;
  lease_token = 41;
  attempt_id = 51;
}

abbrev pub held_job : CrawlJob
held_job = crawl_job lease_args idle_job

-- the tables after the lease: its expiry is 30_000_200
abbrev pub held_db : Db
held_db = record {
  jobs = grant lease_args idle_job ∷ later_job ∷ [];
  attempts = new_attempt lease_args 1 ∷ [];
}

idle_job-IsJobRow : IsJobRow idle_job
unfolding starts_with strip_prefix
idle_job-IsJobRow = ground arith

later_job-IsJobRow : IsJobRow later_job
unfolding starts_with strip_prefix
later_job-IsJobRow = ground arith

held_row-IsJobRow : IsJobRow (grant lease_args idle_job)
unfolding starts_with strip_prefix
held_row-IsJobRow = ground arith

pub idle_db-IsConsistent : IsConsistent idle_db
idle_db-IsConsistent = record {
  job_rows = (idle_job-IsJobRow, (later_job-IsJobRow, tt));
  attempt_rows = tt;
  job_ids = ((λ e. omega (arith, e), tt), (tt, tt));
  attempt_ids = tt;
  linked = (refl, (refl, tt));
}

pub held_db-IsConsistent : IsConsistent held_db
held_db-IsConsistent = record {
  job_rows = (held_row-IsJobRow, (later_job-IsJobRow, tt));
  attempt_rows = (refl, tt);
  job_ids = ((λ e. omega (arith, e), tt), (tt, tt));
  attempt_ids = (tt, tt);
  linked = (refl, (refl, tt));
}
