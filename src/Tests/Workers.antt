-- ===== src/Tests/Workers.antt =====
-- Runs of a worker, of the crawl command and of the API client.
use eal_sync.Prelude.{ℕ, ◌≡◌, refl, true, false, [], ◌∷◌, Option, none, some, arith, zero, suc}
use eal_sync.Prelude.Text.{
  Text, codes, text_eq, trim, trim_end, drop_while, drop_end_while, is_whitespace, to_ascii_lower,
  to_ascii_lowercase, byte_len, ends_with, starts_with, strip_prefix,
}
use eal_sync.Prelude.Json.{
  Json, number, pos_int, string, array, object, field, end, cons, nil, as_str, as_object, as_array,
  as_u64, get, is_finite_number,
}
use eal_sync.Prelude.Result.{ok, err}
use eal_sync.Net.IpText.{parse_ip}
use eal_sync.Net.Ip.{is_loopback_v4}
use eal_sync.Queue.Invariant.Steps.{World}
use eal_sync.Runtime.PublicUrl.{eq_ignore_ascii_case, is_local_host, validate_public_https_url}
use eal_sync.Runtime.Envelope.{
  CrawlCommandOutput, CrawlCommandEnvelope, check_keys, check_page, check_embedding,
  validate_envelope,
}
use eal_sync.Runtime.Envelope.Laws.{IsAccepted, validate_envelope-IsAccepted}
use eal_sync.Runtime.Command.{
  CrawlCommandConfig, read_limited, send_request, collect, System, run_crawl_command,
}
use eal_sync.Runtime.Command.Laws.{IsRun, run_crawl_command-IsRun}
use eal_sync.Runtime.Api.{
  is_loopback, is_loopback_host, check_scheme, Options, IngestApiClient, ClientBuilder, new_client,
}
use eal_sync.Runtime.Api.Laws.{IsTrusted, new_client-IsTrusted}
use eal_sync.Runtime.Worker.{Setup, Round, lease_args, swept}
use eal_sync.Runtime.Worker.Outcomes.{IsRecorded, process_next-IsRecorded}
use eal_sync.Net.Url.{UrlCrate}
use eal_sync.Queue.Tables.{CrawlJob}
use eal_sync.Runtime.Api.{Api}
use eal_sync.Queue.Lease.{is_ready, earliest, candidate, lease_row, check_lease, lease}
use eal_sync.Queue.Finish.{finish, complete, reap_expired}
use eal_sync.Runtime.Worker.{hand_over, work_on, after_lease, process_next}
use eal_sync.Runtime.Api.{read_response, ingest_page}
use eal_sync.Net.Body.{read_chunks, read_bounded}
use eal_sync.Runtime.Owner.{host_part, default_owner}
use eal_sync.Queue.Tables.{invalid_owner}
use eal_sync.Prelude.Int.{pos}
use eal_sync.Tests.Samples.{plain_crate, PlainUrl, parse_plain, idle_db, held_job}

abbrev one_page : Json
one_page = object (
    field (codes "source_id") (string (codes "s")) (
      field (codes "canonical_url") (string (codes "https://a.bc/x")) (
        field (codes "content_hash") (string (codes "0123456789abcdef0123456789abcdef")) (
          field (codes "embedding")
            (object (
              field (codes "model") (string (codes "m")) (
                field (codes "model_version") (string (codes "1")) (
                  field (codes "dimensions") (number (pos_int 1)) (
                    field (codes "normalization") (string (codes "l2"))
                      (field (codes "values") (array (cons (number (pos_int 3)) nil)) end))))))
            end))))

abbrev envelope : CrawlCommandEnvelope
envelope = record {
  protocol_version = codes "eal-crawl-result/v1";
  page_ingest = one_page;
  diagnostic = object end;
}

abbrev output : CrawlCommandOutput
output = record { page_ingest = one_page; diagnostic = object end }

abbrev test_uuid : Text → Option ℕ
test_uuid s = some 8

accepts : validate_envelope plain_crate test_uuid envelope held_job ≡ ok output
unfolding validate_envelope check_page check_embedding check_keys text_eq as_str as_object as_array
    as_u64 get is_finite_number validate_public_https_url is_local_host eq_ignore_ascii_case
    parse_plain to_ascii_lowercase to_ascii_lower byte_len ends_with starts_with strip_prefix
    parse_ip
accepts = refl

validate_envelope-IsAccepted_example : IsAccepted plain_crate test_uuid held_job envelope output
validate_envelope-IsAccepted_example =
    validate_envelope-IsAccepted plain_crate test_uuid held_job envelope output accepts

abbrev config : CrawlCommandConfig
config = record {
  executable = codes "/bin/crawl";
  timeout_seconds = 60;
  stdout_limit_bytes = 65_536;
  stderr_limit_bytes = 4_096;
}

abbrev os : System
os = record {
  encode = λ request. ok (codes "{}");
  spawn = λ path. ok tt;
  has_stdin = true;
  has_stdout = true;
  has_stderr = true;
  write = λ bytes. ok tt;
  shutdown = ok tt;
  run = λ seconds. some (record {
    stdout = ok (codes "page");
    stderr = ok [];
    status = ok (record { success = true; shown = codes "exit status: 0" });
  });
  decode = λ bytes. ok envelope;
}

runs : run_crawl_command plain_crate test_uuid os 300 config held_job ≡ ok output
unfolding run_crawl_command send_request collect read_limited validate_envelope check_page
    check_embedding check_keys text_eq as_str as_object as_array as_u64 get is_finite_number
    validate_public_https_url is_local_host eq_ignore_ascii_case parse_plain to_ascii_lowercase
    to_ascii_lower byte_len ends_with starts_with strip_prefix parse_ip
runs = refl

run_crawl_command-IsRun_example :
    IsRun config (omega arith) plain_crate test_uuid os 300 held_job output
run_crawl_command-IsRun_example =
    run_crawl_command-IsRun config (omega arith) plain_crate test_uuid os 300 held_job output runs

abbrev options : Options
options = record {
  base_url = codes "http://127.0.0.1/";
  allow_loopback_http = true;
  timeout_seconds = 20;
  response_limit_bytes = 65_536;
  ingest_token = codes "0123456789abcdef0123456789abcdef";
}

abbrev builder : ClientBuilder plain_crate
builder = record {
  is_header_value = λ token. true;
  build = λ seconds. ok tt;
  with_path = λ url path. record url { path = path };
}

abbrev loopback_url : PlainUrl
loopback_url = record { is_https = false; host = codes "127.0.0.1"; path = codes "/" }

abbrev client : IngestApiClient plain_crate
client = record {
  base_url = loopback_url;
  ingest_token = options.ingest_token;
  response_limit_bytes = 65_536;
}

makes_client : new_client plain_crate builder options ≡ ok client
unfolding new_client check_scheme is_loopback_host is_loopback is_loopback_v4 eq_ignore_ascii_case
    parse_ip parse_plain text_eq trim trim_end drop_while drop_end_while is_whitespace byte_len
    to_ascii_lowercase to_ascii_lower strip_prefix
makes_client = refl

new_client-IsTrusted_example : IsTrusted plain_crate builder options client
new_client-IsTrusted_example =
    new_client-IsTrusted plain_crate builder options client (λ url path. (refl, refl)) makes_client

-- a url crate that joins to the base alone
abbrev joining_crate : UrlCrate
joining_crate = record plain_crate { join = λ u s. some u }

-- an API that takes every page
abbrev taking_api : Api joining_crate
taking_api = record {
  show_uuid = λ id. [];
  post = λ url tenant token page. ok (record { status = 200; content_length = none; chunks = [] });
  from_slice = λ bytes. err [];
}

abbrev setup : Setup joining_crate
setup = record {
  client = record {
    base_url = loopback_url;
    ingest_token = options.ingest_token;
    response_limit_bytes = 65_536;
  };
  command = config;
  owner = codes "w1";
  lease_seconds = pos 30;
}

abbrev one_round : Round joining_crate
one_round = record {
  reaped_at = 150;
  before_lease = λ w. w;
  leased_at = 200;
  locked = λ id. false;
  lease_token = 41;
  attempt_id = 51;
  os = os;
  requested_at = 300;
  while_crawling = λ w. w;
  api = taking_api;
  while_posting = λ w. w;
  finished_at = 400;
}

abbrev idle_world : World
idle_world = record { db = idle_db; held = [] }

processes : (process_next joining_crate test_uuid setup one_round idle_world).0 ≡ ok true
unfolding is_ready earliest candidate lease_row check_lease lease finish complete reap_expired
    hand_over work_on after_lease process_next read_response ingest_page read_chunks read_bounded
    run_crawl_command send_request collect read_limited validate_envelope check_page check_embedding
    check_keys text_eq as_str as_object as_array as_u64 get is_finite_number
    validate_public_https_url is_local_host eq_ignore_ascii_case parse_plain to_ascii_lowercase
    to_ascii_lower byte_len ends_with starts_with strip_prefix parse_ip trim trim_end drop_while
    drop_end_while is_whitespace
processes = refl

process_next-IsRecorded_example :
    (job : CrawlJob) × ((lease
        (swept joining_crate test_uuid setup one_round idle_world).db
        (lease_args joining_crate test_uuid setup one_round)).0
      ≡ ok (some job))
    × IsRecorded joining_crate test_uuid setup one_round job
        (process_next joining_crate test_uuid setup one_round idle_world).1.db
process_next-IsRecorded_example =
    process_next-IsRecorded joining_crate test_uuid setup one_round idle_world processes

-- a name of 120 characters of four bytes makes an owner that the queue refuses
abbrev rows_of : ℕ → Text
rows_of zero = []
rows_of (suc n) = 0x1F600 ∷ rows_of n

long_owner_refused :
    check_lease (record (lease_args joining_crate test_uuid setup one_round) {
      owner = default_owner (some (rows_of 120)) (codes "77") (codes "u");
    })
    ≡ err invalid_owner
unfolding check_lease default_owner host_part trim trim_end drop_while drop_end_while is_whitespace
    byte_len
long_owner_refused = refl
