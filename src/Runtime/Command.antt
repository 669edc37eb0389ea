-- ===== src/Runtime/Command.antt =====
-- `run_crawl_command` of runtime-worker/src/runner.rs. What the operating system and serde_json
-- answer is an argument: the encoded request, the child's pipes, streams and exit status, and the
-- decoder of the result.
pub mod Laws
use eal_sync.Prelude.{
  ℕ, ◌+◌, Bool, not, ◌||◌, List, [], ◌∷◌, ◌++◌, Option, ◌==◌, ltb, length, take, keep, min, ◌-◌,
  ◌^◌, if◌then◌else◌, String,
}
use eal_sync.Prelude.Text.{Text, codes, starts_with, is_control, trim}
use eal_sync.Prelude.Json.{Json, string, object, field, end}
use eal_sync.Prelude.Utf8.{from_utf8_lossy}
use eal_sync.Prelude.Result.{Result, ok, guard, or_fail, map_err, ◌>>=◌, ◌>>◌}
use eal_sync.Net.Url.{UrlCrate}
use eal_sync.Queue.Tables.{CrawlJob}
use eal_sync.Runtime.Envelope.{CrawlCommandEnvelope, CrawlCommandOutput, validate_envelope}

pub record CrawlCommandConfig : Type 0 where
  pub executable : Text
  pub timeout_seconds : ℕ
  pub stdout_limit_bytes : ℕ
  pub stderr_limit_bytes : ℕ

pub record CrawlCommandRequest : Type 0 where
  pub protocol_version : Text
  pub job_id : ℕ
  pub attempt_id : ℕ
  pub tenant_id : ℕ
  pub source_id : ℕ
  pub start_url : Text
  pub leased_at : ℕ

-- `CrawlCommandRequest::from`
unfoldable pub request_of : ℕ → CrawlJob → CrawlCommandRequest
request_of now job = record {
  protocol_version = codes "eal-crawl-command/v1";
  job_id = job.id;
  attempt_id = job.attempt_id;
  tenant_id = job.tenant_id;
  source_id = job.source_id;
  start_url = job.start_url;
  leased_at = now;
}

pub record CrawlRunError : Type 0 where
  pub code : Text
  pub message : Text

abbrev run_error : String → Text → CrawlRunError
run_error code message = record { code = codes code; message = message }

-- `CrawlRunError::diagnostic`
unfoldable pub run_diagnostic : CrawlRunError → Json
run_diagnostic e = object (
    field (codes "error_code") (string e.code)
      (field (codes "message") (string (take 500 e.message)) end))

abbrev pub usize_max : ℕ
usize_max = 2 ^ 64 - 1

pub record LimitedBytes : Type 0 where
  pub bytes : List ℕ
  pub exceeded : Bool

-- `read_limited` on a stream that yields `stream` and then ends
unfoldable pub read_limited : List ℕ → ℕ → LimitedBytes
read_limited stream limit =
    let bytes = take (min (limit + 1) usize_max) stream in
    let exceeded = ltb limit (length bytes) in
    record { bytes = if exceeded then take limit bytes else bytes; exceeded = exceeded }

abbrev is_printable : ℕ → Bool
is_printable c = not (is_control c) || c == b' '

unfoldable pub sanitize_diagnostic : List ℕ → Text
sanitize_diagnostic bytes = trim (take 500 (keep is_printable (from_utf8_lossy bytes)))

pub record ExitStatus : Type 0 where
  pub success : Bool
  pub shown : Text

-- What the child does once it has its request; the streams and the status can fail to be read.
pub record Finished : Type 0 where
  pub stdout : Result Text (List ℕ)
  pub stderr : Result Text (List ℕ)
  pub status : Result Text ExitStatus

-- The answers of the operating system and of serde_json. An error is its text.
pub record System : Type 0 where
  pub encode : CrawlCommandRequest → Result Text (List ℕ)
  pub spawn : Text → Result Text (Unit {0})
  pub has_stdin : Bool
  pub has_stdout : Bool
  pub has_stderr : Bool
  pub write : List ℕ → Result Text (Unit {0})
  pub shutdown : Result Text (Unit {0})
  -- `none` when the deadline passes first
  pub run : ℕ → Option Finished
  pub decode : List ℕ → Result Text CrawlCommandEnvelope

abbrev pub prefixed : String → String → Text → CrawlRunError
prefixed code lead text = run_error code (codes lead ++ text)

-- the pipes, and the request written to them
unfoldable pub send_request : System → List ℕ → Result CrawlRunError (Unit {0})
send_request os request = do
  guard os.has_stdin (run_error "crawl_command_stdin" (codes "crawl command stdin was unavailable"))
  guard os.has_stdout
      (run_error "crawl_command_stdout" (codes "crawl command stdout was unavailable"))
  guard os.has_stderr
      (run_error "crawl_command_stderr" (codes "crawl command stderr was unavailable"))
  map_err (prefixed "crawl_command_stdin" "write crawl request: ") (os.write request)
  map_err (prefixed "crawl_command_stdin" "terminate crawl request: ") (os.write (b'\n' ∷ []))
  map_err (prefixed "crawl_command_stdin" "close crawl command stdin: ") os.shutdown

abbrev exit_message : Text → Text → Text
exit_message shown [] = codes "crawl command exited with " ++ shown
exit_message shown (c ∷ d) = codes "crawl command exited with " ++ shown ++ codes ": " ++ c ∷ d

-- the streams and the status of a child that has ended
unfoldable pub collect : CrawlCommandConfig → Finished → Result CrawlRunError (List ℕ)
collect config f = do
  stdout ← map_err (prefixed "crawl_command_stdout" "read crawl command stdout: ") f.stdout
  stderr ← map_err (prefixed "crawl_command_stderr" "read crawl command stderr: ") f.stderr
  status ← map_err (prefixed "crawl_command_wait" "wait for crawl command: ") f.status
  let out = read_limited stdout config.stdout_limit_bytes
  let diagnostics = read_limited stderr config.stderr_limit_bytes
  guard (not out.exceeded) (
      run_error "crawl_command_stdout_limit" (codes "crawl command stdout exceeded its byte limit"))
  guard (not diagnostics.exceeded) (
      run_error "crawl_command_stderr_limit" (codes "crawl command stderr exceeded its byte limit"))
  guard status.success (
      run_error "crawl_command_exit"
        (exit_message status.shown (sanitize_diagnostic diagnostics.bytes)))
  ok out.bytes

module _ (crate : UrlCrate) (parse_uuid : Text → Option ℕ) where
  unfoldable pub run_crawl_command :
      System → ℕ → CrawlCommandConfig → CrawlJob → Result CrawlRunError CrawlCommandOutput
  run_crawl_command os now config job = do
    guard (starts_with (codes "/") config.executable)
        (run_error "crawl_command_invalid" (codes "crawl command path must be absolute"))
    request ←
        map_err (prefixed "crawl_request_encode" "encode crawl request: ")
          (os.encode (request_of now job))
    map_err (prefixed "crawl_command_spawn" "spawn crawl command: ") (os.spawn config.executable)
    send_request os request
    finished ←
        or_fail (os.run config.timeout_seconds) (
          run_error "crawl_command_timeout" (codes "crawl command exceeded its execution deadline"))
    bytes ← collect config finished
    envelope ←
        map_err (prefixed "crawl_command_protocol" "decode crawl command result: ")
          (os.decode bytes)
    map_err (prefixed "crawl_command_protocol" "validate crawl command result: ")
        (validate_envelope crate parse_uuid envelope job)
