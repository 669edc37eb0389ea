-- ===== src/Runtime/Command/Laws.antt =====
-- What has happened when a run of the crawl command counts as a success.
use eal_sync.Prelude.{
  ℕ, zero, suc, ◌+◌, ◌≤◌, ◌<◌, ◌≡◌, refl, sym, subst, ap, ◌∙◌, true, false, List, [], ◌∷◌, Option,
  some, length, length-take, take, min, arith, Option-cases, inl, inr,
}
use eal_sync.Prelude.Text.{Text, codes, starts_with}
use eal_sync.Prelude.Result.{ok, Result-cases}
use eal_sync.Net.Url.{UrlCrate}
use eal_sync.Queue.Tables.{CrawlJob}
use eal_sync.Runtime.Envelope.{CrawlCommandEnvelope, CrawlCommandOutput, validate_envelope}
use eal_sync.Runtime.Envelope.Laws.{IsAccepted, validate_envelope-IsAccepted}
use eal_sync.Runtime.Command.{
  CrawlCommandConfig, usize_max, read_limited, ExitStatus, Finished, System, request_of,
  send_request, collect, run_crawl_command,
}

take-all : (n : ℕ) (s : List ℕ) → length s ≤ n → take n s ≡ s
take-all zero [] h = refl
take-all zero (c ∷ s) h = absurd (omega arith)
take-all (suc n) [] h = refl
take-all (suc n) (c ∷ s) h = ap (λ t. c ∷ t) (take-all n s (omega arith))

-- A stream is read whole unless it is longer than the limit, which shows.
read_limited-whole :
    (stream : List ℕ) (limit : ℕ)
    → limit < usize_max
    → (read_limited stream limit).exceeded ≡ false
    → (length stream ≤ limit) × ((read_limited stream limit).bytes ≡ stream)
unfolding read_limited
read_limited-whole stream limit fits e =
    let reach = min (limit + 1) usize_max in
    let short : length stream ≤ limit = ground (arith, e, fits, length-take reach stream) in
    let whole : take reach stream ≡ stream = take-all reach stream (omega (arith, short, fits)) in
    (short, rw (e, whole) refl)

module _ (config : CrawlCommandConfig) (fits : config.stdout_limit_bytes < usize_max) where
  -- The child ended well, and `bytes` is all that it wrote to its standard output.
  pub record IsCollected (f : Finished) (bytes : List ℕ) : Type 0 where
    pub status : ExitStatus
    pub exited : f.status ≡ ok status
    pub success : status.success ≡ true
    pub whole : f.stdout ≡ ok bytes
    pub short : length bytes ≤ config.stdout_limit_bytes

  collect-IsCollected :
      (f : Finished) {bytes : List ℕ} → collect config f ≡ ok bytes → IsCollected f bytes
  unfolding collect
  collect-IsCollected f {bytes} e = elim (Result-cases f.stdout) [
    | inl (x, lost) ↦ absurd (ground (arith, lost))
    | inr (stdout, out) ↦ elim (Result-cases f.stderr) [
      | inl (x, lost) ↦ absurd (ground (arith, out, lost))
      | inr (stderr, diagnostics) ↦ elim (Result-cases f.status) [
        | inl (x, lost) ↦ absurd (ground (arith, out, diagnostics, lost))
        | inr (status, exited) ↦
            let kept : (read_limited stdout config.stdout_limit_bytes).exceeded ≡ false =
              ground (arith, out, diagnostics, exited) in
            let same : (read_limited stdout config.stdout_limit_bytes).bytes ≡ bytes =
              ground (arith, out, diagnostics, exited) in
            let (short, whole) = read_limited-whole stdout config.stdout_limit_bytes fits kept in
            let all_of : stdout ≡ bytes = sym whole ∙ same in
            record {
              status = status;
              exited = exited;
              success = ground (arith, out, diagnostics, exited);
              whole = rw out (ap ok all_of);
              short = subst (λ s. length s ≤ config.stdout_limit_bytes) all_of short;
            }
      ]
    ]
  ]

  module _ (crate : UrlCrate) (parse_uuid : Text → Option ℕ) (os : System) (now : ℕ)
      (job : CrawlJob) where
    pub record IsRun (output : CrawlCommandOutput) : Type 0 where
      pub finished : Finished
      pub stdout : List ℕ
      pub envelope : CrawlCommandEnvelope
      pub absolute : starts_with (codes "/") config.executable ≡ true
      pub in_time : os.run config.timeout_seconds ≡ some finished
      pub collected : IsCollected finished stdout
      pub decoded : os.decode stdout ≡ ok envelope
      pub accepted : IsAccepted crate parse_uuid job envelope output

    -- If the limit of the standard output is below the greatest usize, a run that succeeds was of
    -- an absolute path, ended in time with success, and its output is the whole standard output,
    -- within the limit, decoded and accepted for the leased job.
    pub run_crawl_command-IsRun :
        (output : CrawlCommandOutput)
        → run_crawl_command crate parse_uuid os now config job ≡ ok output
        → IsRun output
    unfolding run_crawl_command
    run_crawl_command-IsRun output e = elim (Result-cases (os.encode (request_of now job))) [
      | inl (x, lost) ↦ absurd (ground (arith, lost))
      | inr (request, encoded) ↦ elim (Result-cases (os.spawn config.executable)) [
        | inl (x, lost) ↦ absurd (ground (arith, encoded, lost))
        | inr (u, spawned) ↦ elim (Result-cases (send_request os request)) [
          | inl (x, lost) ↦ absurd (ground (arith, encoded, spawned, lost))
          | inr (v, sent) ↦ elim (Option-cases (os.run config.timeout_seconds)) [
            | inl late ↦ absurd (ground (arith, encoded, spawned, sent, late))
            | inr (f, ended) ↦ elim (Result-cases (collect config f)) [
              | inl (x, lost) ↦ absurd (ground (arith, encoded, spawned, sent, ended, lost))
              | inr (bytes, collected) ↦ elim (Result-cases (os.decode bytes)) [
                | inl (x, lost) ↦
                    absurd (ground (arith, encoded, spawned, sent, ended, collected, lost))
                | inr (envelope, decoded) ↦
                    elim (Result-cases (validate_envelope crate parse_uuid envelope job)) [
                      | inl (x, lost) ↦
                          absurd (
                            ground (arith, encoded, spawned, sent, ended, collected, decoded, lost))
                      | inr (result, valid) ↦
                          let same : result ≡ output =
                            ground
                              (arith, encoded, spawned, sent, ended, collected, decoded, valid) in
                          record {
                            finished = f;
                            stdout = bytes;
                            envelope = envelope;
                            absolute = ground arith;
                            in_time = ended;
                            collected = collect-IsCollected f collected;
                            decoded = decoded;
                            accepted =
                                validate_envelope-IsAccepted crate parse_uuid job envelope output (
                                  subst
                                    (λ r. validate_envelope crate parse_uuid envelope job ≡ ok r)
                                    same valid);
                          }
                    ]
              ]
            ]
          ]
        ]
      ]
    ]
