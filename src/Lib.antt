-- ===== src/Lib.antt =====
-- Denyra acquires music albums: an acquisition gateway searches for the albums that Lidarr wants,
-- first through Lidarr's own search and then through fallback providers, and a media pipeline
-- checks the files that arrive, matches them with MusicBrainz, and imports them into the managed
-- or the unmanaged library. This library models the decisions of the two services, which the
-- handlers, workers and stores of the program call, and proves what makes them right.
--
-- The gateway (internal/gateway/domain):
--   Gateway.State        state.go: the states of a job, Terminal, ParseState, CanTransition
--   Gateway.Job          job.go: Job, NewJob, Job.Transition with its audit event
--   Gateway.Arbitration  arbitration.go: CompareQuality, betterApproved, DecideArbitration
--   Gateway.Retry        retry.go: RetryPolicy.Validate, Deadline and its three uses
--   Gateway.Outcome      outcome.go: ClassifyFallback
--   Gateway.Correlation  correlation.go: CorrelationRequest.Validate and Match
--   Gateway.Identity     identity.go: CanonicalMBID, which the pipeline has as well
-- The gateway's store (internal/gateway/persistence):
--   Gateway.JobStore     jobs.go: the tables, Job, CreateJob and FindActiveJob; JobStore.Updates has
--     UpdateState, RestartAcquisitionCycle and ReviseSelectedRelease, JobStore.Context the
--     statements on the search context, all as steps on rows; WithinTx of internal/platform/sqlite
--   Gateway.LeaseStore   leases.go and ReleaseLease of runtime.go: the workers' leases on resources
--   Gateway.EffectStore       effects.go and insertEffectTx of arbitration.go: the calls of other
--     services that are written down before they are made; EffectStore.Ledger is what it promises
--   Gateway.IdempotencyStore  arbitration.go: beginGatewayIdempotency, CompleteApprovalCallback
--   Gateway.CandidateStore    candidates.go: the acquired files of a job and their evidence
--   Gateway.ArbitrationStore  arbitration.go: RecordApproval and LockWinnerWithEffects, which work on
--     all the tables above; each is a transaction, and ArbitrationStore.Final has their sequences
--   Gateway.ArbitrationService  application/arbitration.go: Approve and Evaluate, which decide with
--     Gateway.Arbitration, record and lock with Gateway.ArbitrationStore, and deliver the effects;
--     Gateway.ArbitrationMessages  contracts/candidate.go: the messages they send and their encoding
--   Gateway.WantedCycles      wanted_cycles.go: ReconcileWantedCycles on the tables of Gateway.JobStore;
--     the order in which its map of groups is gone through is an argument
-- The configuration (internal/config):
--   Config.Types, Config.Defaults  types.go, defaults.go
--   Config.Validate                validate.go: Config.Validate
--   Config.Policies                the policies that cmd/acquisition-gateway/main.go and
--     cmd/media-pipeline/main.go build of it for Gateway.Retry, Pipeline.Duration and
--     AdminUi.LoginThrottle
-- The pipeline (internal/pipeline/domain):
--   Pipeline.State         state.go and the table of transition.go: the states of a candidate
--   Pipeline.Candidate     candidate.go, errors.go, Candidate.Transition: its life
--   Pipeline.Migration     migration.go: TransitionMigration with its resume state
--   Pipeline.Duration      duration.go: the duration policy on int64
--   Pipeline.ReleaseMatch  release_match.go: MatchRelease
--   Pipeline.Upload        upload.go: ValidateUploadManifest, UploadPathKey
--   Pipeline.Metadata      unmanaged.go: ValidateMetadataPlan, ValidateSubmissionDecision
-- The web interface (internal/pipeline/adminui/handlers):
--   AdminUi.LoginThrottle  login_throttle.go: Allow, Failure, Success
-- Base has what the parts share: Go's strings as lists of bytes with the functions of strings and
-- utf8 that the program calls, filepath.Clean, times and their text format, keyed tables, int64 with
-- its wrap-around, a stable sort, and lemmas. Examples has runs of the model at concrete inputs.
--
-- How the code is read:
--   - A pair of a value and an error is a Result, and a chain of early returns a do block; each
--     message of an error is a constructor, and the text is left out. A method with a pointer
--     receiver returns the changed record, and an error leaves the record as it was.
--   - A string constant of an enumeration is a constructor; any other string is `unknown s` or
--     `other s`. Comparing two such values compares the constants.
--   - An int and an int64 are integers that wrap around where the code computes with them; a uint64
--     revision is a number modulo 2 ^ 64. A time is an instant in nanoseconds from Go's zero time,
--     with the fact that it is in UTC; other locations and monotonic clocks are left out.
--   - A table of the database is a list of its rows, the last one first. A unique column that an
--     insert conflicts on is searched before; a statement with the revision that was read in its
--     transaction finds its row. The failures of the database, tokens that repeat, and references
--     to rows of other tables are left out where no code looks at them. Rows are ordered by the
--     texts of their times, as SQL orders them.
--   - A float64 of the configuration is a multiple of 2 ^ -1074, an infinity or NaN.
--   - A map is a list of what was stored, searched from the front. Where Go leaves the order of a
--     map open the list may have any order.
--   - sort.SliceStable and sort.Ints are insertion sorts: every stable sort gives that result.
--   - The loops are recursions over their lists; the ones over a counter (the doubling of a delay,
--     the discs of a plan) recurse on the number of turns left, which bounds them exactly, so no
--     fuel is chosen anywhere.
--   - The encodings in JSON, SHA-256, the tokens, the times that the clock gives and the answers of
--     the other services are parameters of Gateway.ArbitrationMessages and ArbitrationService. Nothing is assumed of them.
--   - Case folding and the normal form NFC of golang.org/x/text are parameters of Pipeline.Upload.
--     Nothing is assumed of them.
--
-- Not modelled: the HTTP servers and clients, the other SQL statements, the JSON of stored values,
-- the loading of the configuration, child processes, files, and the generated views, which are
-- input and output; and the other workers that call the decisions above.
pub mod AdminUi
pub mod Base
pub mod Config
pub mod Examples
pub mod Gateway
pub mod Pipeline
