-- ===== src/Lib.antt =====
-- ObservAI API: a service that collects observability evidence (logs, metrics, traces), lets a
-- language model diagnose it, and serves the analyses. This library models the core of the program,
-- below internal/, and proves what that core promises.
--
-- The parts and how they meet. SubmitAnalysis stores a job and puts its identifier on a queue; a worker
-- calls RunAnalysisJob, which collects evidence through a port, classifies and selects it by the
-- policies, lets the model generate a result, grades that result by the policies again and records the
-- outcome in the job; CancelJob works on the same jobs from another goroutine. Traces are explained by
-- rules over their spans. Outbound calls go through the retry loop.
--
-- The files:
-- - Base passes on library names and holds the helpers: lists and tests (Lists, Tests), Go's int (Int),
--   float64 (Float), strings (Text), errors (Errors), maps (Dict), the stable sort
--   (Sorting) and the monad of state and errors that the methods are written in (Exec).
-- - Domain: internal/core/domain/analysis.go and validation.go. Domain.Severity has the severity enum,
--   Domain.Analysis the requests, evidence and results.
-- - Policy: internal/core/policy. Policy.Severity is severity.go (Classify, Reconcile and the rules),
--   Policy.Text its tests on texts, Policy.EvidenceSeverity is evidence_severity.go, Policy.Evidence is
--   evidence.go and Policy.Recommendation is recommendation.go. An interface with a fixed set of
--   implementations is a data type with a constructor for each.
-- - Retry: internal/platform/retry/retry.go. The loop counts the attempts that are left.
-- - Trace: internal/core/usecase/trace.go, SlowestSpansRule and CriticalPathRule. The walk down a trace
--   runs on fuel, and more fuel than the height of every span is enough.
-- - Jobs: internal/core/domain/job.go, internal/adapters/outbound/inmemory/job_repository.go and the
--   jobs of internal/core/usecase/analysis.go. Jobs.Types has the state that goroutines share,
--   Jobs.Repository the repository, Jobs.Execute executeAnalyze, Jobs.Run RunAnalysisJob with the registry of cancel functions, Jobs.Api
--   SubmitAnalysis, GetJob and CancelJob, Jobs.Cancel a cancellation during a
--   run, and Jobs.Race one that comes late. What other
--   goroutines do between the steps of a run is an argument, a function on the state for each point.
-- - Auth: internal/core/domain/user.go, internal/core/usecase/auth.go and the in-memory repositories of
--   users (Auth.Users, Auth.Accounts) and refresh tokens (Auth.Tokens). Auth.Sessions has Login, Refresh and Logout,
--   Auth.Password has ChangePassword, Auth.Profile the profile methods, and Auth.Admin what
--   internal/core/usecase/user.go does but for List. HashRefreshToken, the signer, the password hasher
--   and the generators are fields of AuthPorts.
-- - Keys: internal/core/domain/api_key.go and internal/core/usecase/api_key.go. Keys.Scopes has the scopes,
--   Keys.Access the use case over a repository that is a parameter; Keys.Access.Laws.IsBackend says
--   what is relied on.
-- - Analyses: internal/adapters/outbound/inmemory/analysis_repository.go, and Get, List,
--   Stats and Services (Analyses.Stats) of internal/core/usecase/analysis.go, over a repository that has no
--   statistics of its own. A map is listed in some order; a slice out of bounds is the
--   result none.
-- - Chat: internal/core/usecase/chat.go, chat_scope_policy.go and chat_refusal.go with the cache of contexts
--   and the feedback repository of internal/adapters/outbound/inmemory. A call is one step.
-- - Queue: internal/adapters/outbound/inmemory/queue.go, as steps of the goroutines that share its channels.
-- - Webhooks: internal/core/usecase/webhook.go, internal/adapters/outbound/webhooks/dispatcher.go and, in
--   Webhooks.Rows and Webhooks.Subscriptions, what the statements of
--   internal/adapters/outbound/postgres/query do to the two tables.
-- - Tests runs the theorems on sample data.
--
-- The data of Go: int is ℤ; a time.Time is a number of nanoseconds since Go's zero time; a
-- time.Duration is an int64 with its wrap-around; a float64 is NaN or a multiple of 2^-1074, as far as
-- comparisons see it; strings.ToLower and strings.EqualFold are modelled on the letters of ASCII and Latin-1; a map is an
-- association list, whose order only matters where two users have the same email, two refresh tokens
-- or two chat messages the same identifier.
--
-- What is a parameter: collectors, redaction, the model, the durable analysis repository, queues,
-- identifier generators, random numbers, the context, and whether the database answers DispatchEvent.
-- Elsewhere a statement on the tables of the webhooks does not fail. Not modelled: HTTP, databases, provider
-- clients, configuration and telemetry, which are input and output around the core.
pub mod Base
pub mod Domain
pub mod Policy
pub mod Retry
pub mod Trace
pub mod Jobs
pub mod Keys
pub mod Analyses
pub mod Chat
pub mod Queue
pub mod Webhooks
pub mod Auth
pub mod Tests
