-- ===== src/Queue.antt =====
-- internal/adapters/outbound/inmemory/queue.go. The goroutines that share a queue meet at its two
-- channels, so that what they do is a relation on the states of these channels: a select whose
-- cases are ready in part takes any of those that are.
pub mod Fifo
pub mod Closing
use observai_api.Base.{
  ℕ, suc, zero, ◌≤◌, ◌<◌, String, Bool, true, false, List, [], ◌∷◌, ◌++◌, ◌≡◌, length,
}
use observai_api.Base.Int.{ℤ, pos, negsuc}
use observai_api.Base.Errors.{Error, Result, ok, err, wrap}

-- AnalysisQueue: the buffer of the channel `jobs`, and whether the channels `closed` and `jobs` are closed.
pub record AnalysisQueue : Type 0 where
  pub capacity : ℕ
  pub jobs : List String
  pub flagged : Bool
  pub jobs_closed : Bool

abbrev pub buffer_size : ℤ → ℕ
buffer_size (pos zero) = 64
buffer_size (pos (suc n)) = suc n
buffer_size (negsuc n) = 64

-- NewAnalysisQueue
unfoldable pub new_analysis_queue : ℤ → AnalysisQueue
new_analysis_queue buffer = record {
  capacity = buffer_size buffer;
  jobs = [];
  flagged = false;
  jobs_closed = false;
}

-- What a goroutine that uses the queue sees of a step.
pub data Event : Type 0 where
  -- the two calls of `close` in Close
  close_flag close_jobs : Event
  -- EnqueueAnalysis returns nil, returns an error, or panics on the send
  enqueued refused interrupted panicked : String → Event
  -- consume receives a job, or finds the channel closed and empty
  received : String → Event
  drained : Event

-- The steps of Close, of EnqueueAnalysis and of consume.
pub data Step : AnalysisQueue → Event → AnalysisQueue → Type 0 where
  -- `once` lets the two calls of close run once, in this order
  close_flag_step :
      {q : AnalysisQueue} → q.flagged ≡ false → Step q close_flag (record q { flagged = true })
  close_jobs_step :
      {q : AnalysisQueue}
      → q.flagged ≡ true
      → q.jobs_closed ≡ false
      → Step q close_jobs (record q { jobs_closed = true })
  -- `case <-closed`
  refused_step : {q : AnalysisQueue} {id : String} → q.flagged ≡ true → Step q (refused id) q
  -- `case <-ctx.Done()`
  interrupted_step : {q : AnalysisQueue} {id : String} → Step q (interrupted id) q
  -- `case jobs <- jobID`, with room in the buffer
  enqueued_step :
      {q : AnalysisQueue} {id : String}
      → q.jobs_closed ≡ false
      → length q.jobs < q.capacity
      → Step q (enqueued id) (record q { jobs = q.jobs ++ id ∷ [] })
  -- `case jobs <- jobID` on the closed channel
  panicked_step : {q : AnalysisQueue} {id : String} → q.jobs_closed ≡ true → Step q (panicked id) q
  -- `case jobID, ok := <-jobs`
  received_step :
      {q : AnalysisQueue} {id : String} {rest : List String}
      → q.jobs ≡ id ∷ rest
      → Step q (received id) (record q { jobs = rest })
  drained_step : {q : AnalysisQueue} → q.jobs ≡ [] → q.jobs_closed ≡ true → Step q drained q

-- Steps one after the other, of all the goroutines together.
pub data Run : AnalysisQueue → List Event → AnalysisQueue → Type 0 where
  stop : {q : AnalysisQueue} → Run q [] q
  step :
      {q r s : AnalysisQueue} {event : Event} {events : List Event}
      → Step q event r
      → Run r events s
      → Run q (event ∷ events) s

-- What a worker reports of the jobs that it receives: each error of the handler, wrapped.
abbrev pub report_of : String → Result (Unit {0}) → List (String × Error) → List (String × Error)
report_of id (ok _) reports = reports
report_of id (err e) reports = (id, wrap "handle analysis job" e) ∷ reports

unfoldable pub consume : (String → Result (Unit {0})) → List String → List (String × Error)
consume handler [] = []
consume handler (id ∷ ids) = report_of id (handler id) (consume handler ids)
