-- ===== src/Jobs/Run.antt =====
-- internal/core/usecase/analysis.go: RunAnalysisJob, with the registry of cancel functions. The
-- asynchronous backend and the notifier are attached.
pub mod Outcome
pub mod Laws
use Prim.Native.String.{◌++◌}
use observai_api.Base.{ℕ, suc, String, Bool, true, false, ◌∷◌, Option, none, some, if◌then◌else◌}
use observai_api.Base.Dict.{lookup, insert, delete}
use observai_api.Base.Errors.{Error, Result, ok, err, context_canceled}
use observai_api.Domain.Analysis.{AnalysisRequest, AnalysisResult}
use observai_api.Jobs.Types.{
  World, Ports, Point, before_find, before_register, before_running, before_finish, JobStatus,
  pending, running, completed, failed, canceled, Notification, notify_completed, notify_failed,
}
use observai_api.Base.Exec.{
  ◌>>=◌, ◌>>◌, Exec, pure, fail, gets, modify, ignore, finally, attempt, wrapping,
}
use observai_api.Jobs.Repository.{find, mark_running, mark_completed, mark_failed, mark_canceled}
use observai_api.Jobs.Execute.{execute_analyze}

-- context.WithCancel and registerCancel: the cancel function of the run is stored under the job.
unfoldable pub register_cancel : String → World → World
unfolding insert
register_cancel id w = record w {
  active_cancels = insert id w.next_run w.active_cancels;
  next_run = suc w.next_run;
}

abbrev pub call_cancel : Option ℕ → World → World
call_cancel none w = w
call_cancel (some run) w = record w { canceled_runs = run ∷ w.canceled_runs }

-- releaseCancel
unfoldable pub release_cancel : String → World → World
unfolding lookup delete
release_cancel id w = record (call_cancel (lookup id w.active_cancels) w) {
  active_cancels = delete id w.active_cancels;
}

-- invokeCancel
unfoldable pub invoke_cancel : String → World → World
unfolding lookup
invoke_cancel id w = call_cancel (lookup id w.active_cancels) w

unfoldable pub notify : Notification → World → World
notify n w = record w { notifications = n ∷ w.notifications }

-- job.Status == Completed || job.Status == Canceled
unfoldable pub is_settled : JobStatus → Bool
is_settled completed = true
is_settled canceled = true
is_settled pending = false
is_settled running = false
is_settled failed = false

-- errors.Is(err, context.Canceled)
unfoldable pub is_cancellation : Error → Bool
is_cancellation e = elim e.sentinel [ context_canceled ↦ true | _ ↦ false ]

-- What RunAnalysisJob does with the result of executeAnalyze.
unfoldable pub record_outcome :
    String → AnalysisRequest → Result AnalysisResult → Exec World (Unit {0})
record_outcome id request (ok result) = do
  wrapping "mark analysis job completed" (mark_completed id result.id)
  modify (notify (notify_completed result))
record_outcome id request (err e) = if is_cancellation e then ignore (mark_canceled id) else do
  wrapping ("mark analysis job failed after " ++ e.message) (mark_failed id e.message)
  modify (notify (notify_failed id request e.message))
  fail e

-- The part of RunAnalysisJob that holds the cancel function.
unfoldable pub run_registered :
    Ports → (Point → World → World) → ℕ → String → AnalysisRequest → Exec World (Unit {0})
run_registered ports others run id request = do
  wrapping "mark analysis job running" (mark_running id)
  outcome ← attempt (execute_analyze ports others run id request)
  modify (others before_finish)
  record_outcome id request outcome

-- RunAnalysisJob once the job is known not to be settled.
unfoldable pub run_unsettled :
    Ports → (Point → World → World) → String → AnalysisRequest → Exec World (Unit {0})
run_unsettled ports others id request = do
  modify (others before_register)
  run ← gets (λ w. w.next_run)
  modify (register_cancel id)
  modify (others before_running)
  finally (run_registered ports others run id request) (release_cancel id)

unfoldable pub run_analysis_job : Ports → (Point → World → World) → String → Exec World (Unit {0})
run_analysis_job ports others id = do
  modify (others before_find)
  job ← wrapping "load analysis job" (find id)
  if is_settled job.status then pure tt else run_unsettled ports others id job.request
