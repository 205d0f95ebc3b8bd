-- ===== src/Jobs/Repository.antt =====
-- internal/adapters/outbound/inmemory/job_repository.go. Each method holds the repository's lock, so
-- it is one step.
use Prim.Native.String.{◌++◌}
use observai_api.Base.{ℕ, suc, String, Option, none, some}
use observai_api.Base.Dict.{lookup, insert}
use observai_api.Base.Errors.{Error, Result, ok, err, error, job_not_found}
use observai_api.Domain.Analysis.{Time}
use observai_api.Jobs.Types.{
  World, AnalysisJob, JobPhase, running, completed, failed, canceled, collecting_signals, done,
}
use observai_api.Base.Exec.{Exec}

abbrev pub missing_job : String → Error
missing_job id = error job_not_found ("analysis job not found: " ++ id)

unfoldable pub create : AnalysisJob → World → World
create job w = record w { jobs = insert job.id job w.jobs }

abbrev pub or_missing : String → Option AnalysisJob → Result AnalysisJob
or_missing id none = err (missing_job id)
or_missing id (some job) = ok job

unfoldable pub find : String → Exec World AnalysisJob
find id w = (or_missing id (lookup id w.jobs), w)

abbrev pub transition_found :
    Option AnalysisJob → String → (AnalysisJob → AnalysisJob) → Exec World (Unit {0})
transition_found none id mutate w = (err (missing_job id), w)
transition_found (some job) id mutate w = (ok tt, record w { jobs = insert id (mutate job) w.jobs })

unfoldable pub transition : String → (AnalysisJob → AnalysisJob) → Exec World (Unit {0})
transition id mutate w = transition_found (lookup id w.jobs) id mutate w

abbrev pub to_running : Time → AnalysisJob → AnalysisJob
to_running at job = record job {
  status = running;
  attempt = suc job.attempt;
  started_at = some at;
  phase = collecting_signals;
  phase_started_at = some at;
}

abbrev pub to_phase : JobPhase → ℕ → Time → AnalysisJob → AnalysisJob
to_phase phase percent at job = record job {
  phase = phase;
  progress_percent = percent;
  phase_started_at = some at;
}

abbrev pub to_completed : String → Time → AnalysisJob → AnalysisJob
to_completed analysis_id at job = record job {
  status = completed;
  phase = done;
  progress_percent = 100;
  analysis_id = analysis_id;
  finished_at = some at;
}

abbrev pub to_failed : String → Time → AnalysisJob → AnalysisJob
to_failed message at job = record job {
  status = failed;
  error_message = message;
  finished_at = some at;
}

abbrev pub to_canceled : Time → AnalysisJob → AnalysisJob
to_canceled at job = record job { status = canceled; finished_at = some at }

unfoldable pub mark_running : String → Exec World (Unit {0})
mark_running id w = transition id (to_running w.time) w

unfoldable pub mark_phase : String → JobPhase → ℕ → Exec World (Unit {0})
mark_phase id phase percent w = transition id (to_phase phase percent w.time) w

unfoldable pub mark_completed : String → String → Exec World (Unit {0})
mark_completed id analysis_id w = transition id (to_completed analysis_id w.time) w

unfoldable pub mark_failed : String → String → Exec World (Unit {0})
mark_failed id message w = transition id (to_failed message w.time) w

unfoldable pub mark_canceled : String → Exec World (Unit {0})
mark_canceled id w = transition id (to_canceled w.time) w
