-- ===== src/Jobs/Api.antt =====
-- internal/core/usecase/analysis.go: SubmitAnalysis, GetJob and CancelJob. The asynchronous backend
-- and the notifier are attached.
pub mod Laws
use observai_api.Base.{String, Bool, true, false, Option, none, some, if◌then◌else◌}
use observai_api.Base.Text.{trim_space, is_empty}
use observai_api.Base.Errors.{Error, Result, ok, err, error, wrap, job_not_found}
use observai_api.Domain.Analysis.{Time, AnalysisRequest, validate}
use observai_api.Jobs.Types.{
  World, AnalysisJob, JobStatus, pending, running, completed, failed, canceled, queued,
  notify_canceled,
}
use observai_api.Base.Exec.{◌>>=◌, ◌>>◌, Exec, pure, fail, lift, gets, modify, wrapping}
use observai_api.Jobs.Repository.{create, find, mark_canceled}
use observai_api.Jobs.Run.{invoke_cancel, notify}

-- isTerminalJobStatus
unfoldable pub is_terminal_job_status : JobStatus → Bool
is_terminal_job_status completed = true
is_terminal_job_status failed = true
is_terminal_job_status canceled = true
is_terminal_job_status pending = false
is_terminal_job_status running = false

-- The job that SubmitAnalysis creates.
unfoldable pub pending_job : String → AnalysisRequest → Time → AnalysisJob
pending_job id request at = record {
  id = id;
  analysis_id = "";
  status = pending;
  phase = queued;
  progress_percent = 0;
  request = request;
  error_message = "";
  attempt = 0;
  created_at = at;
  started_at = none;
  phase_started_at = none;
  finished_at = none;
}

abbrev enqueued : Option Error → Result (Unit {0})
enqueued none = ok tt
enqueued (some e) = err (wrap "enqueue analysis job" e)

-- `next_id` and `enqueue` are what the generator of ids and the queue return.
unfoldable pub submit_analysis :
    Result String → (String → Option Error) → AnalysisRequest → Exec World AnalysisJob
submit_analysis next_id enqueue request = do
  lift (validate request)
  id ← wrapping "create analysis job id" (lift next_id)
  job ← gets (λ w. pending_job id request w.time)
  modify (create job)
  lift (enqueued (enqueue id))
  pure job

abbrev pub job_id_required : Error
job_id_required = error job_not_found "analysis job not found: job id is required"

unfoldable pub get_job : String → Exec World AnalysisJob
unfolding trim_space
get_job text = let id = trim_space text in if is_empty id then fail job_id_required else find id

-- CancelJob once the job is known not to be terminal.
unfoldable pub cancel_found : String → Exec World AnalysisJob
cancel_found id = do
  wrapping "mark analysis job canceled" (mark_canceled id)
  modify (invoke_cancel id)
  job ← find id
  modify (notify (notify_canceled job.id job.request))
  pure job

unfoldable pub cancel_job : String → Exec World AnalysisJob
unfolding trim_space
cancel_job text =
    let id = trim_space text in
    if is_empty id
    then fail job_id_required
    else do job ← find id; if is_terminal_job_status job.status then pure job else cancel_found id
