-- ===== src/Tests/Jobs.antt =====
-- Runs of the theorems on the asynchronous jobs.
use observai_api.Base.{◌≡◌, refl, ◌∙◌, Bool, true, false, List, [], ◌∷◌, none}
use observai_api.Base.Text.{trim_space}
use observai_api.Base.Dict.{lookup, insert}
use observai_api.Base.Errors.{Result, ok, err, error, context_canceled}
use observai_api.Domain.Analysis.{AnalysisRequest, AnalysisResult, Evidence, validate}
use observai_api.Jobs.Types.{World, Ports, AnalysisJob}
use observai_api.Jobs.Repository.{find, transition, mark_canceled, to_canceled}
use observai_api.Jobs.Execute.{classified_evidence, finish_result}
use observai_api.Jobs.Execute.Progress.{alone, analyze, view}
use observai_api.Jobs.Run.{invoke_cancel, is_settled, run_analysis_job}
use observai_api.Jobs.Run.Outcome.{answer, Settled, running_view}
use observai_api.Jobs.Run.Laws.{
  run_analysis_job-outcome, run_analysis_job-redelivery, run_analysis_job-releases,
}
use observai_api.Jobs.Api.{is_terminal_job_status, pending_job, get_job, cancel_found, cancel_job}
use observai_api.Jobs.Api.Laws.{cancel_job_idem, cancel_job-stops_run}
use observai_api.Jobs.Run.{is_cancellation}
use observai_api.Jobs.Cancel.{while_collecting, StoredCanceled, run_analysis_job-StoredCanceled}
use observai_api.Jobs.Race.{late, cancel_at, CancelLost, cancel-Lost}
use observai_api.Tests.Samples.{outage, items, generated}

-- The ports answer, and end a call whose context is cancelled.
abbrev collect : Bool → AnalysisRequest → Result (List Evidence)
collect true request = err (error context_canceled "context canceled")
collect false request = ok items

abbrev ports : Ports
ports = record {
  collect = collect;
  redact = λ es. es;
  generate = λ stopped request es. ok generated;
  save = λ stopped result. none;
}

abbrev waiting : AnalysisJob
waiting = pending_job "j1" outage 90

abbrev world : World
world = record {
  time = 300;
  jobs = ("j1", waiting) ∷ [];
  analyses = [];
  contexts = [];
  active_cancels = [];
  next_run = 7;
  canceled_runs = [];
  notifications = [];
}

run_analysis_job-outcome_example :
    ((run_analysis_job ports alone "j1" world).0 ≡ answer (analyze ports false "j1" outage 300))
    × Settled "j1"
        (running_view (view waiting))
        (analyze ports false "j1" outage 300)
        world
        (run_analysis_job ports alone "j1" world).1
    × (lookup "j1" (run_analysis_job ports alone "j1" world).1.active_cancels ≡ none)
unfolding lookup is_settled pending_job
run_analysis_job-outcome_example = run_analysis_job-outcome ports "j1" waiting world refl refl

run_analysis_job-releases_example :
    lookup "j1" (run_analysis_job ports (late (cancel_at "j1")) "j1" world).1.active_cancels ≡ none
unfolding lookup
run_analysis_job-releases_example =
    run_analysis_job-releases ports (late (cancel_at "j1")) "j1" world refl

abbrev stopped : AnalysisJob
stopped = to_canceled 300 waiting

cancel_returns : (cancel_job " j1" world).0 ≡ ok stopped
unfolding cancel_job cancel_found find lookup insert is_terminal_job_status pending_job
    mark_canceled transition invoke_cancel
cancel_returns = refl

cancel_job_idem_example :
    (is_terminal_job_status stopped.status ≡ true)
    × (get_job " j1" (cancel_job " j1" world).1 ≡ (ok stopped, (cancel_job " j1" world).1))
    × (cancel_job " j1" (cancel_job " j1" world).1 ≡ (ok stopped, (cancel_job " j1" world).1))
cancel_job_idem_example = cancel_job_idem " j1" world stopped cancel_returns

cancel_job-stops_run_example :
    run_analysis_job ports alone "j1" (cancel_job " j1" world).1
    ≡ (ok tt, (cancel_job " j1" world).1)
unfolding trim_space
cancel_job-stops_run_example = cancel_job-stops_run ports " j1" world stopped cancel_returns refl

analyzed : answer (analyze ports false "j1" outage 300) ≡ ok tt
unfolding validate trim_space
analyzed = refl

returned : (run_analysis_job ports alone "j1" world).0 ≡ ok tt
unfolding lookup is_settled pending_job
returned = (run_analysis_job-outcome ports "j1" waiting world refl refl).0 ∙ analyzed

run_analysis_job-redelivery_example :
    run_analysis_job ports alone "j1" (run_analysis_job ports alone "j1" world).1
    ≡ (ok tt, (run_analysis_job ports alone "j1" world).1)
run_analysis_job-redelivery_example = run_analysis_job-redelivery ports ports "j1" world returned

-- What the analysis of the sample job gives.
abbrev diagnosis : AnalysisResult
diagnosis = finish_result "j1" outage (classified_evidence items) 300 generated

cancel-Lost_example :
    ((run_analysis_job ports (late (cancel_at "j1")) "j1" world).0 ≡ ok tt)
    × CancelLost "j1" diagnosis world (run_analysis_job ports (late (cancel_at "j1")) "j1" world).1
unfolding lookup is_settled pending_job validate trim_space
cancel-Lost_example = cancel-Lost ports "j1" waiting diagnosis world refl refl refl refl refl

run_analysis_job-StoredCanceled_example :
    ((run_analysis_job ports (while_collecting (cancel_at "j1")) "j1" world).0 ≡ ok tt)
    × StoredCanceled "j1" (run_analysis_job ports (while_collecting (cancel_at "j1")) "j1" world).1
unfolding lookup is_settled pending_job validate trim_space is_cancellation
run_analysis_job-StoredCanceled_example =
    run_analysis_job-StoredCanceled ports "j1" waiting (error context_canceled "context canceled")
      world refl refl refl refl refl refl refl
