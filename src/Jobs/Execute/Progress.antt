-- ===== src/Jobs/Execute/Progress.antt =====
-- internal/core/usecase/analysis.go: the outcome of executeAnalyze without its state, and what a job
-- looks like while it is executed.
use observai_api.Base.{ℕ, String, Bool, List, Option, none, some, ◌≡◌, refl}
use observai_api.Base.Dict.{lookup, insert, lookup-insert_self}
use observai_api.Base.Errors.{Error, Result, ok, err, wrap, or_wrap, ◌>>=◌, ◌>>◌}
use observai_api.Domain.Analysis.{AnalysisRequest, AnalysisResult, Evidence, validate}
use observai_api.Jobs.Types.{World, Ports, Point, AnalysisJob, JobStatus, JobPhase}
use observai_api.Jobs.Repository.{transition, mark_phase, to_phase}
use observai_api.Jobs.Execute.{classified_evidence, relevant_evidence, finish_result}

-- No other goroutine acts.
abbrev pub alone : Point → World → World
alone p w = w

abbrev pub saved : Option Error → AnalysisResult → Result AnalysisResult
saved none result = ok result
saved (some e) result = err (wrap "save analysis" e)

abbrev pub finished :
    Ports
    → Bool
    → String
    → AnalysisRequest
    → ℕ
    → List Evidence
    → AnalysisResult
    → Result AnalysisResult
finished ports stopped id request now evidence generated =
    let result = finish_result id request evidence now generated in
    saved (ports.save stopped result) result

-- The outcome as a function of what the ports answer, with no state.
abbrev pub analyze : Ports → Bool → String → AnalysisRequest → ℕ → Result AnalysisResult
analyze ports stopped id request now = do
  validate request
  collected ← or_wrap "collect analysis evidence" (ports.collect stopped request)
  let evidence = classified_evidence collected
  generated ←
      or_wrap "generate analysis"
        (ports.generate stopped request (relevant_evidence ports request evidence))
  finished ports stopped id request now evidence generated

-- The part of a job that progress reports leave alone.
pub record JobView : Type 0 where
  pub status : JobStatus
  pub attempt : ℕ
  pub analysis_id : String
  pub error_message : String
  pub request : AnalysisRequest

abbrev pub view : AnalysisJob → JobView
view job = record {
  status = job.status;
  attempt = job.attempt;
  analysis_id = job.analysis_id;
  error_message = job.error_message;
  request = job.request;
}

-- The job is stored with this view; the clock, the cancellations, the registry and the notifications
-- are those of `before`.
pub record During (id : String) (v : JobView) (before w : World) : Type 0 where
  pub job : AnalysisJob
  pub found : lookup id w.jobs ≡ some job
  pub viewed : view job ≡ v
  pub time : w.time ≡ before.time
  pub canceled : w.canceled_runs ≡ before.canceled_runs
  pub registry : w.active_cancels ≡ before.active_cancels
  pub notified : w.notifications ≡ before.notifications

-- The world with a job replaced.
abbrev pub put : String → AnalysisJob → World → World
put id job w = record w { jobs = insert id job w.jobs }

pub transition_present :
    (id : String) (mutate : AnalysisJob → AnalysisJob) (job : AnalysisJob) (w : World)
    → lookup id w.jobs ≡ some job
    → transition id mutate w ≡ (ok tt, put id (mutate job) w)
unfolding transition
transition_present id mutate job w h = rw h refl

pub mark_phase-During :
    (id : String) (v : JobView) (before w : World) (phase : JobPhase) (percent : ℕ)
    → During id v before w
    → During id v before (mark_phase id phase percent w).1
unfolding mark_phase
mark_phase-During id v before w phase percent d =
    let mutate = to_phase phase percent w.time in
    rw (transition_present id mutate d.job w d.found) (record {
      job = mutate d.job;
      found = lookup-insert_self id (mutate d.job) w.jobs;
      viewed = d.viewed;
      time = d.time;
      canceled = d.canceled;
      registry = d.registry;
      notified = d.notified;
    })

-- What is left when executeAnalyze has ended with `r`.
pub record Executed (id : String) (v : JobView) (before : World) (r : Result AnalysisResult)
    (w : World) : Type 0 where
  pub during : During id v before w
  pub kept : (a : AnalysisResult) → r ≡ ok a → (a.id ≡ id) × (lookup id w.analyses ≡ some a)
