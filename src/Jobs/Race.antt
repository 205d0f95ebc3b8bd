-- ===== src/Jobs/Race.antt =====
-- internal/core/usecase/analysis.go: a CancelJob that falls between the end of executeAnalyze and the
-- recording of its outcome.
use observai_api.Base.{ℕ, String, false, ◌∷◌, some, ◌≡◌, refl, ap, ◌∙◌, inl, inr, Option-cases}
use observai_api.Base.Text.{trim_space, is_empty}
use observai_api.Base.Dict.{lookup, lookup-insert_self}
use observai_api.Base.Errors.{ok}
use observai_api.Domain.Analysis.{AnalysisRequest, AnalysisResult}
use observai_api.Jobs.Types.{
  World, Ports, Point, before_find, before_register, before_running, before_collect,
  before_generate, before_save, before_finish, AnalysisJob, completed, notify_canceled,
  notify_completed,
}
use observai_api.Jobs.Repository.{
  find, mark_running, mark_completed, to_running, to_completed, to_canceled,
}
use observai_api.Jobs.Execute.{is_canceled, execute_analyze, generate_collected, save_generated}
use observai_api.Jobs.Execute.Outcome.{execute_analyze-outcome}
use observai_api.Jobs.Execute.Progress.{
  alone, analyze, JobView, view, During, put, transition_present,
}
use observai_api.Jobs.Run.{
  is_settled, notify, invoke_cancel, register_cancel, release_cancel, record_outcome,
  run_registered, run_unsettled, run_analysis_job,
}
use observai_api.Jobs.Run.Outcome.{running_view}
use observai_api.Jobs.Api.{cancel_job, is_terminal_job_status}
use observai_api.Jobs.Api.Laws.{after_cancel, cancel_job_open, invoke_cancel-jobs}

-- Only one other goroutine acts, once the analysis has been executed.
abbrev pub late : (World → World) → Point → World → World
late f before_find = λ w. w
late f before_register = λ w. w
late f before_running = λ w. w
late f before_collect = λ w. w
late f before_generate = λ w. w
late f before_save = λ w. w
late f before_finish = f

execute_late :
    (ports : Ports) (f : World → World) (run : ℕ) (id : String) (request : AnalysisRequest)
    → execute_analyze ports (late f) run id request ≡ execute_analyze ports alone run id request
unfolding execute_analyze generate_collected save_generated
execute_late ports f run id request = refl

run_registered-late :
    (ports : Ports) (f : World → World) (run : ℕ) (id : String) (job : AnalysisJob) (w : World)
    → lookup id w.jobs ≡ some job
    → let (r, w') =
        execute_analyze ports alone run id job.request (put id (to_running w.time job) w) in
      run_registered ports (late f) run id job.request w ≡ record_outcome id job.request r (f w')
unfolding run_registered mark_running
run_registered-late ports f run id job w h =
    rw (transition_present id (to_running w.time) job w h)
      (rw (execute_late ports f run id job.request) refl)

abbrev pub cancel_at : String → World → World
cancel_at id w = (cancel_job id w).1

-- The job is completed, and the notifier was told both that it was canceled and that it completed.
pub record CancelLost (id : String) (a : AnalysisResult) (before w : World) : Type 0 where
  pub job : AnalysisJob
  pub found : lookup id w.jobs ≡ some job
  pub overwritten : job.status ≡ completed
  pub named : String
  pub notified :
      w.notifications
      ≡ notify_completed a ∷ notify_canceled named job.request ∷ before.notifications

invoke_cancel-notifications :
    (id : String) (w : World) → (invoke_cancel id w).notifications ≡ w.notifications
unfolding invoke_cancel
invoke_cancel-notifications id w = elim (Option-cases (lookup id w.active_cancels)) [
  | inl h ↦ rw h refl
  | inr (run, h) ↦ rw h refl
]

release_cancel-Lost :
    (id : String) (a : AnalysisResult) (before w : World)
    → CancelLost id a (register_cancel id before) w
    → CancelLost id a before (release_cancel id w)
unfolding release_cancel register_cancel
release_cancel-Lost id a before w c = elim (Option-cases (lookup id w.active_cancels)) [
  | inl h ↦ record {
    job = c.job;
    found = rw h (c.found);
    overwritten = c.overwritten;
    named = c.named;
    notified = rw h (c.notified);
  }
  | inr (run, h) ↦ record {
    job = c.job;
    found = rw h (c.found);
    overwritten = c.overwritten;
    named = c.named;
    notified = rw h (c.notified);
  }
]

record_outcome-Lost :
    (id : String) (v : JobView) (request : AnalysisRequest) (before w : World) (a : AnalysisResult)
    → trim_space id ≡ id
    → is_empty id ≡ false
    → is_terminal_job_status v.status ≡ false
    → During id v before w
    → ((record_outcome id request (ok a) (cancel_at id w)).0 ≡ ok tt)
      × CancelLost id a before (record_outcome id request (ok a) (cancel_at id w)).1
unfolding record_outcome mark_completed notify
record_outcome-Lost id v request before w a trimmed filled fresh d =
    let canceled_job = to_canceled w.time d.job in
    let same : lookup (trim_space id) w.jobs ≡ some d.job = rw trimmed (d.found) in
    let step : cancel_job id w ≡ (ok canceled_job, after_cancel (trim_space id) d.job w) =
      cancel_job_open id w d.job (rw trimmed filled) same
        (ap (λ x. is_terminal_job_status x.status) d.viewed ∙ fresh) in
    let x = after_cancel id d.job w in
    let found =
      ap (lookup id) (invoke_cancel-jobs id (put id canceled_job w))
      ∙ lookup-insert_self id canceled_job w.jobs in
    let mutate = to_completed a.id x.time in
    rw (step, cancel_at)
      (rw (trimmed) (
        rw (transition_present id mutate canceled_job x found) (
          refl,
          record {
            job = mutate canceled_job;
            found = lookup-insert_self id (mutate canceled_job) x.jobs;
            overwritten = refl;
            named = canceled_job.id;
            notified =
                ap
                  (λ ns.
                    notify_completed a ∷ notify_canceled canceled_job.id canceled_job.request ∷ ns)
                  (invoke_cancel-notifications id (put id canceled_job w) ∙ d.notified);
          },
        )))

-- The hypotheses are those of a run that succeeds: the job is stored under a name with no space around
-- it, is neither completed nor canceled, and the analysis has a result. When a CancelJob of the job
-- falls after the analysis was executed and before MarkCompleted, RunAnalysisJob returns no error and
-- leaves the job completed, and the notifier was told that the job was canceled and then that it
-- completed: MarkCompleted overwrites the cancellation.
pub cancel-Lost :
    (ports : Ports) (id : String) (job : AnalysisJob) (a : AnalysisResult) (w : World)
    → lookup id w.jobs ≡ some job
    → is_settled job.status ≡ false
    → trim_space id ≡ id
    → is_empty id ≡ false
    → analyze ports (is_canceled w.next_run w) id job.request w.time ≡ ok a
    → let after = run_analysis_job ports (late (cancel_at id)) id w in
      (after.0 ≡ ok tt) × CancelLost id a w after.1
unfolding run_analysis_job run_unsettled find register_cancel is_terminal_job_status
cancel-Lost ports id job a w h s trimmed filled analyzed =
    let x = register_cancel id w in
    let v = running_view (view job) in
    let during : During id v x (put id (to_running x.time job) x) = record {
      job = to_running x.time job;
      found = lookup-insert_self id (to_running x.time job) x.jobs;
      viewed = refl;
      time = refl;
      canceled = refl;
      registry = refl;
      notified = refl;
    } in
    let started = put id (to_running x.time job) x in
    let executed = execute_analyze-outcome ports w.next_run id job.request v x started during in
    let ended = execute_analyze ports alone w.next_run id job.request started in
    let lost =
      record_outcome-Lost id v job.request x ended.1 a trimmed filled refl executed.1.during in
    let ran : run_registered ports (late (cancel_at id)) w.next_run id job.request x
        ≡ record_outcome id job.request (ok a) (cancel_at id ended.1) =
      run_registered-late ports (cancel_at id) w.next_run id job x h
      ∙ ap (λ r. record_outcome id job.request r (cancel_at id ended.1)) (executed.0 ∙ analyzed) in
    rw (h) (
      rw (s) (
        rw (ran) (
          lost.0,
          release_cancel-Lost id a w (record_outcome id job.request (ok a) (cancel_at id ended.1)).1
              lost.1,
        )))
