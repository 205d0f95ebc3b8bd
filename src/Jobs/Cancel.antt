-- ===== src/Jobs/Cancel.antt =====
-- internal/core/usecase/analysis.go: a CancelJob that reaches a run while it collects evidence.
use observai_api.Base.{
  ℕ, String, true, false, List, ◌∷◌, some, ◌≡◌, refl, ap, ◌∙◌, inl, inr, any, ◌==◌, arith,
  Option-cases,
}
use observai_api.Base.Text.{trim_space, is_empty}
use observai_api.Base.Dict.{lookup, lookup-insert_self}
use observai_api.Base.Errors.{Error, ok, err, wrap}
use observai_api.Domain.Analysis.{AnalysisRequest, validate}
use observai_api.Jobs.Types.{
  World, Ports, Point, before_find, before_register, before_running, before_collect,
  before_generate, before_save, before_finish, AnalysisJob, canceled, collecting_signals,
}
use observai_api.Jobs.Repository.{
  find, mark_running, mark_canceled, mark_phase, to_running, to_canceled,
}
use observai_api.Jobs.Execute.{is_canceled, execute_analyze}
use observai_api.Jobs.Execute.Progress.{
  JobView, view, During, put, transition_present, mark_phase-During,
}
use observai_api.Jobs.Run.{
  is_settled, is_cancellation, notify, invoke_cancel, register_cancel, release_cancel,
  record_outcome, run_registered, run_unsettled, run_analysis_job,
}
use observai_api.Jobs.Run.Outcome.{running_view}
use observai_api.Jobs.Api.{is_terminal_job_status}
use observai_api.Jobs.Api.Laws.{after_cancel, cancel_job_open, invoke_cancel-jobs}
use observai_api.Jobs.Race.{cancel_at}

-- Only one other goroutine acts, while the evidence is collected.
abbrev pub while_collecting : (World → World) → Point → World → World
while_collecting f before_find = λ w. w
while_collecting f before_register = λ w. w
while_collecting f before_running = λ w. w
while_collecting f before_collect = f
while_collecting f before_generate = λ w. w
while_collecting f before_save = λ w. w
while_collecting f before_finish = λ w. w

-- The job is stored as canceled.
pub record StoredCanceled (id : String) (w : World) : Type 0 where
  pub job : AnalysisJob
  pub found : lookup id w.jobs ≡ some job
  pub status : job.status ≡ canceled

is_canceled_self :
    (run : ℕ) (w : World) (runs : List ℕ) → w.canceled_runs ≡ run ∷ runs → is_canceled run w ≡ true
is_canceled_self run w runs h = ap (any (λ r. r == run)) h ∙ ground arith

module _ (id : String) (v : JobView) (before w : World) (d : During id v before w)
    (trimmed : trim_space id ≡ id) (filled : is_empty id ≡ false)
    (fresh : is_terminal_job_status v.status ≡ false) where
  abbrev stopped_job : AnalysisJob
  stopped_job = to_canceled w.time d.job

  cancel_at_lem : cancel_at id w ≡ after_cancel id d.job w
  cancel_at_lem =
      ap (λ r. r.1)
        (cancel_job_open id w d.job (rw trimmed filled) (rw trimmed (d.found))
          (ap (λ x. is_terminal_job_status x.status) d.viewed ∙ fresh))
      ∙ ap (λ k. after_cancel k d.job w) trimmed

  cancel_at-Stored : StoredCanceled id (cancel_at id w)
  unfolding notify
  cancel_at-Stored = record {
    job = stopped_job;
    found =
        ap (λ x. lookup id x.jobs) cancel_at_lem
        ∙ ap (lookup id) (invoke_cancel-jobs id (put id stopped_job w))
        ∙ lookup-insert_self id stopped_job w.jobs;
    status = refl;
  }

  cancel_at-reaches :
      (run : ℕ)
      → lookup id before.active_cancels ≡ some run
      → is_canceled run (cancel_at id w) ≡ true
  unfolding notify invoke_cancel
  cancel_at-reaches run h =
      let registered : lookup id w.active_cancels ≡ some run = ap (lookup id) d.registry ∙ h in
      is_canceled_self run (cancel_at id w) w.canceled_runs
        (ap (λ x. x.canceled_runs) cancel_at_lem ∙ rw registered refl)

record_outcome_canceled :
    (id : String) (request : AnalysisRequest) (e : Error) (w : World)
    → is_cancellation e ≡ true
    → StoredCanceled id w
    → ((record_outcome id request (err e) w).0 ≡ ok tt)
      × StoredCanceled id (record_outcome id request (err e) w).1
unfolding record_outcome mark_canceled
record_outcome_canceled id request e w c s =
    let mutate = to_canceled w.time in
    rw c (
      rw (transition_present id mutate s.job w s.found) (
        refl,
        record {
          job = mutate s.job;
          found = lookup-insert_self id (mutate s.job) w.jobs;
          status = refl;
        },
      ))

execute_stopped :
    (ports : Ports) (run : ℕ) (id : String) (request : AnalysisRequest) (v : JobView)
    (before w : World) (e : Error)
    → During id v before w
    → trim_space id ≡ id
    → is_empty id ≡ false
    → is_terminal_job_status v.status ≡ false
    → lookup id before.active_cancels ≡ some run
    → validate request ≡ ok tt
    → ports.collect true request ≡ err e
    → execute_analyze ports (while_collecting (cancel_at id)) run id request w ≡ (
      err (wrap "collect analysis evidence" e),
      cancel_at id (mark_phase id collecting_signals 10 w).1,
    )
unfolding execute_analyze
execute_stopped ports run id request v before w e d trimmed filled fresh registered valid refused =
    let w' = (mark_phase id collecting_signals 10 w).1 in
    let d' = mark_phase-During id v before w collecting_signals 10 d in
    let reached = cancel_at-reaches id v before w' d' trimmed filled fresh run registered in
    let stopped : ports.collect (is_canceled run (cancel_at id w')) request ≡ err e =
      ap (λ b. ports.collect b request) reached ∙ refused in
    rw valid (rw stopped refl)

run_registered_stopped :
    (ports : Ports) (run : ℕ) (id : String) (job : AnalysisJob) (w : World) (e : Error)
    → lookup id w.jobs ≡ some job
    → trim_space id ≡ id
    → is_empty id ≡ false
    → lookup id w.active_cancels ≡ some run
    → validate job.request ≡ ok tt
    → ports.collect true job.request ≡ err e
    → is_cancellation e ≡ true
    → let after = run_registered ports (while_collecting (cancel_at id)) run id job.request w in
      (after.0 ≡ ok tt) × StoredCanceled id after.1
unfolding run_registered mark_running is_terminal_job_status is_cancellation
run_registered_stopped ports run id job w e h trimmed filled registered valid refused c =
    let started = put id (to_running w.time job) w in
    let v = running_view (view job) in
    let d : During id v w started = record {
      job = to_running w.time job;
      found = lookup-insert_self id (to_running w.time job) w.jobs;
      viewed = refl;
      time = refl;
      canceled = refl;
      registry = refl;
      notified = refl;
    } in
    let w' = (mark_phase id collecting_signals 10 started).1 in
    let d' = mark_phase-During id v w started collecting_signals 10 d in
    let ended =
      execute_stopped ports run id job.request v w started e d trimmed filled refl registered valid
        refused in
    rw (transition_present id (to_running w.time) job w h) (
      rw ended (
        record_outcome_canceled id job.request (wrap "collect analysis evidence" e)
          (cancel_at id w') c (cancel_at-Stored id v w w' d' trimmed filled refl)))

release_cancel-Stored :
    (id : String) (w : World) → StoredCanceled id w → StoredCanceled id (release_cancel id w)
unfolding release_cancel
release_cancel-Stored id w s = elim (Option-cases (lookup id w.active_cancels)) [
  | inl h ↦ record { job = s.job; found = rw h (s.found); status = s.status }
  | inr (run, h) ↦ record { job = s.job; found = rw h (s.found); status = s.status }
]

-- The hypotheses are those of a run whose collector ends a call with a cancelled context by a
-- cancellation: the job is stored under a name with no space around it, is neither completed nor
-- canceled, and has a valid request. When a CancelJob of the job falls while the evidence is collected,
-- RunAnalysisJob returns no error and leaves the job canceled.
pub run_analysis_job-StoredCanceled :
    (ports : Ports) (id : String) (job : AnalysisJob) (e : Error) (w : World)
    → lookup id w.jobs ≡ some job
    → is_settled job.status ≡ false
    → trim_space id ≡ id
    → is_empty id ≡ false
    → validate job.request ≡ ok tt
    → ports.collect true job.request ≡ err e
    → is_cancellation e ≡ true
    → let after = run_analysis_job ports (while_collecting (cancel_at id)) id w in
      (after.0 ≡ ok tt) × StoredCanceled id after.1
unfolding run_analysis_job run_unsettled find register_cancel
run_analysis_job-StoredCanceled ports id job e w h s trimmed filled valid refused c =
    let x = register_cancel id w in
    let registered = lookup-insert_self id w.next_run w.active_cancels in
    let ran =
      run_registered_stopped ports w.next_run id job x e h trimmed filled registered valid refused
        c in
    let after =
      run_registered ports (while_collecting (cancel_at id)) w.next_run id job.request x in
    rw h (rw s (ran.0, release_cancel-Stored id after.1 ran.1))
