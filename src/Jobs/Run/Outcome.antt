-- ===== src/Jobs/Run/Outcome.antt =====
-- internal/core/usecase/analysis.go: what RunAnalysisJob returns and leaves, when no other goroutine
-- acts.
use observai_api.Base.{
  ℕ, suc, String, List, ◌∷◌, some, ◌≡◌, refl, ap, subst, sym, ◌∙◌, Bool-cases, inl, inr,
  if◌then◌else◌,
}
use observai_api.Base.Dict.{lookup, lookup-insert_self}
use observai_api.Base.Errors.{Result, ok, err}
use observai_api.Domain.Analysis.{AnalysisRequest, AnalysisResult}
use observai_api.Jobs.Types.{
  World, Ports, AnalysisJob, running, completed, failed, canceled, Notification, notify_completed,
  notify_failed,
}
use observai_api.Jobs.Repository.{
  mark_running, mark_completed, mark_failed, mark_canceled, to_running, to_completed, to_failed,
  to_canceled,
}
use observai_api.Jobs.Execute.{is_canceled, execute_analyze}
use observai_api.Jobs.Execute.Outcome.{execute_analyze-outcome}
use observai_api.Jobs.Execute.Progress.{
  alone, analyze, JobView, view, During, put, transition_present, Executed,
}
use observai_api.Jobs.Run.{is_cancellation, notify, record_outcome, run_registered}

-- What RunAnalysisJob returns for an outcome of the analysis: a cancellation is no error.
abbrev pub answer : Result AnalysisResult → Result (Unit {0})
answer (ok a) = ok tt
answer (err e) = if is_cancellation e then ok tt else err e

abbrev completed_view : String → JobView → JobView
completed_view id v = record v { status = completed; analysis_id = id }

abbrev canceled_view : JobView → JobView
canceled_view v = record v { status = canceled }

abbrev failed_view : String → JobView → JobView
failed_view message v = record v { status = failed; error_message = message }

-- The job that is left.
abbrev pub settled_view : String → JobView → Result AnalysisResult → JobView
settled_view id v (ok a) = completed_view id v
settled_view id v (err e) = if is_cancellation e then canceled_view v else failed_view e.message v

-- The notifications that are sent.
abbrev pub notified_of :
    String → AnalysisRequest → Result AnalysisResult → List Notification → List Notification
notified_of id request (ok a) ns = notify_completed a ∷ ns
notified_of id request (err e) ns =
    if is_cancellation e then ns else notify_failed id request e.message ∷ ns

-- A result that was produced is stored under the job's identifier.
abbrev pub Stored : String → Result AnalysisResult → World → Type 0
Stored id r w = (a : AnalysisResult) → r ≡ ok a → lookup id w.analyses ≡ some a

pub record Settled (id : String) (v : JobView) (r : Result AnalysisResult) (before w : World)
    : Type 0 where
  pub job : AnalysisJob
  pub found : lookup id w.jobs ≡ some job
  pub viewed : view job ≡ settled_view id v r
  pub stored : Stored id r w
  pub notified : w.notifications ≡ notified_of id v.request r before.notifications

-- The view of a job that has begun to run once more.
abbrev pub running_view : JobView → JobView
running_view v = record v { status = running; attempt = suc v.attempt }

pub record_outcome-Settled :
    (id : String) (v : JobView) (before w : World) (r : Result AnalysisResult)
    → Executed id v before r w
    → ((record_outcome id v.request r w).0 ≡ answer r)
      × Settled id v r before (record_outcome id v.request r w).1
unfolding record_outcome mark_completed mark_failed mark_canceled notify
record_outcome-Settled id v before w (ok a) x =
    let d = x.during in
    let (named, kept) = x.kept a refl in
    let mutate = to_completed a.id w.time in
    rw (transition_present id mutate d.job w d.found) (
      refl,
      record {
        job = mutate d.job;
        found = lookup-insert_self id (mutate d.job) w.jobs;
        viewed = ap (completed_view a.id) d.viewed ∙ ap (λ i. completed_view i v) named;
        stored = λ b h. (x.kept b h).1;
        notified = ap (λ ns. notify_completed a ∷ ns) d.notified;
      },
    )
record_outcome-Settled id v before w (err e) x = elim (Bool-cases (is_cancellation e)) [
  | inl c ↦
      let d = x.during in
      let mutate = to_canceled w.time in
      rw (c) (
        rw (transition_present id mutate d.job w d.found) (
          refl,
          record {
            job = mutate d.job;
            found = lookup-insert_self id (mutate d.job) w.jobs;
            viewed = rw c (ap canceled_view d.viewed);
            stored = λ b h. (x.kept b h).1;
            notified = rw c d.notified;
          },
        ))
  | inr c ↦
      let d = x.during in
      let mutate = to_failed e.message w.time in
      rw (c) (
        rw (transition_present id mutate d.job w d.found) (
          refl,
          record {
            job = mutate d.job;
            found = lookup-insert_self id (mutate d.job) w.jobs;
            viewed = rw c (ap (failed_view e.message) d.viewed);
            stored = λ b h. (x.kept b h).1;
            notified = rw c (ap (λ ns. notify_failed id v.request e.message ∷ ns) d.notified);
          },
        ))
]

module _ (ports : Ports) (id : String) where
  abbrev pub Ran : ℕ → AnalysisRequest → JobView → World → Result (Unit {0}) × World → Type 0
  Ran run request v before after =
      let r = analyze ports (is_canceled run before) id request before.time in
      (after.0 ≡ answer r) × Settled id v r before after.1

  pub run_registered-Settled :
      (run : ℕ) (job : AnalysisJob) (w : World)
      → lookup id w.jobs ≡ some job
      → Ran run job.request
          (running_view (view job))
          w
          (run_registered ports alone run id job.request w)
  unfolding run_registered mark_running
  run_registered-Settled run job w h =
      let mutate = to_running w.time in
      let started = put id (mutate job) w in
      let during : During id (running_view (view job)) w started = record {
        job = mutate job;
        found = lookup-insert_self id (mutate job) w.jobs;
        viewed = refl;
        time = refl;
        canceled = refl;
        registry = refl;
        notified = refl;
      } in
      let executed =
        execute_analyze-outcome ports run id job.request (running_view (view job)) w started
          during in
      let after = execute_analyze ports alone run id job.request started in
      let r = analyze ports (is_canceled run w) id job.request w.time in
      rw (transition_present id mutate job w h) (
        subst
          (λ r'.
            let out = record_outcome id job.request r' after.1 in
            (out.0 ≡ answer r) × Settled id (running_view (view job)) r w out.1)
          (sym executed.0)
          (record_outcome-Settled id (running_view (view job)) w after.1 r executed.1))
