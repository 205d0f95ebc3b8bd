-- ===== src/Jobs/Run/Laws.antt =====
-- internal/core/usecase/analysis.go: RunAnalysisJob refines a function of what the ports answer, is
-- safe to deliver twice, and always gives its cancel function back.
use observai_api.Base.{
  String, true, false, none, some, ◌≡◌, refl, ap, sym, ◌∙◌, inl, inr, Bool-cases, Option-cases,
  arith,
}
use observai_api.Base.Dict.{lookup, lookup-delete}
use text.Mathlib.TextPositions.{eq_refl}
use observai_api.Base.Errors.{Result, ok, err, wrap}
use observai_api.Domain.Analysis.{AnalysisResult}
use observai_api.Jobs.Types.{
  World, Ports, Point, AnalysisJob, before_find, before_register, before_running,
}
use observai_api.Jobs.Repository.{find, missing_job}
use observai_api.Jobs.Execute.{is_canceled}
use observai_api.Jobs.Execute.Progress.{alone, analyze, JobView, view}
use observai_api.Jobs.Run.{
  is_settled, is_cancellation, register_cancel, release_cancel, run_registered, run_unsettled,
  run_analysis_job,
}
use observai_api.Jobs.Run.Outcome.{
  answer, Settled, running_view, settled_view, run_registered-Settled,
}

release_cancel-Settled :
    (id : String) (v : JobView) (r : Result AnalysisResult) (before w : World)
    → Settled id v r (register_cancel id before) w
    → Settled id v r before (release_cancel id w)
unfolding release_cancel register_cancel
release_cancel-Settled id v r before w s = elim (Option-cases (lookup id w.active_cancels)) [
  | inl h ↦ record {
    job = s.job;
    found = rw h s.found;
    viewed = s.viewed;
    stored = λ a p. rw h (s.stored a p);
    notified = rw h s.notified;
  }
  | inr (run, h) ↦ record {
    job = s.job;
    found = rw h s.found;
    viewed = s.viewed;
    stored = λ a p. rw h (s.stored a p);
    notified = rw h s.notified;
  }
]

release_cancel-removes :
    (id : String) (w : World) → lookup id (release_cancel id w).active_cancels ≡ none
unfolding release_cancel
release_cancel-removes id w = simp (lookup-delete, eq_refl)

-- RunAnalysisJob of a job that is stored and neither completed nor canceled, while no other goroutine
-- acts, does what the outcome of the analysis says, which is a function of the ports' answers: it
-- returns the error unless that is a cancellation; the job has one more attempt and is completed with
-- the identifier of its result, failed with the error's message, or canceled; a result is stored under
-- the job's identifier; the notifier is told of a completion or a failure, once; and the registry holds
-- no cancel function of the job.
pub run_analysis_job-outcome :
    (ports : Ports) (id : String) (job : AnalysisJob) (w : World)
    → lookup id w.jobs ≡ some job
    → is_settled job.status ≡ false
    → let r = analyze ports (is_canceled w.next_run w) id job.request w.time in
      let after = run_analysis_job ports alone id w in
      (after.0 ≡ answer r)
      × Settled id (running_view (view job)) r w after.1
      × (lookup id after.1.active_cancels ≡ none)
unfolding run_analysis_job run_unsettled find register_cancel
run_analysis_job-outcome ports id job w h s =
    let x = register_cancel id w in
    let ran = run_registered-Settled ports id w.next_run job x h in
    let after = (run_registered ports alone w.next_run id job.request x).1 in
    rw h (
      rw s (
        ran.0,
        release_cancel-Settled id (running_view (view job))
            (analyze ports (is_canceled w.next_run w) id job.request w.time) w after ran.1,
        release_cancel-removes id after,
      ))

pub run_settled :
    (ports : Ports) (id : String) (job : AnalysisJob) (w : World)
    → lookup id w.jobs ≡ some job
    → is_settled job.status ≡ true
    → run_analysis_job ports alone id w ≡ (ok tt, w)
unfolding run_analysis_job find
run_settled ports id job w h s = rw h (rw s refl)

run_missing :
    (ports : Ports) (id : String) (w : World)
    → lookup id w.jobs ≡ none
    → (run_analysis_job ports alone id w).0 ≡ err (wrap "load analysis job" (missing_job id))
unfolding run_analysis_job find
run_missing ports id w h = rw h refl

answer-settled :
    (id : String) (v : JobView) (r : Result AnalysisResult)
    → answer r ≡ ok tt
    → is_settled (settled_view id v r).status ≡ true
unfolding is_settled
answer-settled id v (ok a) h = refl
answer-settled id v (err e) h = elim (Bool-cases (is_cancellation e)) [
  | inl c ↦ rw c refl
  | inr c ↦ let p : err e ≡ ok tt = rw c at h in absurd (ground arith)
]

-- After a run of RunAnalysisJob that returned no error, while no other goroutine acts, another run of
-- the same job returns no error and changes nothing, whatever the ports then answer: a queue may
-- deliver a job twice.
pub run_analysis_job-redelivery :
    (ports later : Ports) (id : String) (w : World)
    → let after = run_analysis_job ports alone id w in
      after.0 ≡ ok tt → run_analysis_job later alone id after.1 ≡ (ok tt, after.1)
run_analysis_job-redelivery ports later id w h = elim (Option-cases (lookup id w.jobs)) [
  | inl missing ↦ let p = sym (run_missing ports id w missing) ∙ h in absurd (ground arith)
  | inr (job, found) ↦ elim (Bool-cases (is_settled job.status)) [
    | inl s ↦ rw (run_settled ports id job w found s) (run_settled later id job w found s)
    | inr s ↦
        let (returned, settled, _) = run_analysis_job-outcome ports id job w found s in
        run_settled later id settled.job (run_analysis_job ports alone id w).1 settled.found (
          ap (λ v. is_settled v.status) settled.viewed
          ∙ answer-settled id (running_view (view job))
              (analyze ports (is_canceled w.next_run w) id job.request w.time) (sym returned ∙ h))
  ]
]

-- When RunAnalysisJob returns, the registry holds no cancel function of the job, if it held none when
-- the job was loaded: on every path, errors included, and whatever other goroutines do meanwhile.
pub run_analysis_job-releases :
    (ports : Ports) (others : Point → World → World) (id : String) (w : World)
    → lookup id (others before_find w).active_cancels ≡ none
    → lookup id (run_analysis_job ports others id w).1.active_cancels ≡ none
unfolding run_analysis_job run_unsettled find
run_analysis_job-releases ports others id w h =
    let x = others before_find w in
    elim (Option-cases (lookup id x.jobs)) [
      | inl missing ↦ rw missing h
      | inr (job, found) ↦ elim (Bool-cases (is_settled job.status)) [
        | inl s ↦ rw found (rw s h)
        | inr s ↦
            let y = others before_register x in
            let z = others before_running (register_cancel id y) in
            rw found (
              rw s (
                release_cancel-removes id
                  (run_registered ports others y.next_run id job.request z).1))
      ]
    ]
