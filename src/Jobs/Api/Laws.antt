-- ===== src/Jobs/Api/Laws.antt =====
-- internal/core/usecase/analysis.go: what SubmitAnalysis, GetJob and CancelJob promise each other and
-- the worker.
use observai_api.Base.{
  String, true, false, Option, none, some, ◌≡◌, refl, ap, sym, ◌∙◌, inl, inr, Bool-cases,
  Option-cases, arith,
}
use observai_api.Base.Text.{trim_space, is_empty}
use observai_api.Base.Dict.{lookup, lookup-insert_self}
use observai_api.Base.Errors.{ok-injective, Error, Result, ok, err, wrap}
use observai_api.Jobs.Types.{World, Ports, AnalysisJob, canceled, notify_canceled}
use observai_api.Jobs.Repository.{find, missing_job, mark_canceled, to_canceled}
use observai_api.Jobs.Execute.Progress.{alone, put, transition_present}
use observai_api.Jobs.Run.{invoke_cancel, notify, is_settled, run_analysis_job}
use observai_api.Jobs.Run.Laws.{run_settled}
use observai_api.Jobs.Api.{
  is_terminal_job_status, get_job, job_id_required, cancel_found, cancel_job,
}

pub invoke_cancel-jobs : (id : String) (w : World) → (invoke_cancel id w).jobs ≡ w.jobs
unfolding invoke_cancel
invoke_cancel-jobs id w = elim (Option-cases (lookup id w.active_cancels)) [
  | inl h ↦ rw h refl
  | inr (run, h) ↦ rw h refl
]

-- What CancelJob leaves of a job that is not terminal.
abbrev pub after_cancel : String → AnalysisJob → World → World
after_cancel id job w =
    let j = to_canceled w.time job in
    notify (notify_canceled j.id j.request) (invoke_cancel id (put id j w))

pub cancel_found_lem :
    (id : String) (job : AnalysisJob) (w : World)
    → lookup id w.jobs ≡ some job
    → cancel_found id w ≡ (ok (to_canceled w.time job), after_cancel id job w)
unfolding cancel_found mark_canceled find
cancel_found_lem id job w h =
    let mutate = to_canceled w.time in
    let found =
      ap (lookup id) (invoke_cancel-jobs id (put id (mutate job) w))
      ∙ lookup-insert_self id (mutate job) w.jobs in
    rw (transition_present id mutate job w h) (rw found refl)

module _ (text : String) (w : World) where
  -- The job that CancelJob reads.
  abbrev read : Option AnalysisJob
  read = lookup (trim_space text) w.jobs

  cancel_job_blank :
      is_empty (trim_space text) ≡ true → cancel_job text w ≡ (err job_id_required, w)
  unfolding cancel_job
  cancel_job_blank h = rw h refl

  cancel_job_missing :
      is_empty (trim_space text) ≡ false
      → read ≡ none
      → cancel_job text w ≡ (err (missing_job (trim_space text)), w)
  unfolding cancel_job find
  cancel_job_missing h m = rw h (rw m refl)

  cancel_job_terminal :
      (job : AnalysisJob)
      → is_empty (trim_space text) ≡ false
      → read ≡ some job
      → is_terminal_job_status job.status ≡ true
      → cancel_job text w ≡ (ok job, w)
  unfolding cancel_job find
  cancel_job_terminal job h m t = rw h (rw m (rw t refl))

  pub cancel_job_open :
      (job : AnalysisJob)
      → is_empty (trim_space text) ≡ false
      → read ≡ some job
      → is_terminal_job_status job.status ≡ false
      → cancel_job text w ≡ (ok (to_canceled w.time job), after_cancel (trim_space text) job w)
  unfolding cancel_job find
  cancel_job_open job h m t = rw h (rw m (rw t (cancel_found_lem (trim_space text) job w m)))

-- What a call of CancelJob does: it refuses, finds the job terminal, or cancels it.
data CancelCase (text : String) (w : World) : Type 0 where
  refused : (e : Error) → cancel_job text w ≡ (err e, w) → CancelCase text w
  kept :
      (job : AnalysisJob)
      → is_empty (trim_space text) ≡ false
      → lookup (trim_space text) w.jobs ≡ some job
      → is_terminal_job_status job.status ≡ true
      → CancelCase text w
  stopped :
      (job : AnalysisJob)
      → is_empty (trim_space text) ≡ false
      → lookup (trim_space text) w.jobs ≡ some job
      → is_terminal_job_status job.status ≡ false
      → CancelCase text w

cancel_case : (text : String) (w : World) → CancelCase text w
cancel_case text w = elim (Bool-cases (is_empty (trim_space text))) [
  | inl b ↦ refused job_id_required (cancel_job_blank text w b)
  | inr b ↦ elim (Option-cases (lookup (trim_space text) w.jobs)) [
    | inl m ↦ refused (missing_job (trim_space text)) (cancel_job_missing text w b m)
    | inr (job, m) ↦ elim (Bool-cases (is_terminal_job_status job.status)) [
      | inl t ↦ kept job b m t
      | inr t ↦ stopped job b m t
    ]
  ]
]

-- CancelJob that returned `job` has left it stored and terminal.
record Canceled (text : String) (job : AnalysisJob) (w : World) : Type 0 where
  filled : is_empty (trim_space text) ≡ false
  found : lookup (trim_space text) w.jobs ≡ some job
  terminal : is_terminal_job_status job.status ≡ true

cancel_job-Canceled :
    (text : String) (w : World) (job : AnalysisJob)
    → (cancel_job text w).0 ≡ ok job
    → Canceled text job (cancel_job text w).1
unfolding notify is_terminal_job_status
cancel_job-Canceled text w job h = elim (cancel_case text w) [
  | refused e p ↦ let q : err e ≡ ok job = rw p at h in absurd (ground arith)
  | kept j b m t ↦
      let p = cancel_job_terminal text w j b m t in
      let q = ok-injective j job (rw p at h) in
      rw (p, sym q) (record { filled = b; found = m; terminal = t })
  | stopped j b m t ↦
      let p = cancel_job_open text w j b m t in
      let q = ok-injective (to_canceled w.time j) job (rw p at h) in
      rw (p, sym q)
        (record {
          filled = b;
          found =
              ap (lookup (trim_space text)) (
                invoke_cancel-jobs (trim_space text)
                  (put (trim_space text) (to_canceled w.time j) w))
              ∙ lookup-insert_self (trim_space text) (to_canceled w.time j) w.jobs;
          terminal = refl;
        })
]

-- A CancelJob that returns a job returns one that is completed, failed or canceled and that GetJob
-- then returns for the same text, and calling CancelJob again returns it again and changes nothing.
pub cancel_job_idem :
    (text : String) (w : World) (job : AnalysisJob)
    → (cancel_job text w).0 ≡ ok job
    → let after = (cancel_job text w).1 in
      (is_terminal_job_status job.status ≡ true)
      × (get_job text after ≡ (ok job, after))
      × (cancel_job text after ≡ (ok job, after))
unfolding get_job find
cancel_job_idem text w job h =
    let c = cancel_job-Canceled text w job h in
    let after = (cancel_job text w).1 in
    (
      c.terminal,
      rw (c.filled) (rw (c.found) refl),
      cancel_job_terminal text after job c.filled c.found c.terminal,
    )

-- A job that CancelJob returned as canceled is not run afterwards: RunAnalysisJob, while no other
-- goroutine acts, returns no error and changes nothing.
pub cancel_job-stops_run :
    (ports : Ports) (text : String) (w : World) (job : AnalysisJob)
    → (cancel_job text w).0 ≡ ok job
    → job.status ≡ canceled
    → let after = (cancel_job text w).1 in
      run_analysis_job ports alone (trim_space text) after ≡ (ok tt, after)
unfolding is_settled
cancel_job-stops_run ports text w job h s =
    let c = cancel_job-Canceled text w job h in
    run_settled ports (trim_space text) job (cancel_job text w).1 c.found (ap is_settled s)

-- What SubmitAnalysis returns once the job is stored.
abbrev submitted : Option Error → AnalysisJob → Result AnalysisJob
submitted none job = ok job
submitted (some e) job = err (wrap "enqueue analysis job" e)
