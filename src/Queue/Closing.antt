-- ===== src/Queue/Closing.antt =====
-- internal/adapters/outbound/inmemory/queue.go: what EnqueueAnalysis can do after Close.
use observai_api.Base.{Bool, true, false, ◌||◌, String, List, [], ◌∷◌, ◌≡◌, refl, ◌∙◌, arith}
use observai_api.Base.Int.{ℤ}
use observai_api.Queue.{
  AnalysisQueue, new_analysis_queue, Event, close_jobs, enqueued, refused, panicked, Step,
  close_flag_step, close_jobs_step, refused_step, interrupted_step, enqueued_step, panicked_step,
  received_step, drained_step, Run, stop, step,
}

-- Whether Close has closed the channel `jobs`, the last thing it does.
abbrev pub closes : Event → Bool
closes close_jobs = true
closes _ = false

abbrev pub any_closes : List Event → Bool
any_closes [] = false
any_closes (event ∷ events) = let later = any_closes events in closes event || later

-- The channel `jobs` is closed after the channel `closed`.
abbrev IsOrdered : AnalysisQueue → Type 0
IsOrdered q = q.jobs_closed ≡ true → q.flagged ≡ true

Step-IsOrdered : {q r : AnalysisQueue} {event : Event} → Step q event r → IsOrdered q → IsOrdered r
Step-IsOrdered (close_flag_step f) o = λ c. refl
Step-IsOrdered (close_jobs_step f c) o = λ d. f
Step-IsOrdered (refused_step f) o = o
Step-IsOrdered interrupted_step o = o
Step-IsOrdered (enqueued_step c room) o = o
Step-IsOrdered (panicked_step c) o = o
Step-IsOrdered (received_step first) o = o
Step-IsOrdered (drained_step none_left c) o = o

Step-jobs_closed :
    {q r : AnalysisQueue} {event : Event}
    → Step q event r
    → r.jobs_closed ≡ (q.jobs_closed || closes event)
Step-jobs_closed (close_flag_step {q} f) = ground arith
Step-jobs_closed (close_jobs_step f c) = ground arith
Step-jobs_closed (refused_step f) = ground arith
Step-jobs_closed interrupted_step = ground arith
Step-jobs_closed (enqueued_step c room) = ground arith
Step-jobs_closed (panicked_step c) = ground arith
Step-jobs_closed (received_step first) = ground arith
Step-jobs_closed (drained_step none_left c) = ground arith

Run-IsOrdered :
    {q s : AnalysisQueue} {events : List Event} → Run q events s → IsOrdered q → IsOrdered s
Run-IsOrdered stop o = o
Run-IsOrdered (step first rest) o = Run-IsOrdered rest (Step-IsOrdered first o)

Run-jobs_closed :
    {q s : AnalysisQueue} {events : List Event}
    → Run q events s
    → s.jobs_closed ≡ (q.jobs_closed || any_closes events)
Run-jobs_closed stop = ground arith
Run-jobs_closed (step first rest) = ground (arith, Step-jobs_closed first, Run-jobs_closed rest)

not_enqueued : {q r : AnalysisQueue} {id : String} → Step q (enqueued id) r → q.jobs_closed ≡ false
not_enqueued (enqueued_step c room) = c

-- However producers, workers and Close interleave on a new queue: once Close has run, a call of
-- EnqueueAnalysis never accepts the job, whether the buffer has room or not, and both the return
-- of the error for a closed queue and the panic on the send are open to it.
pub Run-closed :
    (buffer : ℤ) (events : List Event) (q : AnalysisQueue) (id : String)
    → Run (new_analysis_queue buffer) events q
    → any_closes events ≡ true
    → ((r : AnalysisQueue) → ¬ Step q (enqueued id) r)
      × Step q (refused id) q
      × Step q (panicked id) q
unfolding new_analysis_queue
Run-closed buffer events q id run closed =
    let shut : q.jobs_closed ≡ true = Run-jobs_closed run ∙ closed in
    let flagged : q.flagged ≡ true = Run-IsOrdered run new_ordered shut in
    (
      (λ r s. absurd (ground (arith, not_enqueued s, shut))),
      refused_step flagged,
      panicked_step shut,
    )
  where
    new_ordered : IsOrdered (new_analysis_queue buffer)
    new_ordered = λ c. absurd (ground arith)
