-- ===== src/Queue/Fifo.antt =====
-- internal/adapters/outbound/inmemory/queue.go: the queue is a bounded first-in first-out buffer, until an
-- enqueue after Close.
use mathlib.Core.List.{append_assoc, append-nil}
use observai_api.Base.{
  suc, zero, ◌≤◌, ◌<◌, String, List, [], ◌∷◌, ◌++◌, ◌≡◌, refl, ap, ◌∙◌, length, length-append,
  arith,
}
use observai_api.Base.Int.{ℤ, pos, negsuc}
use observai_api.Queue.{
  AnalysisQueue, new_analysis_queue, Event, close_flag, close_jobs, enqueued, refused, interrupted,
  panicked, received, drained, Step, close_flag_step, close_jobs_step, refused_step,
  interrupted_step, enqueued_step, panicked_step, received_step, drained_step, Run, stop, step,
}

-- The jobs that were accepted, and those that were handed to workers, in order.
abbrev pub accepted : List Event → List String
accepted [] = []
accepted (enqueued id ∷ events) = id ∷ accepted events
accepted (_ ∷ events) = accepted events

abbrev pub delivered : List Event → List String
delivered [] = []
delivered (received id ∷ events) = id ∷ delivered events
delivered (_ ∷ events) = delivered events

-- What one step does to the buffer.
Step-jobs :
    {q r : AnalysisQueue} {event : Event}
    → Step q event r
    → q.jobs ++ accepted (event ∷ []) ≡ delivered (event ∷ []) ++ r.jobs
Step-jobs (close_flag_step {q} f) = append-nil q.jobs
Step-jobs (close_jobs_step {q} f c) = append-nil q.jobs
Step-jobs (refused_step {q} f) = append-nil q.jobs
Step-jobs (interrupted_step {q}) = append-nil q.jobs
Step-jobs (enqueued_step c room) = refl
Step-jobs (panicked_step {q} c) = append-nil q.jobs
Step-jobs (received_step {q} first) = append-nil q.jobs ∙ first
Step-jobs (drained_step {q} none_left c) = append-nil q.jobs

abbrev IsBounded : AnalysisQueue → Type 0
IsBounded q = (length q.jobs ≤ q.capacity) × (0 < q.capacity)

Step-IsBounded : {q r : AnalysisQueue} {event : Event} → Step q event r → IsBounded q → IsBounded r
Step-IsBounded (close_flag_step f) b = b
Step-IsBounded (close_jobs_step f c) b = b
Step-IsBounded (refused_step f) b = b
Step-IsBounded interrupted_step b = b
Step-IsBounded (enqueued_step {q} {id} c room) b =
    (omega (arith, length-append q.jobs (id ∷ [])), b.1)
Step-IsBounded (panicked_step c) b = b
Step-IsBounded (received_step {q} first) b = (omega (arith, ap length first), b.1)
Step-IsBounded (drained_step none_left c) b = b

accepted-cons :
    (event : Event) (events : List Event)
    → accepted (event ∷ events) ≡ accepted (event ∷ []) ++ accepted events
accepted-cons close_flag events = refl
accepted-cons close_jobs events = refl
accepted-cons (enqueued id) events = refl
accepted-cons (refused id) events = refl
accepted-cons (interrupted id) events = refl
accepted-cons (panicked id) events = refl
accepted-cons (received id) events = refl
accepted-cons drained events = refl

delivered-cons :
    (event : Event) (events : List Event)
    → delivered (event ∷ events) ≡ delivered (event ∷ []) ++ delivered events
delivered-cons close_flag events = refl
delivered-cons close_jobs events = refl
delivered-cons (enqueued id) events = refl
delivered-cons (refused id) events = refl
delivered-cons (interrupted id) events = refl
delivered-cons (panicked id) events = refl
delivered-cons (received id) events = refl
delivered-cons drained events = refl

Run-jobs :
    {q s : AnalysisQueue} {events : List Event}
    → Run q events s
    → q.jobs ++ accepted events ≡ delivered events ++ s.jobs
Run-jobs (stop {q}) = append-nil q.jobs
Run-jobs (step {q} {r} {s} {event} {events} first rest) =
    let now = Step-jobs first in
    let later = Run-jobs rest in
    grind (arith, now, later, accepted-cons event events, delivered-cons event events, append_assoc)

Run-IsBounded :
    {q s : AnalysisQueue} {events : List Event} → Run q events s → IsBounded q → IsBounded s
Run-IsBounded stop b = b
Run-IsBounded (step first rest) b = Run-IsBounded rest (Step-IsBounded first b)

new-IsBounded : (buffer : ℤ) → IsBounded (new_analysis_queue buffer)
unfolding new_analysis_queue
new-IsBounded (pos zero) = (omega arith, omega arith)
new-IsBounded (pos (suc n)) = (omega arith, omega arith)
new-IsBounded (negsuc n) = (omega arith, omega arith)

-- However producers, workers and Close interleave on a new queue, with any buffer size asked for: the jobs
-- that were accepted are, in order, those that the workers received and those that still wait, so
-- that none is lost, doubled or overtaken; no more wait than the buffer holds, which is one at least.
pub Run-fifo :
    (buffer : ℤ) (events : List Event) (q : AnalysisQueue)
    → Run (new_analysis_queue buffer) events q
    → (accepted events ≡ delivered events ++ q.jobs)
      × (length q.jobs ≤ q.capacity)
      × (0 < q.capacity)
unfolding new_analysis_queue
Run-fifo buffer events q run =
    let b = Run-IsBounded run (new-IsBounded buffer) in (Run-jobs run, b.0, b.1)
