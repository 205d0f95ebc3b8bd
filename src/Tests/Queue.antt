-- ===== src/Tests/Queue.antt =====
-- Runs of the theorems on the queue.
use observai_api.Base.{true, false, [], ◌∷◌, ◌++◌, ◌≡◌, refl, length, ◌≤◌, ◌<◌, arith}
use observai_api.Base.Int.{pos}
use observai_api.Queue.{
  AnalysisQueue, new_analysis_queue, close_flag, close_jobs, enqueued, refused, panicked, received,
  enqueued_step, received_step, close_flag_step, close_jobs_step, Step, Run, stop, step,
}
use observai_api.Queue.Fifo.{accepted, delivered, Run-fifo}
use observai_api.Queue.Closing.{Run-closed}

abbrev after : AnalysisQueue
after = record { capacity = 2; jobs = "j2" ∷ []; flagged = true; jobs_closed = false }

two_jobs :
    Run
      (new_analysis_queue (pos 2))
      (enqueued "j1" ∷ enqueued "j2" ∷ close_flag ∷ received "j1" ∷ [])
      after
unfolding new_analysis_queue
two_jobs = step (enqueued_step refl (omega arith)) (
    step (enqueued_step refl (omega arith))
      (step (close_flag_step refl) (step (received_step refl) stop)))

Run-fifo_example :
    (accepted (enqueued "j1" ∷ enqueued "j2" ∷ close_flag ∷ received "j1" ∷ [])
      ≡ delivered (enqueued "j1" ∷ enqueued "j2" ∷ close_flag ∷ received "j1" ∷ []) ++ after.jobs)
    × (length after.jobs ≤ after.capacity)
    × (0 < after.capacity)
Run-fifo_example =
    Run-fifo (pos 2) (enqueued "j1" ∷ enqueued "j2" ∷ close_flag ∷ received "j1" ∷ []) after
      two_jobs

abbrev closed : AnalysisQueue
closed = record { capacity = 2; jobs = "j1" ∷ []; flagged = true; jobs_closed = true }

closed-Run : Run (new_analysis_queue (pos 2)) (enqueued "j1" ∷ close_flag ∷ close_jobs ∷ []) closed
unfolding new_analysis_queue
closed-Run =
    step (enqueued_step refl (omega arith))
      (step (close_flag_step refl) (step (close_jobs_step refl refl) stop))

Run-closed_example :
    ((r : AnalysisQueue) → ¬ Step closed (enqueued "j2") r)
    × Step closed (refused "j2") closed
    × Step closed (panicked "j2") closed
Run-closed_example =
    Run-closed (pos 2) (enqueued "j1" ∷ close_flag ∷ close_jobs ∷ []) closed "j2" closed-Run refl
