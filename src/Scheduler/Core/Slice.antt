-- ===== src/Scheduler/Core/Slice.antt =====
-- The time slice of `scheduler_preempt`, over several timer interrupts.
use zenith_os.Prelude.{ℕ, zero, suc, ◌+◌, ◌≤◌, ◌<◌, ◌≡◌, ◌≢◌, ◌==◌, false, List, ◌∷◌, arith, ne→==}
use zenith_os.Scheduler.Queue.{Ptr, null}
use zenith_os.Scheduler.State.{Sched}
use zenith_os.Scheduler.Core.{time_slice}
use zenith_os.Scheduler.Core.Interrupt.{preempt}

-- `n` timer interrupts of the same task, with no switch between them.
unfoldable pub preempts : ℕ → Ptr → Sched → Sched
preempts zero ctx s = s
preempts (suc n) ctx s = preempt ctx (preempts n ctx s)

-- A task other than the idle task runs, another one is ready, and no switch is asked for.
pub record IsContended (s : Sched) : Type 0 where
  pub not_null : s.current_task ≢ null
  pub not_idle : s.current_task ≢ s.idle
  pub first : Ptr
  pub rest : List Ptr
  pub ready_one : s.ready_queue ≡ first ∷ rest
  pub not_asked : s.preemption_requested ≡ false

module _ (ctx : Ptr) (s : Sched) (some_ctx : ctx ≢ null) (c : IsContended s) where
  preempts_below :
      (n : ℕ)
      → s.preemption_ticks + n < time_slice
      → preempts n ctx s ≡ record s { preemption_ticks = s.preemption_ticks + n }
  unfolding preempts preempt
  preempts_below zero h = ground arith
  preempts_below (suc n) h =
      rw
        (
          preempts_below n (omega arith),
          ne→== ctx null some_ctx,
          ne→== s.current_task null c.not_null,
          ne→== s.current_task s.idle c.not_idle,
        )
        (ground arith)

  -- A task other than the idle task that runs while another one is ready keeps the processor for its
  -- time slice and no longer: over timer interrupts with a saved frame, the switch is asked for at
  -- the one that brings the count to SCHEDULER_TIME_SLICE, and not before.
  pub preempts_lem :
      (n : ℕ)
      → s.preemption_ticks < time_slice
      → s.preemption_ticks + n ≤ time_slice
      → (preempts n ctx s).preemption_requested ≡ (s.preemption_ticks + n == time_slice)
  unfolding preempts preempt
  preempts_lem zero h k = rw (ne→== (s.preemption_ticks + 0) time_slice (omega arith)) c.not_asked
  preempts_lem (suc n) h k =
      rw
        (
          preempts_below n (omega arith),
          ne→== ctx null some_ctx,
          ne→== s.current_task null c.not_null,
          ne→== s.current_task s.idle c.not_idle,
          c.ready_one,
        )
        (ground (arith, c.not_asked))
