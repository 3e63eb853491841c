-- ===== src/Sync/Mutex.antt =====
-- kernel/src/sync/mutex.c. The guard is a spinlock that is taken with interrupts off, so what a
-- function does under it is one step; the wait queue is a list, as the queues of the scheduler are.
-- Interrupts are on again before a task that has to wait calls `scheduler_yield`, so that call is a
-- step of its own.
pub mod Exclusion
pub mod Laws
mod Tests
use zenith_os.Prelude.{ℕ, ◌==◌, ◌||◌, not, if◌then◌else◌, Bool, true, false, List, [], ◌∷◌, ◌++◌}
use zenith_os.Scheduler.Queue.{Ptr, null}
use zenith_os.Scheduler.Queue.Remove.{without}
use zenith_os.Scheduler.State.{blocked, Sched, set_state}
use zenith_os.Scheduler.Core.{Switch, stay, yield_cpu, unblock}

-- `mutex_t` without its guard.
pub record Mutex : Type 0 where
  pub locked : Bool
  pub owner : Ptr
  pub wait_queue : List Ptr

unfoldable pub mutex_init : Mutex
mutex_init = record { locked = false; owner = null; wait_queue = [] }

-- How a round of the loop of `mutex_lock` leaves the guard: the function returns, or the task is in
-- the wait queue, and goes on with `lock_wait` and another round.
pub data Round : Type 0 where
  returns waits : Mutex → Sched → Round

-- The caller goes to the wait queue.
unfoldable pub enter_wait : Mutex → Sched → Mutex × Sched
enter_wait m s = (
  record m { wait_queue = m.wait_queue ++ (s.current_task ∷ []) },
  set_state s s.current_task blocked,
)

-- What a round does under the guard, by the running task; `at` is the address of the mutex. The
-- tests before the loop change nothing between rounds: the first round makes them, and a later one
-- passes them.
unfoldable pub lock_round : Ptr → Mutex → Sched → Round
lock_round at m s =
    if at == null || s.current_task == null
    then returns m s
    else if m.owner == s.current_task
    then returns m s
    else if not m.locked
    then returns (record m { locked = true; owner = s.current_task }) s
    else let (m1, s1) = enter_wait m s in waits m1 s1

-- How a round of a task that has to wait ends.
unfoldable pub lock_wait : Sched → Switch × Sched
lock_wait s = yield_cpu s

unfoldable pub mutex_unlock : Ptr → Mutex → Sched → Mutex × Sched
mutex_unlock at m s =
    if at == null || s.current_task == null
    then (m, s)
    else if not (m.owner == s.current_task)
    then (m, s)
    else elim m.wait_queue [
      | [] ↦ (record m { locked = false; owner = null }, s)
      | next ∷ rest ↦
          (record m { wait_queue = without next (next ∷ rest); owner = next }, unblock s next)
    ]
