-- ===== src/Sync/Mutex/Tests.antt =====
-- The theorems on mutex.c at a mutex that task 2 owns, and task 3 or task 4 waits for.
use zenith_os.Prelude.{◌==◌, ◌≡◌, if◌then◌else◌, true, false, [], ◌∷◌, refl, arith}
use zenith_os.Scheduler.Queue.{Ptr, null}
use zenith_os.Scheduler.State.{running, blocked, context, Sched}
use zenith_os.Sync.Mutex.{Mutex, mutex_init, enter_wait, lock_round, mutex_unlock}
use zenith_os.Sync.Mutex.Laws.{IsOwned, HandedOver, mutex_unlock-HandedOver}
use zenith_os.Sync.Mutex.Exclusion.{
  Usage, after_round, Reached, starts, goes, locks, moves, one_holder,
}

-- The task that runs is `p`; task 3 is blocked.
abbrev system : Ptr → Sched
system p = record {
  tasks = λ t. record {
    id = t;
    entry = 0;
    rsp = 0;
    interrupt_rsp = null;
    kernel_stack = 0;
    kernel_stack_size = 0;
    state = if t == 3 then blocked else running;
    wake_tick = 0;
    resume_mode = context;
    process = null;
  };
  processes = λ q. record {
    page_table_physical = 0;
    user_rip = 0;
    user_rsp = 0;
    user_rflags = 0;
    is_user_process = false;
    user_started = false;
  };
  ready_queue = [];
  blocked_queue = [];
  sleep_queue = [];
  current_task = p;
  idle = 1;
  pending_task = null;
  preemption_ticks = 0;
  preemption_requested = false;
  active_pml4 = 0;
  rsp0 = 0;
}

abbrev held : Mutex
held = record { locked = true; owner = 2; wait_queue = 3 ∷ [] }

held-IsOwned : IsOwned held
held-IsOwned = refl

mutex_unlock-HandedOver_example :
    HandedOver 64 held (system 2) 3 [] (mutex_unlock 64 held (system 2))
mutex_unlock-HandedOver_example =
    mutex_unlock-HandedOver 64 held (system 2) 3 [] (omega arith) (omega arith) refl held-IsOwned
      refl (omega arith) refl

-- Task 2 takes the mutex, and task 4 asks for it and goes to the wait queue.
abbrev taken : Usage
taken = after_round (λ i. false) 2 (lock_round 64 mutex_init (system 2))

abbrev asked : Usage
asked = after_round taken.holds 4 (lock_round 64 taken.mutex (system 4))

asked-Reached : Reached 64 asked
unfolding mutex_init lock_round enter_wait
asked-Reached =
    goes
      (goes (goes (starts (system 2)) (locks (omega arith) (omega arith) refl)) (moves (system 4)))
      (locks (omega arith) (omega arith) refl)

two_holds : asked.holds 2 ≡ true
unfolding mutex_init lock_round enter_wait
two_holds = refl

abbrev two : Ptr
two = 2

one_holder_example : (two ≡ two) × (asked.mutex.locked ≡ true) × (asked.mutex.owner ≡ two)
one_holder_example = one_holder 64 asked asked-Reached two two two_holds two_holds
