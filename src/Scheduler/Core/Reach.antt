-- ===== src/Scheduler/Core/Reach.antt =====
-- The scheduler as a state machine: the calls of scheduler.c, and those of task.c and mutex.c that
-- change its state, as steps, and what holds in every state that they reach.
use zenith_os.Prelude.{
  ℕ, ◌≡◌, ◌≢◌, refl, ap, subst, true, false, ◌||◌, arith, Bool-cases, List-cases, inl, inr, ◌==◌,
  some, some_inj, All, ==→ne,
}
use zenith_os.Scheduler.Queue.{Ptr, null}
use zenith_os.Scheduler.Queue.Chain.{has}
use zenith_os.Scheduler.State.{
  TaskState, Sched, running, ready, blocked, sleeping, terminated, set_state,
}
use zenith_os.Scheduler.Core.{
  Switch, init, add_task, yield_cpu, block_current, unblock, tick, sleep,
}
use zenith_os.Scheduler.Core.Interrupt.{preempt, interrupt_return}
use zenith_os.Scheduler.Core.Valid.{
  state_of, All-has, IsTask, IsValid, IsLoose, same-IsValid, loose-IsValid,
}
use zenith_os.Scheduler.Core.Steps.{
  add_task-IsValid, yield_cpu-IsValid, block_current-IsValid, sleep-keeps-IsValid, unblock-IsValid,
  running-IsLoose,
}
use zenith_os.Scheduler.Core.Wake.{tick_lem}
use zenith_os.Scheduler.Task.{task_exit}
use zenith_os.Sync.Mutex.{Mutex, lock_round, enter_wait, mutex_unlock}
use zenith_os.Sync.Mutex.Laws.{sched_of}
use zenith_os.Scheduler.Core.Preempt.{interrupt_return-IsValid}

-- A call, with what its caller has to know: a task that is added is in no queue, only a running task
-- blocks, goes to sleep, ends or waits for a mutex, and the idle task is never unblocked, ended or
-- in the wait queue of a mutex. What `mutex_lock` does under its guard and the `scheduler_yield`
-- that follows are two steps.
pub data Step (s : Sched) : Sched → Type 0 where
  adds : (t : Ptr) → IsLoose s t → Step s (add_task s t)
  gives_way : Step s (yield_cpu s).1
  blocks : state_of s s.current_task ≡ running → Step s (block_current s).1
  sleeps : (now ticks : ℕ) → state_of s s.current_task ≡ running → Step s (sleep now ticks s).1
  unblocks : (t : Ptr) → t ≢ s.idle → Step s (unblock s t)
  wakes : (now : ℕ) → Step s (tick now s)
  counts : (ctx : Ptr) → Step s (preempt ctx s)
  returns : (resume : ℕ) (rsp : Ptr) → Step s (interrupt_return resume rsp s).1
  exits :
      (r : Switch × Sched)
      → state_of s s.current_task ≡ running
      → s.current_task ≢ s.idle
      → task_exit s ≡ some r
      → Step s r.1
  locks :
      (at : Ptr) (m : Mutex)
      → state_of s s.current_task ≡ running
      → s.current_task ≢ s.idle
      → Step s (sched_of (lock_round at m s))
  unlocks :
      (at : Ptr) (m : Mutex) → All (λ t. t ≢ s.idle) m.wait_queue → Step s (mutex_unlock at m s).1

pub data Reachable : Sched → Type 0 where
  boots : (s : Sched) (task : Ptr) → Reachable (init s task)
  steps : {s r : Sched} → Reachable s → Step s r → Reachable r

init-IsValid_lem : (s : Sched) (task : Ptr) → IsValid (init s task)
unfolding init
init-IsValid_lem s task = elim (Bool-cases (task == null)) [
  | inl none_left ↦ rw none_left (record {
    ready_tasks = record { distinct = tt; tasks = tt };
    blocked_tasks = record { distinct = tt; tasks = tt };
    sleep_tasks = record { distinct = tt; tasks = tt };
  })
  | inr made ↦ rw made (record {
    ready_tasks = record { distinct = tt; tasks = tt };
    blocked_tasks = record { distinct = tt; tasks = tt };
    sleep_tasks = record { distinct = tt; tasks = tt };
  })
]

preempt-IsValid : (ctx : Ptr) (s : Sched) → IsValid s → IsValid (preempt ctx s)
unfolding preempt
preempt-IsValid ctx s v =
    same-IsValid s (preempt ctx s) v (ground arith) (λ a. ground arith) (ground arith)
      (ground arith) (ground arith)

-- The running task with another state, in no queue.
module _ (s : Sched) (v : IsValid s) (run : state_of s s.current_task ≡ running)
    (ni : s.current_task ≢ s.idle) where
  stopped-IsValid :
      (st : TaskState) → s.current_task ≢ null → IsValid (set_state s s.current_task st)
  stopped-IsValid st nn =
      loose-IsValid s (set_state s s.current_task st) s.current_task v
        (running-IsLoose s v (ground arith) run) refl (λ a ne. ground arith) refl refl refl

  task_exit-IsValid : (r : Switch × Sched) → task_exit s ≡ some r → IsValid r.1
  unfolding task_exit
  task_exit-IsValid r e = elim (Bool-cases (s.current_task == null)) [
    | inl none_runs ↦ absurd (cc (rw none_runs at e))
    | inr runs ↦
        let ended = set_state s s.current_task terminated in
        subst IsValid (ap (λ (o : Switch × Sched). o.1) (some_inj (rw runs at e)))
          (yield_cpu-IsValid ended (stopped-IsValid terminated (==→ne s.current_task null runs)))
  ]

  lock_round-IsValid : (at : Ptr) (m : Mutex) → IsValid (sched_of (lock_round at m s))
  unfolding lock_round enter_wait
  lock_round-IsValid at m = elim (Bool-cases (at == null || s.current_task == null)) [
    | inl out ↦ rw out v
    | inr go ↦ rw go (elim (Bool-cases (m.owner == s.current_task)) [
      | inl own ↦ rw own v
      | inr other ↦ rw other (elim (Bool-cases m.locked) [
        | inl locked ↦ rw locked (stopped-IsValid blocked (ground arith))
        | inr free ↦ rw free v
      ])
    ])
  ]

mutex_unlock-IsValid :
    (s : Sched) (at : Ptr) (m : Mutex)
    → IsValid s
    → All (λ t. t ≢ s.idle) m.wait_queue
    → IsValid (mutex_unlock at m s).1
unfolding mutex_unlock
mutex_unlock-IsValid s at m v waiting = elim (Bool-cases (at == null || s.current_task == null)) [
  | inl out ↦ rw out v
  | inr go ↦ rw go (elim (Bool-cases (m.owner == s.current_task)) [
    | inr other ↦ rw other v
    | inl own ↦ rw own (elim (List-cases m.wait_queue) [
      | inl q ↦ rw q v
      | inr (x, rest, q) ↦ rw q (let first = rw q at waiting in unblock-IsValid s x v first.0)
    ])
  ])
]

Step-IsValid : {s r : Sched} → Step s r → IsValid s → IsValid r
Step-IsValid {s} (adds t l) v = add_task-IsValid s t v l
Step-IsValid {s} gives_way v = yield_cpu-IsValid s v
Step-IsValid {s} (blocks run) v = block_current-IsValid s v run
Step-IsValid {s} (sleeps now ticks run) v = sleep-keeps-IsValid now ticks s v run
Step-IsValid {s} (unblocks t ne) v = unblock-IsValid s t v ne
Step-IsValid {s} (wakes now) v = (tick_lem now s v).0
Step-IsValid {s} (counts ctx) v = preempt-IsValid ctx s v
Step-IsValid {s} (returns resume rsp) v = interrupt_return-IsValid resume rsp s v
Step-IsValid {s} (exits r run ni e) v = task_exit-IsValid s v run ni r e
Step-IsValid {s} (locks at m run ni) v = lock_round-IsValid s v run ni at m
Step-IsValid {s} (unlocks at m waiting) v = mutex_unlock-IsValid s at m v waiting

-- In every state that the scheduler reaches from `scheduler_init`, each queue holds different tasks,
-- in the state that the queue is for, and neither NULL nor the idle task.
pub Reachable-IsValid : {s : Sched} → Reachable s → IsValid s
Reachable-IsValid (boots s task) = init-IsValid_lem s task
Reachable-IsValid (steps before step) = Step-IsValid step (Reachable-IsValid before)

-- In every state that is reached, a task that is ready is neither in the blocked nor in the sleep
-- queue, and its state is TASK_READY.
pub Reachable-ready :
    {s : Sched} (t : Ptr)
    → Reachable s
    → has t s.ready_queue ≡ true
    → (has t s.blocked_queue ≡ false) × (has t s.sleep_queue ≡ false) × (state_of s t ≡ ready)
Reachable-ready {s} t reach h =
    let v = Reachable-IsValid reach in
    let is = All-has (IsTask (state_of s) s.idle ready) s.ready_queue t v.ready_tasks.tasks h in
    let not_blocked : has t s.blocked_queue ≡ false = elim (Bool-cases (has t s.blocked_queue)) [
      | inl there ↦ absurd (
          cc (
            (All-has (IsTask (state_of s) s.idle blocked) s.blocked_queue t v.blocked_tasks.tasks
                there).0,
            is.0,
          ))
      | inr out ↦ out
    ] in
    let not_asleep : has t s.sleep_queue ≡ false = elim (Bool-cases (has t s.sleep_queue)) [
      | inl there ↦ absurd (
          cc (
            (All-has (IsTask (state_of s) s.idle sleeping) s.sleep_queue t v.sleep_tasks.tasks
                there).0,
            is.0,
          ))
      | inr out ↦ out
    ] in
    (not_blocked, not_asleep, is.0)
