-- ===== src/Scheduler/Core/Steps.antt =====
-- Every function of scheduler.c that changes the queues keeps the invariant.
use zenith_os.Prelude.{
  ℕ, ◌≡◌, refl, subst, ◌≢◌, inl, inr, true, false, not, ◌&&◌, ◌||◌, List, [], ◌∷◌, arith, ◌==◌,
  if◌then◌else◌, ne→==, ==→ne, Bool-cases, List-cases,
}
use zenith_os.Scheduler.Queue.{Ptr, null}
use zenith_os.Scheduler.Queue.Remove.{without}
use zenith_os.Scheduler.State.{
  TaskState, ready, running, blocked, sleeping, Sched, same_state, set_state, push_ready,
}
use zenith_os.Scheduler.Core.{
  reset_resume_state, switch_to, add_task, schedule, requeue_running, yield_cpu, block_current,
  make_ready, unblock, sleep, enter_sleep, enter_blocked,
}
use zenith_os.Scheduler.Core.Valid.{
  state_of, Queued, IsValid, not_queued, Queued-without, has-without, IsLoose, same-IsValid,
  ready-IsValid, blocked-IsValid, sleep-IsValid, loose-IsValid,
}

-- A task that is neither ready, blocked nor asleep is in no queue.
pub IsLoose-of_state :
    (s : Sched) (t : Ptr)
    → IsValid s
    → t ≢ null
    → t ≢ s.idle
    → state_of s t ≢ ready
    → state_of s t ≢ blocked
    → state_of s t ≢ sleeping
    → IsLoose s t
IsLoose-of_state s t v nn ni nr nb ns = record {
  not_null = nn;
  not_idle = ni;
  not_ready = not_queued (state_of s) s.idle ready s.ready_queue v.ready_tasks t nr;
  not_blocked = not_queued (state_of s) s.idle blocked s.blocked_queue v.blocked_tasks t nb;
  not_asleep = not_queued (state_of s) s.idle sleeping s.sleep_queue v.sleep_tasks t ns;
}

-- `scheduler_add_task` keeps the invariant, for a task that is in no queue.
pub add_task-IsValid : (s : Sched) (t : Ptr) → IsValid s → IsLoose s t → IsValid (add_task s t)
unfolding add_task
add_task-IsValid s t v l =
    rw (ne→== t null l.not_null, add_task)
      (ready-IsValid s (push_ready (set_state s t ready) t) t v l refl (λ a ne. ground arith)
        (ground arith) refl refl refl)

pub make_ready-IsValid : (s : Sched) (t : Ptr) → IsValid s → IsLoose s t → IsValid (make_ready s t)
unfolding make_ready
make_ready-IsValid s t v l =
    ready-IsValid s (make_ready s t) t v l (ground arith) (λ a ne. ground arith) (ground arith)
      (ground arith) (ground arith) (ground arith)

-- The head of the ready queue, taken off, is in no queue.
module _ (s : Sched) (x : Ptr) (rest : List Ptr) (v : IsValid s)
    (e : s.ready_queue ≡ x ∷ rest) where
  unfoldable pub popped : Sched
  popped = record s { ready_queue = rest }

  pub ready_cons : Queued (state_of s) s.idle ready (x ∷ rest)
  ready_cons = subst (Queued (state_of s) s.idle ready) e v.ready_tasks

  pub popped-IsValid : IsValid popped
  unfolding popped
  popped-IsValid = record {
    ready_tasks = record { distinct = ready_cons.distinct.1; tasks = ready_cons.tasks.1 };
    blocked_tasks = v.blocked_tasks;
    sleep_tasks = v.sleep_tasks;
  }

  pub popped-IsLoose : IsLoose popped x
  unfolding popped
  popped-IsLoose =
      let is = ready_cons.tasks.0 in
      record {
        not_null = is.1;
        not_idle = is.2;
        not_ready = ready_cons.distinct.0;
        not_blocked =
            not_queued (state_of s) s.idle blocked s.blocked_queue v.blocked_tasks x
              (λ h. cc (is.0, h));
        not_asleep =
            not_queued (state_of s) s.idle sleeping s.sleep_queue v.sleep_tasks x
              (λ h. cc (is.0, h));
      }

pub schedule_cons :
    (s : Sched) (x : Ptr) (rest : List Ptr)
    → s.ready_queue ≡ x ∷ rest
    → x ≢ null
    → x ≢ s.idle
    → schedule s ≡ switch_to (record s { ready_queue = rest }) x
unfolding schedule
schedule_cons s x rest e nn ni = ground arith

pub schedule_nil :
    (s : Sched)
    → s.ready_queue ≡ []
    → schedule s ≡ (if s.idle == null then (null, s) else switch_to s s.idle)
unfolding schedule
schedule_nil s e = ground arith

pub switch_to-IsValid : (s : Sched) (x : Ptr) → IsValid s → IsLoose s x → IsValid (switch_to s x).1
unfolding switch_to
switch_to-IsValid s x v l =
    loose-IsValid s (switch_to s x).1 x v l (ground arith) (λ a ne. ground arith) (ground arith)
      (ground arith) (ground arith)

switch_to_idle-IsValid : (s : Sched) → IsValid s → IsValid (switch_to s s.idle).1
unfolding switch_to
switch_to_idle-IsValid s v =
    same-IsValid s (switch_to s s.idle).1 v (ground arith) (λ a. ground arith) (ground arith)
      (ground arith) (ground arith)

-- `scheduler_schedule` keeps the invariant.
pub schedule-IsValid : (s : Sched) → IsValid s → IsValid (schedule s).1
schedule-IsValid s v = elim (List-cases s.ready_queue) [
  | inl e ↦ rw (schedule_nil s e) (elim (Bool-cases (s.idle == null)) [
    | inl none_idle ↦ rw none_idle v
    | inr some_idle ↦ rw some_idle (switch_to_idle-IsValid s v)
  ])
  | inr (x, rest, e) ↦
      let is = (ready_cons s x rest v e).tasks.0 in
      rw (schedule_cons s x rest e is.1 is.2) (
        unfold popped in
        switch_to-IsValid (popped s x rest v e) x (popped-IsValid s x rest v e)
          (popped-IsLoose s x rest v e))
]

pub requeue_running-IsValid : (s : Sched) (t : Ptr) → IsValid s → IsValid (requeue_running s t)
unfolding requeue_running
requeue_running-IsValid s t v =
    elim (Bool-cases (not (t == null) && not (t == s.idle) && same_state (state_of s t) running)) [
      | inl go ↦ rw go (
          let l =
            IsLoose-of_state s t v (ground arith) (ground arith) (ground arith) (ground arith)
              (ground arith) in
          ready-IsValid s (push_ready (reset_resume_state (set_state s t ready) t) t) t v l
            (ground arith) (λ a ne. ground arith) (ground arith) (ground arith) (ground arith)
            (ground arith))
      | inr stop ↦ rw stop v
    ]

pub yield_cpu-schedule :
    (s : Sched) → (yield_cpu s).1 ≡ (schedule (requeue_running s s.current_task)).1
unfolding yield_cpu
yield_cpu-schedule s = ground arith

-- `scheduler_yield` keeps the invariant.
pub yield_cpu-IsValid : (s : Sched) → IsValid s → IsValid (yield_cpu s).1
yield_cpu-IsValid s v = rw (yield_cpu-schedule s) (
    schedule-IsValid (requeue_running s s.current_task)
      (requeue_running-IsValid s s.current_task v))

-- The running task, which is not the idle task, is in no queue.
pub running-IsLoose :
    (s : Sched)
    → IsValid s
    → (s.current_task == null || s.current_task == s.idle) ≡ false
    → state_of s s.current_task ≡ running
    → IsLoose s s.current_task
running-IsLoose s v go run =
    IsLoose-of_state s s.current_task v (ground arith) (ground arith) (λ h. cc (run, h))
      (λ h. cc (run, h)) (λ h. cc (run, h))

-- `scheduler_block_current` keeps the invariant, called by the running task.
pub block_current-IsValid :
    (s : Sched) → IsValid s → state_of s s.current_task ≡ running → IsValid (block_current s).1
unfolding block_current enter_blocked
block_current-IsValid s v run =
    elim (Bool-cases (s.current_task == null || s.current_task == s.idle)) [
      | inl out ↦ rw out v
      | inr go ↦ rw go (
          yield_cpu-IsValid (enter_blocked s) (
            blocked-IsValid s (enter_blocked s) s.current_task v (running-IsLoose s v go run) refl
              (λ a ne. ground arith) (ground arith) refl refl refl))
    ]

-- `scheduler_sleep` keeps the invariant, called by the running task.
pub sleep-keeps-IsValid :
    (now ticks : ℕ) (s : Sched)
    → IsValid s
    → state_of s s.current_task ≡ running
    → IsValid (sleep now ticks s).1
unfolding sleep enter_sleep
sleep-keeps-IsValid now ticks s v run =
    elim (Bool-cases (s.current_task == null || s.current_task == s.idle)) [
      | inl out ↦ rw out v
      | inr go ↦ rw go (
          yield_cpu-IsValid (enter_sleep now ticks s) (
            sleep-IsValid s (enter_sleep now ticks s) s.current_task v (running-IsLoose s v go run)
              refl (λ a ne. ground arith) (ground arith) refl refl refl))
    ]

-- A task taken off the blocked or the sleep queue is in no queue.
module _ (s : Sched) (t : Ptr) (v : IsValid s) (nn : t ≢ null) (ni : t ≢ s.idle) where
  off_blocked : Sched
  off_blocked = record s { blocked_queue = without t s.blocked_queue }

  off_blocked-IsValid : IsValid off_blocked
  unfolding off_blocked
  off_blocked-IsValid = record {
    ready_tasks = v.ready_tasks;
    blocked_tasks = Queued-without (state_of s) s.idle blocked s.blocked_queue t v.blocked_tasks;
    sleep_tasks = v.sleep_tasks;
  }

  off_blocked-IsLoose : state_of s t ≡ blocked → IsLoose off_blocked t
  unfolding off_blocked
  off_blocked-IsLoose is = record {
    not_null = nn;
    not_idle = ni;
    not_ready =
        not_queued (state_of s) s.idle ready s.ready_queue v.ready_tasks t (λ h. cc (is, h));
    not_blocked = ground (arith, has-without t t s.blocked_queue v.blocked_tasks.distinct);
    not_asleep =
        not_queued (state_of s) s.idle sleeping s.sleep_queue v.sleep_tasks t (λ h. cc (is, h));
  }

  unfoldable pub off_sleep : Sched
  off_sleep = record s { sleep_queue = without t s.sleep_queue }

  pub off_sleep-IsValid : IsValid off_sleep
  unfolding off_sleep
  off_sleep-IsValid = record {
    ready_tasks = v.ready_tasks;
    blocked_tasks = v.blocked_tasks;
    sleep_tasks = Queued-without (state_of s) s.idle sleeping s.sleep_queue t v.sleep_tasks;
  }

  pub off_sleep-IsLoose : state_of s t ≡ sleeping → IsLoose off_sleep t
  unfolding off_sleep
  off_sleep-IsLoose is = record {
    not_null = nn;
    not_idle = ni;
    not_ready =
        not_queued (state_of s) s.idle ready s.ready_queue v.ready_tasks t (λ h. cc (is, h));
    not_blocked =
        not_queued (state_of s) s.idle blocked s.blocked_queue v.blocked_tasks t (λ h. cc (is, h));
    not_asleep = ground (arith, has-without t t s.sleep_queue v.sleep_tasks.distinct);
  }

pub same_state→eq : (a b : TaskState) → same_state a b ≡ true → a ≡ b
same_state→eq a b h = ground arith

-- `scheduler_unblock` keeps the invariant, for a task that waits in the blocked queue or, as for a
-- mutex, in no queue of the scheduler.
pub unblock-IsValid : (s : Sched) (t : Ptr) → IsValid s → t ≢ s.idle → IsValid (unblock s t)
unfolding unblock off_blocked
unblock-IsValid s t v ni = elim (Bool-cases (t == null)) [
  | inl out ↦ rw out v
  | inr nn ↦ rw nn (elim (Bool-cases (same_state (state_of s t) blocked)) [
    | inr other ↦ rw other v
    | inl is ↦ rw is (
        let at_t = ==→ne t null nn in
        make_ready-IsValid (off_blocked s t v at_t ni) t (off_blocked-IsValid s t v at_t ni)
          (off_blocked-IsLoose s t v at_t ni (same_state→eq _ _ is)))
  ])
]
