-- ===== src/Scheduler/Core/Valid.antt =====
-- The invariant of scheduler.c: each queue holds distinct tasks, in the state that the queue is
-- for, and neither NULL nor the idle task. So no task is in two queues, and none that runs is in
-- one.
use zenith_os.Prelude.{
  ◌≡◌, sym, ap, ◌∙◌, subst, ◌≢◌, inl, inr, true, false, not, ◌&&◌, List, [], ◌∷◌, ◌++◌, arith, ◌==◌,
  ==→eq, Bool-cases, All, All-snoc,
}
use mathlib.Core.Path.{fun_ext}
use zenith_os.Scheduler.Queue.{Ptr, null}
use zenith_os.Scheduler.Queue.Chain.{has, Distinct, Distinct-snoc}
use zenith_os.Scheduler.Queue.Remove.{without}
use zenith_os.Scheduler.State.{TaskState, ready, blocked, sleeping, Sched}

abbrev pub state_of : Sched → Ptr → TaskState
state_of s t = (s.tasks t).state

abbrev pub IsTask : (Ptr → TaskState) → Ptr → TaskState → Ptr → Type 0
IsTask f idle st t = (f t ≡ st) × (t ≢ null) × (t ≢ idle)

-- The queue for the tasks in state `st`.
pub record Queued (f : Ptr → TaskState) (idle : Ptr) (st : TaskState) (q : List Ptr) : Type 0 where
  pub distinct : Distinct q
  pub tasks : All (IsTask f idle st) q

pub record IsValid (s : Sched) : Type 0 where
  pub ready_tasks : Queued (state_of s) s.idle ready s.ready_queue
  pub blocked_tasks : Queued (state_of s) s.idle blocked s.blocked_queue
  pub sleep_tasks : Queued (state_of s) s.idle sleeping s.sleep_queue

pub All-has : (P : Ptr → Type 0) (q : List Ptr) (t : Ptr) → All P q → has t q ≡ true → P t
All-has P [] t h e = cc
All-has P (x ∷ q) t h e = elim (Bool-cases (t == x)) [
  | inl same ↦ subst P (sym (==→eq t x same)) h.0
  | inr other ↦ All-has P q t h.1 (ground arith)
]

All-of-has : (P : Ptr → Type 0) (q : List Ptr) → ((t : Ptr) → has t q ≡ true → P t) → All P q
All-of-has P [] h = tt
All-of-has P (x ∷ q) h = (h x (ground arith), All-of-has P q (λ t e. h t (ground arith)))

module _ (f : Ptr → TaskState) (idle : Ptr) (st : TaskState) (q : List Ptr)
    (v : Queued f idle st q) where
  -- A task in another state is not in the queue.
  pub not_queued : (t : Ptr) → f t ≢ st → has t q ≡ false
  not_queued t ne = elim (Bool-cases (has t q)) [
    | inl e ↦ absurd (ne (All-has (IsTask f idle st) q t v.tasks e).0)
    | inr e ↦ e
  ]

  -- A change of a task that is not in the queue does not matter to it.
  pub Queued-frame :
      (g : Ptr → TaskState) (t : Ptr)
      → has t q ≡ false
      → ((a : Ptr) → a ≢ t → g a ≡ f a)
      → Queued g idle st q
  Queued-frame g t out same = record {
    distinct = v.distinct;
    tasks = All-of-has (IsTask g idle st) q (λ a e.
        let was = All-has (IsTask f idle st) q a v.tasks e in
        (same a (λ eq. cc (out, e, ap (λ b. has b q) eq)) ∙ was.0, was.1, was.2));
  }

  pub Queued-snoc :
      (t : Ptr) → has t q ≡ false → IsTask f idle st t → Queued f idle st (q ++ (t ∷ []))
  Queued-snoc t out is = record {
    distinct = Distinct-snoc q t out v.distinct;
    tasks = All-snoc (IsTask f idle st) q is v.tasks;
  }

pub has-without :
    (t a : Ptr) (q : List Ptr) → Distinct q → has a (without t q) ≡ (not (a == t) && has a q)
has-without t a [] d = ground arith
has-without t a (x ∷ q) d = elim (Bool-cases (x == t)) [
  | inl e ↦ elim (Bool-cases (a == t)) [
    | inl ea ↦
        ground (arith, ap (λ b. has b q) (==→eq a t ea), ap (λ b. has b q) (==→eq x t e), d.0)
    | inr na ↦ ground arith
  ]
  | inr ne ↦ ground (arith, has-without t a q d.1)
]

Distinct-without : (t : Ptr) (q : List Ptr) → Distinct q → Distinct (without t q)
Distinct-without t [] d = d
Distinct-without t (x ∷ q) d = elim (Bool-cases (x == t)) [
  | inl e ↦ rw e d.1
  | inr ne ↦ rw ne (ground (arith, has-without t x q d.1), Distinct-without t q d.1)
]

pub Queued-without :
    (f : Ptr → TaskState) (idle : Ptr) (st : TaskState) (q : List Ptr) (t : Ptr)
    → Queued f idle st q
    → Queued f idle st (without t q)
Queued-without f idle st q t v = record {
  distinct = Distinct-without t q v.distinct;
  tasks = All-of-has (IsTask f idle st) (without t q) (λ a e.
      All-has (IsTask f idle st) q a v.tasks (ground (arith, has-without t a q v.distinct)));
}

-- In no queue: what a caller of `scheduler_add_task` has to know of the task.
pub record IsLoose (s : Sched) (t : Ptr) : Type 0 where
  pub not_null : t ≢ null
  pub not_idle : t ≢ s.idle
  pub not_ready : has t s.ready_queue ≡ false
  pub not_blocked : has t s.blocked_queue ≡ false
  pub not_asleep : has t s.sleep_queue ≡ false

-- The step that all changes of the queues are made of: a loose task gets a new state, and may be
-- put in the queue for that state.
module _ (s r : Sched) (t : Ptr) (v : IsValid s) (loose : IsLoose s t) (same_idle : r.idle ≡ s.idle)
    (others : (a : Ptr) → a ≢ t → state_of r a ≡ state_of s a) where
  frame_ready : Queued (state_of r) r.idle ready s.ready_queue
  frame_ready = rw same_idle (
      Queued-frame (state_of s) s.idle ready s.ready_queue v.ready_tasks (state_of r) t
        loose.not_ready others)

  frame_blocked : Queued (state_of r) r.idle blocked s.blocked_queue
  frame_blocked = rw same_idle (
      Queued-frame (state_of s) s.idle blocked s.blocked_queue v.blocked_tasks (state_of r) t
        loose.not_blocked others)

  frame_sleep : Queued (state_of r) r.idle sleeping s.sleep_queue
  frame_sleep = rw same_idle (
      Queued-frame (state_of s) s.idle sleeping s.sleep_queue v.sleep_tasks (state_of r) t
        loose.not_asleep others)

  -- The task is put behind the ready tasks.
  pub ready-IsValid :
      state_of r t ≡ ready
      → r.ready_queue ≡ s.ready_queue ++ (t ∷ [])
      → r.blocked_queue ≡ s.blocked_queue
      → r.sleep_queue ≡ s.sleep_queue
      → IsValid r
  ready-IsValid st e1 e2 e3 = record {
    ready_tasks = rw e1 (
        Queued-snoc (state_of r) r.idle ready s.ready_queue frame_ready t loose.not_ready
          (st, loose.not_null, rw same_idle loose.not_idle));
    blocked_tasks = rw e2 frame_blocked;
    sleep_tasks = rw e3 frame_sleep;
  }

  pub blocked-IsValid :
      state_of r t ≡ blocked
      → r.ready_queue ≡ s.ready_queue
      → r.blocked_queue ≡ s.blocked_queue ++ (t ∷ [])
      → r.sleep_queue ≡ s.sleep_queue
      → IsValid r
  blocked-IsValid st e1 e2 e3 = record {
    ready_tasks = rw e1 frame_ready;
    blocked_tasks = rw e2 (
        Queued-snoc (state_of r) r.idle blocked s.blocked_queue frame_blocked t loose.not_blocked
          (st, loose.not_null, rw same_idle loose.not_idle));
    sleep_tasks = rw e3 frame_sleep;
  }

  pub sleep-IsValid :
      state_of r t ≡ sleeping
      → r.ready_queue ≡ s.ready_queue
      → r.blocked_queue ≡ s.blocked_queue
      → r.sleep_queue ≡ s.sleep_queue ++ (t ∷ [])
      → IsValid r
  sleep-IsValid st e1 e2 e3 = record {
    ready_tasks = rw e1 frame_ready;
    blocked_tasks = rw e2 frame_blocked;
    sleep_tasks = rw e3 (
        Queued-snoc (state_of r) r.idle sleeping s.sleep_queue frame_sleep t loose.not_asleep
          (st, loose.not_null, rw same_idle loose.not_idle));
  }

  -- The task is put in no queue.
  pub loose-IsValid :
      r.ready_queue ≡ s.ready_queue
      → r.blocked_queue ≡ s.blocked_queue
      → r.sleep_queue ≡ s.sleep_queue
      → IsValid r
  loose-IsValid e1 e2 e3 = record {
    ready_tasks = rw e1 frame_ready;
    blocked_tasks = rw e2 frame_blocked;
    sleep_tasks = rw e3 frame_sleep;
  }

-- What changes neither queues nor states keeps the invariant.
pub same-IsValid :
    (s r : Sched)
    → IsValid s
    → r.idle ≡ s.idle
    → ((a : Ptr) → state_of r a ≡ state_of s a)
    → r.ready_queue ≡ s.ready_queue
    → r.blocked_queue ≡ s.blocked_queue
    → r.sleep_queue ≡ s.sleep_queue
    → IsValid r
same-IsValid s r v i f e1 e2 e3 = record {
  ready_tasks = rw (i, e1, fun_ext f) v.ready_tasks;
  blocked_tasks = rw (i, e2, fun_ext f) v.blocked_tasks;
  sleep_tasks = rw (i, e3, fun_ext f) v.sleep_tasks;
}
