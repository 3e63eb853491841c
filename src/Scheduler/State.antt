-- ===== src/Scheduler/State.antt =====
-- The state of kernel/src/scheduler/scheduler.c, with the parts of task.h and process.h that it
-- reads or writes. A queue is the list of the tasks that its links lead through: `Queue.Push` and
-- `Queue.Remove` relate it to the links of queue.c.
use zenith_os.Prelude.{ℕ, ◌==◌, if◌then◌else◌, Bool, true, false, List, [], ◌∷◌, ◌++◌}
use zenith_os.Scheduler.Queue.{Ptr}

pub data TaskState : Type 0 where
  ready running blocked sleeping terminated idle_state : TaskState

pub data ResumeMode : Type 0 where
  context interrupt : ResumeMode

-- `task_t` without `next`, which the queues stand for. `rsp` is `context.rsp`.
pub record Task : Type 0 where
  pub id : ℕ
  pub entry : ℕ
  pub rsp : ℕ
  pub interrupt_rsp : Ptr
  pub kernel_stack : ℕ
  pub kernel_stack_size : ℕ
  pub state : TaskState
  pub wake_tick : ℕ
  pub resume_mode : ResumeMode
  pub process : Ptr

-- What the scheduler uses of `process_t`.
pub record Process : Type 0 where
  pub page_table_physical : ℕ
  pub user_rip : ℕ
  pub user_rsp : ℕ
  pub user_rflags : ℕ
  pub is_user_process : Bool
  pub user_started : Bool

-- The static variables of scheduler.c, the objects that its pointers lead to, the
-- `active_pml4_physical` of page_table.c and the `rsp0` of the task state segment.
pub record Sched : Type 0 where
  pub tasks : Ptr → Task
  pub processes : Ptr → Process
  pub ready_queue : List Ptr
  pub blocked_queue : List Ptr
  pub sleep_queue : List Ptr
  pub current_task : Ptr
  pub idle : Ptr
  pub pending_task : Ptr
  pub preemption_ticks : ℕ
  pub preemption_requested : Bool
  pub active_pml4 : ℕ
  pub rsp0 : ℕ

abbrev pub same_state : TaskState → TaskState → Bool
same_state ready ready = true
same_state running running = true
same_state blocked blocked = true
same_state sleeping sleeping = true
same_state terminated terminated = true
same_state idle_state idle_state = true
same_state _ _ = false

-- A write to the task at `t`.
abbrev pub write_task : (Ptr → Task) → Ptr → Task → Ptr → Task
write_task tasks t new p = if p == t then new else tasks p

abbrev pub set_state : Sched → Ptr → TaskState → Sched
set_state s t st = record s { tasks = write_task s.tasks t (record (s.tasks t) { state = st }) }

abbrev pub push_ready : Sched → Ptr → Sched
push_ready s t = record s { ready_queue = s.ready_queue ++ (t ∷ []) }
