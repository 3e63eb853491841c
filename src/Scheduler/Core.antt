-- ===== src/Scheduler/Core.antt =====
-- kernel/src/scheduler/scheduler.c. The functions disable interrupts around what they do to the
-- queues, so each is one step. `pit_ticks()` is the argument `now`. `context_switch` and the return
-- from an interrupt are assembly: a function that reaches one returns the switch to make.
pub mod Interrupt
pub mod Valid
pub mod Steps
pub mod Fair
pub mod Wake
pub mod Space
pub mod Preempt
pub mod Slice
pub mod Reach
mod Tests
use zenith_os.Prelude.{
  ℕ, ◌==◌, ◌&&◌, ◌||◌, not, ltb, leb, if◌then◌else◌, Bool, true, false, List, [], ◌∷◌, ◌++◌, ◌-◌,
  ◌+◌, ◌%◌, ◌^◌,
}
use zenith_os.Scheduler.Queue.{Ptr, null}
use zenith_os.Scheduler.Queue.Remove.{without}
use zenith_os.Scheduler.State.{
  TaskState, ready, running, blocked, sleeping, terminated, idle_state, ResumeMode, context,
  interrupt, Task, Process, Sched, same_state, write_task, set_state, push_ready,
}

-- SCHEDULER_TIME_SLICE of config.h
abbrev pub time_slice : ℕ
time_slice = 10

-- `task_resume_uses_interrupt_frame` of task.h
unfoldable pub resume_uses_interrupt_frame : Sched → Ptr → Bool
resume_uses_interrupt_frame s t = not (t == null) && elim (s.tasks t).resume_mode [
  | interrupt ↦ not ((s.tasks t).interrupt_rsp == null)
  | _ ↦ false
]

unfoldable pub reset_resume_state : Sched → Ptr → Sched
reset_resume_state s t = if t == null then s else record s {
  tasks = write_task s.tasks t (record (s.tasks t) { interrupt_rsp = null; resume_mode = context });
}

-- `page_table_switch` of page_table.c: a table at 0 is refused, the active one is not loaded again.
unfoldable pub page_table_switch : ℕ → Sched → Sched
page_table_switch physical_pml4 s =
    if physical_pml4 == 0
    then s
    else if s.active_pml4 == physical_pml4
    then s
    else record s { active_pml4 = physical_pml4 }

unfoldable pub switch_process : Ptr → Sched → Sched
unfolding page_table_switch
switch_process process s =
    if process == null then s else page_table_switch (s.processes process).page_table_physical s

unfoldable pub mark_running : Sched → Ptr → Sched
mark_running s t = if t == s.idle then s else set_state s t running

unfoldable pub switch_to : Sched → Ptr → Ptr × Sched
unfolding switch_process mark_running
switch_to s next =
    if next == null
    then (null, s)
    else let s1 = switch_process (s.tasks next).process s in
      let rsp0 = ((s.tasks next).kernel_stack + (s.tasks next).kernel_stack_size) % 2 ^ 64 in
      let s2 = record s1 { rsp0 = rsp0; current_task = next; preemption_ticks = 0 } in
      (next, mark_running s2 next)

-- `task` is what `task_create(idle_task)` returns.
unfoldable pub init : Sched → Ptr → Sched
init s task =
    let s1 = record s {
      ready_queue = [];
      current_task = null;
      blocked_queue = [];
      sleep_queue = [];
      pending_task = null;
      preemption_ticks = 0;
      preemption_requested = false;
      idle = task;
    } in
    if task == null then s1 else set_state s1 task idle_state

unfoldable pub add_task : Sched → Ptr → Sched
add_task s task = if task == null then s else push_ready (set_state s task ready) task

unfoldable pub get_next_task : Sched → Ptr
get_next_task s = elim s.ready_queue [ [] ↦ s.idle | t ∷ _ ↦ t ]

unfoldable pub ready_queue_pop : Sched → Sched
ready_queue_pop s = record s { ready_queue = elim s.ready_queue [ [] ↦ [] | _ ∷ rest ↦ rest ] }

unfoldable pub schedule : Sched → Ptr × Sched
unfolding get_next_task ready_queue_pop
schedule s =
    let next = get_next_task s in
    if next == null
    then (null, s)
    else switch_to (if next == s.idle then s else ready_queue_pop s) next

-- How the processor leaves the scheduler: not at all, by `context_switch` from one task to another
-- (NULL is the boot context), or by `context_switch_to_interrupt` to a saved frame.
pub data Switch : Type 0 where
  stay : Switch
  to_context : Ptr → Ptr → Switch
  to_interrupt : Ptr → Ptr → Switch

-- A running task goes back to the ready queue.
unfoldable pub requeue_running : Sched → Ptr → Sched
unfolding reset_resume_state
requeue_running s previous =
    if not (previous == null)
      && not (previous == s.idle)
      && same_state (s.tasks previous).state running
    then push_ready (reset_resume_state (set_state s previous ready) previous) previous
    else s

unfoldable pub choose_switch : Sched → Ptr → Switch
unfolding resume_uses_interrupt_frame
choose_switch s previous =
    if resume_uses_interrupt_frame s s.current_task
    then (if (s.tasks s.current_task).interrupt_rsp == null
        then stay
        else to_interrupt previous (s.tasks s.current_task).interrupt_rsp)
    else to_context previous s.current_task

unfoldable pub yield_cpu : Sched → Switch × Sched
yield_cpu s =
    let previous = s.current_task in
    let (next, s1) = schedule (requeue_running s previous) in
    if next == null || next == previous then (stay, s1) else (choose_switch s1 previous, s1)

unfoldable pub enter_blocked : Sched → Sched
enter_blocked s = record (set_state s s.current_task blocked) {
  blocked_queue = s.blocked_queue ++ (s.current_task ∷ []);
}

unfoldable pub block_current : Sched → Switch × Sched
block_current s =
    if s.current_task == null || s.current_task == s.idle
    then (stay, s)
    else yield_cpu (enter_blocked s)

-- Both ways of waking a task: ready, with no saved frame, behind the tasks that are ready.
unfoldable pub make_ready : Sched → Ptr → Sched
unfolding reset_resume_state
make_ready s task = push_ready (reset_resume_state (set_state s task ready) task) task

unfoldable pub unblock : Sched → Ptr → Sched
unblock s task =
    if task == null
    then s
    else if not (same_state (s.tasks task).state blocked)
    then s
    else make_ready (record s { blocked_queue = without task s.blocked_queue }) task

-- `scheduler_check_sleeping_tasks` walks the queue as it was, with `next` read before a task is
-- moved: the list is what is left to visit.
unfoldable pub check_sleeping_from : ℕ → List Ptr → Sched → Sched
check_sleeping_from now [] s = s
check_sleeping_from now (task ∷ rest) s = check_sleeping_from now rest (
    if leb (s.tasks task).wake_tick now
    then make_ready (record s { sleep_queue = without task s.sleep_queue }) task
    else s)

unfoldable pub tick : ℕ → Sched → Sched
tick now s = check_sleeping_from now s.sleep_queue s

unfoldable pub enter_sleep : ℕ → ℕ → Sched → Sched
enter_sleep now ticks s =
    let t = s.current_task in
    let new = record (s.tasks t) { wake_tick = (now + ticks) % 2 ^ 64; state = sleeping } in
    record s { tasks = write_task s.tasks t new; sleep_queue = s.sleep_queue ++ (t ∷ []) }

unfoldable pub sleep : ℕ → ℕ → Sched → Switch × Sched
sleep now ticks s =
    if s.current_task == null || s.current_task == s.idle
    then (stay, s)
    else yield_cpu (enter_sleep now ticks s)
