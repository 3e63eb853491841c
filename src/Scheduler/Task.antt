-- ===== src/Scheduler/Task.antt =====
-- kernel/src/scheduler/task.c and context.c: the creation and the end of a task. What `kmalloc`
-- returns for the task and for its stack are arguments.
use zenith_os.Prelude.{ℕ, ◌+◌, ◌-◌, ◌*◌, ◌%◌, ◌^◌, ◌==◌, if◌then◌else◌, Option, none, some}
use zenith_os.Scheduler.Queue.{Ptr, null}
use zenith_os.Scheduler.State.{ready, terminated, context, Task, Sched, write_task, set_state}
use zenith_os.Scheduler.Core.{Switch, yield_cpu}

abbrev pub kernel_stack_size : ℕ
kernel_stack_size = 16 * 1024

-- `next_task_id`, the words of the stacks, and the scheduler.
pub record Tasks : Type 0 where
  pub next_task_id : ℕ
  pub words : Ptr → ℕ
  pub sched : Sched

abbrev pub write_word : (Ptr → ℕ) → Ptr → ℕ → Ptr → ℕ
write_word words p w q = if q == p then w else words q

-- The words that `context_init` pushes: 0, and the entry behind it.
unfoldable pub context_init : (Ptr → ℕ) → ℕ → Ptr → Ptr → ℕ
context_init words entry stack_top =
    write_word (write_word words (stack_top - 8) 0) (stack_top - 16) entry

abbrev pub new_task : ℕ → ℕ → Ptr → Task
new_task id entry stack = record {
  id = id;
  entry = entry;
  rsp = stack + kernel_stack_size - 16;
  interrupt_rsp = null;
  kernel_stack = stack;
  kernel_stack_size = kernel_stack_size;
  state = ready;
  wake_tick = 0;
  resume_mode = context;
  process = null;
}

-- The task, NULL on failure.
unfoldable pub task_create : Ptr → Ptr → Tasks → ℕ → Ptr × Tasks
task_create task stack s entry =
    if entry == null
    then (null, s)
    else if task == null
    then (null, s)
    else if stack == null
    then (null, s)
    else (
      task,
      record s {
        next_task_id = (s.next_task_id + 1) % 2 ^ 64;
        words = context_init s.words entry (stack + kernel_stack_size);
        sched = record s.sched {
          tasks = write_task s.sched.tasks task (new_task s.next_task_id entry stack);
        };
      },
    )

-- The id of the task is printed before the test for NULL: `none` is a read through NULL.
unfoldable pub task_exit : Sched → Option (Switch × Sched)
task_exit s =
    if s.current_task == null
    then none
    else some (yield_cpu (set_state s s.current_task terminated))
