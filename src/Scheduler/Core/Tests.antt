-- ===== src/Scheduler/Core/Tests.antt =====
-- The theorems on scheduler.c at a system of five tasks: 1 is the idle task, 2 runs, 3 and 4 are
-- ready, 5 sleeps until tick 7.
use zenith_os.Prelude.{◌*◌, ◌+◌, ◌≡◌, ◌≢◌, refl, ◌==◌, if◌then◌else◌, true, false, [], ◌∷◌, arith}
use zenith_os.Scheduler.Queue.{Ptr, null}
use zenith_os.Scheduler.Queue.Chain.{has}
use zenith_os.Scheduler.State.{
  TaskState, ready, running, sleeping, terminated, idle_state, context, Task, Process, Sched,
}
use zenith_os.Scheduler.Core.{resume_uses_interrupt_frame, init, add_task}
use zenith_os.Scheduler.Core.Interrupt.{
  build_frame, save_interrupt_context, next_frame, interrupt_return,
}
use zenith_os.Scheduler.Core.Valid.{IsValid}
use zenith_os.Scheduler.Core.Fair.{Runs, yields, HasTurn, yields-HasTurn}
use zenith_os.Scheduler.Core.Slice.{IsContended}
use zenith_os.Scheduler.Core.Space.{table_of, Preempted, interrupt_return-same_space}
use zenith_os.Scheduler.Core.Reach.{Reachable, boots, steps, adds, Reachable-IsValid}

abbrev state_number : Ptr → TaskState
state_number p =
    if p == 1
    then idle_state
    else if p == 2
    then running
    else if p == 5
    then sleeping
    else if p == 9
    then terminated
    else ready

abbrev task_number : Ptr → Task
task_number p = record {
  id = p;
  entry = 0;
  rsp = 4096;
  interrupt_rsp = null;
  kernel_stack = 8192 * p;
  kernel_stack_size = 8192;
  state = state_number p;
  wake_tick = 7;
  resume_mode = context;
  process = 100 + p;
}

abbrev process_number : Ptr → Process
process_number p = record {
  page_table_physical = 4096 * p;
  user_rip = 0;
  user_rsp = 0;
  user_rflags = 0;
  is_user_process = false;
  user_started = false;
}

abbrev five_tasks : Sched
five_tasks = record {
  tasks = task_number;
  processes = process_number;
  ready_queue = 3 ∷ 4 ∷ [];
  blocked_queue = [];
  sleep_queue = 5 ∷ [];
  current_task = 2;
  idle = 1;
  pending_task = null;
  preemption_ticks = 8;
  preemption_requested = false;
  active_pml4 = 4096;
  rsp0 = 0;
}

five_tasks-IsValid : IsValid five_tasks
five_tasks-IsValid = record {
  ready_tasks = record {
    distinct = (refl, (refl, tt));
    tasks = ((refl, omega arith, omega arith), ((refl, omega arith, omega arith), tt));
  };
  blocked_tasks = record { distinct = tt; tasks = tt };
  sleep_tasks = record { distinct = (refl, tt); tasks = ((refl, omega arith, omega arith), tt) };
}

two-Runs : Runs five_tasks 2
two-Runs = record {
  is_current = refl;
  not_null = omega arith;
  not_idle = omega arith;
  is_running = refl;
}

yields-HasTurn_example : HasTurn (yields 1 five_tasks) 4
yields-HasTurn_example = yields-HasTurn (3 ∷ []) [] five_tasks 2 4 five_tasks-IsValid two-Runs refl

contended : IsContended five_tasks
contended = record {
  not_null = omega arith;
  not_idle = omega arith;
  first = 3;
  rest = 4 ∷ [];
  ready_one = refl;
  not_asked = refl;
}

-- The timer has asked for a switch: task 3 gets the processor, and its page table is not the one that
-- is active.
abbrev asked : Sched
asked = record five_tasks { preemption_requested = true }

three_has_frame : (next_frame 32 (save_interrupt_context 64 asked) 3).0 ≢ null
unfolding next_frame build_frame save_interrupt_context resume_uses_interrupt_frame
three_has_frame = omega arith

interrupt_return-same_space_example :
    Preempted asked 3
      (next_frame 32 (save_interrupt_context 64 asked) 3).0
      (interrupt_return 32 64 asked)
interrupt_return-same_space_example =
    interrupt_return-same_space 32 64 asked 3 (4 ∷ []) refl refl (omega arith) (omega arith)
      three_has_frame

other_table : table_of asked 3 ≢ asked.active_pml4
unfolding table_of
other_table = omega arith

-- Task 1 is the idle task, and task 3 is added.
abbrev booted : Sched
booted = add_task (init five_tasks 1) 3

booted-Reachable : Reachable booted
unfolding init
booted-Reachable = steps (boots five_tasks 1) (
    adds 3 (record {
      not_null = omega arith;
      not_idle = omega arith;
      not_ready = refl;
      not_blocked = refl;
      not_asleep = refl;
    }))

three_is_ready : has 3 booted.ready_queue ≡ true
unfolding init add_task
three_is_ready = refl

Reachable-IsValid_example : IsValid booted
Reachable-IsValid_example = Reachable-IsValid booted-Reachable
