-- ===== src/Process.antt =====
-- kernel/src/process/process.c: the list of the processes. What `kmalloc` returns is an argument, and
-- a walk along the list runs on fuel.
pub mod Memory
pub mod Listed
pub mod Prepared
pub mod Made
mod Tests
use zenith_os.Prelude.{
  ℕ, zero, suc, ◌+◌, ◌-◌, ◌*◌, ◌%◌, ◌^◌, ◌==◌, not, if◌then◌else◌, Bool, true, false, Option, none,
  some, List, replicate,
}
use zenith_os.Prelude.Int.{ℤ, pos}
use zenith_os.KernelErr.{Status, success, ok, err, einval, enomem}
use zenith_os.Klib.String.{Bytes, k_strcpy}
use zenith_os.Fs.Fd.{Files, fd_max}
use zenith_os.Elf.Loader.{ElfImage}
use zenith_os.Mm.Pmm.{Pmm, alloc_page, free_page}
use zenith_os.Vmm.Paging.{Paging}
use zenith_os.Vmm.Paging.Calls.{page_table_map_user, page_table_create}
use zenith_os.Scheduler.Queue.{Ptr, null, Links, link}
use zenith_os.Scheduler.State.{Sched, Task, Process, write_task}
use zenith_os.Scheduler.Core.{Switch, add_task}
use zenith_os.Scheduler.Task.{Tasks, task_create, task_exit}
use zenith_os.Process.Memory.{
  ProcessState, Info, Processes, write_info, blank_info, blank_process, write_process,
  user_heap_base, user_stack_top_address, user_stack_size, page_mapped, page_allocated,
  map_new_page, process_map_initial_stack, heap_grown, process_heap_expand, process_ready,
  process_running, process_exited,
}

-- The process that a function returns, NULL on failure, and the object that it gave to `kfree`.
pub record Created : Type 0 where
  pub result : Ptr
  pub freed : Option Ptr
  pub after : Processes

-- From the test of the task on.
unfoldable pub start_task : Ptr → Processes → Ptr × Tasks → Created
start_task p s (task, t) =
    if task == null
    then record { result = null; freed = some p; after = record s { tasks = t } }
    else let t1 = record t {
      sched = record t.sched {
        tasks = write_task t.sched.tasks task (record (t.sched.tasks task) { process = p });
      };
    } in
      let s1 = write_info s p (record (s.info p) { main_thread = task; thread_list = task }) in
      record {
        result = p;
        freed = none;
        after = record s1 { tasks = record t1 { sched = add_task t1.sched task } };
      }

-- From the copy of the name on; `copied` is the array after `k_strcpy`.
abbrev pub name_process :
    (Processes → Ptr × Tasks) → Ptr → Processes → Option Bytes → Option Created
name_process create p s none = none
name_process create p s (some copied) =
    let s1 = write_info s p (record (s.info p) { name = copied }) in
    some (start_task p s1 (create s1))

-- The process becomes the first of the list and gets its name and its task.
unfoldable pub enlist : (Processes → Ptr × Tasks) → Bytes → Ptr → Processes → Option Created
enlist create name p s =
    name_process create p (record s { links = link s.links p s.process_list; process_list = p })
      (k_strcpy (replicate 64 0) name)

abbrev pub given_up : Ptr → Processes → Created
given_up p s = record { result = null; freed = some p; after = s }

abbrev pub heap_mapped :
    (Processes → Ptr × Tasks) → Bytes → Ptr → Status × Processes → Option Created
heap_mapped create name p (err e, s) = some (given_up p s)
heap_mapped create name p (ok u, s) = enlist create name p s

abbrev pub stack_mapped :
    (Processes → Ptr × Tasks) → Bytes → Ptr → Status × Processes → Option Created
stack_mapped create name p (err e, s) = some (given_up p s)
stack_mapped create name p (ok u, s) = heap_mapped create name p (
    process_heap_expand
      (write_info s p (record (s.info p) {
        user_heap_start = user_heap_base;
        user_heap_end = user_heap_base;
        user_heap_current = user_heap_base;
      }))
      p)

-- `page_table_create` writes the physical address through its argument.
abbrev pub physical_or_zero : Option ℕ → ℕ
physical_or_zero none = 0
physical_or_zero (some physical) = physical

-- From the page table on. Where there is none, the process is not freed.
abbrev pub table_created :
    (Processes → Ptr × Tasks) → Bytes → Ptr → Processes → Ptr × Option ℕ × Paging → Option Created
table_created create name p s (root, physical, g) =
    let s1 = record (write_info s p (record (s.info p) { page_table = root })) {
      paging = g;
      tasks =
          write_process s.tasks p
            (record blank_process { page_table_physical = physical_or_zero physical });
    } in
    if root == null
    then some (record { result = null; freed = none; after = s1 })
    else stack_mapped create name p (
        process_map_initial_stack
          (write_info s1 p (record (s1.info p) {
            user_stack_top = user_stack_top_address;
            user_stack_bottom = user_stack_top_address - user_stack_size;
          }))
          p)

-- The cleared object with its pid.
abbrev pub numbered : Processes → Ptr → Processes
numbered s p = record (write_info s p (record blank_info { pid = s.next_pid })) {
  next_pid = (s.next_pid + 1) % 2 ^ 64;
}

-- `process`, `task` and `stack` are what `kmalloc` returns. The outer `none` is a name that does
-- not fit the array.
unfoldable pub process_create : Ptr → Ptr → Ptr → Processes → Bytes → ℕ → Option Created
process_create process task stack s name entry =
    if entry == null
    then some (record { result = null; freed = none; after = s })
    else if process == null
    then some (record { result = null; freed = none; after = s })
    else table_created (λ s1. task_create task stack s1.tasks entry) name process
        (numbered s process) (page_table_create s.paging)

-- The walk of `process_lookup`; `none` is that the fuel ran out.
unfoldable pub lookup_from : ℕ → Processes → Ptr → ℕ → Option Ptr
lookup_from zero s p pid = none
lookup_from (suc fuel) s p pid =
    let rest = lookup_from fuel s (s.links p) pid in
    if p == null then some null else if (s.info p).pid == pid then some p else rest

unfoldable pub process_lookup : ℕ → Processes → ℕ → Option Ptr
process_lookup fuel s pid = lookup_from fuel s s.process_list pid

unfoldable pub process_current : Processes → Ptr
process_current s =
    let task = s.tasks.sched.current_task in
    if task == null then null else (s.tasks.sched.tasks task).process

-- The walk of `process_destroy` to the process before the one that goes.
unfoldable pub unlink_process : ℕ → Links → Ptr → Ptr → Option Links
unlink_process zero l current p = none
unlink_process (suc fuel) l current p =
    let rest = unlink_process fuel l (l current) p in
    if current == null then some l else if l current == p then some (link l current (l p)) else rest

abbrev pub unlinked : Processes → Option Links → Option Processes
unlinked s none = none
unlinked s (some l) = some (record s { links = l })

-- The process is given to `kfree` at the end, unless it is NULL.
unfoldable pub process_destroy : ℕ → Processes → Ptr → Option Processes
process_destroy fuel s p =
    if p == null
    then some s
    else if s.process_list == p
    then some (record s { process_list = s.links p })
    else unlinked s (unlink_process fuel s.links s.process_list p)

abbrev pub exit_switch : Processes → Option (Switch × Sched) → Option (Option Switch × Processes)
exit_switch s none = none
exit_switch s (some (switch, sched)) =
    some (some switch, record s { tasks = record s.tasks { sched = sched } })

-- The inner `none` is that it returns, without a current process; otherwise the processor is given
-- away. The outer one is that `task_exit` reads through NULL.
unfoldable pub process_exit : Processes → ℤ → Option (Option Switch × Processes)
process_exit s exit_code =
    let p = process_current s in
    if p == null
    then some (none, s)
    else exit_switch
        (write_info s p (record (s.info p) { state = process_exited; exit_code = exit_code }))
        (task_exit s.tasks.sched)

unfoldable pub process_load_image : Processes → Ptr → Option ElfImage → Status × Processes
process_load_image s p none = (err einval, s)
process_load_image s p (some image) =
    if p == null
    then (err einval, s)
    else (success, write_info s p (record (s.info p) { image = image }))
