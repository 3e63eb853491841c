-- ===== src/Process/Memory.antt =====
-- The state of kernel/src/process/process.c, and process_memory.c and process_heap.c: the pages that a
-- process gets for its stack and its heap. A process is a number, NULL is 0, and the field `next` of
-- all processes is one function. The fields that the scheduler reads stand in its part of the state.
use zenith_os.Prelude.{
  ℕ, ◌+◌, ◌-◌, ◌*◌, ◌%◌, ◌^◌, ◌==◌, not, if◌then◌else◌, Bool, true, false, Option, none, some,
  replicate,
}
use zenith_os.Prelude.Int.{ℤ, pos}
use zenith_os.KernelErr.{Status, success, ok, err, einval, enomem}
use zenith_os.Klib.String.{Bytes}
use zenith_os.Fs.Fd.{Files, fd_max}
use zenith_os.Elf.Loader.{ElfImage}
use zenith_os.Mm.Pmm.{Pmm, alloc_page, free_page}
use zenith_os.Vmm.Paging.{Paging}
use zenith_os.Vmm.Paging.Calls.{page_table_map_user}
use zenith_os.Scheduler.Queue.{Ptr, null, Links}
use zenith_os.Scheduler.State.{Process}
use zenith_os.Scheduler.Task.{Tasks}

pub data ProcessState : Type 0 where
  process_ready process_running process_exited : ProcessState

-- `process_t` without `next` and what the scheduler reads; `parent` is always NULL.
pub record Info : Type 0 where
  pub pid : ℕ
  pub state : ProcessState
  pub exit_code : ℤ
  pub name : Bytes
  pub main_thread : Ptr
  pub thread_list : Ptr
  pub image : ElfImage
  pub user_stack_top : ℕ
  pub user_stack_bottom : ℕ
  pub user_heap_start : ℕ
  pub user_heap_end : ℕ
  pub user_heap_current : ℕ
  pub fds : Files
  pub page_table : Ptr

-- The static variables of process.c, and what they lead to.
pub record Processes : Type 0 where
  pub next_pid : ℕ
  pub process_list : Ptr
  pub links : Links
  pub info : Ptr → Info
  pub paging : Paging
  pub tasks : Tasks

abbrev pub write_info : Processes → Ptr → Info → Processes
write_info s p new = record s { info = λ q. if q == p then new else s.info q }

-- What `k_memset(process, 0, sizeof(process_t))` leaves.
abbrev pub blank_info : Info
blank_info = record {
  pid = 0;
  state = process_ready;
  exit_code = pos 0;
  name = replicate 64 0;
  main_thread = null;
  thread_list = null;
  image = record { base = none; size = 0; entry = 0; image_base = 0 };
  user_stack_top = 0;
  user_stack_bottom = 0;
  user_heap_start = 0;
  user_heap_end = 0;
  user_heap_current = 0;
  fds = replicate fd_max 0;
  page_table = null;
}

abbrev pub blank_process : Process
blank_process = record {
  page_table_physical = 0;
  user_rip = 0;
  user_rsp = 0;
  user_rflags = 0;
  is_user_process = false;
  user_started = false;
}

abbrev pub write_process : Tasks → Ptr → Process → Tasks
write_process t p new = record t {
  sched = record t.sched { processes = λ q. if q == p then new else t.sched.processes q };
}

-- The constants of user_vm_layout.h
abbrev pub user_heap_base : ℕ
user_heap_base = 0x800000

abbrev pub user_stack_top_address : ℕ
user_stack_top_address = 0x7FFFFFFFF000

abbrev pub user_stack_size : ℕ
user_stack_size = 1024 * 1024

-- The page that was allocated, given back if it cannot be mapped.
unfoldable pub page_mapped : ℕ → Bool × Paging → Status × Paging
page_mapped physical (mapped, g) =
    if not mapped then (err enomem, record g { pmm = free_page g.pmm physical }) else (success, g)

unfoldable pub page_allocated : Ptr → ℕ → Paging → Option ℕ × Pmm → Status × Paging
page_allocated root v g (none, p) = (err enomem, record g { pmm = p })
page_allocated root v g (some physical, p) =
    page_mapped physical (page_table_map_user (record g { pmm = p }) root v physical true)

-- A new page at `v`, which `process_map_initial_stack` and `process_heap_expand` both ask for.
abbrev pub map_new_page : Paging → Ptr → ℕ → Status × Paging
map_new_page g root v = page_allocated root v g (alloc_page g.pmm)

unfoldable pub process_map_initial_stack : Processes → Ptr → Status × Processes
process_map_initial_stack s p =
    if p == null
    then (err einval, s)
    else let r = map_new_page s.paging (s.info p).page_table ((s.info p).user_stack_top - 4096) in
      (r.0, record s { paging = r.1 })

-- The end of the heap behind the page that was mapped.
abbrev pub heap_grown : Processes → Ptr → Status → Status × Processes
heap_grown s p (err e) = (err e, s)
heap_grown s p (ok u) =
    let end = ((s.info p).user_heap_end + 4096) % 2 ^ 64 in
    (success, write_info s p (record (s.info p) { user_heap_end = end; user_heap_current = end }))

unfoldable pub process_heap_expand : Processes → Ptr → Status × Processes
process_heap_expand s p =
    if p == null
    then (err einval, s)
    else let r = map_new_page s.paging (s.info p).page_table (s.info p).user_heap_end in
      heap_grown (record s { paging = r.1 }) p r.0
