-- ===== src/Process/Tests.antt =====
-- The theorems on process.c at a list of two processes.
use zenith_os.Prelude.{ℕ, ◌==◌, ◌<◌, if◌then◌else◌, ◌≡◌, ◌⊎◌, refl, false, some, [], ◌∷◌, arith}
use zenith_os.Klib.String.{Bytes, k_strlen}
use zenith_os.Vmm.Paging.Sample.{empty_root}
use zenith_os.Scheduler.Queue.{null}
use zenith_os.Scheduler.Queue.Remove.{without}
use zenith_os.Scheduler.State.{Sched}
use zenith_os.Scheduler.Task.{new_task}
use zenith_os.Process.Memory.{Processes, blank_info, blank_process}
use zenith_os.Process.{Created, process_create, process_lookup, process_destroy}
use zenith_os.Process.Listed.{IsList, process_lookup-process_destroy}
use zenith_os.Process.Made.{Outcome, process_create-Outcome}

abbrev no_tasks : Sched
no_tasks = record {
  tasks = λ t. new_task t 4096 65536;
  processes = λ p. blank_process;
  ready_queue = [];
  blocked_queue = [];
  sleep_queue = [];
  current_task = null;
  idle = null;
  pending_task = null;
  preemption_ticks = 0;
  preemption_requested = false;
  active_pml4 = 4096;
  rsp0 = 0;
}

-- The process 8192 with pid 2 before the process 4096 with pid 1.
abbrev two : Processes
two = record {
  next_pid = 3;
  process_list = 8192;
  links = λ p. if p == 8192 then 4096 else 0;
  info = λ p. record blank_info { pid = if p == 8192 then 2 else 1 };
  paging = empty_root;
  tasks = record { next_task_id = 1; words = λ p. 0; sched = no_tasks };
}

two-IsList : IsList two (8192 ∷ 4096 ∷ [])
two-IsList = record {
  chain = (refl, omega arith, (refl, omega arith, refl));
  falling = (omega arith, (omega arith, tt));
}

process_lookup-process_destroy_example :
    (s' : Processes) × (process_destroy 3 two 4096 ≡ some s')
    × IsList s' (without 4096 (8192 ∷ 4096 ∷ []))
    × ((pid : ℕ)
        → process_lookup 3 s' pid
          ≡ (if (two.info 4096).pid == pid then some null else process_lookup 3 two pid))
process_lookup-process_destroy_example =
    process_lookup-process_destroy 3 two 4096 (8192 ∷ 4096 ∷ []) two-IsList refl (omega arith)

abbrev name_a : Bytes
name_a = b'a' ∷ 0 ∷ []

a_short : k_strlen name_a < 64
unfolding k_strlen
a_short = omega arith

process_create-Outcome_example :
    (c : Created) × (process_create 12288 0 0 two name_a 4096 ≡ some c)
    × Outcome two (8192 ∷ 4096 ∷ []) 12288 ((◌≡◌ {A = ℕ} 0 0) ⊎ (◌≡◌ {A = ℕ} 0 0)) c
process_create-Outcome_example =
    process_create-Outcome two 12288 0 0 (8192 ∷ 4096 ∷ []) name_a 4096 two-IsList refl
      (omega arith) a_short (omega arith)
