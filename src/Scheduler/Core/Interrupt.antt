-- ===== src/Scheduler/Core/Interrupt.antt =====
-- The part of scheduler.c that runs when an interrupt returns (kernel/src/cpu/isr.asm calls it).
use zenith_os.Prelude.{
  ℕ, ◌==◌, ◌&&◌, ◌||◌, not, ltb, if◌then◌else◌, true, false, Option, none, some, [], ◌∷◌, ◌-◌, ◌+◌,
  ◌%◌, ◌^◌, bit_or,
}
use zenith_os.Scheduler.Queue.{Ptr, null}
use zenith_os.Scheduler.State.{
  ready, running, interrupt, Sched, same_state, write_task, set_state, push_ready,
}
use zenith_os.Scheduler.Core.{
  time_slice, resume_uses_interrupt_frame, get_next_task, ready_queue_pop, mark_running,
}

unfoldable pub preempt : Ptr → Sched → Sched
preempt ctx s =
    if ctx == null || s.current_task == null || s.current_task == s.idle
    then s
    else let ticks = (s.preemption_ticks + 1) % 2 ^ 64 in
      if ltb ticks time_slice then record s { preemption_ticks = ticks } else elim s.ready_queue [
        | [] ↦ record s { preemption_ticks = 0 }
        | _ ∷ _ ↦ record s { preemption_ticks = 0; preemption_requested = true }
      ]

unfoldable pub save_interrupt_context : Ptr → Sched → Sched
save_interrupt_context rsp s =
    if s.current_task == null || s.current_task == s.idle then s else record s {
      tasks =
          write_task s.tasks s.current_task
            (record (s.tasks s.current_task) { interrupt_rsp = rsp; resume_mode = interrupt });
    }

-- The fields that `scheduler_build_context_interrupt_rsp` sets in the frame below the stack
-- pointer; the others are 0. `rdi` is the address of the task's context.
pub record Frame : Type 0 where
  pub address : Ptr
  pub rdi : ℕ
  pub rip : ℕ
  pub cs : ℕ
  pub rflags : ℕ
  pub rsp : ℕ
  pub ss : ℕ

-- The size of both frame types: 15 registers and 7 words.
abbrev pub frame_size : ℕ
frame_size = 176

-- `resume` is the address of the assembly routine `context_resume_from_interrupt`.
unfoldable pub build_frame : ℕ → Sched → Ptr → Option Frame
build_frame resume s t =
    if t == null || (s.tasks t).rsp == 0
    then none
    else let p = (s.tasks t).process in
      let address = ((s.tasks t).rsp + 2 ^ 64 - frame_size) % 2 ^ 64 in
      some (
        if not (p == null) && (s.processes p).is_user_process
        then record {
          address = address;
          rdi = t + 8;
          rip = (s.processes p).user_rip;
          cs = bit_or 0x18 3;
          rflags = (s.processes p).user_rflags;
          rsp = (s.processes p).user_rsp;
          ss = bit_or 0x20 3;
        }
        else record {
          address = address;
          rdi = t + 8;
          rip = resume;
          cs = 0x08;
          rflags = 0x02;
          rsp = 0;
          ss = 0;
        })

abbrev pub frame_address : Option Frame → Ptr
frame_address none = null
frame_address (some f) = f.address

abbrev pub start_process : Sched → Ptr → Sched
start_process s p = record s {
  processes = λ q. if q == p then record (s.processes p) { user_started = true } else s.processes q;
}

-- The frame on which the next task resumes, and the first start of a user process.
unfoldable pub next_frame : ℕ → Sched → Ptr → Ptr × Sched
unfolding build_frame resume_uses_interrupt_frame
next_frame resume s next =
    let p = (s.tasks next).process in
    if not (p == null) && (s.processes p).is_user_process
    then (if not (s.processes p).user_started
        then (let s1 = start_process s p in (frame_address (build_frame resume s1 next), s1))
        else ((s.tasks next).interrupt_rsp, s))
    else (if resume_uses_interrupt_frame s next
        then ((s.tasks next).interrupt_rsp, s)
        else (frame_address (build_frame resume s next), s))

unfoldable pub requeue_preempted : Sched → Ptr → Sched
requeue_preempted s previous =
    if not (previous == null)
      && not (previous == s.idle)
      && same_state (s.tasks previous).state running
    then push_ready (set_state s previous ready) previous
    else s

unfoldable pub get_next_interrupt_rsp : ℕ → Sched → Ptr × Sched
unfolding get_next_task ready_queue_pop
get_next_interrupt_rsp resume s =
    if not s.preemption_requested
    then (null, s)
    else let next = get_next_task s in
      if next == null || next == s.idle
      then (null, record s { preemption_requested = false })
      else let (rsp, s1) = next_frame resume s next in
        if rsp == null
        then (null, record s1 { preemption_requested = false })
        else let s2 = requeue_preempted (ready_queue_pop s1) s1.current_task in
          (rsp, record s2 { pending_task = next; preemption_requested = false })

unfoldable pub peek_next_ready_task : Sched → Ptr
peek_next_ready_task s = elim s.ready_queue [ [] ↦ s.idle | t ∷ _ ↦ t ]

unfoldable pub commit_pending_task : Sched → Sched
unfolding mark_running
commit_pending_task s =
    if s.pending_task == null
    then s
    else let s1 = record s { current_task = s.pending_task; preemption_ticks = 0 } in
      record (mark_running s1 s.pending_task) { pending_task = null }

-- The end of `common_isr_entry` in isr.asm: save the frame, ask for the next one, switch to it.
unfoldable pub interrupt_return : ℕ → Ptr → Sched → Ptr × Sched
interrupt_return resume rsp s =
    let (next_rsp, s1) = get_next_interrupt_rsp resume (save_interrupt_context rsp s) in
    if next_rsp == null then (rsp, s1) else (next_rsp, commit_pending_task s1)
