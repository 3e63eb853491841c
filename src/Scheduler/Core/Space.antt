-- ===== src/Scheduler/Core/Space.antt =====
-- What an interrupt that ends on another task leaves of the address space.
use zenith_os.Prelude.{ℕ, ◌≡◌, refl, ◌≢◌, ◌∙◌, true, ne→==, List, ◌∷◌, arith}
use zenith_os.Scheduler.Queue.{Ptr, null}
use zenith_os.Scheduler.State.{Sched, running}
use zenith_os.Scheduler.Core.Valid.{state_of}
use zenith_os.Scheduler.Core.Interrupt.{
  save_interrupt_context, next_frame, requeue_preempted, commit_pending_task, interrupt_return,
}
use zenith_os.Scheduler.Core.Preempt.{next_frame-same, chosen, get_next_cons}

-- The page table of the process of a task.
unfoldable pub table_of : Sched → Ptr → ℕ
table_of s t = (s.processes (s.tasks t).process).page_table_physical

-- The same page table active, the same kernel stack in the task state segment, and the same page
-- tables of the processes.
record SameSpace (s r : Sched) : Type 0 where
  active : r.active_pml4 ≡ s.active_pml4
  stack : r.rsp0 ≡ s.rsp0
  tables : (t : Ptr) → table_of r t ≡ table_of s t

SameSpace-trans : (a b c : Sched) → SameSpace a b → SameSpace b c → SameSpace a c
SameSpace-trans a b c l r = record {
  active = r.active ∙ l.active;
  stack = r.stack ∙ l.stack;
  tables = λ t. r.tables t ∙ l.tables t;
}

save-SameSpace : (rsp : Ptr) (s : Sched) → SameSpace s (save_interrupt_context rsp s)
unfolding save_interrupt_context table_of
save-SameSpace rsp s = record {
  active = ground arith;
  stack = ground arith;
  tables = λ t. ground arith;
}

next_frame-SameSpace : (resume : ℕ) (s : Sched) (x : Ptr) → SameSpace s (next_frame resume s x).1
unfolding next_frame table_of
next_frame-SameSpace resume s x = record {
  active = ground arith;
  stack = ground arith;
  tables = λ t. ground arith;
}

requeue_preempted-SameSpace : (s : Sched) (x : Ptr) → SameSpace s (requeue_preempted s x)
unfolding requeue_preempted table_of
requeue_preempted-SameSpace s x = record {
  active = ground arith;
  stack = ground arith;
  tables = λ t. ground arith;
}

commit-SameSpace : (s : Sched) → SameSpace s (commit_pending_task s)
unfolding commit_pending_task table_of
commit-SameSpace s = record {
  active = ground arith;
  stack = ground arith;
  tables = λ t. ground arith;
}

chosen-SameSpace :
    (resume : ℕ) (s : Sched) (x : Ptr) (rest : List Ptr) → SameSpace s (chosen resume s x rest)
unfolding chosen table_of
chosen-SameSpace resume s x rest =
    let s1 = (next_frame resume s x).1 in
    let framed = next_frame-SameSpace resume s x in
    let queued = requeue_preempted-SameSpace (record s1 { ready_queue = rest }) s1.current_task in
    record {
      active = queued.active ∙ framed.active;
      stack = queued.stack ∙ framed.stack;
      tables = λ t. queued.tables t ∙ framed.tables t;
    }

requeue_preempted-idle : (s : Sched) (t : Ptr) → (requeue_preempted s t).idle ≡ s.idle
unfolding requeue_preempted
requeue_preempted-idle s t = ground arith

chosen_lem :
    (resume : ℕ) (s : Sched) (x : Ptr) (rest : List Ptr)
    → ((chosen resume s x rest).pending_task ≡ x) × ((chosen resume s x rest).idle ≡ s.idle)
unfolding chosen
chosen_lem resume s x rest =
    let s1 = (next_frame resume s x).1 in
    let (_, _, _, _, idle, _, _, _) = next_frame-same resume s x in
    (refl, requeue_preempted-idle (record s1 { ready_queue = rest }) s1.current_task ∙ idle)

commit_lem :
    (s : Sched) (x : Ptr)
    → s.pending_task ≡ x
    → x ≢ null
    → x ≢ s.idle
    → ((commit_pending_task s).current_task ≡ x) × (state_of (commit_pending_task s) x ≡ running)
unfolding commit_pending_task
commit_lem s x e nn ni = (ground arith, ground arith)

-- The switch of an interrupt to the task `x`, on its frame: it is the current task and runs, with the
-- page table and the kernel stack of before, whatever the page table of its process is.
pub record Preempted (s : Sched) (x frame : Ptr) (o : Ptr × Sched) : Type 0 where
  pub returns : o.0 ≡ frame
  pub is_current : o.1.current_task ≡ x
  pub is_running : state_of o.1 x ≡ running
  pub same_table : o.1.active_pml4 ≡ s.active_pml4
  pub same_stack : o.1.rsp0 ≡ s.rsp0
  pub own_table : table_of o.1 x ≡ table_of s x

module _ (resume : ℕ) (rsp : Ptr) (s : Sched) (x : Ptr) (rest : List Ptr) where
  unfoldable saved : Sched
  saved = save_interrupt_context rsp s

  saved_lem :
      (saved.preemption_requested ≡ s.preemption_requested)
      × (saved.ready_queue ≡ s.ready_queue)
      × (saved.idle ≡ s.idle)
  unfolding saved save_interrupt_context
  saved_lem = (ground arith, ground arith, ground arith)

  -- What `interrupt_return` does when it switches.
  interrupt_return_cons :
      s.preemption_requested ≡ true
      → s.ready_queue ≡ x ∷ rest
      → x ≢ null
      → x ≢ s.idle
      → (next_frame resume saved x).0 ≢ null
      → interrupt_return resume rsp s
        ≡ ((next_frame resume saved x).0, commit_pending_task (chosen resume saved x rest))
  unfolding interrupt_return saved
  interrupt_return_cons on queue nn ni built =
      let (asked, ready_ones, idle) = saved_lem in
      rw
        (
          get_next_cons resume saved x rest (asked ∙ on) (ready_ones ∙ queue) nn (rw idle ni),
          ne→== (next_frame resume saved x).0 null built,
          ne→== (next_frame resume saved x).0 null built,
        )
        refl

-- An interrupt that was asked for a switch, with the task `x` at the head of the ready queue and a
-- frame for it, ends on that frame with `x` as the current task, which runs; but it loads neither the
-- page table of the process of `x`, whatever that is, nor the kernel stack of `x`: the table of
-- before stays active, and `rsp0` stays.
pub interrupt_return-same_space :
    (resume : ℕ) (rsp : Ptr) (s : Sched) (x : Ptr) (rest : List Ptr)
    → s.preemption_requested ≡ true
    → s.ready_queue ≡ x ∷ rest
    → x ≢ null
    → x ≢ s.idle
    → (next_frame resume (save_interrupt_context rsp s) x).0 ≢ null
    → Preempted s x
        (next_frame resume (save_interrupt_context rsp s) x).0
        (interrupt_return resume rsp s)
unfolding saved
interrupt_return-same_space resume rsp s x rest on queue nn ni built =
    let start = save_interrupt_context rsp s in
    let next = chosen resume start x rest in
    let (pending, idle) = chosen_lem resume start x rest in
    let (_, _, idle_before) = saved_lem resume rsp s x rest in
    let (current, runs) = commit_lem next x pending nn (rw (idle, idle_before) ni) in
    let space =
      SameSpace-trans s next (commit_pending_task next)
        (SameSpace-trans s start next (save-SameSpace rsp s) (chosen-SameSpace resume start x rest))
        (commit-SameSpace next) in
    rw (interrupt_return_cons resume rsp s x rest on queue nn ni built) record {
      returns = refl;
      is_current = current;
      is_running = runs;
      same_table = space.active;
      same_stack = space.stack;
      own_table = space.tables x;
    }
