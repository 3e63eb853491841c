-- ===== src/Scheduler/Core/Fair.antt =====
-- `scheduler_yield` of scheduler.c runs the ready tasks in turn.
use zenith_os.Prelude.{
  ℕ, zero, suc, ◌≡◌, refl, sym, ap, ◌∙◌, ◌≢◌, ◌⊎◌, inl, inr, false, ne→==, Bool-cases, List, [],
  ◌∷◌, ◌++◌, arith, length,
}
use mathlib.Core.List.{append_assoc}
use zenith_os.Scheduler.Queue.{Ptr, null}
use zenith_os.Scheduler.State.{ready, running, interrupt, Sched}
use zenith_os.Scheduler.Core.{
  Switch, to_context, to_interrupt, resume_uses_interrupt_frame, switch_to, schedule,
  requeue_running, choose_switch, yield_cpu,
}
use zenith_os.Scheduler.Core.Valid.{state_of, IsValid}
use zenith_os.Scheduler.Core.Steps.{schedule_cons, yield_cpu-IsValid, ready_cons}

-- A task other than the idle task runs.
pub record Runs (s : Sched) (t : Ptr) : Type 0 where
  pub is_current : s.current_task ≡ t
  pub not_null : t ≢ null
  pub not_idle : t ≢ s.idle
  pub is_running : state_of s t ≡ running

-- A call of `scheduler_yield` by `p`, with its result, gives the processor to `t`: it leaves by
-- `context_switch` to the context of `t` or, if an interrupt has saved a frame of `t`, by a switch to
-- that frame.
pub Enters : Ptr → Ptr → Switch × Sched → Type 0
Enters p t (switch, r) =
    (resume_uses_interrupt_frame r t ≡ false) × (switch ≡ to_context p t)
    ⊎ ((r.tasks t).resume_mode ≡ interrupt)
      × ((r.tasks t).interrupt_rsp ≢ null)
      × (switch ≡ to_interrupt p (r.tasks t).interrupt_rsp)

choose_switch-Enters :
    (r : Sched) (p t : Ptr) → r.current_task ≡ t → Enters p t (choose_switch r p, r)
unfolding Enters choose_switch resume_uses_interrupt_frame
choose_switch-Enters r p t e = elim (Bool-cases (resume_uses_interrupt_frame r t)) [
  | inr off ↦ inl (off, ground arith)
  | inl on ↦ inr (ground arith, ground arith, ground arith)
]

-- The test at the end of `scheduler_yield`, when another task was chosen.
yield_cpu_other :
    (s r : Sched) (x : Ptr)
    → schedule (requeue_running s s.current_task) ≡ (x, r)
    → x ≢ null
    → x ≢ s.current_task
    → yield_cpu s ≡ (choose_switch r s.current_task, r)
unfolding yield_cpu
yield_cpu_other s r x e nn other = rw (e, ne→== x null nn, ne→== x s.current_task other) refl

requeue_running_lem :
    (s : Sched) (p : Ptr)
    → p ≢ null
    → p ≢ s.idle
    → state_of s p ≡ running
    → let r = requeue_running s p in
      (r.ready_queue ≡ s.ready_queue ++ (p ∷ []))
      × (r.idle ≡ s.idle)
      × (state_of r p ≡ ready)
      × ((a : Ptr) → a ≢ p → state_of r a ≡ state_of s a)
unfolding requeue_running
requeue_running_lem s p nn ni run = (ground arith, ground arith, ground arith, λ a ne. ground arith)

switch_to_lem :
    (s : Sched) (x : Ptr)
    → x ≢ null
    → x ≢ s.idle
    → let r = (switch_to s x).1 in
      (switch_to s x ≡ (x, r))
      × (r.current_task ≡ x)
      × (r.ready_queue ≡ s.ready_queue)
      × (r.idle ≡ s.idle)
      × (state_of r x ≡ running)
      × ((a : Ptr) → a ≢ x → state_of r a ≡ state_of s a)
unfolding switch_to
switch_to_lem s x nn ni =
    (ground arith, ground arith, ground arith, ground arith, ground arith, λ a ne. ground arith)

-- What a call of `scheduler_yield` by a running task does when another task is ready: the first
-- ready task gets the processor, and the caller is ready behind all the others.
pub record Rotated (s : Sched) (p x : Ptr) (rest : List Ptr) (o : Switch × Sched) : Type 0 where
  pub runs : Runs o.1 x
  pub enters : Enters p x o
  pub queue : o.1.ready_queue ≡ rest ++ (p ∷ [])
  pub caller_ready : state_of o.1 p ≡ ready
  pub same_idle : o.1.idle ≡ s.idle
  pub others : (a : Ptr) → a ≢ p → a ≢ x → state_of o.1 a ≡ state_of s a

-- `scheduler_yield`, called by a running task other than the idle task while another task is ready,
-- switches to the first ready task, puts the caller behind the other ready tasks, and changes the
-- state of no other task.
pub yield_cpu-Rotated :
    (s : Sched) (p x : Ptr) (rest : List Ptr)
    → IsValid s
    → Runs s p
    → s.ready_queue ≡ x ∷ rest
    → Rotated s p x rest (yield_cpu s)
yield_cpu-Rotated s p x rest v run e =
    let (q1, i1, p1, o1) = requeue_running_lem s p run.not_null run.not_idle run.is_running in
    let is = (ready_cons s x rest v e).tasks.0 in
    let r1 = requeue_running s p in
    let popped : Sched = record r1 { ready_queue = rest ++ (p ∷ []) } in
    let e1 : r1.ready_queue ≡ x ∷ (rest ++ (p ∷ [])) = q1 ∙ ap (λ q. q ++ (p ∷ [])) e in
    let (pair, c, q2, i2, x2, o2) = switch_to_lem popped x is.1 (rw i1 is.2) in
    let chosen : schedule (requeue_running s s.current_task) ≡ (x, (switch_to popped x).1) =
      ap (λ t. schedule (requeue_running s t)) run.is_current
      ∙ schedule_cons r1 x (rest ++ (p ∷ [])) e1 is.1 (rw i1 is.2)
      ∙ pair in
    let differ : x ≢ p = λ h. cc (run.is_running, is.0, ap (state_of s) h) in
    let go : yield_cpu s ≡ (choose_switch (switch_to popped x).1 p, (switch_to popped x).1) =
      yield_cpu_other s (switch_to popped x).1 x chosen is.1 (rw run.is_current differ)
      ∙ ap (λ t. (choose_switch (switch_to popped x).1 t, (switch_to popped x).1)) run.is_current in
    rw go record {
      runs = record {
        is_current = c;
        not_null = is.1;
        not_idle = rw (i2, i1) is.2;
        is_running = x2;
      };
      enters = choose_switch-Enters (switch_to popped x).1 p x c;
      queue = q2;
      caller_ready = o2 p (λ h. differ (sym h)) ∙ p1;
      same_idle = i2 ∙ i1;
      others = λ a np nx. o2 a nx ∙ o1 a np;
    }

-- `n` calls of `scheduler_yield`, each by the task that runs.
pub yields : ℕ → Sched → Sched
yields zero s = s
yields (suc n) s = yields n (yield_cpu s).1

-- The next call of `scheduler_yield`, by the task that runs, switches to `t`.
pub record HasTurn (s : Sched) (t : Ptr) : Type 0 where
  pub caller : Ptr
  pub calls : Runs s caller
  pub enters : Enters caller t (yield_cpu s)
  pub runs : Runs (yield_cpu s).1 t

-- Every ready task gets the processor: from a valid state in which a task other than the idle task
-- runs, after as many calls of `scheduler_yield` as there are tasks before `t` in the ready queue,
-- each by the task that runs then, the next call switches to `t`: it does not return to its caller
-- but goes on with the context of `t` or with the frame that an interrupt has saved of it, and `t` is
-- the current task and in state TASK_RUNNING.
pub yields-HasTurn :
    (xs ys : List Ptr) (s : Sched) (p t : Ptr)
    → IsValid s
    → Runs s p
    → s.ready_queue ≡ xs ++ (t ∷ ys)
    → HasTurn (yields (length xs) s) t
unfolding yields
yields-HasTurn [] ys s p t v run e =
    let next = yield_cpu-Rotated s p t ys v run e in
    record { caller = p; calls = run; enters = next.enters; runs = next.runs }
yields-HasTurn (x ∷ xs) ys s p t v run e =
    let next = yield_cpu-Rotated s p x (xs ++ (t ∷ ys)) v run e in
    yields-HasTurn xs (ys ++ (p ∷ [])) (yield_cpu s).1 x t (yield_cpu-IsValid s v) next.runs
      (next.queue ∙ append_assoc xs (t ∷ ys) (p ∷ []))

-- When all have had their turn the queue is as before, with the first caller running again.
pub yields_cycle :
    (s : Sched) (p x : Ptr)
    → IsValid s
    → Runs s p
    → s.ready_queue ≡ x ∷ []
    → Runs (yields 2 s) p × ((yields 2 s).ready_queue ≡ x ∷ [])
unfolding yields
yields_cycle s p x v run e =
    let one = yield_cpu-Rotated s p x [] v run e in
    let two = yield_cpu-Rotated (yield_cpu s).1 x p [] (yield_cpu-IsValid s v) one.runs one.queue in
    (two.runs, two.queue)
