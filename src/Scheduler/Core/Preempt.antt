-- ===== src/Scheduler/Core/Preempt.antt =====
-- Preemption in scheduler.c: a timer interrupt that ends on the next task's frame.
use zenith_os.Prelude.{
  ℕ, ◌≡◌, refl, ap, ◌∙◌, ◌≢◌, inl, inr, true, false, not, ◌&&◌, List, [], ◌∷◌, arith, ◌==◌,
  if◌then◌else◌, Bool-cases, List-cases,
}
use zenith_os.Scheduler.Queue.{Ptr, null}
use zenith_os.Scheduler.Queue.Chain.{has-append}
use zenith_os.Scheduler.State.{ready, running, Task, Sched, same_state, set_state, push_ready}
use zenith_os.Scheduler.Core.Valid.{
  state_of, IsValid, IsLoose, same-IsValid, ready-IsValid, loose-IsValid,
}
use zenith_os.Scheduler.Core.Steps.{
  IsLoose-of_state, same_state→eq, popped, popped-IsValid, popped-IsLoose, ready_cons,
}
use zenith_os.Scheduler.Core.Interrupt.{
  save_interrupt_context, next_frame, requeue_preempted, get_next_interrupt_rsp,
  commit_pending_task, interrupt_return,
}

-- The frame of the next task changes no more than `user_started`.
pub next_frame-same :
    (resume : ℕ) (s : Sched) (t : Ptr)
    → let r = (next_frame resume s t).1 in
      (r.tasks ≡ s.tasks)
      × (r.ready_queue ≡ s.ready_queue)
      × (r.blocked_queue ≡ s.blocked_queue)
      × (r.sleep_queue ≡ s.sleep_queue)
      × (r.idle ≡ s.idle)
      × (r.current_task ≡ s.current_task)
      × (r.active_pml4 ≡ s.active_pml4)
      × (r.rsp0 ≡ s.rsp0)
unfolding next_frame
next_frame-same resume s t = ground arith

-- The state between choosing the next task and switching to it.
record Chosen (x : Ptr) (r : Sched) : Type 0 where
  valid : IsValid r
  loose : IsLoose r x
  pending : r.pending_task ≡ x

requeue_preempted-IsValid : (s : Sched) (t : Ptr) → IsValid s → IsValid (requeue_preempted s t)
unfolding requeue_preempted
requeue_preempted-IsValid s t v =
    elim (Bool-cases (not (t == null) && not (t == s.idle) && same_state (state_of s t) running)) [
      | inl go ↦ rw go (
          let run = same_state→eq (state_of s t) running (ground arith) in
          let l =
            IsLoose-of_state s t v (ground arith) (ground arith) (λ h. cc (run, h))
              (λ h. cc (run, h)) (λ h. cc (run, h)) in
          ready-IsValid s (push_ready (set_state s t ready) t) t v l refl (λ a ne. ground arith)
            (ground arith) refl refl refl)
      | inr stop ↦ rw stop v
    ]

requeue_preempted-IsLoose :
    (s : Sched) (t x : Ptr) → IsLoose s x → state_of s x ≡ ready → IsLoose (requeue_preempted s t) x
unfolding requeue_preempted
requeue_preempted-IsLoose s t x l is =
    elim (Bool-cases (not (t == null) && not (t == s.idle) && same_state (state_of s t) running)) [
      | inl go ↦ rw go (
          let run = same_state→eq (state_of s t) running (ground arith) in
          let ne : x ≢ t = λ e. cc (is, run, ap (state_of s) e) in
          record {
            not_null = l.not_null;
            not_idle = l.not_idle;
            not_ready = rw has-append (ground (arith, l.not_ready));
            not_blocked = l.not_blocked;
            not_asleep = l.not_asleep;
          })
      | inr stop ↦ rw stop l
    ]

-- The state after the head `x` of the ready queue is chosen.
unfoldable pub chosen : ℕ → Sched → Ptr → List Ptr → Sched
chosen resume s x rest =
    let s1 = (next_frame resume s x).1 in
    record (requeue_preempted (record s1 { ready_queue = rest }) s1.current_task) {
      pending_task = x;
      preemption_requested = false;
    }

-- An interrupt asked for a switch, and the head of the ready queue is the next task.
pub get_next_cons :
    (resume : ℕ) (s : Sched) (x : Ptr) (rest : List Ptr)
    → s.preemption_requested ≡ true
    → s.ready_queue ≡ x ∷ rest
    → x ≢ null
    → x ≢ s.idle
    → get_next_interrupt_rsp resume s ≡ (
        if (next_frame resume s x).0 == null
        then (null, record ((next_frame resume s x).1) { preemption_requested = false })
        else ((next_frame resume s x).0, chosen resume s x rest))
unfolding get_next_interrupt_rsp chosen
get_next_cons resume s x rest on e nn ni = ground (arith, next_frame-same resume s x)

get_next_nil :
    (resume : ℕ) (s : Sched)
    → s.ready_queue ≡ []
    → get_next_interrupt_rsp resume s
      ≡ (null, if s.preemption_requested then record s { preemption_requested = false } else s)
unfolding get_next_interrupt_rsp
get_next_nil resume s e = ground arith

get_next_off :
    (resume : ℕ) (s : Sched)
    → s.preemption_requested ≡ false
    → get_next_interrupt_rsp resume s ≡ (null, s)
unfolding get_next_interrupt_rsp
get_next_off resume s e = ground arith

module _ (resume : ℕ) (s : Sched) (x : Ptr) (rest : List Ptr) (v : IsValid s)
    (e : s.ready_queue ≡ x ∷ rest) where
  framed : Sched
  framed = (next_frame resume s x).1

  abbrev framed_popped : Sched
  framed_popped = record (framed) { ready_queue = rest }

  framed_popped-IsValid : IsValid framed_popped
  unfolding framed popped
  framed_popped-IsValid =
      let (t, r, b, z, i, c, _, _) = next_frame-same resume s x in
      same-IsValid (popped s x rest v e) framed_popped (popped-IsValid s x rest v e) i
        (λ a. ap (λ (f : Ptr → Task). (f a).state) t) refl b z

  framed_popped-IsLoose : IsLoose framed_popped x
  unfolding framed popped
  framed_popped-IsLoose =
      let (t, r, b, z, i, c, _, _) = next_frame-same resume s x in
      let l = popped-IsLoose s x rest v e in
      record {
        not_null = l.not_null;
        not_idle = rw i l.not_idle;
        not_ready = l.not_ready;
        not_blocked = rw b l.not_blocked;
        not_asleep = rw z l.not_asleep;
      }

  framed_popped-ready : state_of framed_popped x ≡ ready
  unfolding framed
  framed_popped-ready =
      let (t, _, _, _, _, _, _, _) = next_frame-same resume s x in
      ap (λ (f : Ptr → Task). (f x).state) t ∙ (ready_cons s x rest v e).tasks.0.0

  chosen-Chosen : Chosen x (chosen resume s x rest)
  unfolding chosen framed
  chosen-Chosen =
      let l =
        requeue_preempted-IsLoose framed_popped framed.current_task x framed_popped-IsLoose
          framed_popped-ready in
      let requeued : IsLoose (chosen resume s x rest) x = record {
        not_null = l.not_null;
        not_idle = l.not_idle;
        not_ready = l.not_ready;
        not_blocked = l.not_blocked;
        not_asleep = l.not_asleep;
      } in
      record {
        valid =
            same-IsValid (requeue_preempted framed_popped framed.current_task)
              (chosen resume s x rest)
              (requeue_preempted-IsValid framed_popped framed.current_task framed_popped-IsValid)
              refl (λ a. refl) refl refl refl;
        loose = requeued;
        pending = refl;
      }

commit-IsValid : (x : Ptr) (r : Sched) → Chosen x r → IsValid (commit_pending_task r)
unfolding commit_pending_task
commit-IsValid x r c =
    loose-IsValid r (commit_pending_task r) x c.valid c.loose (ground arith)
      (λ a ne. ground (arith, c.pending)) (ground arith) (ground arith) (ground arith)

unchosen-IsValid :
    (resume : ℕ) (s : Sched) (x : Ptr)
    → IsValid s
    → IsValid (record ((next_frame resume s x).1) { preemption_requested = false })
unchosen-IsValid resume s x v =
    let (t, r, b, z, i, c, _, _) = next_frame-same resume s x in
    same-IsValid s (record ((next_frame resume s x).1) { preemption_requested = false }) v i
      (λ a. ap (λ (f : Ptr → Task). (f a).state) t) r b z

finish : Ptr → Ptr × Sched → Ptr × Sched
finish rsp o = if o.0 == null then (rsp, o.1) else (o.0, commit_pending_task o.1)

finish-IsValid :
    (resume : ℕ) (rsp : Ptr) (s : Sched)
    → IsValid s
    → IsValid (finish rsp (get_next_interrupt_rsp resume s)).1
unfolding finish
finish-IsValid resume rsp s v = elim (Bool-cases s.preemption_requested) [
  | inr off ↦ rw (get_next_off resume s off) v
  | inl on ↦ elim (List-cases s.ready_queue) [
    | inl e ↦ rw (get_next_nil resume s e) (
        same-IsValid s
          (if s.preemption_requested then record s { preemption_requested = false } else s) v
          (ground arith) (λ a. ground arith) (ground arith) (ground arith) (ground arith))
    | inr (x, rest, e) ↦
        let is = (ready_cons s x rest v e).tasks.0 in
        rw (get_next_cons resume s x rest on e is.1 is.2)
          (elim (Bool-cases ((next_frame resume s x).0 == null)) [
            | inl none_built ↦ rw none_built (unchosen-IsValid resume s x v)
            | inr built ↦
                rw (built, built)
                  (commit-IsValid x (chosen resume s x rest) (chosen-Chosen resume s x rest v e))
          ])
  ]
]

-- The end of an interrupt keeps the invariant, whether it switches or not.
pub interrupt_return-IsValid :
    (resume : ℕ) (rsp : Ptr) (s : Sched) → IsValid s → IsValid (interrupt_return resume rsp s).1
unfolding interrupt_return finish save_interrupt_context
interrupt_return-IsValid resume rsp s v = finish-IsValid resume rsp (save_interrupt_context rsp s) (
    same-IsValid s (save_interrupt_context rsp s) v (ground arith) (λ a. ground arith)
      (ground arith) (ground arith) (ground arith))
