-- ===== src/Process/Made.antt =====
-- About `process_create` of process.c.
use zenith_os.Prelude.{
  ℕ, ◌+◌, ◌-◌, ◌<◌, ◌^◌, ◌==◌, ◌≡◌, refl, sym, ◌≢◌, ◌⊎◌, inl, inr, false, Option, none, some, List,
  ◌∷◌, Bool-cases, ne→==, subst, replicate, ==→eq, ==→ne,
}
use zenith_os.KernelErr.{Status, ok, err}
use zenith_os.Klib.String.{Bytes, k_strlen}
use zenith_os.Klib.String.Laws.{k_strcpy_lem}
use zenith_os.Vmm.Paging.{Paging}
use zenith_os.Scheduler.Queue.{Ptr, null}
use zenith_os.Scheduler.Queue.Chain.{has}
use zenith_os.Scheduler.Task.{Tasks, task_create}
use zenith_os.Process.Memory.{
  Info, Processes, write_info, process_map_initial_stack, process_heap_expand, user_heap_base,
  write_process, blank_process, user_stack_top_address, user_stack_size,
}
use zenith_os.Process.{
  Created, numbered, start_task, name_process, enlist, given_up, heap_mapped, stack_mapped,
  table_created, process_create, task_create, page_table_create, physical_or_zero,
}
use zenith_os.Process.Listed.{IsList}
use zenith_os.Process.Prepared.{
  Fresh, Prepared, Entered, linked, keep-IsList, write-Prepared, paging-Prepared, tasks-Prepared,
  numbered-Prepared, stack-Prepared, heap-Prepared, linked-Entered, write-Entered, tasks-Entered,
}

-- The process was entered, or it was not, or it was entered and given to `kfree`.
pub data Outcome (s : Processes) (list : List Ptr) (p : Ptr) (missing : Type 0) (c : Created)
    : Type 0 where
  created :
      c.result ≡ p
      → c.freed ≡ none
      → IsList c.after (p ∷ list)
      → (c.after.info p).pid ≡ s.next_pid
      → Outcome s list p missing c
  refused : c.result ≡ null → IsList c.after list → Outcome s list p missing c
  dangling :
      missing
      → c.result ≡ null
      → c.freed ≡ some p
      → IsList c.after (p ∷ list)
      → Outcome s list p missing c

module _ {s : Processes} {p : Ptr} {list : List Ptr} (fresh : Fresh s p list)
    (missing : Type 0) where
  start_task-Outcome :
      (s1 : Processes) (r : Ptr × Tasks)
      → (r.0 ≡ null → missing)
      → Entered fresh s1
      → Outcome s list p missing (start_task p s1 r)
  unfolding start_task
  start_task-Outcome s1 (task, t) m h = elim (Bool-cases (task == null)) [
    | inl e ↦ rw e (dangling (m (==→eq task null e)) refl refl (tasks-Entered fresh s1 t h).is_list)
    | inr e ↦
        let done =
          write-Entered fresh s1 (record (s1.info p) { main_thread = task; thread_list = task })
            h.pid h in
        rw e (
          created refl refl (record { chain = done.is_list.chain; falling = done.is_list.falling })
            done.pid)
  ]

  module _ (create : Processes → Ptr × Tasks) (name : Bytes) (short : k_strlen name < 64)
      (lacks : (s1 : Processes) → (create s1).0 ≡ null → missing) where
    -- The call returns, with one of the outcomes.
    abbrev Returns : Option Created → Type 0
    Returns o = (c : Created) × (o ≡ some c) × Outcome s list p missing c

    named :
        (s1 : Processes) (copied : Bytes)
        → Entered fresh s1
        → Returns (name_process create p s1 (some copied))
    named s1 copied h =
        let s2 = write_info s1 p (record (s1.info p) { name = copied }) in
        (
          start_task p s2 (create s2),
          refl,
          start_task-Outcome s2 (create s2) (lacks s2)
              (write-Entered fresh s1 (record (s1.info p) { name = copied }) h.pid h),
        )

    enlist-Returns : (s1 : Processes) → Prepared s p s1 → Returns (enlist create name p s1)
    unfolding enlist
    enlist-Returns s1 h =
        subst (λ o. Returns (name_process create p (linked fresh s1) o))
          (sym (k_strcpy_lem (replicate 64 0) name short))
          (named (linked fresh s1) _ (linked-Entered fresh s1 h))

    heap_mapped-Returns :
        (st : Status) (s1 : Processes)
        → Prepared s p s1
        → Returns (heap_mapped create name p (st, s1))
    heap_mapped-Returns (err e) s1 h = (given_up p s1, refl, refused refl (keep-IsList fresh s1 h))
    heap_mapped-Returns (ok u) s1 h = enlist-Returns s1 h

    stack_mapped-Returns :
        (st : Status) (s1 : Processes)
        → Prepared s p s1
        → Returns (stack_mapped create name p (st, s1))
    stack_mapped-Returns (err e) s1 h = (given_up p s1, refl, refused refl (keep-IsList fresh s1 h))
    stack_mapped-Returns (ok u) s1 h =
        let new : Info = record (s1.info p) {
          user_heap_start = user_heap_base;
          user_heap_end = user_heap_base;
          user_heap_current = user_heap_base;
        } in
        let r = process_heap_expand (write_info s1 p new) p in
        heap_mapped-Returns r.0 r.1
          (heap-Prepared fresh (write_info s1 p new) (write-Prepared fresh s1 new h.pid h))

    -- From the page table on.
    with_table :
        (s1 : Processes) (g : Paging) (t : Tasks) (root : Ptr)
        → Prepared s p s1
        → Prepared s p (record (write_info s1 p (record (s1.info p) { page_table = root })) {
          paging = g;
          tasks = t;
        })
    with_table s1 g t root h =
        let new : Info = record (s1.info p) { page_table = root } in
        let s2 = write_info s1 p new in
        tasks-Prepared fresh (record s2 { paging = g }) t
          (paging-Prepared fresh s2 g (write-Prepared fresh s1 new h.pid h))

    table_created-Returns :
        (s1 : Processes) (r : Ptr × Option ℕ × Paging)
        → Prepared s p s1
        → Returns (table_created create name p s1 r)
    table_created-Returns s1 (root, physical, g) h =
        let t =
          write_process s1.tasks p
            (record blank_process { page_table_physical = physical_or_zero physical }) in
        let s2 : Processes = record (write_info s1 p (record (s1.info p) { page_table = root })) {
          paging = g;
          tasks = t;
        } in
        let ready = with_table s1 g t root h in
        elim (Bool-cases (root == null)) [
          | inl e ↦ rw e (
            record { result = null; freed = none; after = s2 },
            refl,
            refused refl (keep-IsList fresh s2 ready),
          )
          | inr e ↦
              let new : Info = record (s2.info p) {
                user_stack_top = user_stack_top_address;
                user_stack_bottom = user_stack_top_address - user_stack_size;
              } in
              let r = process_map_initial_stack (write_info s2 p new) p in
              rw e (
                stack_mapped-Returns r.0 r.1 (
                  stack-Prepared fresh (write_info s2 p new)
                    (write-Prepared fresh s2 new ready.pid ready)))
        ]

-- Without a task there was no memory for it or for its stack.
task_create-null :
    (task stack : Ptr) (s : Tasks) (entry : ℕ)
    → entry ≢ null
    → (task_create task stack s entry).0 ≡ null
    → (task ≡ null) ⊎ (stack ≡ null)
unfolding task_create
task_create-null task stack s entry ne h = elim (Bool-cases (task == null)) [
  | inl e ↦ inl (==→eq task null e)
  | inr e ↦ elim (Bool-cases (stack == null)) [
    | inl f ↦ inr (==→eq stack null f)
    | inr f ↦ absurd (==→ne task null e (rw (ne→== entry null ne, e, f) at h))
  ]
]

-- `process_create` with a name of at most 63 bytes, a new object from `kmalloc` and pids that have not
-- run out returns in one of three ways. It returns the process, first in the list of processes and
-- with the next pid. Or it returns NULL and the list is as before. Or, and only where `kmalloc` has
-- no memory for the task or its stack, it returns NULL and has given the process to `kfree` while it
-- is still the first of the list.
pub process_create-Outcome :
    (s : Processes) (p task stack : Ptr) (list : List Ptr) (name : Bytes) (entry : ℕ)
    → IsList s list
    → has p list ≡ false
    → p ≢ null
    → k_strlen name < 64
    → s.next_pid + 1 < 2 ^ 64
    → (c : Created) × (process_create p task stack s name entry ≡ some c)
      × Outcome s list p ((task ≡ null) ⊎ (stack ≡ null)) c
unfolding process_create
process_create-Outcome s p task stack list name entry is out nn short room =
    let fresh : Fresh s p list = record { is = is; out = out; nn = nn } in
    elim (Bool-cases (entry == null)) [
      | inl e ↦ rw e (record { result = null; freed = none; after = s }, refl, refused refl is)
      | inr e ↦
          rw (e, ne→== p null nn)
            (table_created-Returns fresh ((task ≡ null) ⊎ (stack ≡ null))
              (λ s1. task_create task stack s1.tasks entry) name short
              (λ s1. task_create-null task stack s1.tasks entry (==→ne entry null e)) (numbered s p)
              (page_table_create s.paging) (numbered-Prepared fresh room))
    ]
