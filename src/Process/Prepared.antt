-- ===== src/Process/Prepared.antt =====
-- About a process that `process_create` of process.c prepares, and the list of the others.
use zenith_os.Prelude.{
  ℕ, ◌+◌, ◌-◌, ◌≤◌, ◌<◌, ◌%◌, ◌^◌, ◌≡◌, refl, ◌≢◌, false, List, [], ◌∷◌, arith, eq→==, ne→==,
}
use zenith_os.KernelErr.{Status, ok, err}
use zenith_os.Vmm.Paging.{Paging}
use zenith_os.Scheduler.Queue.{Ptr, null, link}
use zenith_os.Scheduler.Queue.Chain.{has, Chain-link}
use zenith_os.Scheduler.Task.{Tasks}
use zenith_os.Process.Memory.{
  Info, Processes, write_info, map_new_page, process_map_initial_stack, heap_grown,
  process_heap_expand,
}
use zenith_os.Process.{numbered}
use zenith_os.Process.Listed.{Pids, Falling, IsList}

-- The process at `p` has the next pid, and is in no list yet.
pub record Prepared (s : Processes) (p : Ptr) (s1 : Processes) : Type 0 where
  pub links : s1.links ≡ s.links
  pub first : s1.process_list ≡ s.process_list
  pub pid : (s1.info p).pid ≡ s.next_pid
  pub others : (q : Ptr) → q ≢ p → (s1.info q).pid ≡ (s.info q).pid
  pub next : s1.next_pid ≡ s.next_pid + 1

Falling-same :
    (info info' : Pids) (n m : ℕ) (p : Ptr) (list : List Ptr)
    → ((q : Ptr) → q ≢ p → (info' q).pid ≡ (info q).pid)
    → has p list ≡ false
    → n ≤ m
    → Falling info n list
    → Falling info' m list
Falling-same info info' n m p [] same out h f = tt
Falling-same info info' n m p (q ∷ list) same out h f =
    let ne : q ≢ p = λ e. absurd (ground (arith, out, e)) in
    let tail : has p list ≡ false = ground (arith, out) in
    (
      omega (arith, same q ne, f.0),
      Falling-same info info' (info q).pid (info' q).pid p list same tail (omega (arith, same q ne))
          f.1,
    )

-- The list, and an object that is not in it.
pub record Fresh (s : Processes) (p : Ptr) (list : List Ptr) : Type 0 where
  pub is : IsList s list
  pub out : has p list ≡ false
  pub nn : p ≢ null

module _ {s : Processes} {p : Ptr} {list : List Ptr} (fresh : Fresh s p list) where
  pub keep-IsList : (s1 : Processes) → Prepared s p s1 → IsList s1 list
  keep-IsList s1 h = record {
    chain = rw (h.links, h.first) fresh.is.chain;
    falling =
        Falling-same s.info s1.info s.next_pid s1.next_pid p list h.others fresh.out
          (omega (arith, h.next)) fresh.is.falling;
  }

  pub write-Prepared :
      (s1 : Processes) (new : Info)
      → new.pid ≡ s.next_pid
      → Prepared s p s1
      → Prepared s p (write_info s1 p new)
  write-Prepared s1 new e h = record {
    links = h.links;
    first = h.first;
    pid = rw (eq→== p p refl) e;
    others = λ q ne. rw (ne→== q p ne) (h.others q ne);
    next = h.next;
  }

  pub paging-Prepared :
      (s1 : Processes) (g : Paging) → Prepared s p s1 → Prepared s p (record s1 { paging = g })
  paging-Prepared s1 g h = record {
    links = h.links;
    first = h.first;
    pid = h.pid;
    others = h.others;
    next = h.next;
  }

  pub tasks-Prepared :
      (s1 : Processes) (t : Tasks) → Prepared s p s1 → Prepared s p (record s1 { tasks = t })
  tasks-Prepared s1 t h = record {
    links = h.links;
    first = h.first;
    pid = h.pid;
    others = h.others;
    next = h.next;
  }

  pub numbered-Prepared : s.next_pid + 1 < 2 ^ 64 → Prepared s p (numbered s p)
  numbered-Prepared h = record {
    links = refl;
    first = refl;
    pid = rw (eq→== p p refl) refl;
    others = λ q ne. rw (ne→== q p ne) refl;
    next = omega arith;
  }

  pub stack-Prepared :
      (s1 : Processes) → Prepared s p s1 → Prepared s p (process_map_initial_stack s1 p).1
  unfolding process_map_initial_stack
  stack-Prepared s1 h = rw (ne→== p null fresh.nn) (
      paging-Prepared s1
        (map_new_page s1.paging (s1.info p).page_table ((s1.info p).user_stack_top - 4096)).1 h)

  grown-Prepared :
      (s1 : Processes) (st : Status) → Prepared s p s1 → Prepared s p (heap_grown s1 p st).1
  grown-Prepared s1 (err e) h = h
  grown-Prepared s1 (ok u) h =
      let end = ((s1.info p).user_heap_end + 4096) % 2 ^ 64 in
      write-Prepared s1 (record (s1.info p) { user_heap_end = end; user_heap_current = end }) h.pid
        h

  pub heap-Prepared : (s1 : Processes) → Prepared s p s1 → Prepared s p (process_heap_expand s1 p).1
  unfolding process_heap_expand
  heap-Prepared s1 h = rw (ne→== p null fresh.nn) (
      let r = map_new_page s1.paging (s1.info p).page_table (s1.info p).user_heap_end in
      grown-Prepared (record s1 { paging = r.1 }) r.0 (paging-Prepared s1 r.1 h))

  -- The state after `p` is put before the others.
  abbrev pub linked : Processes → Processes
  linked s1 = record s1 { links = link s1.links p s1.process_list; process_list = p }

  pub record Entered (s1 : Processes) : Type 0 where
    pub is_list : IsList s1 (p ∷ list)
    pub pid : (s1.info p).pid ≡ s.next_pid

  pub linked-Entered : (s1 : Processes) → Prepared s p s1 → Entered (linked s1)
  unfolding link
  linked-Entered s1 h = record {
    is_list = record {
      chain = (
        refl,
        fresh.nn,
        rw (eq→== p p refl) (
            Chain-link s1.links s1.process_list p s1.process_list list fresh.out
              (keep-IsList s1 h).chain),
      );
      falling = (
        omega (arith, h.pid, h.next),
        Falling-same s.info s1.info s.next_pid (s1.info p).pid p list h.others fresh.out
            (omega (arith, h.pid)) fresh.is.falling,
      );
    };
    pid = h.pid;
  }

  pub write-Entered :
      (s1 : Processes) (new : Info)
      → new.pid ≡ s.next_pid
      → Entered s1
      → Entered (write_info s1 p new)
  write-Entered s1 new e h =
      let at : ((write_info s1 p new).info p).pid ≡ s.next_pid = rw (eq→== p p refl) e in
      let falls = h.is_list.falling in
      record {
        is_list = record {
          chain = h.is_list.chain;
          falling = (
            omega (arith, at, h.pid, falls.0),
            Falling-same s1.info (write_info s1 p new).info (s1.info p).pid
                ((write_info s1 p new).info p).pid p list (λ q ne. rw (ne→== q p ne) refl) fresh.out
                (omega (arith, at, h.pid)) falls.1,
          );
        };
        pid = at;
      }

  pub tasks-Entered : (s1 : Processes) (t : Tasks) → Entered s1 → Entered (record s1 { tasks = t })
  tasks-Entered s1 t h = record {
    is_list = record { chain = h.is_list.chain; falling = h.is_list.falling };
    pid = h.pid;
  }
