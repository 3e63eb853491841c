-- ===== src/Scheduler/Core/Wake.antt =====
-- The sleeping tasks of scheduler.c: which of them a tick wakes.
use zenith_os.Prelude.{
  ℕ, ◌≡◌, refl, sym, ap, ◌∙◌, subst, inl, inr, true, false, List, [], ◌∷◌, ◌++◌, arith, leb,
  if◌then◌else◌, Bool-cases,
}
use mathlib.Core.Path.{fun_ext}
use mathlib.Core.List.{append-nil, append_assoc}
use zenith_os.Scheduler.Queue.{Ptr}
use zenith_os.Scheduler.Queue.Chain.{has, Distinct, has-append}
use zenith_os.Scheduler.Queue.Remove.{without}
use zenith_os.Scheduler.State.{sleeping, Sched}
use zenith_os.Scheduler.Core.{make_ready, check_sleeping_from, tick}
use zenith_os.Scheduler.Core.Valid.{state_of, IsTask, IsValid, All-has}
use zenith_os.Scheduler.Core.Steps.{
  make_ready-IsValid, off_sleep, off_sleep-IsValid, off_sleep-IsLoose,
}

abbrev pub wake_of : Sched → Ptr → ℕ
wake_of s t = (s.tasks t).wake_tick

-- The tasks of a queue whose time has come, and the others.
unfoldable pub due : (Ptr → ℕ) → ℕ → List Ptr → List Ptr
due wake now [] = []
due wake now (x ∷ xs) = if leb (wake x) now then x ∷ due wake now xs else due wake now xs

unfoldable pub still : (Ptr → ℕ) → ℕ → List Ptr → List Ptr
still wake now [] = []
still wake now (x ∷ xs) = if leb (wake x) now then still wake now xs else x ∷ still wake now xs

without-middle :
    (t : Ptr) (kept xs : List Ptr) → has t kept ≡ false → without t (kept ++ (t ∷ xs)) ≡ kept ++ xs
without-middle t [] xs h = ground arith
without-middle t (k ∷ kept) xs h = ground (arith, without-middle t kept xs)

wake_one : Sched → Ptr → Sched
wake_one s t = make_ready (record s { sleep_queue = without t s.sleep_queue }) t

wake_one_lem :
    (s : Sched) (t : Ptr) (kept xs : List Ptr)
    → s.sleep_queue ≡ kept ++ (t ∷ xs)
    → has t kept ≡ false
    → ((wake_one s t).sleep_queue ≡ kept ++ xs)
      × ((wake_one s t).ready_queue ≡ s.ready_queue ++ (t ∷ []))
      × ((a : Ptr) → wake_of (wake_one s t) a ≡ wake_of s a)
unfolding wake_one make_ready
wake_one_lem s t kept xs e out =
    (ground (arith, without-middle t kept xs out), ground arith, λ a. ground arith)

wake_one-IsValid :
    (s : Sched) (t : Ptr) → IsValid s → has t s.sleep_queue ≡ true → IsValid (wake_one s t)
unfolding wake_one off_sleep
wake_one-IsValid s t v e =
    let is = All-has (IsTask (state_of s) s.idle sleeping) s.sleep_queue t v.sleep_tasks.tasks e in
    make_ready-IsValid (off_sleep s t v is.1 is.2) t (off_sleep-IsValid s t v is.1 is.2)
      (off_sleep-IsLoose s t v is.1 is.2 is.0)

-- What the walk over `xs` does, with the tasks `kept` before them left asleep.
record Woken (now : ℕ) (kept xs : List Ptr) (s r : Sched) : Type 0 where
  valid : IsValid r
  asleep : r.sleep_queue ≡ kept ++ still (wake_of s) now xs
  woken : r.ready_queue ≡ s.ready_queue ++ due (wake_of s) now xs

Distinct-middle : (t : Ptr) (kept xs : List Ptr) → Distinct (kept ++ (t ∷ xs)) → has t kept ≡ false
Distinct-middle t [] xs d = refl
Distinct-middle t (k ∷ kept) xs d =
    ground (arith, has-append k kept (t ∷ xs), d.0, Distinct-middle t kept xs d.1)

check_sleeping_from-Woken :
    (now : ℕ) (kept xs : List Ptr) (s : Sched)
    → IsValid s
    → s.sleep_queue ≡ kept ++ xs
    → Woken now kept xs s (check_sleeping_from now xs s)
unfolding check_sleeping_from due still wake_one
check_sleeping_from-Woken now kept [] s v e = record {
  valid = v;
  asleep = e;
  woken = sym (append-nil s.ready_queue);
}
check_sleeping_from-Woken now kept (t ∷ xs) s v e = elim (Bool-cases (leb (wake_of s t) now)) [
  | inl up ↦ rw up (
      let d = subst Distinct e v.sleep_tasks.distinct in
      let here : has t s.sleep_queue ≡ true = rw (e, has-append) (ground arith) in
      let (a, b, c) = wake_one_lem s t kept xs e (Distinct-middle t kept xs d) in
      let same : wake_of (wake_one s t) ≡ wake_of s = fun_ext c in
      let rest =
        check_sleeping_from-Woken now kept xs (wake_one s t) (wake_one-IsValid s t v here) a in
      record {
        valid = rest.valid;
        asleep = rw up (rest.asleep ∙ ap (λ w. kept ++ still w now xs) same);
        woken = rw up (
            rest.woken
            ∙ ap (λ w. (wake_one s t).ready_queue ++ due w now xs) same
            ∙ ap (λ q. q ++ due (wake_of s) now xs) b
            ∙ append_assoc s.ready_queue (t ∷ []) (due (wake_of s) now xs));
      })
  | inr later ↦ rw later (
      let rest =
        check_sleeping_from-Woken now (kept ++ (t ∷ [])) xs s v
          (e ∙ sym (append_assoc kept (t ∷ []) xs)) in
      record {
        valid = rest.valid;
        asleep = rw later (rest.asleep ∙ append_assoc kept (t ∷ []) _);
        woken = rw later rest.woken;
      })
]

-- `scheduler_tick` keeps the invariant and wakes exactly the sleeping tasks whose time has come, in
-- the order in which they went to sleep; the others stay asleep in their order.
pub tick_lem :
    (now : ℕ) (s : Sched)
    → IsValid s
    → IsValid (tick now s)
      × ((tick now s).sleep_queue ≡ still (wake_of s) now s.sleep_queue)
      × ((tick now s).ready_queue ≡ s.ready_queue ++ due (wake_of s) now s.sleep_queue)
unfolding tick
tick_lem now s v =
    let w = check_sleeping_from-Woken now [] s.sleep_queue s v refl in (w.valid, w.asleep, w.woken)
