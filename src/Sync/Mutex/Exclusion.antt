-- ===== src/Sync/Mutex/Exclusion.antt =====
-- Mutual exclusion of mutex.c: the calls of any tasks in any order, with the scheduler and whatever
-- else changes its state between them.
use zenith_os.Prelude.{
  ◌≡◌, ◌≢◌, refl, sym, ◌∙◌, ◌⊎◌, inl, inr, Bool, true, false, ◌==◌, if◌then◌else◌, List, [], ◌∷◌,
  arith, All, All-snoc, Bool-cases, List-cases, ==→eq, ==→ne, ne→==,
}
use zenith_os.Scheduler.Queue.{Ptr, null}
use zenith_os.Scheduler.Queue.Chain.{has}
use zenith_os.Scheduler.Queue.Remove.{without}
use zenith_os.Scheduler.State.{Sched}
use zenith_os.Sync.Mutex.{
  Mutex, mutex_init, Round, returns, waits, enter_wait, lock_round, mutex_unlock,
}
use zenith_os.Sync.Mutex.Laws.{IsOwned}

-- A mutex in use. A task holds it from where a round of its `mutex_lock` returns until it calls
-- `mutex_unlock`.
pub record Usage : Type 0 where
  pub mutex : Mutex
  pub sched : Sched
  pub holds : Ptr → Bool

abbrev pub set_holds : (Ptr → Bool) → Ptr → Bool → Ptr → Bool
set_holds holds t v i = if i == t then v else holds i

abbrev pub after_round : (Ptr → Bool) → Ptr → Round → Usage
after_round holds t (returns m s) = record { mutex = m; sched = s; holds = set_holds holds t true }
after_round holds t (waits m s) = record { mutex = m; sched = s; holds = holds }

abbrev pub after_unlock : (Ptr → Bool) → Ptr → Mutex × Sched → Usage
after_unlock holds t (m, s) = record { mutex = m; sched = s; holds = set_holds holds t false }

-- A round of `mutex_lock` or a call of `mutex_unlock` by the task that runs, for the mutex at `at`; a
-- task that is in the wait queue makes no round until it is taken off. `moves` is all that happens to
-- the scheduler between two calls: `lock_wait`, interrupts, other functions.
pub data Step (at : Ptr) (u : Usage) : Usage → Type 0 where
  locks :
      at ≢ null
      → u.sched.current_task ≢ null
      → has u.sched.current_task u.mutex.wait_queue ≡ false
      → Step at u (after_round u.holds u.sched.current_task (lock_round at u.mutex u.sched))
  unlocks :
      at ≢ null
      → u.sched.current_task ≢ null
      → Step at u (after_unlock u.holds u.sched.current_task (mutex_unlock at u.mutex u.sched))
  moves : (s : Sched) → Step at u (record u { sched = s })

-- What is reached from `mutex_init`, with no task holding the mutex.
pub data Reached (at : Ptr) : Usage → Type 0 where
  starts : (s : Sched) → Reached at (record { mutex = mutex_init; sched = s; holds = λ i. false })
  goes : {u v : Usage} → Reached at u → Step at u v → Reached at v

-- The mutex is locked exactly if it has an owner, no waiting task is NULL, and a task that holds the
-- mutex owns it.
record IsExclusive (m : Mutex) (holds : Ptr → Bool) : Type 0 where
  owned : IsOwned m
  waiters : All (λ x. x ≢ null) m.wait_queue
  holders : (i : Ptr) → holds i ≡ true → (m.owner ≡ i) × (i ≢ null)

All-without : (t : Ptr) (q : List Ptr) → All (λ x. x ≢ null) q → All (λ x. x ≢ null) (without t q)
All-without t [] h = tt
All-without t (x ∷ q) h = elim (Bool-cases (x == t)) [
  | inl e ↦ rw e h.1
  | inr e ↦ rw e (h.0, All-without t q h.1)
]

module _ (at : Ptr) (u : Usage) (na : at ≢ null) (nc : u.sched.current_task ≢ null)
    (k : IsExclusive u.mutex u.holds) where
  t : Ptr
  t = u.sched.current_task

  -- The task is the owner already.
  again : u.mutex.owner ≡ t → IsExclusive u.mutex (set_holds u.holds t true)
  unfolding t
  again own = record {
    owned = k.owned;
    waiters = k.waiters;
    holders = λ i h. elim (Bool-cases (i == t)) [
      | inl e ↦ let at_t = ==→eq i t e in (ground arith, ground arith)
      | inr e ↦ k.holders i (rw e at h)
    ];
  }

  acquires :
      u.mutex.locked ≡ false
      → IsExclusive (record (u.mutex) { locked = true; owner = t }) (set_holds u.holds t true)
  unfolding t
  acquires free = record {
    owned = ground arith;
    waiters = k.waiters;
    holders = λ i h. elim (Bool-cases (i == t)) [
      | inl e ↦ let at_t = ==→eq i t e in (ground arith, ground arith)
      | inr e ↦
          let (own, some) = k.holders i (rw e at h) in let owned = k.owned in absurd (ground arith)
    ];
  }

  -- One of the three ways out of the guard.
  round_cases :
      (u.mutex.owner ≡ t) × (lock_round at u.mutex u.sched ≡ returns u.mutex u.sched)
      ⊎ ((u.mutex.locked ≡ false)
            × (lock_round at u.mutex u.sched
                ≡ returns (record (u.mutex) { locked = true; owner = t }) u.sched)
          ⊎ (lock_round at u.mutex u.sched
              ≡ waits (enter_wait u.mutex u.sched).0 (enter_wait u.mutex u.sched).1))
  unfolding lock_round t
  round_cases = elim (Bool-cases (u.mutex.owner == t)) [
    | inl own ↦ inl (==→eq u.mutex.owner t own, ground arith)
    | inr other ↦ inr (elim (Bool-cases u.mutex.locked) [
      | inl locked ↦ inr (ground arith)
      | inr free ↦ inl (free, ground arith)
    ])
  ]

  round-IsExclusive :
      let v = after_round u.holds t (lock_round at u.mutex u.sched) in IsExclusive v.mutex v.holds
  unfolding t enter_wait
  round-IsExclusive = elim round_cases [
    | inl (own, e) ↦ rw e (again own)
    | inr (inl (free, e)) ↦ rw e (acquires free)
    | inr (inr e) ↦ rw e (record {
      owned = k.owned;
      waiters = All-snoc (λ x. x ≢ null) u.mutex.wait_queue nc k.waiters;
      holders = k.holders;
    })
  ]

  -- The three cases of `mutex_unlock`: the caller is not the owner, no task waits, or the first one
  -- gets the mutex.
  unlock_other : u.mutex.owner ≢ t → IsExclusive u.mutex (set_holds u.holds t false)
  unfolding t
  unlock_other other = record {
    owned = k.owned;
    waiters = k.waiters;
    holders = λ i h. elim (Bool-cases (i == t)) [
      | inl e ↦ absurd (ground arith)
      | inr e ↦ k.holders i (rw e at h)
    ];
  }

  -- When the owner gives the mutex away no task holds it.
  given :
      (m : Mutex)
      → u.mutex.owner ≡ t
      → IsOwned m
      → All (λ x. x ≢ null) m.wait_queue
      → IsExclusive m (set_holds u.holds t false)
  unfolding t
  given m own owned waiters = record {
    owned = owned;
    waiters = waiters;
    holders = λ i h. elim (Bool-cases (i == t)) [
      | inl e ↦ absurd (ground arith)
      | inr e ↦
          let ours = k.holders i (rw e at h) in
          let same : i ≡ t = sym ours.0 ∙ own in absurd (==→ne i t e same)
    ];
  }

  unlock-IsExclusive :
      let v = after_unlock u.holds t (mutex_unlock at u.mutex u.sched) in
      IsExclusive v.mutex v.holds
  unfolding t mutex_unlock
  unlock-IsExclusive = elim (Bool-cases (u.mutex.owner == t)) [
    | inr e ↦ rw (ne→== at null na, ne→== t null nc, e) (unlock_other (==→ne u.mutex.owner t e))
    | inl e ↦
        let own = ==→eq u.mutex.owner t e in
        rw (ne→== at null na, ne→== t null nc, e)
          (elim (List-cases u.mutex.wait_queue) [
            | inl q ↦
                rw q (given (record (u.mutex) { locked = false; owner = null }) own refl k.waiters)
            | inr (x, rest, q) ↦
                let waiting : All (λ x. x ≢ null) (x ∷ rest) = rw q at k.waiters in
                rw q (
                  given (record (u.mutex) { wait_queue = without x (x ∷ rest); owner = x }) own
                    (ground (arith, k.owned, waiting.0)) (All-without x (x ∷ rest) waiting))
          ])
  ]

step-IsExclusive :
    {at : Ptr} {u v : Usage}
    → Step at u v
    → IsExclusive u.mutex u.holds
    → IsExclusive v.mutex v.holds
unfolding t
step-IsExclusive {at} {u} (locks na nc out) k = round-IsExclusive at u na nc k
step-IsExclusive {at} {u} (unlocks na nc) k = unlock-IsExclusive at u na nc k
step-IsExclusive {at} {u} (moves s) k = k

Reached-IsExclusive : {at : Ptr} {u : Usage} → Reached at u → IsExclusive u.mutex u.holds
unfolding mutex_init
Reached-IsExclusive (starts s) = record {
  owned = refl;
  waiters = tt;
  holders = λ i h. absurd (ground arith);
}
Reached-IsExclusive (goes before step) = step-IsExclusive step (Reached-IsExclusive before)

-- Mutual exclusion: in every state that any rounds of `mutex_lock` and calls of `mutex_unlock` by
-- any tasks, in any order and with any changes of the scheduler between them, reach from
-- `mutex_init`, at most one task holds the mutex, and while a task holds it the mutex is locked and
-- that task is its owner; a task makes no round while it is in the wait queue.
pub one_holder :
    (at : Ptr) (u : Usage)
    → Reached at u
    → (i j : Ptr) → u.holds i ≡ true
    → u.holds j ≡ true
    → (i ≡ j) × (u.mutex.locked ≡ true) × (u.mutex.owner ≡ i)
one_holder at u reached i j hi hj =
    let k = Reached-IsExclusive reached in
    let (own, some) = k.holders i hi in
    let (same, _) = k.holders j hj in let owned = k.owned in (sym own ∙ same, ground arith, own)
