-- ===== src/Sync/Mutex/Laws.antt =====
-- Who has a mutex of mutex.c, and who gets it next.
use zenith_os.Prelude.{
  ◌≡◌, ◌≢◌, refl, ◌==◌, not, true, List, [], ◌∷◌, ◌++◌, arith, eq→==, ne→==, All, List-cases, inl,
  inr,
}
use zenith_os.Scheduler.Queue.{Ptr, null}
use zenith_os.Scheduler.State.{ready, blocked, Sched}
use zenith_os.Scheduler.Core.{unblock, make_ready}
use zenith_os.Scheduler.Core.Valid.{state_of}
use zenith_os.Sync.Mutex.{Mutex, Round, returns, waits, enter_wait, lock_round, mutex_unlock}

-- The mutex is locked exactly when a task owns it.
abbrev pub IsOwned : Mutex → Type 0
IsOwned m = m.locked ≡ not (m.owner == null)

-- What the caller of `mutex_unlock` leaves behind when a task waits.
pub record HandedOver (at : Ptr) (m : Mutex) (s : Sched) (x : Ptr) (rest : List Ptr)
    (r : Mutex × Sched) : Type 0 where
  pub owner : r.0.owner ≡ x
  pub still_locked : r.0.locked ≡ true
  pub waiting : r.0.wait_queue ≡ rest
  pub woken : state_of r.1 x ≡ ready
  pub queued : r.1.ready_queue ≡ s.ready_queue ++ (x ∷ [])
  pub next_round :
      lock_round at r.0 (record r.1 { current_task = x })
      ≡ returns r.0 (record r.1 { current_task = x })

unblock_lem :
    (s : Sched) (x : Ptr)
    → x ≢ null
    → state_of s x ≡ blocked
    → (state_of (unblock s x) x ≡ ready) × ((unblock s x).ready_queue ≡ s.ready_queue ++ (x ∷ []))
unfolding unblock make_ready
unblock_lem s x nn b = ground arith

-- When its owner unlocks a mutex that a blocked task waits for, the mutex goes straight to the task
-- that has waited longest: that task owns it and is ready, behind the tasks that were ready, the
-- mutex stays locked, and when the task runs its next round of `mutex_lock` returns at once.
pub mutex_unlock-HandedOver :
    (at : Ptr) (m : Mutex) (s : Sched) (x : Ptr) (rest : List Ptr)
    → at ≢ null
    → s.current_task ≢ null
    → m.owner ≡ s.current_task
    → IsOwned m
    → m.wait_queue ≡ x ∷ rest
    → x ≢ null
    → state_of s x ≡ blocked
    → HandedOver at m s x rest (mutex_unlock at m s)
unfolding mutex_unlock lock_round
mutex_unlock-HandedOver at m s x rest na nc own locked queue nn b =
    let (woken, queued) = unblock_lem s x nn b in
    rw (ne→== at null na, ne→== s.current_task null nc, eq→== m.owner s.current_task own, queue)
      (record {
        owner = refl;
        still_locked = ground arith;
        waiting = rw (eq→== x x refl) refl;
        woken = woken;
        queued = queued;
        next_round = rw (ne→== at null na, ne→== x null nn, eq→== x x refl) refl;
      })

-- What a round leaves of the mutex.
abbrev pub mutex_of : Round → Mutex
mutex_of (returns m s) = m
mutex_of (waits m s) = m

-- What a round of `mutex_lock` leaves of the scheduler.
abbrev pub sched_of : Round → Sched
sched_of (returns m s) = s
sched_of (waits m s) = s

-- If no waiting task is NULL, a round of `mutex_lock` and `mutex_unlock` by any task keep it so that
-- the mutex is locked exactly when a task owns it.
pub lock-IsOwned :
    (at : Ptr) (m : Mutex) (s : Sched)
    → IsOwned m
    → All (λ x. x ≢ null) m.wait_queue
    → IsOwned (mutex_of (lock_round at m s)) × IsOwned (mutex_unlock at m s).0
unfolding lock_round enter_wait mutex_unlock
lock-IsOwned at m s owned waiters = (
  ground arith,
  elim (List-cases m.wait_queue) [
    | inl e ↦ rw e (ground arith)
    | inr (x, rest, e) ↦ rw e (let q = rw e at waiters in ground (arith, q.0))
  ],
)
