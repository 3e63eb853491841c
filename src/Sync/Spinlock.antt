-- ===== src/Sync/Spinlock.antt =====
-- kernel/src/sync/spinlock.c and irq_spinlock.c: any number of processors at one lock. A processor
-- stands before one access to the lock or to its interrupt flag, and the accesses of different
-- processors come in any order, each of them whole (`memory_barrier` orders them).
pub mod Exclusion
mod Tests
use zenith_os.Prelude.{ℕ, ◌==◌, if◌then◌else◌, ◌≡◌, Bool, true, false, List, [], ◌∷◌}

-- `irq_spinlock_t`, with the word of its `spinlock_t`.
pub record IrqSpinlock : Type 0 where
  pub locked : ℕ
  pub irq_was_enabled : Bool

unfoldable pub spinlock_init : IrqSpinlock → IrqSpinlock
spinlock_init lock = record lock { locked = 0 }

unfoldable pub irq_spinlock_init : IrqSpinlock → IrqSpinlock
irq_spinlock_init lock = record (spinlock_init lock) { irq_was_enabled = false }

-- Where a processor stands: outside; in `irq_spin_lock` before `cpu_cli`, before the exchange of
-- `spin_lock` and in its inner loop; holding the lock; in `irq_spin_unlock` before the test.
pub data Pc : Type 0 where
  outside saved trying spinning holding released : Pc

-- `atomic_xchg_u64(&lock->locked, 1)`: what was there, and the lock after it.
unfoldable pub exchange : IrqSpinlock → ℕ × IrqSpinlock
exchange lock = (lock.locked, record lock { locked = 1 })

-- The next access of a processor with the interrupt flag `flag`.
unfoldable pub next_access : Pc → IrqSpinlock → Bool → Pc × IrqSpinlock × Bool
next_access outside lock flag = (saved, record lock { irq_was_enabled = flag }, flag)
next_access saved lock flag = (trying, lock, false)
next_access trying lock flag =
    let r = exchange lock in (if r.0 == 0 then holding else spinning, r.1, flag)
next_access spinning lock flag = (if lock.locked == 0 then trying else spinning, lock, flag)
next_access holding lock flag = (released, record lock { locked = 0 }, flag)
next_access released lock flag = (outside, lock, if lock.irq_was_enabled then true else flag)

pub record System : Type 0 where
  pub lock : IrqSpinlock
  pub pc : ℕ → Pc
  pub flag : ℕ → Bool

-- The processor `i` does its next access.
unfoldable pub advance_cpu : System → ℕ → System
advance_cpu s i =
    let r = next_access (s.pc i) s.lock (s.flag i) in
    record {
      lock = r.1;
      pc = λ j. if j == i then r.0 else s.pc j;
      flag = λ j. if j == i then r.2 else s.flag j;
    }

-- Code that does not have the lock may also change the flag of its processor.
pub data Step (s : System) : System → Type 0 where
  access : (i : ℕ) → Step s (advance_cpu s i)
  set_flag :
      (i : ℕ) (b : Bool)
      → s.pc i ≡ outside
      → Step s (record s { flag = λ j. if j == i then b else s.flag j })

-- The lock as `irq_spinlock_init` leaves it, and no processor at it.
abbrev pub start : IrqSpinlock → (ℕ → Bool) → System
start lock flag = record { lock = irq_spinlock_init lock; pc = λ i. outside; flag = flag }

pub data Reach (lock : IrqSpinlock) (flag : ℕ → Bool) : System → Type 0 where
  here : Reach lock flag (start lock flag)
  later : {s t : System} → Reach lock flag s → Step s t → Reach lock flag t
