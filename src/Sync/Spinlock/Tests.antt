-- ===== src/Sync/Spinlock/Tests.antt =====
-- The theorems on the spinlocks at two processors.
use zenith_os.Prelude.{ℕ, ◌≡◌, refl, ◌⊎◌, Bool, true, false, List, [], ◌∷◌, ◌==◌}
use zenith_os.Sync.Spinlock.{
  IrqSpinlock, irq_spinlock_init, spinlock_init, exchange, next_access, outside, spinning, holding,
  System, advance_cpu, access, start, Reach, here, later,
}
use zenith_os.Sync.Spinlock.Exclusion.{is_holding, is_masked, mutual_exclusion, no_deadlock}

abbrev fresh : IrqSpinlock
fresh = record { locked = 7; irq_was_enabled = true }

-- Interrupts are on at processor 0 alone.
abbrev flags : ℕ → Bool
flags i = i == 0

abbrev first : System
first = start fresh flags

-- The accesses of the processors in the list, the first of it last.
run : List ℕ → System
run [] = first
run (i ∷ is) = advance_cpu (run is) i

run-Reach : (is : List ℕ) → Reach fresh flags (run is)
unfolding run
run-Reach [] = here
run-Reach (i ∷ is) = later (run-Reach is) (access i)

-- Processor 0 holds the lock and processor 1 spins.
abbrev contended : System
contended = run (1 ∷ 1 ∷ 1 ∷ 0 ∷ 0 ∷ 0 ∷ [])

contended_spins : contended.pc 1 ≡ spinning
unfolding run advance_cpu next_access exchange irq_spinlock_init spinlock_init
contended_spins = refl

mutual_exclusion_example :
    ((i j : ℕ) → is_holding (contended.pc i) ≡ true → is_holding (contended.pc j) ≡ true → i ≡ j)
    × ((i : ℕ) → is_masked (contended.pc i) ≡ true → contended.flag i ≡ false)
mutual_exclusion_example = mutual_exclusion (run-Reach (1 ∷ 1 ∷ 1 ∷ 0 ∷ 0 ∷ 0 ∷ []))

no_deadlock_example :
    ((j : ℕ) × (is_holding (contended.pc j) ≡ true))
    ⊎ ((advance_cpu (advance_cpu contended 1) 1).pc 1 ≡ holding)
no_deadlock_example = no_deadlock (run-Reach (1 ∷ 1 ∷ 1 ∷ 0 ∷ 0 ∷ 0 ∷ [])) 1 contended_spins

-- Processor 1 writes `irq_was_enabled` while processor 0 holds the lock, which then leaves
-- interrupts off on processor 0, where they were on.
abbrev overwritten : System
overwritten = run (0 ∷ 0 ∷ 1 ∷ 0 ∷ 0 ∷ 0 ∷ [])

flag_lost : (overwritten.pc 0 ≡ outside) × (overwritten.flag 0 ≡ false) × (first.flag 0 ≡ true)
unfolding run advance_cpu next_access exchange irq_spinlock_init spinlock_init
flag_lost = (refl, refl, refl)
