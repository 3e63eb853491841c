-- ===== src/Sync/Spinlock/Exclusion.antt =====
-- About the processors at a lock of spinlock.c and irq_spinlock.c.
use zenith_os.Prelude.{
  ℕ, ◌==◌, if◌then◌else◌, ◌≡◌, refl, sym, ap, ◌∙◌, ◌≢◌, ◌⊎◌, inl, inr, Bool, true, false, arith,
  Bool-cases, eq→==, ==→eq, ==→ne,
}
use zenith_os.Sync.Spinlock.{
  IrqSpinlock, spinlock_init, irq_spinlock_init, Pc, outside, saved, trying, spinning, holding,
  released, exchange, next_access, System, advance_cpu, Step, access, set_flag, start, Reach, here,
  later,
}

-- Between `cpu_cli` and the end of `irq_spin_unlock`.
abbrev pub is_masked : Pc → Bool
is_masked outside = false
is_masked saved = false
is_masked _ = true

abbrev pub is_holding : Pc → Bool
is_holding holding = true
is_holding _ = false

pub record Inv (s : System) : Type 0 where
  pub taken : (i : ℕ) → is_holding (s.pc i) ≡ true → s.lock.locked ≢ 0
  pub alone : (i j : ℕ) → is_holding (s.pc i) ≡ true → is_holding (s.pc j) ≡ true → i ≡ j
  pub held : s.lock.locked ≢ 0 → (i : ℕ) × (is_holding (s.pc i) ≡ true)
  pub masked : (i : ℕ) → is_masked (s.pc i) ≡ true → s.flag i ≡ false

start-Inv : (lock : IrqSpinlock) (flag : ℕ → Bool) → Inv (start lock flag)
unfolding irq_spinlock_init spinlock_init
start-Inv lock flag = record {
  taken = λ i h. absurd (cc h);
  alone = λ i j h k. absurd (cc h);
  held = λ ne. absurd (ne refl);
  masked = λ i h. absurd (cc h);
}

module _ (s : System) (i : ℕ) (p : Pc) (l : IrqSpinlock) (f : Bool) where
  abbrev moved : System
  moved = record {
    lock = l;
    pc = λ j. if j == i then p else s.pc j;
    flag = λ j. if j == i then f else s.flag j;
  }

  moved_cases :
      (j : ℕ)
      → ((j ≡ i) × (moved.pc j ≡ p) × (moved.flag j ≡ f))
        ⊎ ((j ≢ i) × (moved.pc j ≡ s.pc j) × (moved.flag j ≡ s.flag j))
  moved_cases j = elim (Bool-cases (j == i)) [
    | inl e ↦ rw e (inl (==→eq j i e, refl, refl))
    | inr e ↦ rw e (inr (==→ne j i e, refl, refl))
  ]

  moved_at : (moved.pc i ≡ p) × (moved.flag i ≡ f)
  moved_at = rw (eq→== i i refl) (refl, refl)

  moved_masked :
      Inv s
      → (is_masked p ≡ true → f ≡ false)
      → (j : ℕ) → is_masked (moved.pc j) ≡ true
      → moved.flag j ≡ false
  moved_masked inv m j h = elim (moved_cases j) [
    | inl (e, q, r) ↦ r ∙ m (ap is_masked (sym q) ∙ h)
    | inr (e, q, r) ↦ r ∙ inv.masked j (ap is_masked (sym q) ∙ h)
  ]

  -- The processor neither held the lock nor holds it.
  pass-Inv :
      Inv s
      → (is_masked p ≡ true → f ≡ false)
      → is_holding (s.pc i) ≡ false
      → is_holding p ≡ false
      → (s.lock.locked ≢ 0 → l.locked ≢ 0)
      → (l.locked ≢ 0 → s.lock.locked ≢ 0)
      → Inv moved
  pass-Inv inv m was is up down = record {
    taken = λ j h. up (inv.taken j (before j h));
    alone = λ j k h g. inv.alone j k (before j h) (before k g);
    held = λ ne. let (j, h) = inv.held (down ne) in (j, after j h);
    masked = moved_masked inv m;
  }
    where
      before : (j : ℕ) → is_holding (moved.pc j) ≡ true → is_holding (s.pc j) ≡ true
      before j h = elim (moved_cases j) [
        | inl (e, q, r) ↦ absurd (cc (h, ap is_holding q, is))
        | inr (e, q, r) ↦ ap is_holding (sym q) ∙ h
      ]

      after : (j : ℕ) → is_holding (s.pc j) ≡ true → is_holding (moved.pc j) ≡ true
      after j h = elim (moved_cases j) [
        | inl (e, q, r) ↦ absurd (cc (h, ap (λ k. is_holding (s.pc k)) e, was))
        | inr (e, q, r) ↦ ap is_holding q ∙ h
      ]

  -- The processor takes the free lock.
  take-Inv :
      Inv s
      → (is_masked p ≡ true → f ≡ false)
      → s.lock.locked ≡ 0
      → is_holding p ≡ true
      → l.locked ≢ 0
      → Inv moved
  take-Inv inv m free is ne = record {
    taken = λ j h. ne;
    alone = λ j k h g. only j h ∙ sym (only k g);
    held = λ n. (i, ap is_holding moved_at.0 ∙ is);
    masked = moved_masked inv m;
  }
    where
      only : (j : ℕ) → is_holding (moved.pc j) ≡ true → j ≡ i
      only j h = elim (moved_cases j) [
        | inl (e, q, r) ↦ e
        | inr (e, q, r) ↦ absurd (inv.taken j (ap is_holding (sym q) ∙ h) free)
      ]

  -- The processor gives its lock back.
  give-Inv :
      Inv s
      → (is_masked p ≡ true → f ≡ false)
      → is_holding (s.pc i) ≡ true
      → is_holding p ≡ false
      → l.locked ≡ 0
      → Inv moved
  give-Inv inv m was is zero = record {
    taken = λ j h. absurd (none_holds j h);
    alone = λ j k h g. absurd (none_holds j h);
    held = λ ne. absurd (ne zero);
    masked = moved_masked inv m;
  }
    where
      none_holds : (j : ℕ) → is_holding (moved.pc j) ≡ true → ⊥
      none_holds j h = elim (moved_cases j) [
        | inl (e, q, r) ↦ cc (h, ap is_holding q, is)
        | inr (e, q, r) ↦ e (inv.alone j i (ap is_holding (sym q) ∙ h) was)
      ]

-- The state after an access with the result `r`.
abbrev result : System → ℕ → Pc × IrqSpinlock × Bool → System
result s i r = moved s i r.0 r.1 r.2

access-Inv :
    (s : System) (i : ℕ) (p : Pc)
    → s.pc i ≡ p
    → Inv s
    → Inv (result s i (next_access p s.lock (s.flag i)))
unfolding next_access exchange
access-Inv s i outside e inv =
    pass-Inv s i saved (record s.lock { irq_was_enabled = s.flag i }) (s.flag i) inv
      (λ h. absurd (cc h)) (ap is_holding e) refl (λ n. n) (λ n. n)
access-Inv s i saved e inv =
    pass-Inv s i trying s.lock false inv (λ h. refl) (ap is_holding e) refl (λ n. n) (λ n. n)
access-Inv s i trying e inv =
    let off = inv.masked i (ap is_masked e) in
    elim (Bool-cases (s.lock.locked == 0)) [
      | inl z ↦ rw z (
          take-Inv s i holding (record s.lock { locked = 1 }) (s.flag i) inv (λ h. off)
            (==→eq s.lock.locked 0 z) refl (omega arith))
      | inr z ↦ rw z (
          pass-Inv s i spinning (record s.lock { locked = 1 }) (s.flag i) inv (λ h. off)
            (ap is_holding e) refl (λ n. omega arith) (λ n. ==→ne s.lock.locked 0 z))
    ]
access-Inv s i spinning e inv =
    let off = inv.masked i (ap is_masked e) in
    elim (Bool-cases (s.lock.locked == 0)) [
      | inl z ↦ rw z (
          pass-Inv s i trying s.lock (s.flag i) inv (λ h. off) (ap is_holding e) refl (λ n. n)
            (λ n. n))
      | inr z ↦ rw z (
          pass-Inv s i spinning s.lock (s.flag i) inv (λ h. off) (ap is_holding e) refl (λ n. n)
            (λ n. n))
    ]
access-Inv s i holding e inv =
    give-Inv s i released (record s.lock { locked = 0 }) (s.flag i) inv
      (λ h. inv.masked i (ap is_masked e)) (ap is_holding e) refl refl
access-Inv s i released e inv =
    pass-Inv s i outside s.lock (if s.lock.irq_was_enabled then true else s.flag i) inv
      (λ h. absurd (cc h)) (ap is_holding e) refl (λ n. n) (λ n. n)

Step-Inv : {s t : System} → Step s t → Inv s → Inv t
unfolding advance_cpu
Step-Inv {s} (access i) inv = access-Inv s i (s.pc i) refl inv
Step-Inv {s} (set_flag i b e) inv = record {
  taken = inv.taken;
  alone = inv.alone;
  held = inv.held;
  masked = λ j h. elim (Bool-cases (j == i)) [
    | inl q ↦ absurd (cc (h, ap (λ k. is_masked (s.pc k)) (==→eq j i q), ap is_masked e))
    | inr q ↦ rw q (inv.masked j h)
  ];
}

pub Reach-Inv : {lock : IrqSpinlock} {flag : ℕ → Bool} {s : System} → Reach lock flag s → Inv s
Reach-Inv {lock} {flag} here = start-Inv lock flag
Reach-Inv (later r st) = Step-Inv st (Reach-Inv r)

-- After `irq_spinlock_init`, however many processors use the lock and in whatever order their accesses
-- come, at most one of them holds it, and interrupts are off on a processor from `cpu_cli` to the end
-- of `irq_spin_unlock`, provided that no other code switches them between the two.
pub mutual_exclusion :
    {lock : IrqSpinlock} {flag : ℕ → Bool} {s : System}
    → Reach lock flag s
    → ((i j : ℕ) → is_holding (s.pc i) ≡ true → is_holding (s.pc j) ≡ true → i ≡ j)
      × ((i : ℕ) → is_masked (s.pc i) ≡ true → s.flag i ≡ false)
mutual_exclusion r = let inv = Reach-Inv r in (inv.alone, inv.masked)

-- After `irq_spinlock_init` and any accesses, a processor in the inner loop of `spin_lock` never waits for
-- nobody: some processor holds the lock, or the next two accesses of the one that waits give it the
-- lock.
pub no_deadlock :
    {lock : IrqSpinlock} {flag : ℕ → Bool} {s : System}
    → Reach lock flag s
    → (i : ℕ) → s.pc i ≡ spinning
    → ((j : ℕ) × (is_holding (s.pc j) ≡ true)) ⊎ ((advance_cpu (advance_cpu s i) i).pc i ≡ holding)
unfolding advance_cpu next_access exchange
no_deadlock {s} r i e = elim (Bool-cases (s.lock.locked == 0)) [
  | inl z ↦ inr (rw (eq→== i i refl, e, z) (rw z refl))
  | inr z ↦ inl ((Reach-Inv r).held (==→ne s.lock.locked 0 z))
]

same_flag : (b : Bool) → (if b then true else false) ≡ b
same_flag true = refl
same_flag false = refl

-- A processor that is alone at a free lock gets its interrupt flag back: after the five accesses of
-- `irq_spin_lock` and `irq_spin_unlock` it is outside, its flag is as before, the lock is free, and
-- the flag was off while it held the lock.
pub irq_spin_unlock-irq_spin_lock :
    (s : System) (i : ℕ)
    → s.pc i ≡ outside
    → s.lock.locked ≡ 0
    → let held = advance_cpu (advance_cpu (advance_cpu s i) i) i in
      let after = advance_cpu (advance_cpu held i) i in
      (held.pc i ≡ holding)
      × (held.flag i ≡ false)
      × (after.pc i ≡ outside)
      × (after.flag i ≡ s.flag i)
      × (after.lock.locked ≡ 0)
unfolding advance_cpu next_access exchange
irq_spin_unlock-irq_spin_lock s i out free =
    rw (eq→== i i refl, out, free) (refl, refl, refl, same_flag (s.flag i), refl)
