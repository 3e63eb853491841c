-- ===== src/Vmm/Vma/Find.antt =====
-- `vma_find` of vma.c, and how `vma_create` changes what it finds.
use zenith_os.Prelude.{
  ℕ, zero, suc, ◌+◌, ◌^◌, ◌≤◌, ◌<◌, ◌≡◌, refl, ap, ◌∙◌, subst, ◌↔◌, ◌⊎◌, inl, inr, true, false,
  ◌&&◌, some, [], ◌∷◌, ◌++◌, arith, ltb, leb, if◌then◌else◌, Bool-cases, some_inj, length,
  get_elem?, All, All-get,
}
use zenith_os.Vmm.Vma.{
  Vma, vma, Table, max_count, end_of, overlaps_any, create, contains, find_from, find,
}
use zenith_os.Vmm.Vma.Disjoint.{Apart, Apart-of_test, Disjoint, IsValid}

-- Entry `k` of the table contains the address.
abbrev pub Holds : Table → ℕ → ℕ → Type 0
Holds t k a = (v : Vma) × (get_elem? t k ≡ some v) × (contains a v ≡ true)

find_from_sound :
    (i : ℕ) (t : Table) (a k : ℕ) → find_from i t a ≡ some k → (j : ℕ) × (k ≡ i + j) × Holds t j a
unfolding find_from
find_from_sound i [] a k e = cc
find_from_sound i (v ∷ vs) a k e = elim (Bool-cases (contains a v)) [
  | inl hit ↦ (0, omega (arith, some_inj (rw hit at e)), (v, refl, hit))
  | inr miss ↦
      let (j, at_j, h) = find_from_sound (suc i) vs a k (rw miss at e) in (suc j, omega arith, h)
]

-- The first entry that contains the address is the only one.
find_from_complete :
    (i : ℕ) (t : Table) (a j : ℕ) → Disjoint t → Holds t j a → find_from i t a ≡ some (i + j)
unfolding find_from
find_from_complete i [] a j d (v, e, h) = cc
find_from_complete i (w ∷ ws) a zero d (v, e, h) =
    let hit : contains a w ≡ true = ap (contains a) (some_inj e) ∙ h in
    rw hit (ap some (omega arith))
find_from_complete i (w ∷ ws) a (suc j) d (v, e, h) = elim (Bool-cases (contains a w)) [
  | inl hit ↦ absurd (cc (All-get (Apart w) ws j d.0 e a hit, h))
  | inr miss ↦ rw miss (find_from_complete (suc i) ws a j d.1 (v, e, h) ∙ ap some (omega arith))
]

-- In a table without overlaps, `vma_find` returns an entry exactly when that entry contains the
-- address.
pub find_iff : (t : Table) (a k : ℕ) → IsValid t → (find t a ≡ some k) ↔ Holds t k a
unfolding find
find_iff t a k valid = (
  λ e.
      let (j, at_j, h) = find_from_sound 0 t a k e in
      let same : j ≡ k = omega arith in subst (λ n. Holds t n a) same h,
  λ h. find_from_complete 0 t a k valid.disjoint h ∙ ap some (omega arith),
)

find_from-snoc :
    (i : ℕ) (t : Table) (a : ℕ) (v : Vma)
    → All (λ u. Apart u v) t
    → find_from i (t ++ (v ∷ [])) a
      ≡ (if contains a v then some (i + length t) else find_from i t a)
unfolding find_from
find_from-snoc i [] a v h = ground arith
find_from-snoc i (u ∷ us) a v h = elim (Bool-cases (contains a u)) [
  | inl hit ↦ rw (hit, h.0 a hit)
  | inr miss ↦ rw miss (find_from-snoc (suc i) us a v h.1 ∙ ground arith)
]

All-Apart :
    (t : Table) (start end flags : ℕ)
    → overlaps_any start end t ≡ false
    → All (λ u. Apart u (vma start end flags)) t
unfolding overlaps_any
All-Apart [] start end flags h = tt
All-Apart (u ∷ us) start end flags h =
    (Apart-of_test start end flags u (ground arith), All-Apart us start end flags (ground arith))

-- What `vma_find` finds after any call of `vma_create`.
find-create_lem :
    (t : Table) (start size flags a : ℕ)
    → find (create t start size flags).1 a ≡ (
        if (create t start size flags).0 && contains a (vma start (end_of start size) flags)
        then some (length t)
        else find t a)
unfolding find create
find-create_lem t start size flags a = elim (Bool-cases (leb max_count (length t))) [
  | inl full ↦ rw full
  | inr room ↦ rw room (elim (Bool-cases (overlaps_any start (end_of start size) t)) [
    | inl hit ↦ rw hit
    | inr free ↦ rw free (
        ground (
          arith,
          find_from-snoc 0 t a (vma start (end_of start size) flags)
              (All-Apart t start (end_of start size) flags free),
        ))
  ])
]

-- No entry overlaps the range from `start` to `end`.
pub Clear : ℕ → ℕ → Table → Type 0
Clear start end t = All (λ u. (u.end ≤ start) ⊎ (end ≤ u.start)) t

Clear-of_test : (start end : ℕ) (t : Table) → overlaps_any start end t ≡ false → Clear start end t
unfolding overlaps_any Clear
Clear-of_test start end [] h = tt
Clear-of_test start end (u ∷ us) h = (ground arith, Clear-of_test start end us (ground arith))

test-of_Clear : (start end : ℕ) (t : Table) → Clear start end t → overlaps_any start end t ≡ false
unfolding overlaps_any Clear
test-of_Clear start end [] h = refl
test-of_Clear start end (u ∷ us) h =
    let first = h.0 in let later = test-of_Clear start end us h.1 in ground arith

create_iff :
    (t : Table) (start size flags : ℕ)
    → ((create t start size flags).0 ≡ true)
      ↔ ((length t < max_count) × Clear start (end_of start size) t)
unfolding create
create_iff t start size flags = (
  λ e. (ground arith, Clear-of_test start (end_of start size) t (ground arith)),
  λ c. let free = test-of_Clear start (end_of start size) t c.1 in ground (arith, c.0),
)

-- For every range of two `uint64_t`: `vma_create` accepts it exactly when the table has room and no
-- entry overlaps the range from `start` to the wrapped `start + size`; then the new entry is found
-- at the addresses of the range if the range does not pass the end of the address space, and at no
-- address if it does, and every other address is found as before, as it is when the range is
-- refused. A range that passes the end can be accepted, and is never found.
pub find-create :
    (t : Table) (start size flags : ℕ)
    → start < 2 ^ 64
    → size < 2 ^ 64
    → (((create t start size flags).0 ≡ true)
        ↔ ((length t < max_count) × Clear start (end_of start size) t))
      × ((a : ℕ)
          → find (create t start size flags).1 a ≡ (
              if (create t start size flags).0
                && ltb (start + size) (2 ^ 64)
                && leb start a
                && ltb a (start + size)
              then some (length t)
              else find t a))
find-create t start size flags h k =
    (create_iff t start size flags, λ a. ground (arith, find-create_lem t start size flags a))
