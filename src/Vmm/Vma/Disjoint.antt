-- ===== src/Vmm/Vma/Disjoint.antt =====
-- No address lies in two entries of the table of vma.c: what `vma_create` and `vma_destroy` keep.
use zenith_os.Prelude.{
  ℕ, ◌+◌, ◌≤◌, ◌≡◌, inl, inr, true, false, [], ◌∷◌, ◌++◌, arith, leb, ◌==◌, if◌then◌else◌,
  Bool-cases, length, All, All-snoc, length-append,
}
use zenith_os.Vmm.Vma.{
  Vma, vma, Table, max_count, end_of, overlaps, overlaps_any, create, contains, destroy,
}

-- Two entries share no address.
abbrev pub Apart : Vma → Vma → Type 0
Apart u v = (a : ℕ) → contains a u ≡ true → contains a v ≡ false

abbrev pub Disjoint : Table → Type 0
Disjoint [] = Unit {0}
Disjoint (v ∷ vs) = All (Apart v) vs × Disjoint vs

pub record IsValid (t : Table) : Type 0 where
  pub disjoint : Disjoint t
  pub small : length t ≤ max_count

pub Apart-of_test :
    (start end flags : ℕ) (v : Vma) → overlaps start end v ≡ false → Apart v (vma start end flags)
Apart-of_test start end flags v h a e = ground arith

Disjoint-snoc :
    (t : Table) (start end flags : ℕ)
    → overlaps_any start end t ≡ false
    → Disjoint t
    → Disjoint (t ++ (vma start end flags ∷ []))
unfolding overlaps_any
Disjoint-snoc [] start end flags h d = (tt, tt)
Disjoint-snoc (v ∷ vs) start end flags h d = (
  All-snoc (Apart v) vs (Apart-of_test start end flags v (ground arith)) d.0,
  Disjoint-snoc vs start end flags (ground arith) d.1,
)

-- `vma_create` keeps the invariant, whatever it is asked for.
pub create-IsValid :
    (t : Table) (start size flags : ℕ) → IsValid t → IsValid (create t start size flags).1
unfolding create
create-IsValid t start size flags v = elim (Bool-cases (leb max_count (length t))) [
  | inl full ↦ rw full v
  | inr room ↦ rw room (elim (Bool-cases (overlaps_any start (end_of start size) t)) [
    | inl hit ↦ rw hit v
    | inr free ↦ rw free (record {
      disjoint = Disjoint-snoc t start (end_of start size) flags free v.disjoint;
      small = ground (arith, length-append t (vma start (end_of start size) flags ∷ []));
    })
  ])
]

All-destroy {ℓ} : (P : Vma → Type ℓ) (t : Table) (start : ℕ) → All P t → All P (destroy t start).1
unfolding destroy
All-destroy P [] start h = h
All-destroy P (v ∷ vs) start h = elim (Bool-cases (v.start == start)) [
  | inl hit ↦ rw hit h.1
  | inr miss ↦ rw miss (h.0, All-destroy P vs start h.1)
]

Disjoint-destroy : (t : Table) (start : ℕ) → Disjoint t → Disjoint (destroy t start).1
unfolding destroy
Disjoint-destroy [] start d = d
Disjoint-destroy (v ∷ vs) start d = elim (Bool-cases (v.start == start)) [
  | inl hit ↦ rw hit d.1
  | inr miss ↦ rw miss (All-destroy (Apart v) vs start d.0, Disjoint-destroy vs start d.1)
]

-- `vma_destroy` removes an entry exactly when it says so.
pub length-destroy :
    (t : Table) (start : ℕ)
    → length (destroy t start).1 + (if (destroy t start).0 then 1 else 0) ≡ length t
unfolding destroy
length-destroy [] start = omega arith
length-destroy (v ∷ vs) start = ground (arith, length-destroy vs start)

-- `vma_destroy` keeps the invariant.
pub destroy-IsValid : (t : Table) (start : ℕ) → IsValid t → IsValid (destroy t start).1
destroy-IsValid t start v = record {
  disjoint = Disjoint-destroy t start v.disjoint;
  small = ground (arith, length-destroy t start, v.small);
}
