-- ===== src/Vmm/Vma/Resize.antt =====
-- `vma_resize` of vma.c keeps the entries apart.
use zenith_os.Prelude.{
  ℕ, zero, suc, ◌+◌, ◌<◌, ◌≡◌, ap, ◌∙◌, inl, inr, true, false, some, [], ◌∷◌, arith, ◌==◌, ne→==,
  Bool-cases, Option-cases, get_elem?, set, All, All-set, length-set,
}
use zenith_os.Vmm.Vma.{Vma, vma, Table, end_of, contains, find_start, overlaps_other, resize}
use zenith_os.Vmm.Vma.Disjoint.{Apart, Apart-of_test, Disjoint, IsValid}

find_start_sound :
    (i : ℕ) (t : Table) (start k : ℕ) (v : Vma)
    → find_start i t start ≡ some (k, v)
    → (j : ℕ) × (k ≡ i + j) × (get_elem? t j ≡ some v) × (v.start ≡ start)
unfolding find_start
find_start_sound i [] start k v e = cc
find_start_sound i (w ∷ ws) start k v e = elim (Bool-cases (w.start == start)) [
  | inl hit ↦ let e' = rw hit at e in (0, ground arith, ground arith, ground arith)
  | inr miss ↦
      let (j, at_j, h, same) = find_start_sound (suc i) ws start k v (rw miss at e) in
      (suc j, omega arith, h, same)
]

Apart-sym : (u v : Vma) → Apart u v → Apart v u
Apart-sym u v h a e = elim (Bool-cases (contains a u)) [
  | inl hit ↦ cc (h a hit, e)
  | inr miss ↦ miss
]

-- An entry that is not at the index is apart from the new range.
All-Apart_other :
    (skip i : ℕ) (t : Table) (start end flags : ℕ)
    → skip < i
    → overlaps_other skip i start end t ≡ false
    → All (Apart (vma start end flags)) t
unfolding overlaps_other
All-Apart_other skip i [] start end flags lt h = tt
All-Apart_other skip i (u ∷ us) start end flags lt h = (
  Apart-sym u (vma start end flags) (Apart-of_test start end flags u (ground arith)),
  All-Apart_other skip (suc i) us start end flags (omega arith) (ground arith),
)

Disjoint-set :
    (i j skip : ℕ) (t : Table) (start end flags : ℕ)
    → skip ≡ i + j
    → overlaps_other skip i start end t ≡ false
    → Disjoint t
    → Disjoint (set t j (vma start end flags))
unfolding overlaps_other
Disjoint-set i j skip [] start end flags e h d = d
Disjoint-set i zero skip (u ∷ us) start end flags e h d =
    (All-Apart_other skip (suc i) us start end flags (omega arith) (ground arith), d.1)
Disjoint-set i (suc j) skip (u ∷ us) start end flags e h d = (
  All-set (Apart u) us j
      (Apart-of_test start end flags u (ground (arith, ne→== i skip (omega arith)))) d.0,
  Disjoint-set (suc i) j skip us start end flags (omega arith) (ground arith) d.1,
)

-- `vma_resize` keeps the invariant.
pub resize-IsValid :
    (t : Table) (start new_size : ℕ) → IsValid t → IsValid (resize t start new_size).1
unfolding resize
resize-IsValid t start new_size valid = elim (Option-cases (find_start 0 t start)) [
  | inl e ↦ rw (e, resize) valid
  | inr ((k, v), e) ↦
      rw (e, resize)
        (elim (Bool-cases (overlaps_other k 0 start (end_of start new_size) t)) [
          | inl hit ↦ rw hit valid
          | inr free ↦ rw free (
              let (j, at_j, h, same) = find_start_sound 0 t start k v e in
              let k_j : k ≡ 0 + k = omega arith in
              let apart =
                Disjoint-set 0 k k t start (end_of start new_size) v.flags k_j free
                  valid.disjoint in
              record {
                disjoint = rw same apart;
                small =
                    omega (
                      arith,
                      valid.small,
                      length-set t k (record v { end = end_of start new_size }),
                    );
              })
        ])
]

-- What `vma_resize` does when it succeeds: the entry that starts at `start` ends `new_size` bytes
-- on, and nothing else in the table changes.
pub resize_lem :
    (t : Table) (start new_size : ℕ)
    → (resize t start new_size).0 ≡ true
    → (k : ℕ) × (v : Vma) × (get_elem? t k ≡ some v)
      × (v.start ≡ start)
      × ((resize t start new_size).1 ≡ set t k (record v { end = end_of start new_size }))
unfolding resize
resize_lem t start new_size ok = elim (Option-cases (find_start 0 t start)) [
  | inl e ↦ absurd (cc (rw (e, resize) at ok))
  | inr ((k, v), e) ↦
      let (j, at_j, h, same) = find_start_sound 0 t start k v e in
      let here : get_elem? t k ≡ some v = ap (get_elem? t) (omega arith) ∙ h in
      let ok' = rw (e, resize) at ok in
      elim (Bool-cases (overlaps_other k 0 start (end_of start new_size) t)) [
        | inl hit ↦ absurd (cc (rw hit at ok'))
        | inr free ↦ (k, v, here, same, rw (e, resize) (rw free))
      ]
]
