-- ===== src/Mm/Heap/Calloc.antt =====
-- `kcalloc` of heap.c: its test for overflow, and the bytes that it clears.
use native.Mathlib.Nat.{le-div_iff_mul-le}
use zenith_os.Prelude.{
  ℕ, ◌+◌, ◌-◌, ◌*◌, ◌/◌, ◌<◌, ◌≤◌, ◌%◌, ◌^◌, ◌≡◌, ◌≢◌, sym, ap, ◌∙◌, ◌==◌, ltb, ◌||◌, Option, none,
  some, some_inj, arith, Bool-cases, inl, inr,
}
use zenith_os.Klib.Memory.Laws.{k_memset_lem}
use zenith_os.Vmm.Paging.{Ptr, null}
use zenith_os.Mm.Heap.Calls.{Heap, kmalloc, clear_result, kcalloc}

-- A pointer other than NULL comes with cleared bytes.
clear_result-inv :
    (total : ℕ) (r : Option (Ptr × Heap)) (a : Ptr × Heap)
    → clear_result total r ≡ some a
    → a.0 ≢ null
    → (i : ℕ) → i < total
    → a.1.bytes (a.0 + i) ≡ 0
unfolding clear_result
clear_result-inv total none a got nn i lt = absurd (cc got)
clear_result-inv total (some (p, s)) a got nn i lt = elim (Bool-cases (p == null)) [
  | inl z ↦ absurd (nn (ap (λ (b : Ptr × Heap). b.0) (sym (some_inj (rw z at got)))))
  | inr nz ↦
      let cleared = some_inj (rw nz at got) in
      ap (λ (b : Ptr × Heap). b.1.bytes (b.0 + i)) (sym cleared)
      ∙ k_memset_lem s.bytes p 0 total (p + i)
      ∙ ground arith
]

-- A pointer other than NULL that `kcalloc` returns means that the number of bytes asked for does not
-- pass 2^64, and that each of them is 0 afterwards.
pub kcalloc_zeroed :
    (fuel : ℕ) (s : Heap) (count size : ℕ) (a : Ptr × Heap)
    → kcalloc fuel s count size ≡ some a
    → a.0 ≢ null
    → (count * size < 2 ^ 64) × ((i : ℕ) → i < count * size → a.1.bytes (a.0 + i) ≡ 0)
unfolding kcalloc
kcalloc_zeroed fuel s count size a got nn = elim (Bool-cases (count == 0 || size == 0)) [
  | inl nothing ↦ absurd (nn (ap (λ (b : Ptr × Heap). b.0) (sym (some_inj (rw nothing at got)))))
  | inr asked ↦ elim (Bool-cases (ltb ((2 ^ 64 - 1) / size) count)) [
    | inl large ↦
        absurd (nn (ap (λ (b : Ptr × Heap). b.0) (sym (some_inj (rw (asked, large) at got)))))
    | inr fits ↦
        let some_size : 0 < size = ground arith in
        let few : count ≤ (2 ^ 64 - 1) / size = ground arith in
        let below : count * size ≤ 2 ^ 64 - 1 = (le-div_iff_mul-le some_size).0 few in
        let total : count * size % 2 ^ 64 ≡ count * size = omega arith in
        (
          omega arith,
          λ i lt.
              clear_result-inv (count * size) (kmalloc fuel s (count * size)) a
                (rw (asked, fits, total) at got) nn i lt,
        )
  ]
]
