-- ===== src/Klib/Memory/Laws.antt =====
-- What memory.c does to every byte of the memory.
use zenith_os.Prelude.{
  ℕ, zero, suc, ◌+◌, ◌-◌, ◌%◌, ◌≤◌, ◌<◌, ◌≡◌, sym, ap, ◌∙◌, ◌⊎◌, inl, inr, ◌&&◌, arith, ltb, leb,
  ◌==◌, if◌then◌else◌, ==→eq, ==→ne, Bool-cases,
}
use zenith_os.Prelude.Int.{pos}
use zenith_os.Klib.String.Laws.{byte_difference_zero}
use zenith_os.Klib.Memory.{
  Memory, store, copy_up, copy_down, k_memcpy, k_memmove, set_up, k_memset, k_memcmp,
}

-- The memory with `n` bytes from `d` on as they were from `s` on.
abbrev pub moved : ℕ → Memory → ℕ → ℕ → Memory
moved n m d s a = if leb d a && ltb a (d + n) then m (s + (a - d)) else m a

copy_up_lem :
    (n : ℕ) (m : Memory) (d s a : ℕ) → (d ≤ s) ⊎ (s + n ≤ d) → copy_up n m d s a ≡ moved n m d s a
unfolding copy_up
copy_up_lem zero m d s a h = ground arith
copy_up_lem (suc n) m d s a h = elim (Bool-cases (a == d)) [
  | inl e ↦
      let eq = ==→eq a d e in
      let at : m (s + (a - d)) ≡ m s = ap m (omega arith) in
      copy_up_lem n (store m d (m s)) (d + 1) (s + 1) a (ground arith) ∙ ground arith
  | inr ne ↦
      let ne' = ==→ne a d ne in
      elim (Bool-cases (leb (d + 1) a)) [
        | inl above ↦
            let le : d + 1 ≤ a = ground arith in
            let at : m (s + 1 + (a - (d + 1))) ≡ m (s + (a - d)) = ap m (omega arith) in
            copy_up_lem n (store m d (m s)) (d + 1) (s + 1) a (ground arith) ∙ ground arith
        | inr below ↦
            copy_up_lem n (store m d (m s)) (d + 1) (s + 1) a (ground arith) ∙ ground arith
      ]
]

copy_down_lem : (n : ℕ) (m : Memory) (d s a : ℕ) → s ≤ d → copy_down n m d s a ≡ moved n m d s a
unfolding copy_down
copy_down_lem zero m d s a h = ground arith
copy_down_lem (suc n) m d s a h = elim (Bool-cases (a == d + n)) [
  | inl e ↦
      let eq = ==→eq a (d + n) e in
      let at : m (s + (a - d)) ≡ m (s + n) = ap m (omega arith) in
      copy_down_lem n (store m (d + n) (m (s + n))) d s a h ∙ ground arith
  | inr ne ↦
      let ne' = ==→ne a (d + n) ne in
      copy_down_lem n (store m (d + n) (m (s + n))) d s a h ∙ ground arith
]

-- `k_memmove` moves the bytes as they were before the call, however the two ranges overlap, and
-- changes no byte outside the destination.
pub k_memmove_lem :
    (m : Memory) (dest src n a : ℕ) → k_memmove m dest src n a ≡ moved n m dest src a
unfolding k_memmove
k_memmove_lem m dest src n a = elim (Bool-cases (ltb dest src)) [
  | inl up ↦ rw up (copy_up_lem n m dest src a (inl (ground arith)))
  | inr not_up ↦ rw not_up (elim (Bool-cases (ltb src dest)) [
    | inl down ↦ rw down (copy_down_lem n m dest src a (ground arith))
    | inr same ↦
        let eq : src ≡ dest = ground arith in
        rw (same, eq)
          (elim (Bool-cases (leb dest a)) [
            | inl above ↦
                let le : dest ≤ a = ground arith in
                let at : m (dest + (a - dest)) ≡ m a = ap m (omega arith) in ground arith
            | inr below ↦ ground arith
          ])
  ])
]

-- `k_memcpy` of two ranges that do not overlap does the same as `k_memmove`, and each byte of the
-- destination is that of the source afterwards.
pub k_memcpy-k_memmove :
    (m : Memory) (dest src n a : ℕ)
    → (dest + n ≤ src) ⊎ (src + n ≤ dest)
    → (k_memcpy m dest src n a ≡ k_memmove m dest src n a)
      × (k_memcpy m dest src n a ≡ moved n m dest src a)
unfolding k_memcpy
k_memcpy-k_memmove m dest src n a apart =
    let copied = copy_up_lem n m dest src a (ground arith) in
    (copied ∙ sym (k_memmove_lem m dest src n a), copied)

set_up_lem :
    (n : ℕ) (m : Memory) (p v a : ℕ)
    → set_up n m p v a ≡ (if leb p a && ltb a (p + n) then v else m a)
unfolding set_up
set_up_lem zero m p v a = ground arith
set_up_lem (suc n) m p v a = set_up_lem n (store m p v) (p + 1) v a ∙ ground arith

k_memcmp_sound :
    (n : ℕ) (m : Memory) (a b : ℕ)
    → k_memcmp n m a b ≡ pos 0
    → (i : ℕ) → i < n
    → m (a + i) ≡ m (b + i)
unfolding k_memcmp
k_memcmp_sound zero m a b e i h = absurd (omega arith)
k_memcmp_sound (suc n) m a b e i h = elim (Bool-cases (m a == m b)) [
  | inl same ↦ elim (Bool-cases (i == 0)) [
    | inl z ↦ let zz = ==→eq i 0 z in ap m (omega arith) ∙ ==→eq _ _ same ∙ ap m (omega arith)
    | inr nz ↦
        let one = ==→ne i 0 nz in
        ap m (omega arith)
        ∙ k_memcmp_sound n m (a + 1) (b + 1) (rw same at e) (i - 1) (omega arith)
        ∙ ap m (omega arith)
  ]
  | inr other ↦ absurd (==→ne _ _ other (byte_difference_zero (m a) (m b) (rw other at e)))
]

-- After `k_memset` the range holds `c` modulo 256, and no other byte changes.
pub k_memset_lem :
    (m : Memory) (p c n a : ℕ)
    → k_memset m p c n a ≡ (if leb p a && ltb a (p + n) then c % 256 else m a)
unfolding k_memset
k_memset_lem m p c n a = set_up_lem n m p (c % 256) a

-- If `k_memcmp` returns 0, the two ranges hold the same bytes.
pub k_memcmp_zero :
    (n : ℕ) (m : Memory) (a b i : ℕ) → k_memcmp n m a b ≡ pos 0 → i < n → m (a + i) ≡ m (b + i)
k_memcmp_zero n m a b i e h = k_memcmp_sound n m a b e i h
