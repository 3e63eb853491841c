-- ===== src/Klib/Convert/Swap.antt =====
-- The reversal in place of convert.c.
use zenith_os.Prelude.{
  ℕ, zero, suc, ◌+◌, ◌-◌, ◌≤◌, ◌<◌, ◌≡◌, refl, ap, ◌∙◌, inl, inr, ◌&&◌, arith, ltb, leb, ◌==◌,
  if◌then◌else◌, ==→eq, ==→ne, Bool-cases,
}
use zenith_os.Klib.Convert.{Buffer, put, swap_ends}

-- The bytes from `start` to `end`, back to front.
abbrev mirrored : ℕ → ℕ → Buffer → Buffer
mirrored start end b j = if leb start j && leb j end then b (start + end - j) else b j

mirrored_short : (start end : ℕ) (b : Buffer) (j : ℕ) → end ≤ start → b j ≡ mirrored start end b j
mirrored_short start end b j h = elim (Bool-cases (leb start j && leb j end)) [
  | inl inside ↦
      let lo : start ≤ j = ground arith in
      let hi : j ≤ end = ground arith in
      let at : b (start + end - j) ≡ b j = ap b (omega arith) in ground arith
  | inr out ↦ rw out refl
]

mirrored_step :
    (start end : ℕ) (b : Buffer) (j : ℕ)
    → start < end
    → mirrored (start + 1) (end - 1) (put (put b start (b end)) end (b start)) j
      ≡ mirrored start end b j
mirrored_step start end b j h = elim (Bool-cases (j == start)) [
  | inl e ↦
      let first = ==→eq j start e in
      let at : b (start + end - j) ≡ b end = ap b (omega arith) in ground arith
  | inr n ↦
      let not_first = ==→ne j start n in
      elim (Bool-cases (j == end)) [
        | inl e ↦
            let last = ==→eq j end e in
            let at : b (start + end - j) ≡ b start = ap b (omega arith) in ground arith
        | inr m ↦
            let not_last = ==→ne j end m in
            let at : b (start + 1 + (end - 1) - j) ≡ b (start + end - j) = ap b (omega arith) in
            ground arith
      ]
]

pub swap_ends_lem :
    (rounds start end : ℕ) (b : Buffer) (j : ℕ)
    → end ≤ start + rounds
    → swap_ends rounds start end b j ≡ mirrored start end b j
unfolding swap_ends
swap_ends_lem zero start end b j h = mirrored_short start end b j (omega arith)
swap_ends_lem (suc rounds) start end b j h = elim (Bool-cases (ltb start end)) [
  | inl go ↦ rw go (
      swap_ends_lem rounds (start + 1) (end - 1) (put (put b start (b end)) end (b start)) j
        (ground arith)
      ∙ mirrored_step start end b j (ground arith))
  | inr stop ↦ rw stop (mirrored_short start end b j (ground arith))
]
