-- ===== src/Mm/Bitmap/Bits.antt =====
-- The three bit operations of bitmap.c on a byte, checked over all bytes and bit numbers.
use zenith_os.Prelude.{
  ℕ, zero, suc, ◌<◌, ◌≡◌, refl, ap, inl, inr, Bool-cases, ==→eq, ==→ne, ◌==◌, ltb, ltb→lt, Bool,
  true, false, not, ◌&&◌, ◌||◌, arith,
}
use zenith_os.Mm.Bitmap.{or_bit, and_not_bit, has_bit}

-- The test passes at each number under the bound.
every : (ℕ → Bool) → ℕ → Bool
every test zero = true
every test (suc bound) = every test bound && test bound

every-at : (test : ℕ → Bool) (i bound : ℕ) → i < bound → every test bound ≡ true → test i ≡ true
unfolding every
every-at test i zero under passes = absurd (omega arith)
every-at test i (suc bound) under passes = elim (Bool-cases (i == bound)) [
  | inl last ↦ ground (arith, ap test (==→eq i bound last))
  | inr before ↦
      let below : i < bound = omega (arith, ==→ne i bound before) in
      every-at test i bound below (ground arith)
]

-- `p` holds of every byte and every two bit numbers.
abbrev bytes_bits : (ℕ → ℕ → ℕ → Bool) → Bool
bytes_bits p = every (λ b. every (λ k. every (λ j. p b k j) 8) 8) 256

bytes_bits_sound :
    (p : ℕ → ℕ → ℕ → Bool) (b k j : ℕ)
    → bytes_bits p ≡ true
    → b < 256
    → k < 8
    → j < 8
    → p b k j ≡ true
bytes_bits_sound p b k j h hb hk hj =
    let row = every-at (λ b'. every (λ k'. every (p b' k') 8) 8) b 256 hb h in
    let cell = every-at (λ k'. every (p b k') 8) k 8 hk row in every-at (p b k) j 8 hj cell

same : Bool → Bool → Bool
same true b = b
same false b = not b

same→eq : (a b : Bool) → same a b ≡ true → a ≡ b
unfolding same
same→eq a b h = ground arith

abbrev or_row : ℕ → ℕ → ℕ → Bool
or_row b k j = ltb (or_bit b k) 256 && same (has_bit (or_bit b k) j) (k == j || has_bit b j)

abbrev and_not_row : ℕ → ℕ → ℕ → Bool
and_not_row b k j =
    ltb (and_not_bit b k) 256 && same (has_bit (and_not_bit b k) j) (not (k == j) && has_bit b j)

or_table : bytes_bits or_row ≡ true
unfolding every same or_bit has_bit
or_table = refl

and_not_table : bytes_bits and_not_row ≡ true
unfolding every same and_not_bit has_bit
and_not_table = refl

full_table : every (λ j. has_bit 0xFF j) 8 ≡ true
unfolding every has_bit
full_table = refl

pub has_bit_full : (j : ℕ) → j < 8 → has_bit 0xFF j ≡ true
has_bit_full j h = every-at (has_bit 0xFF) j 8 h full_table

and_true : (a b : Bool) → (a && b) ≡ true → (a ≡ true) × (b ≡ true)
and_true a b h = ground arith

module _ (b k : ℕ) (hb : b < 256) (hk : k < 8) where
  or_cell : (j : ℕ) → j < 8 → or_row b k j ≡ true
  or_cell j hj = bytes_bits_sound or_row b k j or_table hb hk hj

  and_not_cell : (j : ℕ) → j < 8 → and_not_row b k j ≡ true
  and_not_cell j hj = bytes_bits_sound and_not_row b k j and_not_table hb hk hj

  pub or_bit-lt : or_bit b k < 256
  or_bit-lt = ltb→lt _ _ (and_true _ _ (or_cell k hk)).0

  pub and_not_bit-lt : and_not_bit b k < 256
  and_not_bit-lt = ltb→lt _ _ (and_true _ _ (and_not_cell k hk)).0

  pub has_bit-or_bit : (j : ℕ) → j < 8 → has_bit (or_bit b k) j ≡ (k == j || has_bit b j)
  has_bit-or_bit j hj = same→eq _ _ (and_true _ _ (or_cell j hj)).1

  pub has_bit-and_not_bit :
      (j : ℕ) → j < 8 → has_bit (and_not_bit b k) j ≡ (not (k == j) && has_bit b j)
  has_bit-and_not_bit j hj = same→eq _ _ (and_true _ _ (and_not_cell j hj)).1
