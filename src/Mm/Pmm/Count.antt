-- ===== src/Mm/Pmm/Count.antt =====
-- How many of the first pages have a clear bit, and what one changed bit does to that number.
use zenith_os.Prelude.{
  ℕ, zero, suc, ◌+◌, ◌≤◌, ◌<◌, ◌≡◌, ◌≢◌, refl, ap, inl, inr, ◌==◌, ==→eq, ==→ne, Bool, true, false,
  not, Bool-cases, arith,
}

abbrev one_if : Bool → ℕ
one_if true = 1
one_if false = 0

-- The number of `i < n` at which `f` is false.
unfoldable pub count_false : (ℕ → Bool) → ℕ → ℕ
count_false f zero = 0
count_false f (suc n) = count_false f n + one_if (not (f n))

pub count_false-le : (f : ℕ → Bool) (n : ℕ) → count_false f n ≤ n
unfolding count_false
count_false-le f zero = omega arith
count_false-le f (suc n) = ground (arith, count_false-le f n)

-- All bits set: nothing to count.
pub count_false_zero : (f : ℕ → Bool) (n : ℕ) → ((i : ℕ) → i < n → f i ≡ true) → count_false f n ≡ 0
unfolding count_false
count_false_zero f zero h = refl
count_false_zero f (suc n) h =
    ground (arith, h n (omega arith), count_false_zero f n (λ i hi. h i (omega arith)))

module _ (f g : ℕ → Bool) (p : ℕ) (same : (j : ℕ) → j ≢ p → g j ≡ f j) where
  -- A change at `p` is not seen below `p`.
  count_false_below : (n : ℕ) → n ≤ p → count_false g n ≡ count_false f n
  unfolding count_false
  count_false_below zero h = refl
  count_false_below (suc n) h =
      ground (arith, same n (omega arith), count_false_below n (omega arith))

  -- Setting bit `p` takes one off the count.
  pub count_false_update :
      (n : ℕ) → p < n → f p ≡ false → g p ≡ true → count_false g n + 1 ≡ count_false f n
  unfolding count_false
  count_false_update zero h fp gp = absurd (omega arith)
  count_false_update (suc n) h fp gp = elim (Bool-cases (n == p)) [
    | inl e ↦ ground (
      arith,
      ap f (==→eq n p e),
      ap g (==→eq n p e),
      count_false_below n (omega (arith, ==→eq n p e)),
    )
    | inr ne ↦
        ground
          (arith, same n (==→ne n p ne), count_false_update n (omega (arith, ==→ne n p ne)) fp gp)
  ]

-- A clear bit is counted.
pub count_false_pos : (f : ℕ → Bool) (n p : ℕ) → p < n → f p ≡ false → 0 < count_false f n
unfolding count_false
count_false_pos f zero p h e = absurd (omega arith)
count_false_pos f (suc n) p h e = elim (Bool-cases (n == p)) [
  | inl eq ↦ ground (arith, ap f (==→eq n p eq))
  | inr ne ↦ ground (arith, count_false_pos f n p (omega (arith, ==→ne n p ne)) e)
]
