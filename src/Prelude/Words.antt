-- ===== src/Prelude/Words.antt =====
-- The bit operations of C on machine words: tests and fields in the form that the tactics read, and
-- the laws of `|` for flags.
use Prim.Native.Nat.{
  ℕ, zero, suc, ◌+◌, ◌-◌, ◌*◌, ◌/◌, ◌%◌, ◌^◌, ◌≤◌, ◌<◌, max, bit_or, digits, bit_or-bitwise,
}
use mathlib.Core.Path.{◌≡◌, refl, ap, ◌∙◌, sym}
use mathlib.Core.Bool.{Bool}
use native.Mathlib.Omega.{arith}
use zenith_os.Prelude.Tests.{◌==◌}

-- `(x & (1 << k)) != 0`
abbrev pub has_flag : ℕ → ℕ → Bool
has_flag k x = x / 2 ^ k % 2 == 1

-- `x & ~(1 << k)`
abbrev pub without_flag : ℕ → ℕ → ℕ
without_flag k x = x - x / 2 ^ k % 2 * 2 ^ k

-- `|` by its digits does not depend on the fuel.
merge : ℕ → ℕ → ℕ → ℕ
merge fuel x y = digits (λ d. d) max fuel x y

merge_fuel : (f g x y : ℕ) → x ≤ f → x ≤ g → merge f x y ≡ merge g x y
unfolding merge
merge_fuel zero zero x y hf hg = refl
merge_fuel (suc f) zero zero y hf hg = refl
merge_fuel (suc f) zero (suc x) y hf hg = absurd (omega arith)
merge_fuel zero (suc g) zero y hf hg = refl
merge_fuel zero (suc g) (suc x) y hf hg = absurd (omega arith)
merge_fuel (suc f) (suc g) zero y hf hg = refl
merge_fuel (suc f) (suc g) (suc x) y hf hg =
    omega (arith, merge_fuel f g (suc x / 2) (y / 2) (omega arith) (omega arith))

bit_or-merge : (x y : ℕ) → bit_or x y ≡ merge x x y
unfolding merge
bit_or-merge x y = bit_or-bitwise x y

pub zero-bit_or : (y : ℕ) → bit_or 0 y ≡ y
unfolding merge
zero-bit_or y = bit_or-merge 0 y

pub bit_or_step : (x y : ℕ) → bit_or x y ≡ 2 * bit_or (x / 2) (y / 2) + max (x % 2) (y % 2)
unfolding merge
bit_or_step zero y = omega (arith, zero-bit_or y, zero-bit_or (y / 2))
bit_or_step (suc x) y = omega (
  arith,
  bit_or-merge (suc x) y,
  bit_or-merge (suc x / 2) (y / 2),
  merge_fuel x (suc x / 2) (suc x / 2) (y / 2) (omega arith) (omega arith),
)

bit_or_zero_fuel : (fuel x : ℕ) → x ≤ fuel → bit_or x 0 ≡ x
bit_or_zero_fuel zero x h = let z : x ≡ 0 = omega arith in ap (λ t. bit_or t 0) z ∙ sym z
bit_or_zero_fuel (suc fuel) zero h = refl
bit_or_zero_fuel (suc fuel) (suc x) h =
    omega (arith, bit_or_step (suc x) 0, bit_or_zero_fuel fuel (suc x / 2) (omega arith))

pub bit_or-zero : (x : ℕ) → bit_or x 0 ≡ x
bit_or-zero x = bit_or_zero_fuel x x (omega arith)

-- `x` doubled `k` times.
abbrev pub doubled : ℕ → ℕ → ℕ
doubled zero x = x
doubled (suc k) x = 2 * doubled k x

-- Fields that do not meet are added.
pub bit_or-doubled : (k x y : ℕ) → y < doubled k 1 → bit_or (doubled k x) y ≡ doubled k x + y
bit_or-doubled zero x y h =
    let z : y ≡ 0 = omega arith in ap (bit_or x) z ∙ bit_or-zero x ∙ omega arith
bit_or-doubled (suc k) x y h = omega (
  arith,
  bit_or_step (2 * doubled k x) y,
  ap (λ t. bit_or t (y / 2)) {x = 2 * doubled k x / 2} {y = doubled k x} (omega arith),
  bit_or-doubled k x (y / 2) (omega arith),
)

-- A page address and the flags of its low bits.
pub bit_or_page : (x y : ℕ) → y < 4096 → bit_or (x * 4096) y ≡ x * 4096 + y
bit_or_page x y h =
    let twelve : x * 4096 ≡ doubled 12 x = omega arith in
    ap (λ t. bit_or t y) twelve ∙ bit_or-doubled 12 x y (omega arith) ∙ omega arith

-- `x | 1`, `x | 2` and `x | 4`.
pub bit_or-one : (x : ℕ) → bit_or x 1 ≡ x + (1 - x % 2)
bit_or-one x = omega (arith, bit_or_step x 1, bit_or-zero (x / 2))

pub bit_or-two : (x : ℕ) → bit_or x 2 ≡ x + 2 * (1 - x / 2 % 2)
bit_or-two x = omega (arith, bit_or_step x 2, bit_or-one (x / 2))

pub bit_or-four : (x : ℕ) → bit_or x 4 ≡ x + 4 * (1 - x / 4 % 2)
bit_or-four x = omega (arith, bit_or_step x 4, bit_or-two (x / 2))
