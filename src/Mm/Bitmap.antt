-- ===== src/Mm/Bitmap.antt =====
-- kernel/src/mm/bitmap.c: one bit for each page, eight to a byte. The two static variables
-- `bitmap` and `bitmap_bits` are the fields of a record that each function takes and returns.
pub mod Bits
pub mod Laws
use zenith_os.Prelude.{
  ℕ, zero, suc, ◌+◌, ◌-◌, ◌/◌, ◌%◌, ◌^◌, ◌==◌, leb, if◌then◌else◌, Bool, true, not, List, [], ◌∷◌,
  get_or, set, bit_and, bit_or,
}

-- `bytes` is the buffer that `bitmap` points to.
pub record Bitmap : Type 0 where
  pub bytes : List ℕ
  pub bits : ℕ

-- `b | (1u << k)`, `b & ~(1u << k)` and `(b & (1u << k)) != 0` on one byte; `~` is that of a
-- 32-bit unsigned number.
unfoldable pub or_bit : ℕ → ℕ → ℕ
or_bit b k = bit_or b (2 ^ k)

unfoldable pub and_not_bit : ℕ → ℕ → ℕ
and_not_bit b k = bit_and b (2 ^ 32 - 1 - 2 ^ k)

unfoldable pub has_bit : ℕ → ℕ → Bool
has_bit b k = not (bit_and b (2 ^ k) == 0)

-- The loop of `bitmap_init`: the first `n` bytes of the buffer become 0xFF.
fill : ℕ → List ℕ → List ℕ
fill zero bs = bs
fill (suc n) [] = []
fill (suc n) (b ∷ bs) = 0xFF ∷ fill n bs

unfoldable pub init : List ℕ → ℕ → Bitmap
unfolding fill
init buffer n = record { bytes = fill ((n + 7) / 8) buffer; bits = n }

unfoldable pub set_bit : Bitmap → ℕ → Bitmap
unfolding or_bit
set_bit m bit =
    if leb m.bits bit
    then m
    else record m { bytes = set m.bytes (bit / 8) (or_bit (get_or m.bytes (bit / 8) 0) (bit % 8)) }

unfoldable pub clear_bit : Bitmap → ℕ → Bitmap
unfolding and_not_bit
clear_bit m bit = if leb m.bits bit then m else record m {
  bytes = set m.bytes (bit / 8) (and_not_bit (get_or m.bytes (bit / 8) 0) (bit % 8));
}

-- A bit past the end counts as set.
unfoldable pub test : Bitmap → ℕ → Bool
unfolding has_bit
test m bit = if leb m.bits bit then true else has_bit (get_or m.bytes (bit / 8) 0) (bit % 8)
