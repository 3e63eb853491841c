-- ===== src/Mm/Bitmap/Laws.antt =====
-- What the functions of bitmap.c do to the bits, one bit at a time.
use zenith_os.Prelude.{
  ℕ, zero, suc, ◌+◌, ◌*◌, ◌/◌, ◌%◌, ◌≤◌, ◌<◌, ◌≡◌, refl, inl, inr, ◌==◌, leb, if◌then◌else◌, true,
  ◌||◌, List, [], ◌∷◌, length, get_or, set, All, length-set, get_or-set_self, get_or-set_ne,
  Bool-cases, arith,
}
use zenith_os.Mm.Bitmap.{Bitmap, or_bit, and_not_bit, fill, init, set_bit, clear_bit, test}
use zenith_os.Mm.Bitmap.Bits.{
  has_bit_full, or_bit-lt, and_not_bit-lt, has_bit-or_bit, has_bit-and_not_bit,
}

abbrev pub IsByte : ℕ → Type 0
IsByte b = b < 256

-- The buffer holds bytes, and room for every bit.
pub record IsValid (m : Bitmap) : Type 0 where
  pub room : m.bits ≤ 8 * length m.bytes
  pub are_bytes : All IsByte m.bytes

get_or-byte : (bs : List ℕ) (i : ℕ) → All IsByte bs → get_or bs i 0 < 256
get_or-byte [] i h = omega arith
get_or-byte (b ∷ bs) zero h = h.0
get_or-byte (b ∷ bs) (suc i) h = get_or-byte bs i h.1

set-bytes : (bs : List ℕ) (i v : ℕ) → v < 256 → All IsByte bs → All IsByte (set bs i v)
set-bytes [] i v hv h = h
set-bytes (b ∷ bs) zero v hv h = (hv, h.1)
set-bytes (b ∷ bs) (suc i) v hv h = (h.0, set-bytes bs i v hv h.1)

pub set_bit-IsValid : (m : Bitmap) (i : ℕ) → IsValid m → IsValid (set_bit m i)
unfolding set_bit
set_bit-IsValid m i v = ground (
  arith,
  length-set m.bytes (i / 8) (or_bit (get_or m.bytes (i / 8) 0) (i % 8)),
  or_bit-lt (get_or m.bytes (i / 8) 0) (i % 8),
  get_or-byte m.bytes (i / 8),
  set-bytes m.bytes (i / 8) (or_bit (get_or m.bytes (i / 8) 0) (i % 8)),
)

pub clear_bit-IsValid : (m : Bitmap) (i : ℕ) → IsValid m → IsValid (clear_bit m i)
unfolding clear_bit
clear_bit-IsValid m i v = ground (
  arith,
  length-set m.bytes (i / 8) (and_not_bit (get_or m.bytes (i / 8) 0) (i % 8)),
  and_not_bit-lt (get_or m.bytes (i / 8) 0) (i % 8),
  get_or-byte m.bytes (i / 8),
  set-bytes m.bytes (i / 8) (and_not_bit (get_or m.bytes (i / 8) 0) (i % 8)),
)

pub bits-set_bit : (m : Bitmap) (i : ℕ) → (set_bit m i).bits ≡ m.bits
unfolding set_bit
bits-set_bit m i = ground arith

pub bits-clear_bit : (m : Bitmap) (i : ℕ) → (clear_bit m i).bits ≡ m.bits
unfolding clear_bit
bits-clear_bit m i = ground arith

-- After `bitmap_set` the bit is set, and every other bit is as before.
pub test-set_bit : (m : Bitmap) (i j : ℕ) → IsValid m → test (set_bit m i) j ≡ (i == j || test m j)
unfolding set_bit test
test-set_bit m i j v = elim (Bool-cases (i / 8 == j / 8)) [
  | inl e ↦ ground (
    arith,
    get_or-set_self m.bytes (i / 8) (or_bit (get_or m.bytes (i / 8) 0) (i % 8)) 0,
    has_bit-or_bit (get_or m.bytes (i / 8) 0) (i % 8) (get_or-byte m.bytes (i / 8) v.are_bytes)
        (omega arith) (j % 8) (omega arith),
  )
  | inr ne ↦
      ground
        (arith, get_or-set_ne m.bytes (i / 8) (j / 8) (or_bit (get_or m.bytes (i / 8) 0) (i % 8)) 0)
]

-- After `bitmap_clear` a bit of the map is clear, and every other bit is as before.
pub test-clear_bit :
    (m : Bitmap) (i j : ℕ)
    → IsValid m
    → test (clear_bit m i) j ≡ (if i == j then leb m.bits j else test m j)
unfolding clear_bit test
test-clear_bit m i j v = elim (Bool-cases (i / 8 == j / 8)) [
  | inl e ↦ ground (
    arith,
    get_or-set_self m.bytes (i / 8) (and_not_bit (get_or m.bytes (i / 8) 0) (i % 8)) 0,
    has_bit-and_not_bit (get_or m.bytes (i / 8) 0) (i % 8) (get_or-byte m.bytes (i / 8) v.are_bytes)
        (omega arith) (j % 8) (omega arith),
  )
  | inr ne ↦ ground (
    arith,
    get_or-set_ne m.bytes (i / 8) (j / 8) (and_not_bit (get_or m.bytes (i / 8) 0) (i % 8)) 0,
  )
]

fill-length : (n : ℕ) (bs : List ℕ) → length (fill n bs) ≡ length bs
unfolding fill
fill-length zero bs = refl
fill-length (suc n) [] = refl
fill-length (suc n) (b ∷ bs) = omega (arith, fill-length n bs)

fill-bytes : (n : ℕ) (bs : List ℕ) → All IsByte bs → All IsByte (fill n bs)
unfolding fill
fill-bytes zero bs h = h
fill-bytes (suc n) [] h = h
fill-bytes (suc n) (b ∷ bs) h = (omega arith, fill-bytes n bs h.1)

get_or-fill : (n : ℕ) (bs : List ℕ) (i : ℕ) → i < n → n ≤ length bs → get_or (fill n bs) i 0 ≡ 0xFF
unfolding fill
get_or-fill zero bs i h r = absurd (omega arith)
get_or-fill (suc n) [] i h r = absurd (omega arith)
get_or-fill (suc n) (b ∷ bs) zero h r = refl
get_or-fill (suc n) (b ∷ bs) (suc i) h r = get_or-fill n bs i (omega arith) (omega arith)

module _ (buffer : List ℕ) (n : ℕ) where
  pub init-IsValid : All IsByte buffer → n ≤ 8 * length buffer → IsValid (init buffer n)
  unfolding init
  init-IsValid h room = record {
    room = omega (arith, fill-length ((n + 7) / 8) buffer);
    are_bytes = fill-bytes ((n + 7) / 8) buffer h;
  }

  -- `bitmap_init` marks every page as used.
  pub test-init : (j : ℕ) → n ≤ 8 * length buffer → test (init buffer n) j ≡ true
  unfolding init test
  test-init j room =
      ground (arith, get_or-fill ((n + 7) / 8) buffer (j / 8), has_bit_full (j % 8) (omega arith))

pub test_out : (m : Bitmap) (j : ℕ) → m.bits ≤ j → test m j ≡ true
unfolding test
test_out m j h = ground arith
