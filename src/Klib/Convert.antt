-- ===== src/Klib/Convert.antt =====
-- kernel/src/lib/convert.c: numbers as text. The buffer is a function from positions to bytes. The
-- loop that writes the digits runs on fuel, and the value itself is enough; that of the reversal
-- runs on the rounds that are left.
pub mod Swap
pub mod Laws
mod Tests
use zenith_os.Prelude.{ℕ, zero, suc, ◌+◌, ◌-◌, ◌/◌, ◌%◌, ◌==◌, ltb, if◌then◌else◌, Bool}
use zenith_os.Prelude.Int.{ℤ, pos, negsuc}

abbrev pub Buffer : Type 0
Buffer = ℕ → ℕ

-- `buffer[i] = c`
abbrev pub put : Buffer → ℕ → ℕ → Buffer
put b i c j = if j == i then c else b j

-- `(value % 10) + '0'`, and `digits[value & 0xF]`.
abbrev pub decimal_digit : ℕ → ℕ
decimal_digit d = d + b'0'

abbrev pub hex_digit : ℕ → ℕ
hex_digit d = if ltb d 10 then d + b'0' else d - 10 + b'A'

-- The first loop, from position `i` on: the position behind the last digit, and the buffer.
unfoldable pub put_digits : ℕ → ℕ → (ℕ → ℕ) → ℕ → ℕ → Buffer → ℕ × Buffer
put_digits zero base digit value i b = (i, b)
put_digits (suc fuel) base digit value i b =
    let rest = put_digits fuel base digit (value / base) (i + 1) (put b i (digit (value % base))) in
    if value == 0 then (i, b) else rest

-- The second loop, which swaps the bytes from the two ends on.
unfoldable pub swap_ends : ℕ → ℕ → ℕ → Buffer → Buffer
swap_ends zero start end b = b
swap_ends (suc rounds) start end b =
    let rest = swap_ends rounds (start + 1) (end - 1) (put (put b start (b end)) end (b start)) in
    if ltb start end then rest else b

-- What follows the digits: the NUL, and the reversal of the `i` bytes before it.
unfoldable pub finish : ℕ × Buffer → Buffer
finish (i, b) = swap_ends i 0 (i - 1) (put b i 0)

unfoldable pub zero_text : Buffer → Buffer
zero_text b = put (put b 0 b'0') 1 0

unfoldable pub uint_to_string : ℕ → Buffer → Buffer
uint_to_string value b =
    if value == 0 then zero_text b else finish (put_digits value 10 decimal_digit value 0 b)

unfoldable pub uint64_to_hex : ℕ → Buffer → Buffer
uint64_to_hex value b =
    if value == 0 then zero_text b else finish (put_digits value 16 hex_digit value 0 b)

-- `-value` of the least `int`, which C leaves undefined, is taken as its absolute value.
unfoldable pub int_to_string : ℤ → Buffer → Buffer
int_to_string (pos value) b =
    if value == 0 then zero_text b else finish (put_digits value 10 decimal_digit value 0 b)
int_to_string (negsuc n) b =
    let (i, b1) = put_digits (n + 1) 10 decimal_digit (n + 1) 0 b in finish (i + 1, put b1 i b'-')
