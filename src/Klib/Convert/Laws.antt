-- ===== src/Klib/Convert/Laws.antt =====
-- The digits that convert.c writes are those of the number.
use zenith_os.Prelude.{
  ℕ, zero, suc, ◌+◌, ◌-◌, ◌*◌, ◌/◌, ◌%◌, ◌≤◌, ◌<◌, ◌≡◌, refl, sym, ap, subst, ◌∙◌, ◌≢◌, ◌⊎◌, inl,
  inr, arith, ltb, ◌==◌, if◌then◌else◌, eq→==, ==→eq, ==→ne, Bool-cases,
}
use zenith_os.Klib.Convert.{
  Buffer, put, decimal_digit, hex_digit, put_digits, swap_ends, finish, zero_text, uint_to_string,
  uint64_to_hex,
}
use zenith_os.Klib.Convert.Swap.{swap_ends_lem}

-- `value` after `m` divisions by the base.
unfoldable pub shifted : ℕ → ℕ → ℕ → ℕ
shifted base zero value = value
shifted base (suc m) value = shifted base m (value / base)

shifted_zero : (base m value : ℕ) → m ≡ 0 → shifted base m value ≡ value
unfolding shifted
shifted_zero base zero value e = refl
shifted_zero base (suc m) value e = absurd (omega arith)

shifted_step : (base m value : ℕ) → shifted base (suc m) value ≡ shifted base m value / base
unfolding shifted
shifted_step base zero value = refl
shifted_step base (suc m) value = shifted_step base m (value / base)

-- A base with its digits and what reads them back.
record IsBase (base : ℕ) (IsDigit : ℕ → Type 0) (digit undigit : ℕ → ℕ) : Type 0 where
  shrinks : (fuel value : ℕ) → value ≢ 0 → value ≤ suc fuel → value / base ≤ fuel
  splits : (x : ℕ) → x / base * base + x % base ≡ x
  reads : (x : ℕ) → undigit (digit (x % base)) ≡ x % base
  is_digit : (x : ℕ) → IsDigit (digit (x % base))

-- The characters from '0' to '9'.
abbrev pub IsDecimal : ℕ → Type 0
IsDecimal c = (b'0' ≤ c) × (c ≤ b'9')

-- Those and the characters from 'A' to 'F'.
abbrev pub IsHex : ℕ → Type 0
IsHex c = IsDecimal c ⊎ ((b'A' ≤ c) × (c ≤ b'F'))

abbrev pub decimal_value : ℕ → ℕ
decimal_value c = c - b'0'

abbrev pub hex_value : ℕ → ℕ
hex_value c = if ltb c b'A' then c - b'0' else c - b'A' + 10

IsDecimal-IsBase : IsBase 10 IsDecimal decimal_digit decimal_value
IsDecimal-IsBase = record {
  shrinks = λ fuel value nz h. omega arith;
  splits = λ x. omega arith;
  reads = λ x. omega arith;
  is_digit = λ x. (omega arith, omega arith);
}

IsHex-IsBase : IsBase 16 IsHex hex_digit hex_value
IsHex-IsBase = record {
  shrinks = λ fuel value nz h. omega arith;
  splits = λ x. omega arith;
  reads = λ x. ground arith;
  is_digit = λ x. elim (Bool-cases (ltb (x % 16) 10)) [
    | inl few ↦ rw few (inl (ground arith, ground arith))
    | inr many ↦ rw many (inr (ground arith, ground arith))
  ];
}

-- The number that the first `n` bytes of a buffer stand for.
unfoldable pub number : ℕ → (ℕ → ℕ) → ℕ → Buffer → ℕ
number base undigit zero b = 0
number base undigit (suc n) b = number base undigit n b * base + undigit (b n)

-- The text in a buffer: at least one byte, each a digit, with the NUL behind them, which so is the
-- first, and the number that they stand for.
pub record Reads (base : ℕ) (IsDigit : ℕ → Type 0) (undigit : ℕ → ℕ) (b : Buffer) (value : ℕ)
    : Type 0 where
  pub count : ℕ
  pub some_digit : 0 < count
  pub all_digits : (j : ℕ) → j < count → IsDigit (b j)
  pub ends : b count ≡ 0
  pub stands_for : number base undigit count b ≡ value

module _ (base : ℕ) (IsDigit : ℕ → Type 0) (digit undigit : ℕ → ℕ)
    (is : IsBase base IsDigit digit undigit) where
  -- What the first loop leaves: digit `k` of the value at position `i + k`, below the position that
  -- it returns, and the bytes before `i` unchanged.
  record Wrote (value i : ℕ) (b : Buffer) (r : ℕ × Buffer) : Type 0 where
    count : ℕ
    end : r.0 ≡ i + count
    all_digits : shifted base count value ≡ 0
    digits : (k : ℕ) → k < count → r.1 (i + k) ≡ digit (shifted base k value % base)
    before : (j : ℕ) → j < i → r.1 j ≡ b j

  digits_cons :
      (value i count k : ℕ) (b : Buffer) (r : ℕ × Buffer)
      → Wrote (value / base) (i + 1) (put b i (digit (value % base))) r
      → ((k : ℕ) → k < count → r.1 (i + 1 + k) ≡ digit (shifted base k (value / base) % base))
      → k < suc count
      → r.1 (i + k) ≡ digit (shifted base k value % base)
  unfolding shifted
  digits_cons value i count zero b r rest later lt =
      let here : r.1 (i + 0) ≡ r.1 i = ap r.1 (omega arith) in
      here ∙ rest.before i (omega arith) ∙ rw (eq→== i i refl) refl
  digits_cons value i count (suc k) b r rest later lt =
      let here : r.1 (i + suc k) ≡ r.1 (i + 1 + k) = ap r.1 (omega arith) in
      here ∙ later k (omega arith)

  put_digits-Wrote :
      (fuel value i : ℕ) (b : Buffer)
      → value ≤ fuel
      → Wrote value i b (put_digits fuel base digit value i b)
  unfolding put_digits shifted
  put_digits-Wrote zero value i b h = record {
    count = 0;
    end = omega arith;
    all_digits = omega arith;
    digits = λ k lt. absurd (omega arith);
    before = λ j lt. refl;
  }
  put_digits-Wrote (suc fuel) value i b h = elim (Bool-cases (value == 0)) [
    | inl z ↦ rw z (record {
      count = 0;
      end = omega arith;
      all_digits = ==→eq value 0 z;
      digits = λ k lt. absurd (omega arith);
      before = λ j lt. refl;
    })
    | inr nz ↦ rw nz (
        let rest =
          put_digits-Wrote fuel (value / base) (i + 1) (put b i (digit (value % base)))
            (is.shrinks fuel value (==→ne value 0 nz) h) in
        record {
          count = suc rest.count;
          end = omega (arith, rest.end);
          all_digits = rest.all_digits;
          digits = λ k lt. digits_cons value i rest.count k b _ rest rest.digits lt;
          before = λ j lt. rest.before j (omega arith) ∙ ground arith;
        })
  ]

  -- The digits, back to front, read as the value.
  number_back :
      (value count k : ℕ) (b w : Buffer)
      → k ≤ count
      → ((j : ℕ) → j < count → b j ≡ w (count - 1 - j))
      → ((j : ℕ) → j < count → w j ≡ digit (shifted base j value % base))
      → shifted base count value ≡ 0
      → number base undigit k b ≡ shifted base (count - k) value
  unfolding number
  number_back value count zero b w h back ds none_left =
      sym none_left ∙ ap (λ m. shifted base m value) (omega arith)
  number_back value count (suc k) b w h back ds none_left =
      let before = number_back value count k b w (omega arith) back ds none_left in
      let m : ℕ = count - suc k in
      let at : count - k ≡ suc m = omega arith in
      let place : count - 1 - k ≡ m = omega arith in
      let x : ℕ = shifted base m value in
      let head : number base undigit k b ≡ x / base =
        before ∙ ap (λ n. shifted base n value) at ∙ shifted_step base m value in
      let last : undigit (b k) ≡ x % base =
        ap undigit (back k (omega arith) ∙ ap w place ∙ ds m (omega arith)) ∙ is.reads x in
      rw (head, last) (is.splits x)

  count_pos : (value count : ℕ) → value ≢ 0 → shifted base count value ≡ 0 → 0 < count
  unfolding shifted
  count_pos value zero nz e = absurd (nz e)
  count_pos value (suc count) nz e = omega arith

  finish-Wrote :
      (value : ℕ) (b : Buffer) (r : ℕ × Buffer)
      → value ≢ 0
      → Wrote value 0 b r
      → Reads base IsDigit undigit (finish r) value
  unfolding finish
  finish-Wrote value b (i, w) nz wrote =
      let n : ℕ = wrote.count in
      let at : i ≡ n = omega (arith, wrote.end) in
      let some : 0 < n = count_pos value wrote.count nz wrote.all_digits in
      let swapped = λ (j : ℕ). swap_ends_lem i 0 (i - 1) (put w i 0) j (omega arith) in
      let back : (j : ℕ) → j < n → swap_ends i 0 (i - 1) (put w i 0) j ≡ w (n - 1 - j) = λ j lt.
        let place : w (0 + (i - 1) - j) ≡ w (n - 1 - j) = ap w (omega arith) in
        swapped j ∙ ground arith in
      let ds : (j : ℕ) → j < n → w j ≡ digit (shifted base j value % base) =
        λ j lt. ap w (omega arith) ∙ wrote.digits j lt in
      record {
        count = n;
        some_digit = some;
        all_digits = λ j lt.
            subst IsDigit (sym (back j lt ∙ ds (n - 1 - j) (omega arith)))
              (is.is_digit (shifted base (n - 1 - j) value));
        ends = swapped n ∙ ground arith;
        stands_for =
            number_back value n n _ w (omega arith) back ds wrote.all_digits
            ∙ shifted_zero base (n - n) value (omega arith);
      }

zero_text-Reads :
    (base : ℕ) (IsDigit : ℕ → Type 0) (undigit : ℕ → ℕ) (b : Buffer)
    → IsDigit b'0'
    → undigit b'0' ≡ 0
    → Reads base IsDigit undigit (zero_text b) 0
unfolding zero_text number
zero_text-Reads base IsDigit undigit b zero_is e = record {
  count = 1;
  some_digit = omega arith;
  all_digits = λ j lt.
      let first : put (put b 0 b'0') 1 0 j ≡ b'0' = ground arith in
      subst IsDigit (sym first) zero_is;
  ends = refl;
  stands_for = omega (arith, e);
}

-- For every value, and whatever was in the buffer, `uint_to_string` leaves a text: decimal digits,
-- at least one, up to the first NUL, which read in base 10 are the number.
pub uint_to_string-Reads :
    (value : ℕ) (b : Buffer) → Reads 10 IsDecimal decimal_value (uint_to_string value b) value
unfolding uint_to_string
uint_to_string-Reads value b = elim (Bool-cases (value == 0)) [
  | inl z ↦ rw z (
      subst (Reads 10 IsDecimal decimal_value (zero_text b)) (sym (==→eq value 0 z))
        (zero_text-Reads 10 IsDecimal decimal_value b (omega arith, omega arith) refl))
  | inr nz ↦ rw nz (
      finish-Wrote 10 IsDecimal decimal_digit decimal_value IsDecimal-IsBase value b _
        (==→ne value 0 nz)
        (put_digits-Wrote 10 IsDecimal decimal_digit decimal_value IsDecimal-IsBase value value 0 b
          (omega arith)))
]

-- Likewise `uint64_to_hex`, with the digits of base 16.
pub uint64_to_hex-Reads :
    (value : ℕ) (b : Buffer) → Reads 16 IsHex hex_value (uint64_to_hex value b) value
unfolding uint64_to_hex
uint64_to_hex-Reads value b = elim (Bool-cases (value == 0)) [
  | inl z ↦ rw z (
      subst (Reads 16 IsHex hex_value (zero_text b)) (sym (==→eq value 0 z))
        (zero_text-Reads 16 IsHex hex_value b (inl (omega arith, omega arith)) refl))
  | inr nz ↦ rw nz (
      finish-Wrote 16 IsHex hex_digit hex_value IsHex-IsBase value b _ (==→ne value 0 nz)
        (put_digits-Wrote 16 IsHex hex_digit hex_value IsHex-IsBase value value 0 b (omega arith)))
]
