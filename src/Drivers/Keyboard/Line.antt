-- ===== src/Drivers/Keyboard/Line.antt =====
-- About the line of input that terminal.c keeps, and one key more.
use zenith_os.Prelude.{
  ℕ, zero, suc, ◌+◌, ◌-◌, ◌≤◌, ◌<◌, ◌==◌, ◌&&◌, leb, List, [], ◌∷◌, ◌++◌, ◌≡◌, refl, ap, ◌∙◌, ◌≢◌,
  inl, inr, arith, Bool-cases, ne→==, length, take, set, All, All-snoc, length-append, lt→leb, true,
  false,
}
use zenith_os.Klib.String.Laws.{text}
use zenith_os.Terminal.{
  Terminal, terminal_putchar, terminal_scroll, terminal_backspace, terminal_handle_key, scroll_past,
  advance, term_cols, term_rows, input_buffer_size, write_cell,
}

abbrev pub max_input : ℕ
max_input = input_buffer_size - 1

pub take_all : (n : ℕ) (xs : List ℕ) → length xs ≤ n → take n (xs ++ []) ≡ xs
take_all zero [] h = refl
take_all zero (x ∷ xs) h = absurd (omega arith)
take_all (suc n) [] h = refl
take_all (suc n) (x ∷ xs) h = ap (λ r. x ∷ r) (take_all n xs (omega arith))

pub take_exact : (n : ℕ) (xs ys : List ℕ) → length xs ≡ n → take n (xs ++ ys) ≡ xs
take_exact zero [] ys h = refl
take_exact zero (x ∷ xs) ys h = absurd (omega arith)
take_exact (suc n) [] ys h = absurd (omega arith)
take_exact (suc n) (x ∷ xs) ys h = ap (λ r. x ∷ r) (take_exact n xs ys (omega arith))

pub snoc-append : (xs : List ℕ) (c : ℕ) (ys : List ℕ) → (xs ++ (c ∷ [])) ++ ys ≡ xs ++ (c ∷ ys)
snoc-append [] c ys = refl
snoc-append (x ∷ xs) c ys = ap (λ r. x ∷ r) (snoc-append xs c ys)

set-set :
    (xs : List ℕ) (c x : ℕ) (junk : List ℕ)
    → set (set (xs ++ (0 ∷ x ∷ junk)) (length xs) c) (suc (length xs)) 0
      ≡ (xs ++ (c ∷ [])) ++ (0 ∷ junk)
set-set [] c x junk = refl
set-set (y ∷ xs) c x junk = ap (λ r. y ∷ r) (set-set xs c x junk)

pub text-string : (xs junk : List ℕ) → All (λ c. c ≢ 0) xs → text (xs ++ (0 ∷ junk)) ≡ xs
unfolding text
text-string [] junk h = refl
text-string (x ∷ xs) junk h = rw (ne→== x 0 h.0) (ap (λ r. x ∷ r) (text-string xs junk h.1))

-- The input buffer has the characters, a NUL and what is behind it.
pub record Holds (t : Terminal) (line : List ℕ) : Type 0 where
  pub junk : List ℕ
  pub buffer : t.input_buffer ≡ line ++ (0 ∷ junk)
  pub size : length line + length junk ≡ max_input
  pub count : t.input_length ≡ length line
  pub no_nul : All (λ c. c ≢ 0) line

abbrev SameInput : Terminal → Terminal → Type 0
SameInput t u = (u.input_buffer ≡ t.input_buffer) × (u.input_length ≡ t.input_length)

pub SameInput-Holds : (t u : Terminal) (line : List ℕ) → SameInput t u → Holds t line → Holds u line
SameInput-Holds t u line same h = record {
  junk = h.junk;
  buffer = same.0 ∙ h.buffer;
  size = h.size;
  count = same.1 ∙ h.count;
  no_nul = h.no_nul;
}

scroll_past-SameInput : (t : Terminal) → SameInput t (scroll_past t)
unfolding terminal_scroll
scroll_past-SameInput t = elim (Bool-cases (leb term_rows t.cursor_row)) [
  | inl e ↦ rw e (refl, refl)
  | inr e ↦ rw e (refl, refl)
]

advance-SameInput : (t : Terminal) → SameInput t (advance t)
advance-SameInput t = elim (Bool-cases (leb term_cols t.cursor_col)) [
  | inl e ↦
      rw e (scroll_past-SameInput (record t { cursor_col = 0; cursor_row = t.cursor_row + 1 }))
  | inr e ↦ rw e (refl, refl)
]

terminal_putchar-SameInput : (t : Terminal) (c : ℕ) → SameInput t (terminal_putchar t c)
unfolding terminal_putchar terminal_scroll
terminal_putchar-SameInput t c = elim (Bool-cases (c == b'\n')) [
  | inl e ↦
      rw e (scroll_past-SameInput (record t { cursor_col = 0; cursor_row = t.cursor_row + 1 }))
  | inr e ↦ elim (Bool-cases (leb term_rows t.cursor_row)) [
    | inl f ↦ rw (e, f) (refl, refl)
    | inr f ↦
        rw (e, f)
          (advance-SameInput (record t {
            screen =
                write_cell t.screen t.cursor_row t.cursor_col
                  (record { character = c; foreground = t.color; background = 0 });
            cursor_col = t.cursor_col + 1;
          }))
  ]
]

pub terminal_backspace-SameInput : (t : Terminal) → SameInput t (terminal_backspace t)
unfolding terminal_backspace
terminal_backspace-SameInput t = elim (Bool-cases ((t.cursor_row == 0) && (t.cursor_col == 0))) [
  | inl e ↦ rw e (refl, refl)
  | inr e ↦ elim (Bool-cases (t.cursor_col == 0)) [
    | inl f ↦ rw (e, f) (refl, refl)
    | inr f ↦ rw (e, f) (refl, refl)
  ]
]

-- A character at the end of a line that is not full.
push-Holds :
    (t : Terminal) (c x : ℕ) (line junk : List ℕ)
    → c ≢ 0
    → Holds t line
    → t.input_buffer ≡ line ++ (0 ∷ x ∷ junk)
    → length line + length (x ∷ junk) ≡ max_input
    → Holds
        (record t {
          input_buffer = set (set t.input_buffer t.input_length c) (t.input_length + 1) 0;
          input_length = t.input_length + 1;
        })
        (line ++ (c ∷ []))
push-Holds t c x line junk ne h buffer size = record {
  junk = junk;
  buffer =
      rw (buffer, h.count)
        (ap (λ i. set (set (line ++ (0 ∷ x ∷ junk)) (length line) c) i 0) (omega arith)
          ∙ set-set line c x junk);
  size = omega (arith, size, length-append line (c ∷ []));
  count = omega (arith, h.count, length-append line (c ∷ []));
  no_nul = All-snoc (λ d. d ≢ 0) line ne h.no_nul;
}

push-Room :
    (t : Terminal) (c : ℕ) (line junk : List ℕ)
    → c ≢ 0
    → length line < max_input
    → Holds t line
    → t.input_buffer ≡ line ++ (0 ∷ junk)
    → length line + length junk ≡ max_input
    → Holds
        (record t {
          input_buffer = set (set t.input_buffer t.input_length c) (t.input_length + 1) 0;
          input_length = t.input_length + 1;
        })
        (line ++ (c ∷ []))
push-Room t c line [] ne room h buffer size = absurd (omega (arith, size))
push-Room t c line (x ∷ junk) ne room h buffer size = push-Holds t c x line junk ne h buffer size

pub handle_key-Holds :
    (t : Terminal) (c : ℕ) (line : List ℕ)
    → c ≢ 0
    → length line < max_input
    → Holds t line
    → Holds (terminal_handle_key t c) (line ++ (c ∷ []))
unfolding terminal_handle_key
handle_key-Holds t c line ne room h =
    let open_line : leb max_input t.input_length ≡ false =
      lt→leb max_input t.input_length (omega (arith, h.count)) in
    let pushed : Terminal = record t {
      input_buffer = set (set t.input_buffer t.input_length c) (t.input_length + 1) 0;
      input_length = t.input_length + 1;
    } in
    rw open_line (
      SameInput-Holds pushed (terminal_putchar pushed c) (line ++ (c ∷ []))
        (terminal_putchar-SameInput pushed c) (push-Room t c line h.junk ne room h h.buffer h.size))

-- A key in a full line.
pub handle_key_full :
    (t : Terminal) (c : ℕ) (line : List ℕ)
    → length line ≡ max_input
    → Holds t line
    → terminal_handle_key t c ≡ t
unfolding terminal_handle_key
handle_key_full t c line full h =
    let closed : leb max_input t.input_length ≡ true = ground (arith, h.count, full) in rw closed
