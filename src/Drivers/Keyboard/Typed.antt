-- ===== src/Drivers/Keyboard/Typed.antt =====
-- About the characters that the keyboard leaves in the input buffer of terminal.c.
use zenith_os.Prelude.{
  ℕ, ◌-◌, ◌==◌, not, List, [], ◌∷◌, ◌++◌, if◌then◌else◌, ◌≡◌, refl, sym, ap, ◌∙◌, ◌≢◌, subst, inl,
  inr, arith, Bool-cases, ==→eq, ==→ne, length, take, replicate, bit_and,
}
use zenith_os.Klib.String.Laws.{text}
use zenith_os.Terminal.{
  Terminal, terminal_backspace, terminal_handle_key, terminal_get_input, input_buffer_size,
}
use zenith_os.Drivers.Keyboard.{scancode_to_ascii, handle_char, keyboard_handler}
use zenith_os.Drivers.Keyboard.Line.{
  max_input, take_all, take_exact, snoc-append, text-string, Holds, SameInput-Holds,
  terminal_backspace-SameInput, handle_key-Holds, handle_key_full,
}

-- The interrupts of the keyboard, one after the other.
unfoldable pub keyboard_handlers : Terminal → List ℕ → Terminal
keyboard_handlers t [] = t
keyboard_handlers t (scancode ∷ scancodes) =
    keyboard_handlers (keyboard_handler t scancode) scancodes

-- The characters of the keys that were pressed, without '\b' and the keys that have none.
unfoldable pub typed : List ℕ → List ℕ
typed [] = []
typed (scancode ∷ scancodes) =
    let c = scancode_to_ascii scancode in
    let rest = typed scancodes in
    if not (bit_and scancode 0x80 == 0)
    then rest
    else if c == 8
    then rest
    else if c == 0
    then rest
    else c ∷ rest

-- After one character and then others.
after_key :
    (t : Terminal) (c : ℕ) (line rest : List ℕ)
    → c ≢ 0
    → Holds t line
    → (line' : List ℕ) × Holds (terminal_handle_key t c) line'
      × (take max_input (line' ++ rest) ≡ take max_input (line ++ (c ∷ rest)))
after_key t c line rest ne h = elim (Bool-cases (length line == max_input)) [
  | inl e ↦
      let full = ==→eq (length line) max_input e in
      (
        line,
        subst (λ u. Holds u line) (sym (handle_key_full t c line full h)) h,
        take_exact max_input line rest full ∙ sym (take_exact max_input line (c ∷ rest) full),
      )
  | inr e ↦
      let other = ==→ne (length line) max_input e in
      (
        line ++ (c ∷ []),
        handle_key-Holds t c line ne (omega (arith, other, h.size)) h,
        ap (take max_input) (snoc-append line c rest),
      )
]

-- After one interrupt.
after_handler :
    (t : Terminal) (scancode : ℕ) (scancodes line : List ℕ)
    → Holds t line
    → (line' : List ℕ) × Holds (keyboard_handler t scancode) line'
      × (take max_input (line' ++ typed scancodes)
          ≡ take max_input (line ++ typed (scancode ∷ scancodes)))
unfolding keyboard_handler handle_char typed
after_handler t scancode scancodes line h =
    let c = scancode_to_ascii scancode in
    elim (Bool-cases (not (bit_and scancode 0x80 == 0))) [
      | inl e ↦ rw e (line, h, refl)
      | inr e ↦ elim (Bool-cases (c == 8)) [
        | inl f ↦
            rw (e, f)
              (
                line,
                SameInput-Holds t (terminal_backspace t) line (terminal_backspace-SameInput t) h,
                refl,
              )
        | inr f ↦ elim (Bool-cases (c == 0)) [
          | inl g ↦ rw (e, f, g) (line, h, refl)
          | inr g ↦ rw (e, f, g) (after_key t c line (typed scancodes) (==→ne c 0 g) h)
        ]
      ]
    ]

handlers-Holds :
    (t : Terminal) (scancodes line : List ℕ)
    → Holds t line
    → (line' : List ℕ) × Holds (keyboard_handlers t scancodes) line'
      × (line' ≡ take max_input (line ++ typed scancodes))
unfolding keyboard_handlers
handlers-Holds t [] line h =
    (line, h, unfold typed in sym (take_all max_input line (omega (arith, h.size))))
handlers-Holds t (scancode ∷ scancodes) line h =
    let (next, held, same) = after_handler t scancode scancodes line h in
    let (last, holds, is) = handlers-Holds (keyboard_handler t scancode) scancodes next held in
    (last, holds, is ∙ same)

-- From an empty input buffer, after any number of keyboard interrupts the string that
-- `terminal_get_input` returns is the first 255 of the characters of the keys that were pressed;
-- keys without a character, releases of keys and backspaces count for nothing.
pub terminal_get_input-keyboard_handlers :
    (t : Terminal) (scancodes : List ℕ)
    → t.input_buffer ≡ replicate input_buffer_size 0
    → t.input_length ≡ 0
    → text (terminal_get_input (keyboard_handlers t scancodes))
      ≡ take (input_buffer_size - 1) (typed scancodes)
unfolding terminal_get_input
terminal_get_input-keyboard_handlers t scancodes empty start =
    let first : Holds t [] = record {
      junk = replicate max_input 0;
      buffer = empty;
      size = refl;
      count = start;
      no_nul = tt;
    } in
    let (line, holds, is) = handlers-Holds t scancodes [] first in
    ap text holds.buffer ∙ text-string line holds.junk holds.no_nul ∙ is
