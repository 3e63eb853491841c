-- ===== src/Drivers/Keyboard/Tests.antt =====
-- The theorem on keyboard.c at a few keys: `h`, its release, a backspace and `i`.
use zenith_os.Prelude.{refl, replicate, ◌≡◌, ◌∷◌, [], take, List, ℕ}
use zenith_os.Klib.String.Laws.{text}
use zenith_os.Terminal.{Terminal, blank, terminal_get_input}
use zenith_os.Drivers.Keyboard.{scancode_to_ascii, entry}
use zenith_os.Drivers.Keyboard.Typed.{
  typed, keyboard_handlers, terminal_get_input-keyboard_handlers,
}

abbrev start : Terminal
start = record {
  cursor_row = 0;
  cursor_col = 0;
  input_buffer = replicate 256 0;
  input_length = 0;
  screen = λ r c. blank;
  color = 0xFFFFFF;
}

abbrev keys : List ℕ
keys = 0x23 ∷ 0xA3 ∷ 0x0E ∷ 0x17 ∷ []

keys_give_hi : typed keys ≡ b'h' ∷ b'i' ∷ []
unfolding typed scancode_to_ascii entry
keys_give_hi = refl

terminal_get_input-keyboard_handlers_example :
    text (terminal_get_input (keyboard_handlers start keys)) ≡ take 255 (typed keys)
terminal_get_input-keyboard_handlers_example =
    terminal_get_input-keyboard_handlers start keys refl refl
