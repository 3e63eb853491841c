-- ===== src/Terminal/Tests.antt =====
-- The theorems on terminal.c at a cursor in the middle of the screen.
use zenith_os.Prelude.{ℕ, suc, ◌<◌, ◌==◌, if◌then◌else◌, arith, replicate, ◌≡◌, ℕ}
use zenith_os.Terminal.{Terminal, blank, terminal_putchar, terminal_backspace, terminal_scroll}
use zenith_os.Terminal.Scroll.{terminal_scroll_lem}
use zenith_os.Terminal.Valid.{IsOnScreen, Erased, terminal_backspace-terminal_putchar}

-- At the end of a row.
abbrev sample : Terminal
sample = record {
  cursor_row = 3;
  cursor_col = 79;
  input_buffer = replicate 256 0;
  input_length = 0;
  screen = λ r c. blank;
  color = 0xFFFFFF;
}

sample-IsOnScreen : IsOnScreen sample
sample-IsOnScreen = record { row = omega arith; col = omega arith }

terminal_backspace-terminal_putchar_example :
    Erased sample (terminal_backspace (terminal_putchar sample b'a'))
terminal_backspace-terminal_putchar_example =
    terminal_backspace-terminal_putchar sample b'a' sample-IsOnScreen (omega arith) (omega arith)

terminal_scroll_lem_example :
    let t' = terminal_scroll sample in
    (t'.cursor_row ≡ 49)
    × (t'.cursor_col ≡ 0)
    × ((r c : ℕ)
        → r < 50
        → c < 80
        → t'.screen r c ≡ (if r == 49 then blank else sample.screen (suc r) c))
terminal_scroll_lem_example = terminal_scroll_lem sample
