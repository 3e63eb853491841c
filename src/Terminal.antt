-- ===== src/Terminal.antt =====
-- kernel/src/terminal/terminal.c: the cells of the screen, the cursor and the line that is typed.
-- `terminal_render` only draws the cells, and is left out with the origin it draws at. A cell of the
-- screen is given by its row and its column, and a character by its byte.
pub mod Scroll
pub mod Valid
mod Tests
use zenith_os.Prelude.{
  ℕ, zero, suc, ◌+◌, ◌-◌, ◌==◌, leb, ◌&&◌, if◌then◌else◌, List, [], ◌∷◌, set, replicate,
}

-- TERM_COLS and TERM_ROWS of terminal_buffer.h
abbrev pub term_cols : ℕ
term_cols = 80

abbrev pub term_rows : ℕ
term_rows = 50

abbrev pub input_buffer_size : ℕ
input_buffer_size = 256

-- `terminal_cell_t`
pub record Cell : Type 0 where
  pub character : ℕ
  pub foreground : ℕ
  pub background : ℕ

abbrev pub Screen : Type 0
Screen = ℕ → ℕ → Cell

-- The static variables.
pub record Terminal : Type 0 where
  pub cursor_row : ℕ
  pub cursor_col : ℕ
  pub input_buffer : List ℕ
  pub input_length : ℕ
  pub screen : Screen
  pub color : ℕ

-- What erasing writes.
abbrev pub blank : Cell
blank = record { character = b' '; foreground = 0xFFFFFF; background = 0 }

abbrev pub write_cell : Screen → ℕ → ℕ → Cell → Screen
write_cell s row col new r c = if (r == row) && (c == col) then new else s r c

-- The inner loop of the scroll, with `left` columns to go: a row is copied to the one above it.
unfoldable pub copy_row : ℕ → ℕ → ℕ → Screen → Screen
copy_row zero row col s = s
copy_row (suc left) row col s = copy_row left row (suc col) (write_cell s (row - 1) col (s row col))

-- The outer loop, with `left` rows to go.
unfoldable pub copy_rows : ℕ → ℕ → Screen → Screen
copy_rows zero row s = s
copy_rows (suc left) row s = copy_rows left (suc row) (copy_row term_cols row 0 s)

-- A loop that erases a row, with `left` columns to go.
unfoldable pub clear_row : ℕ → ℕ → ℕ → Screen → Screen
clear_row zero row col s = s
clear_row (suc left) row col s = clear_row left row (suc col) (write_cell s row col blank)

unfoldable pub terminal_scroll : Terminal → Terminal
terminal_scroll t = record t {
  screen = clear_row term_cols (term_rows - 1) 0 (copy_rows (term_rows - 1) 1 t.screen);
  cursor_row = term_rows - 1;
  cursor_col = 0;
}

-- The outer loop of `terminal_init`, with `left` rows to go.
unfoldable pub clear_rows : ℕ → ℕ → Screen → Screen
clear_rows zero row s = s
clear_rows (suc left) row s = clear_rows left (suc row) (clear_row term_cols row 0 s)

unfoldable pub terminal_init : Terminal → Terminal
terminal_init t = record t {
  cursor_row = 0;
  cursor_col = 0;
  color = 0xFFFFFF;
  screen = clear_rows term_rows 0 t.screen;
}

-- The cursor is on a new row, which may be behind the last one.
abbrev pub scroll_past : Terminal → Terminal
scroll_past t = if leb term_rows t.cursor_row then terminal_scroll t else t

-- Behind a character that was put.
abbrev pub advance : Terminal → Terminal
advance t =
    if leb term_cols t.cursor_col
    then scroll_past (record t { cursor_col = 0; cursor_row = t.cursor_row + 1 })
    else t

unfoldable pub terminal_putchar : Terminal → ℕ → Terminal
terminal_putchar t c =
    if c == b'\n'
    then scroll_past (record t { cursor_col = 0; cursor_row = t.cursor_row + 1 })
    else if leb term_rows t.cursor_row
    then terminal_scroll t
    else advance (record t {
      screen =
          write_cell t.screen t.cursor_row t.cursor_col
            (record { character = c; foreground = t.color; background = 0 });
      cursor_col = t.cursor_col + 1;
    })

-- The cell before the cursor is erased.
abbrev pub erase_at : Terminal → ℕ → ℕ → Terminal
erase_at t row col = record t {
  cursor_row = row;
  cursor_col = col;
  screen = write_cell t.screen row col blank;
}

unfoldable pub terminal_backspace : Terminal → Terminal
terminal_backspace t =
    if (t.cursor_row == 0) && (t.cursor_col == 0)
    then t
    else if t.cursor_col == 0
    then erase_at t (t.cursor_row - 1) (term_cols - 1)
    else erase_at t t.cursor_row (t.cursor_col - 1)

unfoldable pub terminal_write : Terminal → List ℕ → Terminal
terminal_write t [] = t
terminal_write t (c ∷ str) = terminal_write (terminal_putchar t c) str

unfoldable pub terminal_set_color : Terminal → ℕ → Terminal
terminal_set_color t color = record t { color = color }

unfoldable pub terminal_handle_key : Terminal → ℕ → Terminal
terminal_handle_key t c =
    if leb (input_buffer_size - 1) t.input_length
    then t
    else terminal_putchar
        (record t {
          input_buffer = set (set t.input_buffer t.input_length c) (t.input_length + 1) 0;
          input_length = t.input_length + 1;
        })
        c

unfoldable pub terminal_get_input : Terminal → List ℕ
terminal_get_input t = t.input_buffer
