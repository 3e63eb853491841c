-- ===== src/Drivers/Keyboard.antt =====
-- kernel/src/drivers/keyboard.c and scancode.c: from a scancode to the terminal. The byte that `inb`
-- reads from the keyboard is an argument of the handler.
pub mod Line
pub mod Typed
mod Tests
use zenith_os.Prelude.{ℕ, ◌==◌, leb, not, bit_and, if◌then◌else◌, List, [], ◌∷◌}
use zenith_os.Terminal.{Terminal, terminal_backspace, terminal_handle_key}

-- The initialisers of `scancode_table`.
abbrev pub scancode_table : List (ℕ × ℕ)
scancode_table =
    (0x02, b'1')
    ∷ (0x03, b'2')
    ∷ (0x04, b'3')
    ∷ (0x05, b'4')
    ∷ (0x06, b'5')
    ∷ (0x07, b'6')
    ∷ (0x08, b'7')
    ∷ (0x09, b'8')
    ∷ (0x0A, b'9')
    ∷ (0x0B, b'0')
    ∷ (0x10, b'q')
    ∷ (0x11, b'w')
    ∷ (0x12, b'e')
    ∷ (0x13, b'r')
    ∷ (0x14, b't')
    ∷ (0x15, b'y')
    ∷ (0x16, b'u')
    ∷ (0x17, b'i')
    ∷ (0x18, b'o')
    ∷ (0x19, b'p')
    ∷ (0x1E, b'a')
    ∷ (0x1F, b's')
    ∷ (0x20, b'd')
    ∷ (0x21, b'f')
    ∷ (0x22, b'g')
    ∷ (0x23, b'h')
    ∷ (0x24, b'j')
    ∷ (0x25, b'k')
    ∷ (0x26, b'l')
    ∷ (0x2C, b'z')
    ∷ (0x2D, b'x')
    ∷ (0x2E, b'c')
    ∷ (0x2F, b'v')
    ∷ (0x30, b'b')
    ∷ (0x31, b'n')
    ∷ (0x32, b'm')
    ∷ (0x39, b' ')
    ∷ (0x1C, b'\n')
    ∷ (0x0E, 8)
    ∷ []

-- The entry of a table of initialisers; what has none is 0.
unfoldable pub entry : List (ℕ × ℕ) → ℕ → ℕ
entry [] i = 0
entry ((k, c) ∷ table) i = if i == k then c else entry table i

unfoldable pub scancode_to_ascii : ℕ → ℕ
scancode_to_ascii scancode = if leb 128 scancode then 0 else entry scancode_table scancode

-- The part of the handler that has a character; '\b' is 8.
unfoldable pub handle_char : Terminal → ℕ → Terminal
handle_char t c =
    if c == 8 then terminal_backspace t else if not (c == 0) then terminal_handle_key t c else t

unfoldable pub keyboard_handler : Terminal → ℕ → Terminal
keyboard_handler t scancode =
    if not (bit_and scancode 0x80 == 0) then t else handle_char t (scancode_to_ascii scancode)
