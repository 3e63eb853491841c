-- ===== src/Terminal/Valid.antt =====
-- About the cursor of terminal.c.
use zenith_os.Prelude.{
  ℕ, suc, ◌+◌, ◌*◌, ◌-◌, ◌<◌, ◌==◌, ◌&&◌, leb, List, [], ◌∷◌, if◌then◌else◌, ◌≡◌, refl, sym, ◌≢◌,
  ◌⊎◌, inl, inr, arith, Bool-cases, eq→==, ne→==, lt→leb, subst, false, ap₂,
}
use zenith_os.Terminal.{
  term_cols, term_rows, Cell, Terminal, blank, write_cell, terminal_scroll, terminal_putchar,
  terminal_backspace, terminal_write, scroll_past, advance, erase_at,
}

-- The cursor is on the screen.
pub record IsOnScreen (t : Terminal) : Type 0 where
  pub row : t.cursor_row < term_rows
  pub col : t.cursor_col < term_cols

scroll_past-IsOnScreen : (t : Terminal) → t.cursor_col < term_cols → IsOnScreen (scroll_past t)
unfolding terminal_scroll
scroll_past-IsOnScreen t h = elim (Bool-cases (leb term_rows t.cursor_row)) [
  | inl e ↦ rw e (record { row = omega arith; col = omega arith })
  | inr e ↦ rw e (record { row = ground (arith, e); col = h })
]

advance-IsOnScreen : (t : Terminal) → t.cursor_row < term_rows → IsOnScreen (advance t)
advance-IsOnScreen t h = elim (Bool-cases (leb term_cols t.cursor_col)) [
  | inl e ↦ rw e (
      scroll_past-IsOnScreen (record t { cursor_col = 0; cursor_row = t.cursor_row + 1 })
        (omega arith))
  | inr e ↦ rw e (record { row = h; col = ground (arith, e) })
]

pub terminal_putchar-IsOnScreen :
    (t : Terminal) (c : ℕ) → IsOnScreen t → IsOnScreen (terminal_putchar t c)
unfolding terminal_putchar terminal_scroll
terminal_putchar-IsOnScreen t c is = elim (Bool-cases (c == b'\n')) [
  | inl e ↦ rw e (
      scroll_past-IsOnScreen (record t { cursor_col = 0; cursor_row = t.cursor_row + 1 })
        (omega arith))
  | inr e ↦ elim (Bool-cases (leb term_rows t.cursor_row)) [
    | inl f ↦ rw (e, f) (record { row = omega arith; col = omega arith })
    | inr f ↦
        rw (e, f)
          (advance-IsOnScreen
            (record t {
              screen =
                  write_cell t.screen t.cursor_row t.cursor_col
                    (record { character = c; foreground = t.color; background = 0 });
              cursor_col = t.cursor_col + 1;
            })
            is.row)
  ]
]

-- `terminal_write` of a string of any length leaves the cursor on the screen if it was there.
pub terminal_write-IsOnScreen :
    (t : Terminal) (str : List ℕ) → IsOnScreen t → IsOnScreen (terminal_write t str)
unfolding terminal_write
terminal_write-IsOnScreen t [] is = is
terminal_write-IsOnScreen t (c ∷ str) is =
    terminal_write-IsOnScreen (terminal_putchar t c) str (terminal_putchar-IsOnScreen t c is)

-- Erasing goes to the cell before the cursor.
pub terminal_backspace_lem :
    (t : Terminal)
    → IsOnScreen t
    → (terminal_backspace t ≡ t)
      ⊎ ((row : ℕ) × (col : ℕ) × (terminal_backspace t ≡ erase_at t row col)
          × (row < term_rows)
          × (col < term_cols)
          × (row * term_cols + col + 1 ≡ t.cursor_row * term_cols + t.cursor_col))
unfolding terminal_backspace
terminal_backspace_lem t is =
    let in_row = is.row in
    let in_col = is.col in
    elim (Bool-cases ((t.cursor_row == 0) && (t.cursor_col == 0))) [
      | inl e ↦ inl (rw e refl)
      | inr e ↦ elim (Bool-cases (t.cursor_col == 0)) [
        | inl f ↦ inr (
          t.cursor_row - 1,
          term_cols - 1,
          rw (e, f) refl,
          omega arith,
          omega arith,
          ground (arith, e, f),
        )
        | inr f ↦
            inr (
              t.cursor_row,
              t.cursor_col - 1,
              rw (e, f) refl,
              in_row,
              omega arith,
              ground (arith, f),
            )
      ]
    ]

pub terminal_backspace-IsOnScreen :
    (t : Terminal) → IsOnScreen t → IsOnScreen (terminal_backspace t)
terminal_backspace-IsOnScreen t is = elim (terminal_backspace_lem t is) [
  | inl e ↦ subst IsOnScreen (sym e) is
  | inr (row, col, e, r, c, n) ↦ subst IsOnScreen (sym e) (record { row = r; col = c })
]

putchar_plain :
    (t : Terminal) (c : ℕ)
    → c ≢ b'\n'
    → IsOnScreen t
    → terminal_putchar t c
      ≡ advance (record t {
        screen =
            write_cell t.screen t.cursor_row t.cursor_col
              (record { character = c; foreground = t.color; background = 0 });
        cursor_col = t.cursor_col + 1;
      })
unfolding terminal_putchar
putchar_plain t c ne is = rw (ne→== c b'\n' ne, lt→leb term_rows t.cursor_row is.row)

back_same_row :
    (t : Terminal) (row col : ℕ)
    → t.cursor_row ≡ row
    → t.cursor_col ≡ suc col
    → terminal_backspace t ≡ erase_at t row col
unfolding terminal_backspace
back_same_row t row col e f =
    let other : (t.cursor_row == 0) && (t.cursor_col == 0) ≡ false = ground (arith, f) in
    rw (other, ne→== t.cursor_col 0 (omega (arith, f))) (ap₂ (erase_at t) e (omega (arith, f)))

back_next_row :
    (t : Terminal) (row col : ℕ)
    → t.cursor_row ≡ suc row
    → t.cursor_col ≡ 0
    → suc col ≡ term_cols
    → terminal_backspace t ≡ erase_at t row col
unfolding terminal_backspace
back_next_row t row col e f g =
    let other : (t.cursor_row == 0) && (t.cursor_col == 0) ≡ false = ground (arith, e) in
    rw (other, eq→== t.cursor_col 0 f) (ap₂ (erase_at t) (omega (arith, e)) (omega (arith, g)))

-- The cursor is back, the cell there is blank, and all else is as before.
abbrev pub Erased : Terminal → Terminal → Type 0
Erased t t' =
    (t'.cursor_row ≡ t.cursor_row)
    × (t'.cursor_col ≡ t.cursor_col)
    × ((r c : ℕ)
        → t'.screen r c
          ≡ (if (r == t.cursor_row) && (c == t.cursor_col) then blank else t.screen r c))

erase_at-Erased :
    (t : Terminal) (row col : ℕ) (new : Cell)
    → Erased t (
        erase_at
          (record t {
            screen = write_cell t.screen t.cursor_row t.cursor_col new;
            cursor_row = row;
            cursor_col = col;
          })
          t.cursor_row
          t.cursor_col)
erase_at-Erased t row col new = (
  refl,
  refl,
  λ r c. elim (Bool-cases ((r == t.cursor_row) && (c == t.cursor_col))) [
    | inl e ↦ rw e refl
    | inr e ↦ rw e refl
  ],
)

-- `terminal_backspace` takes back what `terminal_putchar` of a character other than '\n' did, unless
-- the cursor is off the screen or on its last cell, where `terminal_putchar` scrolls: the cursor is
-- where it was, its cell is blank, and the other cells are as they were.
pub terminal_backspace-terminal_putchar :
    (t : Terminal) (c : ℕ)
    → IsOnScreen t
    → c ≢ b'\n'
    → t.cursor_row * term_cols + t.cursor_col + 1 < term_rows * term_cols
    → Erased t (terminal_backspace (terminal_putchar t c))
terminal_backspace-terminal_putchar t c is ne room =
    let new : Cell = record { character = c; foreground = t.color; background = 0 } in
    let put : Terminal = record t {
      screen = write_cell t.screen t.cursor_row t.cursor_col new;
      cursor_col = t.cursor_col + 1;
    } in
    let in_col = is.col in
    subst (λ u. Erased t (terminal_backspace u)) (sym (putchar_plain t c ne is))
      (elim (Bool-cases (leb term_cols put.cursor_col)) [
        | inl e ↦
            let last : suc t.cursor_col ≡ term_cols = ground (arith, e) in
            let above : leb term_rows (t.cursor_row + 1) ≡ false = ground (arith, last) in
            let next : Terminal = record put { cursor_row = t.cursor_row + 1; cursor_col = 0 } in
            rw (e, above)
              (subst (Erased t)
                (sym (back_next_row next t.cursor_row t.cursor_col (omega arith) refl last))
                (erase_at-Erased t (t.cursor_row + 1) 0 new))
        | inr e ↦ rw e (
            subst (Erased t) (sym (back_same_row put t.cursor_row t.cursor_col refl (omega arith)))
              (erase_at-Erased t t.cursor_row (t.cursor_col + 1) new))
      ])
