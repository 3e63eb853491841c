-- ===== src/Terminal/Scroll.antt =====
-- About the loops of terminal.c over the cells of the screen.
use zenith_os.Prelude.{
  ℕ, zero, suc, ◌+◌, ◌-◌, ◌≤◌, ◌<◌, ◌==◌, if◌then◌else◌, ◌≡◌, refl, sym, ap, ◌∙◌, ◌≢◌, ◌⊎◌, inl,
  inr, arith, Bool-cases, eq→==, ne→==, ==→eq, ==→ne,
}
use zenith_os.Terminal.{
  term_cols, term_rows, Cell, Screen, Terminal, blank, write_cell, copy_row, copy_rows, clear_row,
  terminal_scroll,
}

module _ (s : Screen) (row col : ℕ) (new : Cell) where
  pub write_cell_self : write_cell s row col new row col ≡ new
  write_cell_self = rw (eq→== row row refl, eq→== col col refl)

  pub write_cell_other : (r c : ℕ) → (r ≢ row) ⊎ (c ≢ col) → write_cell s row col new r c ≡ s r c
  write_cell_other r c (inl ne) = rw (ne→== r row ne)
  write_cell_other r c (inr ne) = elim (Bool-cases (r == row)) [
    | inl e ↦ rw (e, ne→== c col ne)
    | inr e ↦ rw e refl
  ]

copy_row_kept :
    (left row col : ℕ) (s : Screen) (r c : ℕ)
    → (r ≢ row - 1) ⊎ (c < col)
    → copy_row left row col s r c ≡ s r c
unfolding copy_row
copy_row_kept zero row col s r c h = refl
copy_row_kept (suc left) row col s r c (inl h) =
    copy_row_kept left row (suc col) (write_cell s (row - 1) col (s row col)) r c (inl h)
    ∙ write_cell_other s (row - 1) col (s row col) r c (inl h)
copy_row_kept (suc left) row col s r c (inr h) =
    copy_row_kept left row (suc col) (write_cell s (row - 1) col (s row col)) r c
      (inr (omega arith))
    ∙ write_cell_other s (row - 1) col (s row col) r c (inr (omega arith))

copy_row_moved :
    (left row col : ℕ) (s : Screen) (r c : ℕ)
    → suc r ≡ row
    → col ≤ c
    → c < col + left
    → copy_row left row col s r c ≡ s row c
unfolding copy_row
copy_row_moved zero row col s r c e h k = absurd (omega arith)
copy_row_moved (suc left) row col s r c e h k =
    let at : r ≡ row - 1 = omega arith in
    elim (Bool-cases (c == col)) [
      | inl same ↦
          let here : c ≡ col = ==→eq c col same in
          copy_row_kept left row (suc col) (write_cell s (row - 1) col (s row col)) r c
            (inr (omega arith))
          ∙ rw (at, here) (write_cell_self s (row - 1) col (s row col))
      | inr other ↦
          let there : c ≢ col = ==→ne c col other in
          copy_row_moved left row (suc col) (write_cell s (row - 1) col (s row col)) r c e
            (omega arith) (omega arith)
          ∙ write_cell_other s (row - 1) col (s row col) row c (inr there)
    ]

copy_rows_kept :
    (left row : ℕ) (s : Screen) (r c : ℕ)
    → (suc r < row) ⊎ (row + left ≤ suc r)
    → 0 < row
    → copy_rows left row s r c ≡ s r c
unfolding copy_rows
copy_rows_kept zero row s r c h z = refl
copy_rows_kept (suc left) row s r c (inl h) z =
    copy_rows_kept left (suc row) (copy_row term_cols row 0 s) r c (inl (omega arith)) (omega arith)
    ∙ copy_row_kept term_cols row 0 s r c (inl (omega arith))
copy_rows_kept (suc left) row s r c (inr h) z =
    copy_rows_kept left (suc row) (copy_row term_cols row 0 s) r c (inr (omega arith)) (omega arith)
    ∙ copy_row_kept term_cols row 0 s r c (inl (omega arith))

copy_rows_moved :
    (left row : ℕ) (s : Screen) (r c : ℕ)
    → 0 < row
    → row ≤ suc r
    → suc r < row + left
    → c < term_cols
    → copy_rows left row s r c ≡ s (suc r) c
unfolding copy_rows
copy_rows_moved zero row s r c z h k w = absurd (omega arith)
copy_rows_moved (suc left) row s r c z h k w = elim (Bool-cases (suc r == row)) [
  | inl same ↦
      let here : suc r ≡ row = ==→eq (suc r) row same in
      copy_rows_kept left (suc row) (copy_row term_cols row 0 s) r c (inl (omega arith))
        (omega arith)
      ∙ copy_row_moved term_cols row 0 s r c here (omega arith) (omega arith)
      ∙ ap (λ k. s k c) (sym here)
  | inr other ↦
      let there : suc r ≢ row = ==→ne (suc r) row other in
      copy_rows_moved left (suc row) (copy_row term_cols row 0 s) r c (omega arith) (omega arith)
        (omega arith) w
      ∙ copy_row_kept term_cols row 0 s (suc r) c (inl (omega arith))
]

clear_row_kept :
    (left row col : ℕ) (s : Screen) (r c : ℕ)
    → (r ≢ row) ⊎ (c < col)
    → clear_row left row col s r c ≡ s r c
unfolding clear_row
clear_row_kept zero row col s r c h = refl
clear_row_kept (suc left) row col s r c (inl h) =
    clear_row_kept left row (suc col) (write_cell s row col blank) r c (inl h)
    ∙ write_cell_other s row col blank r c (inl h)
clear_row_kept (suc left) row col s r c (inr h) =
    clear_row_kept left row (suc col) (write_cell s row col blank) r c (inr (omega arith))
    ∙ write_cell_other s row col blank r c (inr (omega arith))

clear_row_cleared :
    (left row col : ℕ) (s : Screen) (c : ℕ)
    → col ≤ c
    → c < col + left
    → clear_row left row col s row c ≡ blank
unfolding clear_row
clear_row_cleared zero row col s c h k = absurd (omega arith)
clear_row_cleared (suc left) row col s c h k = elim (Bool-cases (c == col)) [
  | inl same ↦
      let here : c ≡ col = ==→eq c col same in
      clear_row_kept left row (suc col) (write_cell s row col blank) row c (inr (omega arith))
      ∙ rw here (write_cell_self s row col blank)
  | inr other ↦
      let there : c ≢ col = ==→ne c col other in
      clear_row_cleared left row (suc col) (write_cell s row col blank) c (omega arith)
        (omega arith)
]

-- After a scroll every row of the screen shows what the row below it showed, and the last row is
-- blank; the cursor is at the start of the last row.
pub terminal_scroll_lem :
    (t : Terminal)
    → let t' = terminal_scroll t in
      (t'.cursor_row ≡ term_rows - 1)
      × (t'.cursor_col ≡ 0)
      × ((r c : ℕ)
          → r < term_rows
          → c < term_cols
          → t'.screen r c ≡ (if r == term_rows - 1 then blank else t.screen (suc r) c))
unfolding terminal_scroll
terminal_scroll_lem t = (refl, refl, shown)
  where
    moved : Screen
    moved = copy_rows (term_rows - 1) 1 t.screen

    shown :
        (r c : ℕ)
        → r < term_rows
        → c < term_cols
        → clear_row term_cols (term_rows - 1) 0 moved r c
          ≡ (if r == term_rows - 1 then blank else t.screen (suc r) c)
    shown r c h k = elim (Bool-cases (r == term_rows - 1)) [
      | inl last ↦
          let at : r ≡ term_rows - 1 = ==→eq r (term_rows - 1) last in
          rw last (
            rw at
              (clear_row_cleared term_cols (term_rows - 1) 0 moved c (omega arith) (omega arith)))
      | inr above ↦
          let at : r ≢ term_rows - 1 = ==→ne r (term_rows - 1) above in
          rw above (
            clear_row_kept term_cols (term_rows - 1) 0 moved r c (inl at)
            ∙ copy_rows_moved (term_rows - 1) 1 t.screen r c (omega arith) (omega arith)
                (omega arith) k)
    ]
