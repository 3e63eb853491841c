-- ===== src/Mm/Pmm/Valid.antt =====
-- The invariant of the page allocator, and that every operation on one page keeps it.
use zenith_os.Prelude.{
  ℕ, ◌+◌, ◌≤◌, ◌<◌, ◌≡◌, ◌≢◌, refl, sym, ◌∙◌, ap, inl, inr, ◌==◌, ltb, if◌then◌else◌, ne→==, ==→eq,
  eq→==, Bool, true, false, not, ◌&&◌, ◌||◌, Bool-cases, arith,
}
use zenith_os.Mm.Bitmap
use zenith_os.Mm.Bitmap.{Bitmap}
use zenith_os.Mm.Bitmap.Laws.{
  test-set_bit, test-clear_bit, test_out, bits-set_bit, bits-clear_bit, set_bit-IsValid,
  clear_bit-IsValid,
}
use zenith_os.Mm.Pmm.{Pmm, bitmap_max_bits, mark_page_used, mark_page_free}
use zenith_os.Mm.Pmm.Count.{count_false, count_false_update, count_false-le}

-- Whether a page is in use.
abbrev pub in_use : Pmm → ℕ → Bool
in_use s page = Bitmap.test s.map page

-- The bitmap has a bit for each page, `free_pages` counts the clear ones, and page 0 is in use.
pub record IsValid (s : Pmm) : Type 0 where
  pub map_valid : Bitmap.Laws.IsValid s.map
  pub bits : s.map.bits ≡ s.total_pages
  pub fits : s.total_pages ≤ bitmap_max_bits
  pub counted : s.free_pages ≡ count_false (in_use s) s.total_pages
  pub used : s.free_pages + s.used_pages ≤ s.total_pages
  pub next_in : s.next_free_page ≤ s.total_pages
  pub zero_used : in_use s 0 ≡ true

module _ (s : Pmm) (page : ℕ) (v : IsValid s) where
  test_set : (j : ℕ) → j ≢ page → Bitmap.test (Bitmap.set_bit s.map page) j ≡ in_use s j
  test_set j ne =
      test-set_bit s.map page j v.map_valid ∙ ap (λ b. b || in_use s j) (ne→== page j (omega arith))

  test_set_self : Bitmap.test (Bitmap.set_bit s.map page) page ≡ true
  test_set_self =
      test-set_bit s.map page page v.map_valid ∙ ap (λ b. b || in_use s page) (eq→== page page refl)

  test_clear : (j : ℕ) → j ≢ page → Bitmap.test (Bitmap.clear_bit s.map page) j ≡ in_use s j
  test_clear j ne = ground (arith, test-clear_bit s.map page j v.map_valid)

  test_clear_self : page < s.total_pages → Bitmap.test (Bitmap.clear_bit s.map page) page ≡ false
  test_clear_self h = ground (arith, v.bits, test-clear_bit s.map page page v.map_valid)

  -- `pmm_mark_page_used`: the page is in use afterwards, the others are as before.
  pub in_use-mark_page_used : (j : ℕ) → in_use (mark_page_used s page) j ≡ (page == j || in_use s j)
  unfolding mark_page_used
  in_use-mark_page_used j = elim (Bool-cases (page == j)) [
    | inl e ↦ ground (
      arith,
      v.bits,
      ap (in_use s) (==→eq page j e),
      ap (Bitmap.test (Bitmap.set_bit s.map page)) (==→eq page j e),
      test_set_self,
      test_out s.map page,
    )
    | inr ne ↦ ground (arith, test_set j)
  ]

  pub mark_page_used-IsValid : IsValid (mark_page_used s page)
  unfolding mark_page_used
  mark_page_used-IsValid = ground (
    arith,
    bits-set_bit s.map page,
    set_bit-IsValid s.map page,
    count_false_update (in_use s) (Bitmap.test (Bitmap.set_bit s.map page)) page test_set
        s.total_pages,
    test_set_self,
    test-set_bit s.map page 0,
  )

  -- `pmm_mark_page_free`: a page of the map other than page 0 is free afterwards, the others are
  -- as before.
  pub in_use-mark_page_free :
      (j : ℕ)
      → in_use (mark_page_free s page) j
        ≡ (if page == j && not (page == 0) && ltb page s.total_pages then false else in_use s j)
  unfolding mark_page_free
  in_use-mark_page_free j = elim (Bool-cases (page == j)) [
    | inl e ↦ ground (
      arith,
      ap (in_use s) (==→eq page j e),
      ap (Bitmap.test (Bitmap.clear_bit s.map page)) (==→eq page j e),
      test_clear_self,
    )
    | inr ne ↦ ground (arith, test_clear j)
  ]

  pub mark_page_free-IsValid : IsValid (mark_page_free s page)
  unfolding mark_page_free
  mark_page_free-IsValid = ground (
    arith,
    bits-clear_bit s.map page,
    clear_bit-IsValid s.map page,
    count_false_update (Bitmap.test (Bitmap.clear_bit s.map page)) (in_use s) page
        (λ (j : ℕ) (ne : j ≢ page). sym (test_clear j ne)) s.total_pages,
    count_false-le (Bitmap.test (Bitmap.clear_bit s.map page)) s.total_pages,
    test_clear_self,
    test_clear 0,
  )

  pub total_pages-mark_page_used : (mark_page_used s page).total_pages ≡ s.total_pages
  unfolding mark_page_used
  total_pages-mark_page_used = ground arith

  pub total_pages-mark_page_free : (mark_page_free s page).total_pages ≡ s.total_pages
  unfolding mark_page_free
  total_pages-mark_page_free = ground arith
