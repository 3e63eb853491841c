-- ===== src/Mm/Pmm/Initial.antt =====
-- `pmm_init` of pmm.c as a whole: the pages that are free after it.
use zenith_os.Prelude.{
  ℕ, ◌≤◌, ◌<◌, ◌≡◌, refl, sym, ◌∙◌, Bool, true, false, not, ◌||◌, Option, none, List, [], ◌∷◌,
  arith, ltb, leb, ◌==◌, if◌then◌else◌, length, All,
}
use zenith_os.Mm.Bitmap
use zenith_os.Mm.Bitmap.Laws.{IsByte, test_out, init-IsValid, test-init}
use zenith_os.Mm.Pmm.{
  Pmm, page_size, bitmap_max_size, bitmap_max_bits, region_page_count, reserve_region,
  seek_next_free_page, ltb, alloc_page,
}
use zenith_os.Mm.Pmm.Init.{
  Entry, TypeCodes, reserve_memmap_type, mark_usable, reset, count_entry, count_entries,
  size_bitmap, reserve_kernel, mark_memory, init,
}
use zenith_os.Mm.Pmm.Count.{count_false_zero}
use zenith_os.Mm.Pmm.Valid.{IsValid, in_use}
use zenith_os.Mm.Pmm.Alloc.{seek_next_free_page-IsValid, alloc_page-none}
use zenith_os.Mm.Pmm.Boot.{
  covered_by, covered_by_kernel, Changes, reserve_region-Changes, reserve_memmap_type-Changes,
  mark_usable-Changes, reserve_kernel-Changes,
}

module _ (types : TypeCodes) (entries : List Entry) (kernel : Option (ℕ × ℕ)) where
  -- What `pmm_init` reserves: page 0, the kernel image, and the three types of entries.
  abbrev pub reserved : ℕ → Bool
  reserved j =
      covered_by types.framebuffer entries j
      || covered_by types.executable_and_modules entries j
      || covered_by types.bootloader_reclaimable entries j
      || covered_by_kernel kernel j
      || j == 0

  mark_memory-Changes :
      (s : Pmm)
      → IsValid s
      → Changes
          (λ j b. reserved j || (if covered_by types.usable entries j then false else b))
          s
          (mark_memory types entries kernel s)
  unfolding mark_memory seek_next_free_page region_page_count
  mark_memory-Changes s v =
      let c1 = mark_usable-Changes entries types.usable s v in
      let s1 = mark_usable types.usable entries s in
      let c2 = reserve_region-Changes s1 c1.valid 0 page_size in
      let s2 = reserve_region s1 0 page_size in
      let c3 = reserve_kernel-Changes kernel s2 c2.valid in
      let s3 = reserve_kernel kernel s2 in
      let c4 = reserve_memmap_type-Changes entries types.bootloader_reclaimable s3 c3.valid in
      let s4 = reserve_memmap_type entries types.bootloader_reclaimable s3 in
      let c5 = reserve_memmap_type-Changes entries types.executable_and_modules s4 c4.valid in
      let s5 = reserve_memmap_type entries types.executable_and_modules s4 in
      let c6 = reserve_memmap_type-Changes entries types.framebuffer s5 c5.valid in
      let s6 = reserve_memmap_type entries types.framebuffer s5 in
      record {
        valid = seek_next_free_page-IsValid s6 c6.valid;
        same_total =
            c6.same_total ∙ c5.same_total ∙ c4.same_total ∙ c3.same_total ∙ c2.same_total
            ∙ c1.same_total;
        bits = λ j h. ground (
          arith,
          c1.bits j h,
          c2.bits j (omega (arith, c1.same_total)),
          c3.bits j (omega (arith, c1.same_total, c2.same_total)),
          c4.bits j (omega (arith, c1.same_total, c2.same_total, c3.same_total)),
          c5.bits j (omega (arith, c1.same_total, c2.same_total, c3.same_total, c4.same_total)),
          c6.bits j (
              omega
                (arith, c1.same_total, c2.same_total, c3.same_total, c4.same_total, c5.same_total)),
        );
      }

  -- The state before any page is marked: every bit is set and no page is counted.
  used_map-IsValid :
      (buffer : List ℕ) (s : Pmm)
      → All IsByte buffer
      → length buffer ≡ bitmap_max_size
      → s.total_pages ≤ bitmap_max_bits
      → s.free_pages ≡ 0
      → s.used_pages ≡ 0
      → s.next_free_page ≡ 0
      → IsValid (record s { map = Bitmap.init buffer s.total_pages })
  unfolding Bitmap.init
  used_map-IsValid buffer s bytes size fits f u n = record {
    map_valid = init-IsValid buffer s.total_pages bytes (omega arith);
    bits = refl;
    fits = fits;
    counted =
        f
        ∙ sym (
            count_false_zero _ s.total_pages
              (λ j h. test-init buffer s.total_pages j (omega arith)));
    used = omega arith;
    next_in = omega arith;
    zero_used = test-init buffer s.total_pages 0 (omega arith);
  }

-- The counters are still those of `reset` when the map is sized.
count_entries-counters :
    (usable : ℕ) (es : List Entry) (s : Pmm)
    → ((count_entries usable es s).free_pages ≡ s.free_pages)
      × ((count_entries usable es s).used_pages ≡ s.used_pages)
      × ((count_entries usable es s).next_free_page ≡ s.next_free_page)
unfolding count_entries count_entry
count_entries-counters usable [] s = (refl, refl, refl)
count_entries-counters usable (e ∷ es) s = count_entries-counters usable es (count_entry usable e s)

module _ (types : TypeCodes) (entries : List Entry) (kernel : Option (ℕ × ℕ)) (s : Pmm) where
  -- The state in which `pmm_init` decides whether the bitmap is large enough.
  abbrev pub sized : Pmm
  sized = size_bitmap (count_entries types.usable entries (reset s))

  sized-counters : (sized.free_pages ≡ 0) × (sized.used_pages ≡ 0) × (sized.next_free_page ≡ 0)
  unfolding size_bitmap reset
  sized-counters = count_entries-counters types.usable entries (reset s)

  fits→no_exit :
      sized.total_pages ≤ bitmap_max_bits
      → (ltb bitmap_max_size sized.bitmap_size || ltb bitmap_max_bits sized.total_pages) ≡ false
  unfolding size_bitmap
  fits→no_exit h = ground arith

  -- If the buffer holds PMM_BITMAP_MAX_SIZE bytes and has a bit for each page of the memory map,
  -- `pmm_init` ends in a valid state, in which a page of the map is free exactly when a usable entry
  -- covers it and nothing that is reserved does.
  pub init-free :
      (buffer : List ℕ)
      → All IsByte buffer
      → length buffer ≡ bitmap_max_size
      → sized.total_pages ≤ bitmap_max_bits
      → let r = init types buffer entries kernel s in
        IsValid r
        × (r.total_pages ≡ sized.total_pages)
        × ((j : ℕ)
            → in_use r j ≡ (
                leb r.total_pages j
                || reserved types entries kernel j
                || not (covered_by types.usable entries j)))
  unfolding init
  init-free buffer bytes size fits = rw (fits→no_exit fits) (
      let start = record (sized) { map = Bitmap.init buffer sized.total_pages } in
      let v =
        used_map-IsValid types entries kernel buffer sized bytes size fits sized-counters.0
          sized-counters.1 sized-counters.2 in
      let c = mark_memory-Changes types entries kernel start v in
      (
        c.valid,
        c.same_total,
        λ j. ground (
          arith,
          c.same_total,
          c.valid.bits,
          c.bits j,
          test_out (mark_memory types entries kernel start).map j,
          test-init buffer sized.total_pages j,
        ),
      ))

  -- A memory map that is too large for the bitmap leaves an allocator that has no page to give.
  pub init_too_large :
      (buffer : List ℕ)
      → bitmap_max_bits < sized.total_pages
      → let r = init types buffer entries kernel s in alloc_page r ≡ (none, r)
  unfolding init
  init_too_large buffer h =
      let exit : (ltb bitmap_max_size sized.bitmap_size || ltb bitmap_max_bits sized.total_pages)
          ≡ true =
        ground arith in
      rw exit (alloc_page-none sized sized-counters.0)
