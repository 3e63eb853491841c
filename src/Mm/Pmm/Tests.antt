-- ===== src/Mm/Pmm/Tests.antt =====
-- The theorems on pmm.c at a machine of four pages, two of them free.
use zenith_os.Prelude.{
  ℕ, zero, suc, ◌^◌, ◌≤◌, ◌<◌, ◌≡◌, refl, not, ◌||◌, leb, none, some, List, [], ◌∷◌, replicate, All,
  length-replicate, arith,
}
use zenith_os.Mm.Bitmap.{test, has_bit, set_bit, or_bit}
use zenith_os.Mm.Bitmap.Laws.{IsByte}
use zenith_os.Mm.Pmm.{
  Pmm, bitmap_max_size, bitmap_max_bits, alloc_page, scan, take_page, mark_page_used, seek,
  seek_next_free_page,
}
use zenith_os.Mm.Pmm.Init.{Entry, TypeCodes, init, reset, count_entries, count_entry, size_bitmap}
use zenith_os.Mm.Pmm.Count.{count_false}
use zenith_os.Mm.Pmm.Valid.{in_use, IsValid}
use zenith_os.Mm.Pmm.Alloc.{Allocated, NextFree, alloc_page-some}
use zenith_os.Mm.Pmm.Boot.{covered_by}
use zenith_os.Mm.Pmm.Initial.{reserved, sized, init-free}

-- Pages 0 and 1 are in use, 2 and 3 are free.
abbrev four_pages : Pmm
four_pages = record {
  total_memory = 16384;
  usable_memory = 16384;
  reserved_memory = 0;
  highest_address = 16384;
  highest_physical_address = 16384;
  bitmap_size = 1;
  total_pages = 4;
  free_pages = 2;
  used_pages = 2;
  next_free_page = 3;
  map = record { bytes = 3 ∷ []; bits = 4 };
}

four_pages-IsValid : IsValid four_pages
unfolding test has_bit count_false
four_pages-IsValid = record {
  map_valid = record { room = omega arith; are_bytes = (omega arith, tt) };
  bits = refl;
  fits = omega arith;
  counted = refl;
  used = omega arith;
  next_in = omega arith;
  zero_used = refl;
}

alloc_page-some_example :
    (p : ℕ) × Allocated four_pages p (alloc_page four_pages) × NextFree four_pages p
alloc_page-some_example = alloc_page-some four_pages four_pages-IsValid (omega arith)

abbrev after_one : Pmm
after_one = (alloc_page four_pages).1

alloc_returns : (alloc_page four_pages).0 ≡ some 12288
unfolding alloc_page scan take_page test has_bit
alloc_returns = refl

alloc_returns_next : (alloc_page after_one).0 ≡ some 8192
unfolding alloc_page scan take_page test has_bit mark_page_used set_bit or_bit seek
    seek_next_free_page
alloc_returns_next = refl

abbrev codes : TypeCodes
codes = record {
  usable = 0;
  bootloader_reclaimable = 5;
  executable_and_modules = 6;
  framebuffer = 7;
}

abbrev memory_map : List Entry
memory_map =
    record { base = 0; length = 16384; type = 0 }
    ∷ record { base = 8192; length = 4096; type = 5 }
    ∷ []

abbrev huge_map : List Entry
huge_map = record { base = 0; length = 2 ^ 40; type = 0 } ∷ []

replicate-bytes : (n : ℕ) → All IsByte (replicate n 0)
replicate-bytes zero = tt
replicate-bytes (suc n) = (omega arith, replicate-bytes n)

map_fits : (sized codes memory_map none four_pages).total_pages ≤ bitmap_max_bits
unfolding size_bitmap count_entries count_entry reset
map_fits = omega arith

map_too_large : bitmap_max_bits < (sized codes huge_map none four_pages).total_pages
unfolding size_bitmap count_entries count_entry reset
map_too_large = omega arith

init-free_example :
    let r = init codes (replicate bitmap_max_size 0) memory_map none four_pages in
    IsValid r
    × (r.total_pages ≡ (sized codes memory_map none four_pages).total_pages)
    × ((j : ℕ)
        → in_use r j ≡ (
            leb r.total_pages j
            || reserved codes memory_map none j
            || not (covered_by 0 memory_map j)))
init-free_example =
    init-free codes memory_map none four_pages (replicate bitmap_max_size 0)
      (replicate-bytes bitmap_max_size) (length-replicate {A = ℕ} bitmap_max_size 0) map_fits
