-- ===== src/Mm/Pmm/Init.antt =====
-- `pmm_init` of pmm.c: the memory map of the boot loader becomes the first state. What the boot
-- loader and the linker provide is an argument: the list of entries, the four type codes of
-- limine.h that the code tests for, and the place and size of the kernel.
use zenith_os.Prelude.{
  ℕ, ◌-◌, ◌/◌, ◌==◌, ltb, if◌then◌else◌, ◌||◌, Option, none, some, List, [], ◌∷◌,
}
use zenith_os.Mm.Bitmap
use zenith_os.Mm.Pmm.{
  Pmm, page_size, bitmap_max_size, bitmap_max_bits, add64, region_page_count, clamp_page_count,
  mark_free_from, reserve_region, seek_next_free_page,
}

-- `struct limine_memmap_entry`
pub record Entry : Type 0 where
  pub base : ℕ
  pub length : ℕ
  pub type : ℕ

-- LIMINE_MEMMAP_USABLE and the three types that `pmm_init` reserves.
pub record TypeCodes : Type 0 where
  pub usable : ℕ
  pub bootloader_reclaimable : ℕ
  pub executable_and_modules : ℕ
  pub framebuffer : ℕ

unfoldable pub reserve_memmap_type : List Entry → ℕ → Pmm → Pmm
reserve_memmap_type [] type s = s
reserve_memmap_type (e ∷ es) type s =
    reserve_memmap_type es type (if e.type == type then reserve_region s e.base e.length else s)

unfoldable pub mark_entry_usable : Entry → Pmm → Pmm
mark_entry_usable e s =
    mark_free_from (clamp_page_count s (e.base / page_size) (region_page_count e.length))
      (e.base / page_size) s

unfoldable pub mark_usable : ℕ → List Entry → Pmm → Pmm
mark_usable usable [] s = s
mark_usable usable (e ∷ es) s =
    mark_usable usable es (if e.type == usable then mark_entry_usable e s else s)

-- The first loop: the totals, and the ends of the usable and of all memory.
unfoldable pub count_entry : ℕ → Entry → Pmm → Pmm
count_entry usable e s =
    let end = add64 e.base e.length in
    record s {
      total_memory = add64 s.total_memory e.length;
      highest_physical_address =
          if ltb s.highest_physical_address end then end else s.highest_physical_address;
      usable_memory = if e.type == usable then add64 s.usable_memory e.length else s.usable_memory;
      highest_address =
          if e.type == usable
          then (if ltb s.highest_address end then end else s.highest_address)
          else s.highest_address;
      reserved_memory =
          if e.type == usable then s.reserved_memory else add64 s.reserved_memory e.length;
    }

unfoldable pub count_entries : ℕ → List Entry → Pmm → Pmm
count_entries usable [] s = s
count_entries usable (e ∷ es) s = count_entries usable es (count_entry usable e s)

unfoldable pub reset : Pmm → Pmm
reset s = record s {
  total_memory = 0;
  usable_memory = 0;
  reserved_memory = 0;
  highest_address = 0;
  highest_physical_address = 0;
  free_pages = 0;
  used_pages = 0;
  next_free_page = 0;
}

-- `total_pages` and `bitmap_size`, from `highest_address`.
unfoldable pub size_bitmap : Pmm → Pmm
size_bitmap s =
    let pages = add64 s.highest_address (page_size - 1) / page_size in
    record s { total_pages = pages; bitmap_size = add64 pages 7 / 8 }

-- `kernel` is the physical base and the size of the kernel image, if the boot loader gives them.
unfoldable pub reserve_kernel : Option (ℕ × ℕ) → Pmm → Pmm
reserve_kernel none s = s
reserve_kernel (some (base, size)) s = reserve_region s base size

unfoldable pub mark_memory : TypeCodes → List Entry → Option (ℕ × ℕ) → Pmm → Pmm
mark_memory types entries kernel s =
    let s1 = mark_usable types.usable entries s in
    let s2 = reserve_region s1 0 page_size in
    let s3 = reserve_kernel kernel s2 in
    let s4 = reserve_memmap_type entries types.bootloader_reclaimable s3 in
    let s5 = reserve_memmap_type entries types.executable_and_modules s4 in
    let s6 = reserve_memmap_type entries types.framebuffer s5 in seek_next_free_page s6

-- `buffer` is the static array `kernel_bitmap`. A map that needs more bits than it has ends
-- `pmm_init` early.
unfoldable pub init : TypeCodes → List ℕ → List Entry → Option (ℕ × ℕ) → Pmm → Pmm
init types buffer entries kernel s =
    let s1 = size_bitmap (count_entries types.usable entries (reset s)) in
    if ltb bitmap_max_size s1.bitmap_size || ltb bitmap_max_bits s1.total_pages
    then s1
    else mark_memory types entries kernel (record s1 { map = Bitmap.init buffer s1.total_pages })
