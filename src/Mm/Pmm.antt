-- ===== src/Mm/Pmm.antt =====
-- kernel/src/mm/pmm.c: the allocator of physical pages. Its static variables are the fields of
-- `Pmm`, the bitmap of bitmap.c among them. Addresses are numbers, and NULL is 0.
pub mod Init
pub mod Count
pub mod Valid
pub mod Range
pub mod Search
pub mod Alloc
pub mod Boot
pub mod Initial
mod Tests
use zenith_os.Prelude.{
  ℕ, zero, suc, ◌+◌, ◌-◌, ◌*◌, ◌/◌, ◌%◌, ◌^◌, ◌==◌, ltb, leb, if◌then◌else◌, Bool, ◌&&◌, ◌||◌, not,
  Option, none, some,
}
use zenith_os.Mm.Bitmap
use zenith_os.Mm.Bitmap.{Bitmap}

pub record Pmm : Type 0 where
  pub total_memory : ℕ
  pub usable_memory : ℕ
  pub reserved_memory : ℕ
  pub highest_address : ℕ
  pub highest_physical_address : ℕ
  pub bitmap_size : ℕ
  pub total_pages : ℕ
  pub free_pages : ℕ
  pub used_pages : ℕ
  pub next_free_page : ℕ
  pub map : Bitmap

abbrev pub page_size : ℕ
page_size = 4096

abbrev pub bitmap_max_size : ℕ
bitmap_max_size = 128 * 1024

abbrev pub bitmap_max_bits : ℕ
bitmap_max_bits = bitmap_max_size * 8

-- `uint64_t` addition
abbrev pub add64 : ℕ → ℕ → ℕ
add64 a b = (a + b) % 2 ^ 64

unfoldable pub address_to_page : ℕ → ℕ
address_to_page address = address / page_size

unfoldable pub region_page_count : ℕ → ℕ
region_page_count length = if length == 0 then 0 else add64 length (page_size - 1) / page_size

unfoldable pub clamp_page_count : Pmm → ℕ → ℕ → ℕ
clamp_page_count s start_page page_count =
    if leb s.total_pages start_page
    then 0
    else if ltb (s.total_pages - start_page) page_count
    then s.total_pages - start_page
    else page_count

unfoldable pub mark_page_used : Pmm → ℕ → Pmm
mark_page_used s page =
    if leb s.total_pages page then s else if Bitmap.test s.map page then s else record s {
      map = Bitmap.set_bit s.map page;
      free_pages = if ltb 0 s.free_pages then s.free_pages - 1 else s.free_pages;
      used_pages = add64 s.used_pages 1;
    }

unfoldable pub mark_page_free : Pmm → ℕ → Pmm
mark_page_free s page =
    if page == 0 || leb s.total_pages page
    then s
    else if not (Bitmap.test s.map page)
    then s
    else record s {
      map = Bitmap.clear_bit s.map page;
      free_pages = add64 s.free_pages 1;
      used_pages = if ltb 0 s.used_pages then s.used_pages - 1 else s.used_pages;
      next_free_page = if ltb page s.next_free_page then page else s.next_free_page;
    }

-- The loops that mark `count` pages from `page` on.
unfoldable pub mark_used_from : ℕ → ℕ → Pmm → Pmm
mark_used_from zero page s = s
mark_used_from (suc count) page s = mark_used_from count (page + 1) (mark_page_used s page)

unfoldable pub mark_free_from : ℕ → ℕ → Pmm → Pmm
mark_free_from zero page s = s
mark_free_from (suc count) page s = mark_free_from count (page + 1) (mark_page_free s page)

unfoldable pub reserve_region : Pmm → ℕ → ℕ → Pmm
reserve_region s base length =
    mark_used_from (clamp_page_count s (base / page_size) (region_page_count length))
      (base / page_size) s

unfoldable pub unreserve_region : Pmm → ℕ → ℕ → Pmm
unreserve_region s base length =
    mark_free_from (clamp_page_count s (base / page_size) (region_page_count length))
      (base / page_size) s

unfoldable pub lock_page : Pmm → ℕ → Pmm
lock_page s address = mark_page_used s (address_to_page address)

unfoldable pub unlock_page : Pmm → ℕ → Pmm
unlock_page s address = mark_page_free s (address_to_page address)

unfoldable pub lock_pages : Pmm → ℕ → ℕ → Pmm
lock_pages s address count =
    mark_used_from (clamp_page_count s (address_to_page address) count) (address_to_page address) s

unfoldable pub unlock_pages : Pmm → ℕ → ℕ → Pmm
unlock_pages s address count =
    mark_free_from (clamp_page_count s (address_to_page address) count) (address_to_page address) s

unfoldable pub free_page : Pmm → ℕ → Pmm
free_page s address = unlock_page s address

-- The loop of `pmm_seek_next_free_page`, over the rounds that it can make at most: it starts at
-- `page` and leaves at `total`.
unfoldable pub seek : ℕ → Bitmap → ℕ → ℕ → ℕ
seek zero m total page = page
seek (suc rounds) m total page =
    let rest = seek rounds m total (page + 1) in
    if ltb page total && Bitmap.test m page then rest else page

unfoldable pub seek_next_free_page : Pmm → Pmm
seek_next_free_page s = record s {
  next_free_page = seek (s.total_pages - s.next_free_page) s.map s.total_pages s.next_free_page;
}

-- One pass of `pmm_alloc_page`: the first page of `rounds` from `page` on whose bit is clear.
unfoldable pub scan : ℕ → Bitmap → ℕ → Option ℕ
scan zero m page = none
scan (suc rounds) m page =
    let rest = scan rounds m (page + 1) in if Bitmap.test m page then rest else some page

-- What `pmm_alloc_page` does with the page that it has found.
unfoldable pub take_page : Pmm → ℕ → Option ℕ × Pmm
take_page s page =
    let s1 = mark_page_used s page in
    let next = if leb s1.total_pages (page + 1) then 0 else page + 1 in
    (some (page * page_size), seek_next_free_page (record s1 { next_free_page = next }))

unfoldable pub alloc_page : Pmm → Option ℕ × Pmm
alloc_page s =
    if s.free_pages == 0
    then (none, s)
    else elim (scan (s.total_pages - s.next_free_page) s.map s.next_free_page) [
      | some page ↦ take_page s page
      | none ↦ elim (scan s.next_free_page s.map 0) [
        | some page ↦ take_page s page
        | none ↦ (none, s)
      ]
    ]
