-- ===== src/Vmm/Paging/Tests.antt =====
-- The theorems on page_table.c at an empty root table in page 1, with six free pages behind it.
use zenith_os.Prelude.{ℕ, ◌+◌, ◌*◌, ◌^◌, ◌≡◌, ◌≢◌, refl, true, false, [], ◌∷◌, arith}
use zenith_os.Mm.Bitmap.{test, has_bit, set_bit, or_bit}
use zenith_os.Mm.Pmm.{Pmm, alloc_page, scan, take_page, mark_page_used, seek, seek_next_free_page}
use zenith_os.Mm.Pmm.Count.{count_false}
use zenith_os.Vmm.Paging.{
  Paging, active_root, current_root, link_table, enter_page, ensure_next_table, on_table,
  walk_block, walk_page, page_walk_internal,
}
use zenith_os.Vmm.Paging.Calls.{
  map_found, page_table_map, page_table_unmap, page_table_translate, page_table_create,
  create_found,
}
use zenith_os.Vmm.Paging.Sample.{
  eight_pages, offset, root_table, empty_root, only_root, empty-IsValid, empty_root-IsValid,
}
use zenith_os.Vmm.Paging.View.{view, indices, translated, page_table_translate-view}
use zenith_os.Vmm.Paging.Tree.{Places}
use zenith_os.Vmm.Paging.Kept.{IsValid}
use zenith_os.Vmm.Paging.Create.{page_table_create-view}
use zenith_os.Vmm.Paging.Translate.{
  page_of, page_table_map-IsValid, page_table_map-others, page_table_map_failed,
  page_table_translate-page_table_map, page_table_unmap_lem,
}

-- A page of 4096 bytes at 2^39 + 2^30 + 2^21 + 3 pages.
abbrev address : ℕ
address = 2 ^ 39 + 2 ^ 30 + 2 ^ 21 + 3 * 4096 + 7

map_succeeds : (page_table_map empty_root address 0x9000 2).0 ≡ true
unfolding page_table_map active_root current_root page_walk_internal on_table ensure_next_table
    enter_page alloc_page scan take_page test has_bit mark_page_used set_bit or_bit seek
    seek_next_free_page link_table walk_block walk_page map_found
map_succeeds = refl

abbrev mapped : Paging
mapped = (page_table_map empty_root address 0x9000 2).1

page_table_map-IsValid_example : (place : Places) × IsValid offset root_table mapped place
page_table_map-IsValid_example =
    page_table_map-IsValid offset root_table empty_root only_root empty_root-IsValid address 0x9000
      2

page_table_map-others_example :
    page_table_translate mapped (address + 4096) ≡ page_table_translate empty_root (address + 4096)
page_table_map-others_example =
    page_table_map-others offset root_table empty_root only_root empty_root-IsValid address 0x9000 2
      (address + 4096) (omega arith)

page_table_translate-page_table_map_example : page_table_translate mapped address ≡ 0x9007
page_table_translate-page_table_map_example =
    page_table_translate-page_table_map offset root_table empty_root only_root empty_root-IsValid
      address 0x9000 2 (omega arith) map_succeeds

page_table_unmap_lem_example :
    ((place : Places) × IsValid offset root_table (page_table_unmap mapped address).1 place)
    × ((w : ℕ)
        → page_of w ≢ page_of address
        → page_table_translate (page_table_unmap mapped address).1 w
          ≡ page_table_translate mapped w)
    × ((page_table_unmap mapped address).0 ≡ true
        → page_table_translate (page_table_unmap mapped address).1 address ≡ 0)
page_table_unmap_lem_example =
    page_table_unmap_lem offset root_table mapped page_table_map-IsValid_example.0
      page_table_map-IsValid_example.1 address

-- No page is free.
abbrev all_used : Pmm
all_used = record eight_pages {
  free_pages = 0;
  used_pages = 8;
  map = record { bytes = 255 ∷ []; bits = 8 };
}

abbrev full : Paging
full = record empty_root { pmm = all_used }

full-IsValid : IsValid offset root_table full only_root
unfolding test has_bit count_false
full-IsValid =
    empty-IsValid all_used
      (record {
        map_valid = record { room = omega arith; are_bytes = (omega arith, tt) };
        bits = refl;
        fits = omega arith;
        counted = refl;
        used = omega arith;
        next_in = omega arith;
        zero_used = refl;
      })
      refl

map_fails : (page_table_map full address 0x9000 2).0 ≡ false
unfolding page_table_map active_root current_root page_walk_internal on_table ensure_next_table
    enter_page alloc_page map_found
map_fails = refl

page_table_map_failed_example :
    page_table_translate (page_table_map full address 0x9000 2).1 4096
    ≡ page_table_translate full 4096
page_table_map_failed_example =
    page_table_map_failed offset root_table full only_root full-IsValid address 0x9000 2 4096
      map_fails

create_succeeds : (page_table_create empty_root).0 ≢ 0
unfolding page_table_create create_found alloc_page scan take_page test has_bit mark_page_used
    set_bit or_bit seek seek_next_free_page
create_succeeds = λ z. absurd (omega (arith, z))

page_table_create-view_example :
    view
      (page_table_create empty_root).2.tables
      offset
      (page_table_create empty_root).0
      (indices address)
    ≡ view empty_root.tables offset root_table (indices address)
page_table_create-view_example =
    page_table_create-view empty_root only_root empty_root-IsValid (λ z. absurd (omega (arith, z)))
      address create_succeeds

page_table_translate-view_example :
    page_table_translate mapped address
    ≡ translated address
        (view mapped.tables mapped.hhdm_offset (active_root mapped) (indices address))
page_table_translate-view_example = page_table_translate-view mapped address
