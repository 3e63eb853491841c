-- ===== src/Vmm/Paging/Calls.antt =====
-- The functions of page_table.c that the kernel calls.
use zenith_os.Prelude.{
  ℕ, ◌%◌, ◌^◌, ◌==◌, if◌then◌else◌, Bool, true, false, not, Option, none, some, bit_or,
}
use zenith_os.Prelude.Words.{without_flag}
use zenith_os.Mm.Pmm.{Pmm, alloc_page, free_page}
use zenith_os.Vmm.Paging.{
  Ptr, null, Paging, WalkLevel, level_none, level_pt, level_pd, level_pdpt, Walk, failed, found,
  is_present, address_of, pml4_index, pdpt_index, pd_index, physical_to_virtual, write_entry,
  clear_table, copy_table, page_walk_internal, current_root, active_root,
}

unfoldable pub page_table_set_hhdm_offset : ℕ → Paging → Paging
page_table_set_hhdm_offset offset s = record s { hhdm_offset = offset; hhdm_ready = true }

abbrev pub is_level_pt : WalkLevel → Bool
is_level_pt level_pt = true
is_level_pt _ = false

-- The entry that `page_table_map` writes.
unfoldable pub mapped_entry : ℕ → ℕ → ℕ
mapped_entry physical flags =
    bit_or (bit_or (address_of physical) (without_flag 7 (without_flag 0 flags))) 1

-- `*entry = value`
abbrev pub set_entry : Paging → Ptr → ℕ → ℕ → Paging
set_entry s table index value = record s { tables = write_entry s.tables table index value }

-- What follows the walk.
unfoldable pub map_found : ℕ → Walk × Paging → Bool × Paging
map_found entry (failed status, s) = (false, s)
map_found entry (found level table index, s) =
    if not (is_level_pt level) then (false, s) else (true, set_entry s table index entry)

unfoldable pub page_table_map : Paging → ℕ → ℕ → ℕ → Bool × Paging
page_table_map s v physical flags =
    map_found (mapped_entry physical flags) (page_walk_internal s (active_root s) v true)

unfoldable pub page_table_map_page : Paging → ℕ → ℕ → Bool → Bool × Paging
page_table_map_page s v physical writable =
    page_table_map s v physical (if writable then bit_or 0 2 else 0)

unfoldable pub unmap_found : Walk × Paging → Bool × Paging
unmap_found (failed status, s) = (false, s)
unmap_found (found level table index, s) =
    if not (is_level_pt level)
    then (false, s)
    else if not (is_present (s.tables table index))
    then (false, s)
    else (true, set_entry s table index 0)

unfoldable pub page_table_unmap : Paging → ℕ → Bool × Paging
page_table_unmap s v = unmap_found (page_walk_internal s (active_root s) v false)

abbrev pub size_for_level : WalkLevel → ℕ
size_for_level level_pt = 4096
size_for_level level_pd = 2 ^ 21
size_for_level level_pdpt = 2 ^ 30
size_for_level level_none = 0

-- The address in a page of `size` bytes, a power of two: `physical | (v & (size - 1))`.
abbrev pub address_in : ℕ → WalkLevel → ℕ → ℕ
address_in entry level v =
    if size_for_level level == 0 then 0 else bit_or (address_of entry) (v % size_for_level level)

unfoldable pub translate_found : ℕ → Walk × Paging → ℕ
translate_found v (failed status, s) = 0
translate_found v (found level table index, s) =
    if not (is_present (s.tables table index)) then 0 else address_in (s.tables table index) level v

unfoldable pub page_table_translate : Paging → ℕ → ℕ
page_table_translate s v = translate_found v (page_walk_internal s (active_root s) v false)

unfoldable pub mapped_found : Walk × Paging → Bool
mapped_found (failed status, s) = false
mapped_found (found level table index, s) = is_present (s.tables table index)

unfoldable pub page_table_is_mapped : Paging → ℕ → Bool
page_table_is_mapped s v = mapped_found (page_walk_internal s (active_root s) v false)

-- `table->entries[index] |= PAGE_USER`
abbrev pub add_user : Paging → Ptr → ℕ → Paging
add_user s table index = set_entry s table index (bit_or (s.tables table index) 4)

-- The table that an entry leads to.
abbrev pub table_at : Paging → Ptr → ℕ → Ptr
table_at s table index = physical_to_virtual s (address_of (s.tables table index))

-- The three upper entries get PAGE_USER, and the entry that the walk found is written.
unfoldable pub map_user_found : Ptr → ℕ → ℕ → Walk × Paging → Bool × Paging
map_user_found pml4 v entry (failed status, s) = (false, s)
map_user_found pml4 v entry (found level table index, s) =
    let pdpt = table_at s pml4 (pml4_index v) in
    let s1 = add_user s pml4 (pml4_index v) in
    let pd = table_at s1 pdpt (pdpt_index v) in
    let s2 = add_user s1 pdpt (pdpt_index v) in
    let s3 = add_user s2 pd (pd_index v) in (true, set_entry s3 table index entry)

unfoldable pub page_table_map_user : Paging → Ptr → ℕ → ℕ → Bool → Bool × Paging
page_table_map_user s pml4 v physical writable =
    map_user_found pml4 v (bit_or physical (if writable then bit_or (bit_or 1 4) 2 else bit_or 1 4))
      (page_walk_internal s pml4 v true)

-- The new root with the entries of the kernel's, if there is one.
unfoldable pub fill_root : Paging → Ptr → Paging
fill_root s root =
    let s1 = record s { tables = clear_table s.tables root } in
    if not (s.kernel_pml4 == null)
    then record s1 { tables = copy_table s1.tables root s.kernel_pml4 }
    else s1

-- The new root, NULL on failure, its physical address, if it was written, and the state.
unfoldable pub create_found : Paging → Option ℕ × Pmm → Ptr × Option ℕ × Paging
create_found s (none, p) = (null, none, record s { pmm = p })
create_found s (some physical, p) =
    if physical_to_virtual s physical == null
    then (null, some physical, record s { pmm = free_page p physical })
    else (
      physical_to_virtual s physical,
      some physical,
      fill_root (record s { pmm = p }) (physical_to_virtual s physical),
    )

unfoldable pub page_table_create : Paging → Ptr × Option ℕ × Paging
page_table_create s = create_found s (alloc_page s.pmm)

unfoldable pub init_found : Paging → Option ℕ × Pmm → Paging
init_found s (none, p) = record s { pmm = p }
init_found s (some physical, p) =
    if physical_to_virtual s physical == null
    then record s { pmm = free_page p physical; kernel_pml4 = null; kernel_pml4_physical = 0 }
    else if current_root s == null
    then record s { pmm = free_page p physical; kernel_pml4 = null; kernel_pml4_physical = 0 }
    else record s {
      pmm = p;
      kernel_pml4 = physical_to_virtual s physical;
      kernel_pml4_physical = physical;
      tables = copy_table s.tables (physical_to_virtual s physical) (current_root s);
    }

unfoldable pub page_table_init : Paging → Paging
page_table_init s = if not (s.kernel_pml4 == null) then s else init_found s (alloc_page s.pmm)

unfoldable pub page_table_activate : Paging → Paging
page_table_activate s =
    if s.kernel_pml4_physical == 0
    then s
    else record s { cr3 = s.kernel_pml4_physical; active_pml4_physical = s.kernel_pml4_physical }

unfoldable pub page_table_switch : ℕ → Paging → Paging
page_table_switch physical s =
    if physical == 0
    then s
    else if s.active_pml4_physical == physical
    then s
    else record s { cr3 = physical; active_pml4_physical = physical }
