-- ===== src/Vmm/Paging.antt =====
-- kernel/src/vmm/page_table.c. A page table is 512 numbers at the pointer of its page: the memory of
-- the tables is a function from pointers and indices to entries, since tables are whole pages. A
-- pointer to an entry is the pair of its table and index. The pages come from the allocator of pmm.c,
-- which is a part of the state, as is the register CR3; `invlpg` is left out.
pub mod Calls
pub mod View
pub mod Tree
pub mod Kept
pub mod Entry
pub mod Grow
pub mod Reach
pub mod Create
pub mod Map
pub mod Translate
pub mod Sample
mod Tests
use zenith_os.Prelude.{
  ℕ, ◌+◌, ◌-◌, ◌*◌, ◌/◌, ◌%◌, ◌^◌, ◌==◌, if◌then◌else◌, Bool, true, false, not, ◌&&◌, Option, none,
  some, bit_or,
}
use zenith_os.Prelude.Words.{has_flag, without_flag}
use zenith_os.Mm.Pmm.{Pmm, alloc_page, free_page}

abbrev pub Ptr : Type 0
Ptr = ℕ

abbrev pub null : Ptr
null = 0

abbrev pub Tables : Type 0
Tables = Ptr → ℕ → ℕ

pub record Paging : Type 0 where
  pub tables : Tables
  pub hhdm_offset : ℕ
  pub hhdm_ready : Bool
  pub cr3 : ℕ
  pub active_pml4_physical : ℕ
  pub kernel_pml4 : Ptr
  pub kernel_pml4_physical : ℕ
  pub pmm : Pmm

pub data WalkLevel : Type 0 where
  level_none level_pt level_pd level_pdpt : WalkLevel

pub data WalkStatus : Type 0 where
  walk_ok invalid_root missing_pml4 missing_pdpt missing_pd missing_pt huge_pdpt huge_pd
        allocation_failed hhdm_unconfigured :
      WalkStatus

-- PAGE_PRESENT, PAGE_USER and PAGE_HUGE are bits 0, 2 and 7 of an entry; the address is bits 12 to 51.
abbrev pub is_present : ℕ → Bool
is_present entry = has_flag 0 entry

abbrev pub is_huge : ℕ → Bool
is_huge entry = has_flag 7 entry

abbrev pub address_of : ℕ → ℕ
address_of entry = entry / 2 ^ 12 % 2 ^ 40 * 2 ^ 12

abbrev pub pml4_index : ℕ → ℕ
pml4_index v = v / 2 ^ 39 % 2 ^ 9

abbrev pub pdpt_index : ℕ → ℕ
pdpt_index v = v / 2 ^ 30 % 2 ^ 9

abbrev pub pd_index : ℕ → ℕ
pd_index v = v / 2 ^ 21 % 2 ^ 9

abbrev pub pt_index : ℕ → ℕ
pt_index v = v / 2 ^ 12 % 2 ^ 9

abbrev pub to_virtual : ℕ → ℕ → Ptr
to_virtual offset physical = (physical + offset) % 2 ^ 64

abbrev pub physical_to_virtual : Paging → ℕ → Ptr
physical_to_virtual s physical = to_virtual s.hhdm_offset physical

-- `table->entries[index] = entry`
abbrev pub write_entry : Tables → Ptr → ℕ → ℕ → Tables
write_entry m table index entry t i = if t == table && i == index then entry else m t i

-- `k_memset(table, 0, PAGE_SIZE)`
abbrev pub clear_table : Tables → Ptr → Tables
clear_table m table t i = if t == table then 0 else m t i

-- `k_memcpy(table, source, PAGE_SIZE)`
abbrev pub copy_table : Tables → Ptr → Ptr → Tables
copy_table m table source t i = if t == table then m source i else m t i

-- The new table at the physical page, cleared and entered.
unfoldable pub link_table : Paging → Ptr → ℕ → ℕ → Paging
link_table s table index physical = record s {
  tables =
      write_entry (clear_table s.tables (physical_to_virtual s physical)) table index
        (bit_or (bit_or physical 1) 2);
}

-- What `ensure_next_table` does with the page that `pmm_alloc_page` returns.
unfoldable pub enter_page : Ptr → ℕ → Option ℕ × Pmm → Paging → Ptr × WalkStatus × Paging
enter_page table index (none, p) s = (null, allocation_failed, record s { pmm = p })
enter_page table index (some physical, p) s =
    if physical_to_virtual s physical == null
    then (null, hhdm_unconfigured, record s { pmm = free_page p physical })
    else (
      physical_to_virtual s physical,
      walk_ok,
      link_table (record s { pmm = p }) table index physical,
    )

-- The pointer, the status, which is PAGE_WALK_OK where the code does not write it, and the state.
unfoldable pub ensure_next_table : Paging → Ptr → ℕ → Bool → WalkStatus → Ptr × WalkStatus × Paging
ensure_next_table s table index create missing =
    if table == null
    then (null, invalid_root, s)
    else if is_present (s.tables table index)
    then (physical_to_virtual s (address_of (s.tables table index)), walk_ok, s)
    else if not create
    then (null, missing, s)
    else enter_page table index (alloc_page s.pmm) s

-- What `page_walk_internal` returns: NULL with a status, or a pointer to an entry with its level.
pub data Walk : Type 0 where
  failed : WalkStatus → Walk
  found : WalkLevel → Ptr → ℕ → Walk

-- The return on NULL behind each call of `ensure_next_table`.
unfoldable pub on_table : Ptr × WalkStatus × Paging → (Ptr → Paging → Walk × Paging) → Walk × Paging
on_table (table, status, s) next = if table == null then (failed status, s) else next table s

-- The blocks for an entry of the PDPT and of the PD, which differ in the statuses and the level.
unfoldable pub walk_block :
    Paging
    → Ptr
    → ℕ
    → Bool
    → WalkStatus
    → WalkStatus
    → WalkLevel
    → (Ptr → Paging → Walk × Paging)
    → Walk × Paging
walk_block s table index create huge missing level next =
    if is_present (s.tables table index) && is_huge (s.tables table index)
    then (if create then failed huge else found level table index, s)
    else if not (is_present (s.tables table index)) && not create
    then (failed missing, s)
    else on_table (ensure_next_table s table index create missing) next

unfoldable pub walk_page : Bool → ℕ → Ptr → Paging → Walk × Paging
walk_page create index table s =
    if not create && not (is_present (s.tables table index))
    then (failed missing_pt, s)
    else (found level_pt table index, s)

unfoldable pub page_walk_internal : Paging → Ptr → ℕ → Bool → Walk × Paging
page_walk_internal s pml4 v create =
    if pml4 == null
    then (failed invalid_root, s)
    else on_table (ensure_next_table s pml4 (pml4_index v) create missing_pml4) λ pdpt s1.
      walk_block s1 pdpt (pdpt_index v) create huge_pdpt missing_pdpt level_pdpt λ pd s2.
        walk_block s2 pd (pd_index v) create huge_pd missing_pd level_pd
          (walk_page create (pt_index v))

unfoldable pub current_root : Paging → Ptr
current_root s = if not s.hhdm_ready then null else physical_to_virtual s (address_of s.cr3)

unfoldable pub active_root : Paging → Ptr
active_root s = if not (s.kernel_pml4 == null) then s.kernel_pml4 else current_root s
