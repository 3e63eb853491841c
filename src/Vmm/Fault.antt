-- ===== src/Vmm/Fault.antt =====
-- kernel/src/vmm/demand_paging.c: the page that a fault in an area of demand paging gets. The page is
-- cleared as a table is: its 512 words become 0.
pub mod Laws
mod Tests
use zenith_os.Prelude.{
  ℕ, ◌-◌, ◌%◌, if◌then◌else◌, Bool, true, false, not, Option, none, some, get_elem?,
}
use zenith_os.Prelude.Words.{has_flag}
use zenith_os.Mm.Pmm.{Pmm, alloc_page, free_page}
use zenith_os.Vmm.Vma
use zenith_os.Vmm.Paging.{Ptr, Paging, physical_to_virtual, clear_table}
use zenith_os.Vmm.Paging.Calls.{page_table_map}

-- `fault_address & ~(PAGE_SIZE - 1)`
abbrev pub page_base : ℕ → ℕ
page_base v = v - v % 4096

-- `k_memset(virtual_page, 0, PAGE_SIZE)`
abbrev pub clear_page : Paging → Ptr → Paging
clear_page s page = record s { tables = clear_table s.tables page }

-- VMA_DEMAND_PAGED
abbrev pub is_demand_paged : Option Vma.Vma → Bool
is_demand_paged none = false
is_demand_paged (some v) = has_flag 3 v.flags

unfoldable pub fault_mapped : ℕ → Bool × Paging → Bool × Paging
fault_mapped physical (mapped, s) =
    if not mapped then (false, record s { pmm = free_page s.pmm physical }) else (true, s)

unfoldable pub fault_allocated : Paging → ℕ → Option ℕ × Pmm → Bool × Paging
fault_allocated s v (none, p) = (false, record s { pmm = p })
fault_allocated s v (some physical, p) = fault_mapped physical (
    page_table_map (clear_page (record s { pmm = p }) (physical_to_virtual s physical))
      (page_base v) physical 2)

unfoldable pub fault_found : Vma.Table → Paging → ℕ → Option ℕ → Bool × Paging
fault_found areas s v none = (false, s)
fault_found areas s v (some area) =
    if not (is_demand_paged (get_elem? areas area))
    then (false, s)
    else fault_allocated s v (alloc_page s.pmm)

unfoldable pub vmm_handle_page_fault : Vma.Table → Paging → ℕ → ℕ → Bool × Paging
vmm_handle_page_fault areas s v error_code =
    if has_flag 0 error_code then (false, s) else fault_found areas s v (Vma.find areas v)
