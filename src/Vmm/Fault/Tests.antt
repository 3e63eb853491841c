-- ===== src/Vmm/Fault/Tests.antt =====
-- A page fault in an area of demand paging over an empty root table.
use zenith_os.Prelude.{[], ◌∷◌, ◌≡◌, refl, true}
use zenith_os.Mm.Bitmap.{test, has_bit, set_bit, or_bit}
use zenith_os.Mm.Pmm.{alloc_page, scan, take_page, mark_page_used, seek, seek_next_free_page}
use zenith_os.Vmm.Vma
use zenith_os.Vmm.Paging.{
  active_root, current_root, link_table, enter_page, ensure_next_table, on_table, walk_block,
  walk_page, page_walk_internal,
}
use zenith_os.Vmm.Paging.Calls.{page_table_map, map_found}
use zenith_os.Vmm.Paging.Sample.{offset, root_table, empty_root, only_root, empty_root-IsValid}
use zenith_os.Vmm.Fault.{fault_mapped, fault_allocated, fault_found, vmm_handle_page_fault}
use zenith_os.Vmm.Fault.Laws.{Faults, vmm_handle_page_fault-Faults}

-- VMA_READ, VMA_WRITE and VMA_DEMAND_PAGED
abbrev areas : Vma.Table
areas = Vma.vma 0x400000 0x500000 11 ∷ []

fault_handled : (vmm_handle_page_fault areas empty_root 0x401234 2).0 ≡ true
unfolding vmm_handle_page_fault fault_found fault_allocated fault_mapped Vma.find Vma.find_from
    page_table_map active_root current_root page_walk_internal on_table ensure_next_table enter_page
    alloc_page scan take_page test has_bit mark_page_used set_bit or_bit seek seek_next_free_page
    link_table walk_block walk_page map_found
fault_handled = refl

vmm_handle_page_fault-Faults_example :
    Faults offset root_table empty_root 0x401234 (vmm_handle_page_fault areas empty_root 0x401234 2)
vmm_handle_page_fault-Faults_example =
    vmm_handle_page_fault-Faults root_table empty_root only_root empty_root-IsValid areas 0x401234 2
