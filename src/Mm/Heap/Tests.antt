-- ===== src/Mm/Heap/Tests.antt =====
-- The theorems on heap.c at a heap of one page, with six free pages behind it.
use Prim.{tt}
use zenith_os.Prelude.{ℕ, ◌+◌, ◌≤◌, ◌≡◌, ◌≢◌, refl, true, false, List, [], ◌∷◌, arith}
use zenith_os.Prelude.{none, some}
use zenith_os.Mm.Bitmap.{test, has_bit, set_bit, or_bit}
use zenith_os.Mm.Pmm.{alloc_page, scan, take_page, mark_page_used, seek, seek_next_free_page}
use zenith_os.Vmm.Vma
use zenith_os.Vmm.Paging.{
  Ptr, null, current_root, active_root, link_table, enter_page, ensure_next_table, on_table,
  walk_block, walk_page, page_walk_internal,
}
use zenith_os.Vmm.Paging.Calls.{page_table_map, page_table_map_page, map_found}
use zenith_os.Vmm.Paging.Tree.{Places}
use zenith_os.Vmm.Paging.Sample.{offset, root_table, empty_root, only_root, empty_root-IsValid}
use zenith_os.Mm.Heap.{
  Block, Blocks, header, set_block, align_size, absorb, coalesce_from, find_free_block,
}
use zenith_os.Mm.Heap.Calls.{
  Heap, heap_start_address, heap_initial_size, coalesce_free_blocks, take_block, kmalloc_loop,
  kmalloc, kfree, heap_init, init_allocated, init_mapped, init_found,
}
use zenith_os.Mm.Heap.Chain.{Seg, Chain, live}
use zenith_os.Mm.Heap.State.{IsHeap}
use zenith_os.Mm.Heap.Init.{first_block, heap_init-IsHeap}
use zenith_os.Mm.Heap.Free.{kfree-Frees}
use zenith_os.Klib.Memory.{k_memset}
use zenith_os.Mm.Heap.Calls.{clear_result, kcalloc}
use zenith_os.Mm.Heap.Serve.{Serves}
use zenith_os.Mm.Heap.Laws.{kmalloc-Serves, kmalloc_room}

abbrev unset_block : Block
unset_block = record { size = 0; free = false; next = null; prev = null }

-- Before `heap_init`.
abbrev unset : Heap
unset = record {
  blocks = λ a. unset_block;
  bytes = λ a. 0;
  heap_head = null;
  heap_start = null;
  heap_size = 0;
  heap_virtual_start = 0;
  heap_virtual_end = 0;
  heap_committed_end = 0;
  heap_vma = none;
  vmas = Vma.vma heap_start_address (heap_start_address + heap_initial_size) 3 ∷ [];
  paging = empty_root;
}

init_sets : (heap_init unset).heap_head ≢ null
unfolding heap_init init_allocated init_mapped init_found Vma.find Vma.find_from page_table_map_page
    page_table_map active_root current_root page_walk_internal on_table ensure_next_table enter_page
    alloc_page scan take_page test has_bit mark_page_used set_bit or_bit seek seek_next_free_page
    link_table walk_block walk_page map_found
init_sets z = absurd (omega (arith, z))

heap_init-IsHeap_example :
    (place : Places) × IsHeap offset root_table (heap_init unset) place (first_block ∷ [])
heap_init-IsHeap_example = heap_init-IsHeap unset refl only_root empty_root-IsValid init_sets

-- A heap of one page with the blocks `xs`.
abbrev one_page : Blocks → Heap
one_page m = record unset {
  blocks = m;
  heap_head = heap_start_address;
  heap_start = heap_start_address;
  heap_size = heap_initial_size;
  heap_virtual_start = heap_start_address;
  heap_virtual_end = heap_start_address + heap_initial_size;
  heap_committed_end = heap_start_address + heap_initial_size;
  heap_vma = some 0;
}

abbrev fresh : Heap
fresh = one_page (
    set_block unset.blocks heap_start_address
      (record { size = 4064; free = true; next = null; prev = null }))

fresh-IsHeap : IsHeap offset root_table fresh only_root (first_block ∷ [])
unfolding Chain
fresh-IsHeap = record {
  pages = empty_root-IsValid;
  chain = (refl, tt);
  pos = omega arith;
  some_block = omega arith;
  same_start = refl;
  committed = refl;
  size = refl;
  room = omega arith;
}

kmalloc-Serves_example :
    (a : Ptr × Heap) × (kmalloc 8 fresh 100 ≡ some a)
    × Serves offset root_table fresh (first_block ∷ []) (align_size 100) a
kmalloc-Serves_example =
    kmalloc-Serves 8 fresh only_root first_block [] 100 fresh-IsHeap (omega arith)

-- One block in use and one free block behind it.
abbrev second : Ptr
second = heap_start_address + (32 + 112)

abbrev used_blocks : Blocks
used_blocks =
    set_block
      (set_block unset.blocks second
        (record { size = 3920; free = true; next = null; prev = heap_start_address }))
      heap_start_address (record { size = 112; free = false; next = second; prev = null })

abbrev used : Heap
used = one_page used_blocks

used-IsHeap : IsHeap offset root_table used only_root ((112, false) ∷ (3920, true) ∷ [])
unfolding Chain
used-IsHeap = record {
  pages = empty_root-IsValid;
  chain = (refl, (refl, tt));
  pos = omega arith;
  some_block = omega arith;
  same_start = refl;
  committed = refl;
  size = refl;
  room = omega arith;
}

kfree-Frees_example :
    (live heap_start_address ((112, false) ∷ (3920, true) ∷ []) ≡ (heap_start_address, 112) ∷ [])
    × ((zs : List Seg) × IsHeap offset root_table
          (kfree used (heap_start_address + header))
          only_root
          zs
        × (live heap_start_address zs ≡ []))
kfree-Frees_example =
    kfree-Frees offset root_table used only_root [] 112 ((3920, true) ∷ []) used-IsHeap

abbrev served : Ptr × Heap
served = take_block (coalesce_free_blocks fresh) heap_start_address 112

kmalloc_serves : kmalloc 8 fresh 100 ≡ some served
unfolding kmalloc kmalloc_loop align_size find_free_block coalesce_from absorb
kmalloc_serves = refl

served_some : served.0 ≢ null
unfolding take_block
served_some z = absurd (omega (arith, z))

kmalloc_room_example :
    (granted : ℕ) × (100 ≤ granted)
    × (heap_start_address + header ≤ served.0)
    × (served.0 + granted ≤ served.1.heap_committed_end)
kmalloc_room_example =
    kmalloc_room 8 fresh only_root first_block [] 100 served fresh-IsHeap (omega arith)
      (omega arith) kmalloc_serves served_some

-- Two free blocks.
abbrev parted : Heap
parted = one_page (
    set_block used_blocks heap_start_address
      (record { size = 112; free = true; next = second; prev = null }))

parted-IsHeap : IsHeap offset root_table parted only_root ((112, true) ∷ (3920, true) ∷ [])
unfolding Chain
parted-IsHeap = record {
  pages = empty_root-IsValid;
  chain = (refl, (refl, tt));
  pos = omega arith;
  some_block = omega arith;
  same_start = refl;
  committed = refl;
  size = refl;
  room = omega arith;
}

abbrev cleared : Ptr × Heap
cleared = (served.0, record served.1 { bytes = k_memset served.1.bytes served.0 0 100 })

kcalloc_serves : kcalloc 8 fresh 10 10 ≡ some cleared
unfolding kcalloc clear_result kmalloc kmalloc_loop align_size find_free_block coalesce_from absorb
    take_block
kcalloc_serves = refl
