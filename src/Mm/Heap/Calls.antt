-- ===== src/Mm/Heap/Calls.antt =====
-- The functions of kernel/src/mm/heap.c on the whole state: the blocks, the bytes behind them, the
-- page tables with the page allocator, and the table of areas. The pointer to the area of the heap is
-- its index. Walks have as much fuel as the heap has bytes; the loops of `heap_grow` and `kmalloc`
-- take their fuel as an argument and give `none` when it is used up.
use zenith_os.Prelude.{
  ℕ, zero, suc, ◌+◌, ◌-◌, ◌*◌, ◌/◌, ◌%◌, ◌^◌, ◌==◌, ltb, leb, if◌then◌else◌, Bool, true, false, not,
  ◌||◌, Option, none, some, get_elem?,
}
use zenith_os.Mm.Pmm.{Pmm, alloc_page, page_size}
use zenith_os.Klib.Memory.{Memory, k_memcpy, k_memset}
use zenith_os.Vmm.Vma
use zenith_os.Vmm.Paging.{Ptr, null, Paging}
use zenith_os.Vmm.Paging.Calls.{page_table_map_page}
use zenith_os.Mm.Heap.{
  Blocks, header, set_block, set_free, set_next, find_free_block, split_block, merge_with_next,
  merge_with_previous, coalesce_from, find_last_block, align_size,
}

pub record Heap : Type 0 where
  pub blocks : Blocks
  pub bytes : Memory
  pub heap_head : Ptr
  pub heap_start : Ptr
  pub heap_size : ℕ
  pub heap_virtual_start : ℕ
  pub heap_virtual_end : ℕ
  pub heap_committed_end : ℕ
  pub heap_vma : Option ℕ
  pub vmas : Vma.Table
  pub paging : Paging

abbrev pub heap_start_address : ℕ
heap_start_address = 0xFFFF900000000000

abbrev pub heap_initial_size : ℕ
heap_initial_size = 4096

abbrev pub heap_grow_size : ℕ
heap_grow_size = 4096

-- What `heap_commit_page` does once `pmm_alloc_page` and `page_table_map_page` have returned.
unfoldable pub commit_mapped : Heap → ℕ → Bool × Paging → Ptr × Heap
commit_mapped s v (mapped, g) = if not mapped then (null, record s { paging = g }) else (
  v,
  record s { paging = g; heap_committed_end = (s.heap_committed_end + page_size) % 2 ^ 64 },
)

unfoldable pub commit_allocated : Heap → ℕ → Option ℕ × Pmm → Ptr × Heap
commit_allocated s v (none, p) = (null, record s { paging = record s.paging { pmm = p } })
commit_allocated s v (some physical, p) =
    commit_mapped s v (page_table_map_page (record s.paging { pmm = p }) v physical true)

unfoldable pub heap_commit_page : Heap → ℕ → Ptr × Heap
heap_commit_page s v = commit_allocated s v (alloc_page s.paging.pmm)

unfoldable pub heap_create_block : Blocks → ℕ → ℕ → Blocks
heap_create_block m v size =
    set_block m v (record { size = size - header; free = true; next = null; prev = null })

abbrev pub heap_committed_size : Heap → ℕ
heap_committed_size s = (s.heap_committed_end + 2 ^ 64 - s.heap_virtual_start) % 2 ^ 64

-- `heap_vma->start`
abbrev pub start_of : Option Vma.Vma → ℕ
start_of none = 0
start_of (some v) = v.start

-- The header of the new block behind the last one, and the pointers between them.
unfoldable pub attach_block : Blocks → Ptr → Ptr → Blocks
attach_block m last new_block =
    let m2 = set_next (heap_create_block m new_block page_size) last new_block in
    set_block m2 new_block (record (m2 new_block) { prev = last })

unfoldable pub append_block : Blocks → Ptr → Ptr → Blocks
append_block m last new_block =
    let m1 = attach_block m last new_block in if (m1 last).free then merge_with_next m1 last else m1

-- What `heap_expand` does once the page is committed.
unfoldable pub expand_committed : ℕ → ℕ → Ptr × Heap → Bool × Heap
expand_committed fuel area (page, s) =
    if page == null
    then (false, s)
    else let last = find_last_block fuel s.blocks s.heap_head in
      let size = heap_committed_size s in
      (
        true,
        record s {
          blocks = append_block s.blocks last page;
          heap_size = size;
          heap_virtual_end = s.heap_committed_end;
          vmas = (Vma.resize s.vmas (start_of (get_elem? s.vmas area)) size).1;
        },
      )

unfoldable pub expand_area : Option ℕ → Heap → Bool × Heap
expand_area none s = (false, s)
expand_area (some area) s =
    expand_committed s.heap_size area (heap_commit_page s s.heap_committed_end)

unfoldable pub heap_expand : Heap → Bool × Heap
heap_expand s = expand_area s.heap_vma s

unfoldable pub heap_grow : ℕ → Heap → ℕ → Option (Bool × Heap)
heap_grow zero s bytes = none
heap_grow (suc fuel) s bytes =
    let (grown, s1) = heap_expand s in
    let rest = heap_grow fuel s1 bytes in
    if not (ltb (heap_committed_size s) bytes)
    then some (true, s)
    else if not grown
    then some (false, s1)
    else rest

-- The heap behind `coalesce_free_blocks`.
abbrev pub coalesce_free_blocks : Heap → Heap
coalesce_free_blocks s = record s {
  blocks = coalesce_from s.heap_size s.heap_size s.blocks s.heap_head;
}

-- The block found is split and taken; the pointer is that behind its header.
unfoldable pub take_block : Heap → Ptr → ℕ → Ptr × Heap
take_block s block size = (
  (block + header) % 2 ^ 64,
  record s { blocks = set_free (split_block s.blocks block size) block false },
)

-- What the loop of `kmalloc` does once `heap_grow` has returned.
unfoldable pub kmalloc_grown :
    (Heap → Option (Ptr × Heap)) → Option (Bool × Heap) → Option (Ptr × Heap)
kmalloc_grown next none = none
kmalloc_grown next (some (false, s)) = some (null, s)
kmalloc_grown next (some (true, s)) = next s

-- The block that a round of the loop finds.
abbrev pub found_block : Heap → ℕ → Ptr
found_block s size = find_free_block s.heap_size s.blocks s.heap_head size

unfoldable pub kmalloc_loop : ℕ → Heap → ℕ → Option (Ptr × Heap)
kmalloc_loop zero s size = none
kmalloc_loop (suc fuel) s size =
    let s1 = coalesce_free_blocks s in
    if not (found_block s1 size == null)
    then some (take_block s1 (found_block s1 size) size)
    else kmalloc_grown (λ s2. kmalloc_loop fuel s2 size)
        (heap_grow (suc fuel) s1 ((heap_committed_size s1 + heap_grow_size) % 2 ^ 64))

unfoldable pub kmalloc : ℕ → Heap → ℕ → Option (Ptr × Heap)
kmalloc fuel s size = if size == 0 then some (null, s) else kmalloc_loop fuel s (align_size size)

unfoldable pub clear_result : ℕ → Option (Ptr × Heap) → Option (Ptr × Heap)
clear_result total none = none
clear_result total (some (p, s)) =
    if p == null then some (null, s) else some (p, record s { bytes = k_memset s.bytes p 0 total })

unfoldable pub kcalloc : ℕ → Heap → ℕ → ℕ → Option (Ptr × Heap)
kcalloc fuel s count size =
    if count == 0 || size == 0
    then some (null, s)
    else if ltb ((2 ^ 64 - 1) / size) count
    then some (null, s)
    else let total = count * size % 2 ^ 64 in clear_result total (kmalloc fuel s total)

-- `((heap_block_t *)ptr) - 1`
abbrev pub block_of : Ptr → Ptr
block_of p = (p + 2 ^ 64 - header) % 2 ^ 64

-- The block is marked as free, then merged with the next and the previous one.
unfoldable pub free_block : Blocks → Ptr → Blocks
free_block m block = merge_with_previous (merge_with_next (set_free m block true) block) block

unfoldable pub kfree : Heap → Ptr → Heap
kfree s p = if p == null then s else record s { blocks = free_block s.blocks (block_of p) }

-- What `krealloc` does with the pointer that `kmalloc` returns.
unfoldable pub move_result : Ptr → Option (Ptr × Heap) → Option (Ptr × Heap)
move_result p none = none
move_result p (some (q, s)) =
    if q == null
    then some (null, s)
    else let size = (s.blocks (block_of p)).size in
      some (q, kfree (record s { bytes = k_memcpy s.bytes q p size }) p)

unfoldable pub krealloc : ℕ → Heap → Ptr → ℕ → Option (Ptr × Heap)
krealloc fuel s p size =
    if p == null
    then kmalloc fuel s size
    else if size == 0
    then some (null, kfree s p)
    else if leb (align_size size) (s.blocks (block_of p)).size
    then some (p, s)
    else move_result p (kmalloc fuel s (align_size size))

-- What `heap_init` does once the first page is mapped, with what `vma_find` returns: the area of the
-- heap must be there.
unfoldable pub init_found : Heap → Paging → Option ℕ → Heap
init_found s g found =
    let s1 = record s {
      paging = g;
      heap_virtual_start = heap_start_address;
      heap_virtual_end = heap_start_address + heap_initial_size;
      heap_committed_end = heap_start_address + heap_initial_size;
      heap_start = heap_start_address;
      heap_vma = found;
    } in
    elim found [
      | none ↦ s1
      | some area ↦ record s1 {
        heap_size = heap_initial_size;
        heap_head = heap_start_address;
        blocks = heap_create_block s.blocks heap_start_address heap_initial_size;
      }
    ]

unfoldable pub init_mapped : Heap → Bool × Paging → Heap
init_mapped s (mapped, g) =
    if not mapped
    then record s { paging = g }
    else init_found s g (Vma.find s.vmas heap_start_address)

unfoldable pub init_allocated : Heap → Option ℕ × Pmm → Heap
init_allocated s (none, p) = record s { paging = record s.paging { pmm = p } }
init_allocated s (some physical, p) =
    init_mapped s
      (page_table_map_page (record s.paging { pmm = p }) heap_start_address physical true)

unfoldable pub heap_init : Heap → Heap
heap_init s = init_allocated s (alloc_page s.paging.pmm)
