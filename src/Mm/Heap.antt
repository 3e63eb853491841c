-- ===== src/Mm/Heap.antt =====
-- The blocks of kernel/src/mm/heap.c: the headers are a function from pointers, and a pointer to a
-- block is the address of its header of 32 bytes. A walk over the list runs on fuel; with none left
-- it ends as at NULL.
pub mod Calls
pub mod Chain
pub mod Merge
pub mod Coalesce
pub mod Take
pub mod Grow
pub mod State
pub mod Expand
pub mod Free
pub mod Init
pub mod Calloc
pub mod Serve
pub mod Laws
mod Tests
use zenith_os.Prelude.{
  ℕ, zero, suc, ◌+◌, ◌-◌, ◌*◌, ◌/◌, ◌%◌, ◌^◌, ◌==◌, leb, if◌then◌else◌, Bool, true, false, not,
  ◌&&◌,
}
use zenith_os.Vmm.Paging.{Ptr, null}

-- `heap_block_t`
pub record Block : Type 0 where
  pub size : ℕ
  pub free : Bool
  pub next : Ptr
  pub prev : Ptr

abbrev pub Blocks : Type 0
Blocks = Ptr → Block

abbrev pub header : ℕ
header = 32

-- `*p = b` for the header at a pointer
abbrev pub set_block : Blocks → Ptr → Block → Blocks
set_block m p b a = if a == p then b else m a

abbrev pub set_size : Blocks → Ptr → ℕ → Blocks
set_size m p n = set_block m p (record (m p) { size = n })

abbrev pub set_free : Blocks → Ptr → Bool → Blocks
set_free m p f = set_block m p (record (m p) { free = f })

abbrev pub set_next : Blocks → Ptr → Ptr → Blocks
set_next m p q = set_block m p (record (m p) { next = q })

-- `if (p) p->prev = q`
abbrev pub set_prev : Blocks → Ptr → Ptr → Blocks
set_prev m p q = if p == null then m else set_block m p (record (m p) { prev = q })

unfoldable pub find_free_block : ℕ → Blocks → Ptr → ℕ → Ptr
find_free_block zero m current size = null
find_free_block (suc fuel) m current size =
    let rest = find_free_block fuel m (m current).next size in
    if current == null
    then null
    else if (m current).free && leb size (m current).size
    then current
    else rest

-- The header of the new block, and the pointer back to it.
unfoldable pub link_new : Blocks → Ptr → Ptr → ℕ → Blocks
link_new m block new_block size =
    let m1 = set_block m new_block (record {
      size = (m block).size - size - header;
      free = true;
      next = (m block).next;
      prev = block;
    }) in
    set_prev m1 (m1 block).next new_block

unfoldable pub split_block : Blocks → Ptr → ℕ → Blocks
split_block m block size =
    if leb (m block).size ((size + header) % 2 ^ 64)
    then m
    else let new_block = (block + header + size) % 2 ^ 64 in
      set_size (set_next (link_new m block new_block size) block new_block) block size

-- The block at `next`, which is free, becomes a part of the one at `block`.
unfoldable pub join : Blocks → Ptr → Ptr → Blocks
join m block next =
    let m1 = set_size m block (((m block).size + (header + (m next).size)) % 2 ^ 64) in
    let m2 = set_next m1 block (m1 next).next in set_prev m2 (m2 next).next block

unfoldable pub merge_with_next : Blocks → Ptr → Blocks
merge_with_next m block =
    if block == null
    then m
    else if (m block).next == null
    then m
    else if not (m (m block).next).free
    then m
    else join m block (m block).next

unfoldable pub merge_with_previous : Blocks → Ptr → Blocks
merge_with_previous m block =
    if block == null
    then m
    else if (m block).prev == null
    then m
    else if not (m (m block).prev).free
    then m
    else join m (m block).prev block

-- The inner loop of `coalesce_free_blocks`.
unfoldable pub absorb : ℕ → Blocks → Ptr → Blocks
absorb zero m current = m
absorb (suc fuel) m current =
    let rest = absorb fuel (merge_with_next m current) current in
    if (m current).free && not ((m current).next == null) && (m (m current).next).free
    then rest
    else m

-- The outer loop, with the same fuel for each inner one.
unfoldable pub coalesce_from : ℕ → ℕ → Blocks → Ptr → Blocks
coalesce_from inner zero m current = m
coalesce_from inner (suc fuel) m current =
    let m1 = absorb inner m current in
    let rest = coalesce_from inner fuel m1 (m1 current).next in if current == null then m else rest

unfoldable pub find_last_block : ℕ → Blocks → Ptr → Ptr
find_last_block zero m current = current
find_last_block (suc fuel) m current =
    let rest = find_last_block fuel m (m current).next in
    if (m current).next == null then current else rest

-- `(size + 15) & ~15`
unfoldable pub align_size : ℕ → ℕ
align_size size = (size + 15) % 2 ^ 64 / 16 * 16
