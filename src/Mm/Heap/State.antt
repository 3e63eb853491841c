-- ===== src/Mm/Heap/State.antt =====
-- The invariant of the heap of heap.c, with `coalesce_free_blocks` and the block that `kmalloc` takes.
use zenith_os.Prelude.{
  ℕ, ◌+◌, ◌-◌, ◌*◌, ◌<◌, ◌≤◌, ◌^◌, ◌≡◌, ◌≢◌, refl, sym, ap, ◌∙◌, subst, leb, if◌then◌else◌, true,
  false, List, ◌∷◌, ◌++◌, arith, Bool-cases, inl, inr,
}
use zenith_os.Vmm.Paging.{Ptr, null}
use zenith_os.Mm.Pmm.{page_size}
use zenith_os.Vmm.Paging.Tree.{Places}
use zenith_os.Vmm.Paging.Kept.{IsValid}
use zenith_os.Mm.Heap.{Blocks, header}
use zenith_os.Mm.Heap.Calls.{Heap, coalesce_free_blocks, found_block, take_block}
use zenith_os.Mm.Heap.Chain.{
  Seg, behind, total, Chain, Chain-split, replace-Chain, end_of, end_of-total, last_block,
  total_append, live, live_append, first_fit, first_fit-inv, find_free_block-first_fit,
  length-total,
}
use zenith_os.Mm.Heap.Coalesce.{
  IsApart, coalesced-IsApart, coalesced, total-coalesced, live-coalesced, coalesce_from-Chain,
}
use zenith_os.Mm.Heap.Take.{taken, cut-Chain}

-- The blocks `xs` fill the committed pages from the head on, and all free pages and one
-- more would have addresses behind them.
pub record IsHeap (h : ℕ) (root : Ptr) (s : Heap) (place : Places) (xs : List Seg) : Type 0 where
  pub pages : IsValid h root s.paging place
  pub chain : Chain s.blocks null s.heap_head xs
  pub pos : 0 < s.heap_head
  pub some_block : 0 < total xs
  pub same_start : s.heap_virtual_start ≡ s.heap_head
  pub committed : s.heap_committed_end ≡ s.heap_head + total xs
  pub size : s.heap_size ≡ total xs
  pub room : s.heap_committed_end + (s.paging.pmm.free_pages + 1) * page_size < 2 ^ 64

module _ {h : ℕ} {root : Ptr} {s : Heap} {place : Places} where
  -- Other blocks of the same total size.
  pub set_blocks-IsHeap :
      {xs : List Seg} (k : Blocks) (zs : List Seg)
      → IsHeap h root s place xs
      → Chain k null s.heap_head zs
      → total zs ≡ total xs
      → IsHeap h root (record s { blocks = k }) place zs
  set_blocks-IsHeap k zs v c same = record {
    pages = v.pages;
    chain = c;
    pos = v.pos;
    some_block = omega (arith, v.some_block);
    same_start = v.same_start;
    committed = omega (arith, v.committed);
    size = omega (arith, v.size);
    room = v.room;
  }

  pub coalesce_free_blocks-IsHeap :
      (x : Seg) (xs : List Seg)
      → IsHeap h root s place (x ∷ xs)
      → IsHeap h root (coalesce_free_blocks s) place (coalesced x xs)
  coalesce_free_blocks-IsHeap x xs v =
      let few = length-total (x ∷ xs) in
      let (c, _) =
        coalesce_from-Chain s.heap_size s.heap_size s.blocks null s.heap_head (x ∷ xs)
          (omega (arith, v.size)) (omega (arith, v.size)) v.pos (omega (arith, v.committed, v.room))
          v.chain in
      set_blocks-IsHeap _ (coalesced x xs) v c (total-coalesced x xs)

  -- `coalesce_free_blocks` leaves no two free blocks side by side, the blocks in use where they are,
  -- and blocks that fill the committed pages, in a heap whose blocks did so.
  pub coalesce_free_blocks-IsApart :
      (x : Seg) (xs : List Seg)
      → IsHeap h root s place (x ∷ xs)
      → (zs : List Seg) × IsHeap h root (coalesce_free_blocks s) place zs
        × IsApart zs
        × (live s.heap_head zs ≡ live s.heap_head (x ∷ xs))
  coalesce_free_blocks-IsApart x xs v = (
    coalesced x xs,
    coalesce_free_blocks-IsHeap x xs v,
    coalesced-IsApart x xs,
    live-coalesced s.heap_head x xs,
  )

  pub found_block-first_fit :
      (x : Seg) (xs : List Seg) (n : ℕ)
      → IsHeap h root s place (x ∷ xs)
      → found_block s n ≡ first_fit s.heap_head (x ∷ xs) n
  found_block-first_fit x xs n v =
      find_free_block-first_fit s.heap_size s.blocks null s.heap_head (x ∷ xs) n v.chain v.pos
        (omega (arith, length-total (x ∷ xs), v.size))

-- The size that a block has once it is taken.
abbrev pub taken_size : ℕ → ℕ → ℕ
taken_size n k = if leb k (n + header) then k else n

-- Of the blocks `xs` from `a` on, which become `zs`, one that was free is in use behind `p`, with
-- room for `n` bytes; the blocks in use before stay.
pub record Takes (a : Ptr) (xs zs : List Seg) (n : ℕ) (p : Ptr) : Type 0 where
  pub before : List (Ptr × ℕ)
  pub after : List (Ptr × ℕ)
  pub block : Ptr
  pub granted : ℕ
  pub was : live a xs ≡ before ++ after
  pub becomes : live a zs ≡ before ++ ((block, granted) ∷ after)
  pub pointer : p ≡ block + header
  pub enough : n ≤ granted
  pub same_total : total zs ≡ total xs
  pub inside : (a ≤ block) × (p + granted ≤ a + total xs)

total-taken : (n k : ℕ) (ys : List Seg) → n ≤ k → total (taken n k ++ ys) ≡ total ((k, true) ∷ ys)
total-taken n k ys h = elim (Bool-cases (leb k (n + header))) [
  | inl small ↦ rw small refl
  | inr large ↦ rw large (ground arith)
]

live-taken :
    (a n k : ℕ) (ys : List Seg)
    → n ≤ k
    → live a (taken n k ++ ys) ≡ (a, taken_size n k) ∷ live (behind a (k, true)) ys
live-taken a n k ys h = elim (Bool-cases (leb k (n + header))) [
  | inl small ↦ rw small refl
  | inr large ↦
      let here : behind (behind a (n, false)) (k - n - header, true) ≡ behind a (k, true) =
        ground arith in
      rw large (ap (λ b. (a, n) ∷ live b ys) here)
]

taken_size-enough : (n k : ℕ) → n ≤ k → (n ≤ taken_size n k) × (taken_size n k ≤ k)
taken_size-enough n k h = (ground arith, ground arith)

taken-Chain :
    (m k : Blocks) (q a : Ptr) (ws : List Seg) (y : Seg) (ys : List Seg) (n j : ℕ)
    → Chain m q a (ws ++ (y ∷ ys))
    → ((t : Ptr) → t < end_of a ws → k t ≡ m t)
    → Chain k (last_block q a ws) (end_of a ws) (taken n j ++ ys)
    → Chain k q a (ws ++ (taken n j ++ ys))
taken-Chain m k q a ws y ys n j c same d = elim (Bool-cases (leb j (n + header))) [
  | inl small ↦ rw small (replace-Chain m k q a ws y ys _ ys c same (rw small at d))
  | inr large ↦ rw large (replace-Chain m k q a ws y ys _ _ c same (rw large at d))
]

module _ {h : ℕ} {root : Ptr} {s : Heap} {place : Places} (ws ys : List Seg) (k n : ℕ)
    (v : IsHeap h root s place (ws ++ ((k, true) ∷ ys))) (room : n ≤ k) where
  abbrev at_ws : Ptr
  at_ws = end_of s.heap_head ws

  abbrev result : List Seg
  result = ws ++ (taken n k ++ ys)

  end_fits : at_ws + total ((k, true) ∷ ys) < 2 ^ 64
  end_fits =
      omega
        (arith, end_of-total s.heap_head ws, total_append ws ((k, true) ∷ ys), v.committed, v.room)

  taken_blocks-IsHeap : IsHeap h root (take_block s at_ws n).1 place result
  unfolding take_block
  taken_blocks-IsHeap =
      let (c, below) =
        cut-Chain s.blocks _ at_ws k n true ys (omega (arith, end_of-total s.heap_head ws, v.pos))
          end_fits room (Chain-split s.blocks null s.heap_head ws (k, true) ys v.chain).1
          (omega (arith, end_fits)) in
      set_blocks-IsHeap _ result v
        (taken-Chain s.blocks _ null s.heap_head ws (k, true) ys n k v.chain below c)
        (omega (
          arith,
          total_append ws (taken n k ++ ys),
          total_append ws ((k, true) ∷ ys),
          total-taken n k ys room,
        ))

  taken-Takes : Takes s.heap_head (ws ++ ((k, true) ∷ ys)) result n (take_block s at_ws n).0
  unfolding take_block
  taken-Takes = record {
    before = live s.heap_head ws;
    after = live (behind at_ws (k, true)) ys;
    block = at_ws;
    granted = taken_size n k;
    was = live_append s.heap_head ws ((k, true) ∷ ys);
    becomes =
        live_append s.heap_head ws (taken n k ++ ys)
        ∙ ap (λ l. live s.heap_head ws ++ l) (live-taken at_ws n k ys room);
    pointer = omega (arith, end_fits);
    enough = (taken_size-enough n k room).0;
    same_total = omega (
      arith,
      total_append ws (taken n k ++ ys),
      total_append ws ((k, true) ∷ ys),
      total-taken n k ys room,
    );
    inside = (
      omega (arith, end_of-total s.heap_head ws),
      omega (
        arith,
        end_fits,
        end_of-total s.heap_head ws,
        total_append ws ((k, true) ∷ ys),
        (taken_size-enough n k room).1,
      ),
    );
  }

pub take_block-Takes :
    {h : ℕ} {root : Ptr} {s : Heap} {place : Places} (xs : List Seg) (n : ℕ)
    → IsHeap h root s place xs
    → first_fit s.heap_head xs n ≢ null
    → (zs : List Seg) × IsHeap h root (take_block s (first_fit s.heap_head xs n) n).1 place zs
      × Takes s.heap_head xs zs n (take_block s (first_fit s.heap_head xs n) n).0
take_block-Takes {h} {root} {s} {place} xs n v nn =
    let (ws, k, ys, e, p, room) = first_fit-inv s.heap_head xs n nn in
    let w = subst (λ l. IsHeap h root s place l) e v in
    subst
      (λ l.
        (zs : List Seg) × IsHeap h root (take_block s (first_fit s.heap_head xs n) n).1 place zs
        × Takes s.heap_head l zs n (take_block s (first_fit s.heap_head xs n) n).0)
      (sym e)
      (rw p (
        ws ++ (taken n k ++ ys),
        taken_blocks-IsHeap ws ys k n w room,
        taken-Takes ws ys k n w room,
      ))
