-- ===== src/Mm/Heap/Expand.antt =====
-- About `heap_expand` of heap.c on the whole state of the heap.

use zenith_os.Prelude.{
  ℕ, ◌+◌, ◌<◌, ◌≤◌, ◌%◌, ◌^◌, ◌≡◌, refl, sym, ap, ◌∙◌, subst, ◌==◌, Bool, true, false, List, [],
  ◌∷◌, ◌++◌, arith, Bool-cases, inl, inr, ne→==, ==→eq, ==→ne,
}
use zenith_os.Prelude.{Option, none, some, ap₂}
use zenith_os.Mm.Pmm.{Pmm, page_size, alloc_page}
use zenith_os.Mm.Pmm.Alloc.{Allocated, alloc_page-none, alloc_page-some}
use zenith_os.Vmm.Paging.{Ptr, null, Paging, active_root, current_root}
use zenith_os.Vmm.Paging.Calls.{page_table_map_page}
use zenith_os.Vmm.Paging.Tree.{Places}
use zenith_os.Vmm.Paging.Kept.{IsValid}
use zenith_os.Vmm.Paging.Map.{page_table_map-Changes}
use zenith_os.Mm.Heap.{find_last_block}
use zenith_os.Mm.Heap.Calls.{
  Heap, append_block, commit_mapped, commit_allocated, heap_commit_page, heap_committed_size,
  expand_committed, expand_area, heap_expand,
}
use zenith_os.Mm.Heap.Chain.{
  Seg, behind, total, Chain, end_of, end_of-total, last_block, last_block_append, unsnoc,
  total_append, live, length-total, find_last_block-last_block,
}
use zenith_os.Mm.Heap.Grow.{extended, append-Chain, append-List}
use zenith_os.Mm.Heap.State.{IsHeap}

-- What a call that may add a page does: the blocks in use stay, and one that succeeds adds a page
-- that was free.
pub record Expands (h : ℕ) (root : Ptr) (s : Heap) (xs : List Seg) (r : Bool × Heap) : Type 0 where
  pub place : Places
  pub segs : List Seg
  pub valid : IsHeap h root r.1 place segs
  pub same_head : r.1.heap_head ≡ s.heap_head
  pub same_live : live r.1.heap_head segs ≡ live s.heap_head xs
  pub fewer : r.1.paging.pmm.free_pages ≤ s.paging.pmm.free_pages
  pub progress :
      r.0 ≡ true
      → (r.1.paging.pmm.free_pages < s.paging.pmm.free_pages) × (total segs ≡ total xs + page_size)

-- A page that is taken out of the allocator is still no table.
pub alloc-IsValid :
    {h : ℕ} {root : Ptr} {g : Paging} {place : Places} (p : ℕ) (r : Option ℕ × Pmm)
    → IsValid h root g place
    → Allocated g.pmm p r
    → IsValid h root (record g { pmm = r.1 }) place
unfolding active_root current_root
alloc-IsValid p r v done = record {
  pages = done.valid;
  hhdm = v.hhdm;
  rooted = v.rooted;
  root_place = v.root_place;
  tree = v.tree;
  unplaced = λ j free. v.unplaced j (let after = done.in_use_after j in ground arith);
}

module _ {h : ℕ} {root : Ptr} (s : Heap) (x : Seg) (xs : List Seg) (place : Places)
    (v : IsHeap h root s place (x ∷ xs)) where
  -- Without a new page.
  stays-Expands :
      (g : Paging) (place' : Places)
      → IsValid h root g place'
      → g.pmm.free_pages ≤ s.paging.pmm.free_pages
      → Expands h root s (x ∷ xs) (false, record s { paging = g })
  stays-Expands g place' pages fewer = record {
    place = place';
    segs = x ∷ xs;
    valid = record {
      pages = pages;
      chain = v.chain;
      pos = v.pos;
      some_block = v.some_block;
      same_start = v.same_start;
      committed = v.committed;
      size = v.size;
      room = omega (arith, v.room, fewer);
    };
    same_head = refl;
    same_live = refl;
    fewer = fewer;
    progress = λ e. absurd (cc e);
  }

  -- With the page at the committed end.
  abbrev with_page : Paging → Heap
  with_page g = record s {
    paging = g;
    heap_committed_end = (s.heap_committed_end + page_size) % 2 ^ 64;
  }

  append-Expands :
      (area : ℕ) (g : Paging) (place' : Places)
      → IsValid h root g place'
      → g.pmm.free_pages < s.paging.pmm.free_pages
      → Expands h root s
          (x ∷ xs)
          (expand_committed s.heap_size area (s.heap_committed_end, with_page g))
  unfolding expand_committed
  append-Expands area g place' pages fewer =
      let (ws, z, e) = unsnoc x xs in
      let last : find_last_block s.heap_size s.blocks s.heap_head ≡ end_of s.heap_head ws =
        find_last_block-last_block s.heap_size s.blocks null s.heap_head x xs v.chain v.pos
          (omega (arith, length-total (x ∷ xs), v.size))
        ∙ ap (last_block null s.heap_head) e
        ∙ last_block_append null s.heap_head ws z in
      let sum = ap total e ∙ total_append ws (z ∷ []) in
      let start : s.heap_committed_end ≡ behind (end_of s.heap_head ws) z =
        omega (arith, v.committed, sum, end_of-total s.heap_head ws) in
      let (grown, same) = append-List s.heap_head ws z in
      let size : heap_committed_size (with_page g) ≡ total (ws ++ extended z) =
        omega (arith, grown, ap total e, v.committed, v.room, v.same_start) in
      let chain =
        append-Chain s.blocks null s.heap_head ws z v.pos
          (omega (arith, ap total e, v.committed, v.room, fewer))
          (subst (λ l. Chain s.blocks null s.heap_head l) e v.chain) in
      rw (ne→== s.heap_committed_end null (λ e. absurd (omega (arith, v.committed, v.pos))))
        (record {
          place = place';
          segs = ws ++ extended z;
          valid = record {
            pages = pages;
            chain =
                subst (λ k. Chain k null s.heap_head (ws ++ extended z))
                  (sym (ap₂ (append_block s.blocks) last start)) chain;
            pos = v.pos;
            some_block = omega (arith, grown);
            same_start = v.same_start;
            committed = omega (arith, grown, ap total e, v.committed, v.room, fewer);
            size = size;
            room = omega (arith, v.room, fewer);
          };
          same_head = refl;
          same_live = same ∙ ap (live s.heap_head) (sym e);
          fewer = omega (arith, fewer);
          progress = λ _. (fewer, omega (arith, grown, ap total e));
        })

  mapped-Expands :
      (area : ℕ) (r : Bool × Paging) (place' : Places)
      → IsValid h root r.1 place'
      → r.1.pmm.free_pages < s.paging.pmm.free_pages
      → Expands h root s
          (x ∷ xs)
          (expand_committed s.heap_size area (commit_mapped s s.heap_committed_end r))
  unfolding commit_mapped expand_committed
  mapped-Expands area (true, g) place' pages fewer = append-Expands area g place' pages fewer
  mapped-Expands area (false, g) place' pages fewer =
      stays-Expands g place' pages (omega (arith, fewer))

  Allocated-Expands :
      (area p : ℕ) (r : Option ℕ × Pmm)
      → Allocated s.paging.pmm p r
      → Expands h root s
          (x ∷ xs)
          (expand_committed s.heap_size area (commit_allocated s s.heap_committed_end r))
  unfolding commit_allocated page_table_map_page
  Allocated-Expands area p (none, q) done = absurd (cc done.address)
  Allocated-Expands area p (some physical, q) done =
      let c =
        page_table_map-Changes (alloc-IsValid p (some physical, q) v.pages done)
          s.heap_committed_end physical _ in
      mapped-Expands area _ c.place c.valid (omega (arith, c.fewer, done.one_less))

  area-Expands : (o : Option ℕ) → Expands h root s (x ∷ xs) (expand_area o s)
  unfolding expand_area heap_commit_page commit_allocated expand_committed
  area-Expands none = stays-Expands s.paging place v.pages (omega arith)
  area-Expands (some area) = elim (Bool-cases (s.paging.pmm.free_pages == 0)) [
    | inl empty ↦
        subst
          (λ r.
            Expands h root s (x ∷ xs)
              (expand_committed s.heap_size area (commit_allocated s s.heap_committed_end r)))
          (sym (alloc_page-none s.paging.pmm (==→eq _ _ empty)))
          (stays-Expands s.paging place v.pages (omega arith))
    | inr more ↦
        let (p, done, _) =
          alloc_page-some s.paging.pmm v.pages.pages (omega (arith, ==→ne _ _ more)) in
        Allocated-Expands area p (alloc_page s.paging.pmm) done
  ]

  pub heap_expand-Expands : Expands h root s (x ∷ xs) (heap_expand s)
  unfolding heap_expand
  heap_expand-Expands = area-Expands s.heap_vma
