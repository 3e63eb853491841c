-- ===== src/Mm/Heap/Init.antt =====
-- About `heap_init` of heap.c.
use Prim.{tt}
use zenith_os.Prelude.{
  ℕ, ◌-◌, ◌≤◌, ◌^◌, ◌≡◌, ◌≢◌, refl, ap, ◌∙◌, ◌==◌, Bool, true, false, [], ◌∷◌, arith, Bool-cases,
  inl, inr, ==→eq, ==→ne,
}
use zenith_os.Prelude.{Option, none, some}
use zenith_os.Mm.Pmm.{Pmm, alloc_page}
use zenith_os.Mm.Pmm.Alloc.{Allocated, alloc_page-none, alloc_page-some}
use zenith_os.Vmm.Paging.{Ptr, null, Paging}
use zenith_os.Vmm.Paging.Calls.{page_table_map_page}
use zenith_os.Vmm.Paging.Tree.{Places}
use zenith_os.Vmm.Paging.Kept.{IsValid}
use zenith_os.Vmm.Paging.Map.{page_table_map-Changes}
use zenith_os.Vmm.Vma
use zenith_os.Mm.Heap.{header}
use zenith_os.Mm.Heap.Calls.{
  Heap, heap_create_block, heap_start_address, heap_initial_size, init_mapped, init_allocated,
  init_found, heap_init,
}
use zenith_os.Mm.Heap.Chain.{Seg, Chain}
use zenith_os.Mm.Heap.State.{IsHeap}
use zenith_os.Mm.Heap.Expand.{alloc-IsValid}

-- The block of the first page.
abbrev pub first_block : Seg
first_block = (heap_initial_size - header, true)

-- A heap that was not set up is so with one free block, if the call sets the head of the list.
abbrev Starts : ℕ → Ptr → Heap → Type 0
Starts h root s = s.heap_head ≢ null → (place : Places) × IsHeap h root s place (first_block ∷ [])

module _ {h : ℕ} {root : Ptr} (s : Heap) (unset : s.heap_head ≡ null) where
  pages_few : (g : Paging) (place : Places) → IsValid h root g place → g.pmm.free_pages ≤ 2 ^ 20
  pages_few g place v = omega (arith, v.pages.used, v.pages.fits)

  found-Starts :
      (o : Option ℕ) (g : Paging) (place : Places)
      → IsValid h root g place
      → Starts h root (init_found s g o)
  unfolding init_found heap_create_block Chain
  found-Starts none g place v head = absurd (head unset)
  found-Starts (some area) g place v head =
      let few = pages_few g place v in
      (
        place,
        record {
          pages = v;
          chain = (refl, tt);
          pos = omega arith;
          some_block = omega arith;
          same_start = refl;
          committed = refl;
          size = refl;
          room = omega arith;
        },
      )

  mapped-Starts :
      (r : Bool × Paging) (place : Places)
      → IsValid h root r.1 place
      → Starts h root (init_mapped s r)
  unfolding init_mapped
  mapped-Starts (false, g) place v head = absurd (head unset)
  mapped-Starts (true, g) place v head =
      found-Starts (Vma.find s.vmas heap_start_address) g place v head

  Allocated-Starts :
      (place : Places) (p : ℕ) (r : Option ℕ × Pmm)
      → IsValid h root s.paging place
      → Allocated s.paging.pmm p r
      → Starts h root (init_allocated s r)
  unfolding init_allocated page_table_map_page
  Allocated-Starts place p (none, q) v done head = absurd (head unset)
  Allocated-Starts place p (some physical, q) v done head =
      let c =
        page_table_map-Changes (alloc-IsValid p (some physical, q) v done) heap_start_address
          physical _ in
      mapped-Starts _ c.place c.valid head

  -- `heap_init`, on a heap that was not set up and valid page tables, if it sets the head of the list,
  -- leaves one free block that fills the first page.
  pub heap_init-IsHeap :
      (place : Places)
      → IsValid h root s.paging place
      → (heap_init s).heap_head ≢ null
      → (place' : Places) × IsHeap h root (heap_init s) place' (first_block ∷ [])
  unfolding heap_init init_allocated
  heap_init-IsHeap place v head = elim (Bool-cases (s.paging.pmm.free_pages == 0)) [
    | inl empty ↦ absurd (
        head (
          ap (λ r. (init_allocated s r).heap_head) (alloc_page-none s.paging.pmm (==→eq _ _ empty))
          ∙ unset))
    | inr more ↦
        let (p, done, _) = alloc_page-some s.paging.pmm v.pages (omega (arith, ==→ne _ _ more)) in
        Allocated-Starts place p (alloc_page s.paging.pmm) v done head
  ]
