-- ===== src/Mm/Heap/Laws.antt =====
-- About `kmalloc` of heap.c.

use zenith_os.Prelude.{
  ℕ, zero, suc, ◌+◌, ◌<◌, ◌≤◌, ◌^◌, ◌≡◌, ◌≢◌, refl, sym, ap, ◌∙◌, subst, ◌==◌, Bool, true, false,
  List, ◌∷◌, arith, Bool-cases, inl, inr, ==→ne,
}
use zenith_os.Prelude.{Option, some}
use zenith_os.Prelude.{List-cases}
use zenith_os.Vmm.Paging.{Ptr, null}
use zenith_os.Vmm.Paging.Tree.{Places}
use zenith_os.Mm.Heap.{header, align_size}
use zenith_os.Prelude.{some_inj}
use zenith_os.Mm.Heap.Calls.{
  Heap, coalesce_free_blocks, take_block, kmalloc_grown, kmalloc_loop, kmalloc,
}
use zenith_os.Mm.Heap.Chain.{Seg, total, live, first_fit}
use zenith_os.Mm.Heap.Coalesce.{absorbed, coalesced_all, coalesced-absorbed, live-coalesced}
use zenith_os.Mm.Heap.State.{
  IsHeap, Takes, coalesce_free_blocks-IsHeap, found_block-first_fit, take_block-Takes,
}
use zenith_os.Mm.Heap.Expand.{Expands}
use zenith_os.Mm.Heap.Serve.{Serves, heap_grow-Expands}

module _ {h : ℕ} {root : Ptr} where
  -- What is served behind a step that keeps the blocks in use.
  Serves-after :
      {s s' : Heap} {xs ys : List Seg} {n : ℕ} {r : Ptr × Heap}
      → s'.heap_head ≡ s.heap_head
      → live s'.heap_head ys ≡ live s.heap_head xs
      → Serves h root s' ys n r
      → Serves h root s xs n r
  Serves-after {s} {s'} {xs} {ys} {n} {r} head same w =
      let back : live s.heap_head ys ≡ live s.heap_head xs =
        ap (λ a. live a ys) (sym head) ∙ same in
      record {
        place = w.place;
        old = w.old;
        segs = w.segs;
        valid = w.valid;
        same_head = w.same_head ∙ head;
        kept = ap (λ a. live a w.old) (sym head) ∙ w.kept ∙ same;
        answer = elim w.answer [
          | inl (z, l) ↦ inl (z, ap (λ a. live a w.segs) (sym head) ∙ l ∙ same)
          | inr t ↦ inr (subst (λ a. Takes a w.old w.segs n r.0) head t)
        ];
      }

  -- The rest of a round, once `heap_grow` has returned.
  grown-Serves :
      (fuel : ℕ) (s : Heap) (xs : List Seg) (n : ℕ) (next : Heap → Option (Ptr × Heap))
      (r : Bool × Heap)
      → Expands h root s xs r
      → s.paging.pmm.free_pages + 2 ≤ suc fuel
      → ((s' : Heap) (place : Places) (y : Seg) (ys : List Seg)
          → IsHeap h root s' place (y ∷ ys)
          → s'.paging.pmm.free_pages + 2 ≤ fuel
          → (a : Ptr × Heap) × (next s' ≡ some a) × Serves h root s' (y ∷ ys) n a)
      → (a : Ptr × Heap) × (kmalloc_grown next (some r) ≡ some a) × Serves h root s xs n a
  unfolding kmalloc_grown
  grown-Serves fuel s xs n next (false, s') e few ok = (
    (null, s'),
    refl,
    record {
      place = e.place;
      old = xs;
      segs = e.segs;
      valid = e.valid;
      same_head = e.same_head;
      kept = refl;
      answer = inl (refl, ap (λ a. live a e.segs) (sym e.same_head) ∙ e.same_live);
    },
  )
  grown-Serves fuel s xs n next (true, s') e few ok = elim (List-cases e.segs) [
    | inl empty ↦ absurd (omega (arith, ap total empty, e.valid.some_block))
    | inr (y, ys, cons) ↦
        let v = subst (λ l. IsHeap h root s' e.place l) cons e.valid in
        let (a, got, w) = ok s' e.place y ys v (omega (arith, (e.progress refl).0)) in
        (a, got, Serves-after e.same_head (ap (live s'.heap_head) (sym cons) ∙ e.same_live) w)
  ]

  -- A round of the loop of `kmalloc`, on the merged blocks.
  kmalloc_loop-Serves :
      (fuel : ℕ) (s : Heap) (place : Places) (x : Seg) (xs : List Seg) (n : ℕ)
      → IsHeap h root s place (x ∷ xs)
      → s.paging.pmm.free_pages + 2 ≤ fuel
      → (a : Ptr × Heap) × (kmalloc_loop fuel s n ≡ some a) × Serves h root s (x ∷ xs) n a
  unfolding kmalloc_loop take_block
  kmalloc_loop-Serves zero s place x xs n v few = absurd (omega arith)
  kmalloc_loop-Serves (suc fuel) s place x xs n v few =
      let y = (absorbed x xs).0 in
      let ys = coalesced_all (absorbed x xs).1 in
      let e = coalesced-absorbed x xs in
      let s1 = coalesce_free_blocks s in
      let v1 : IsHeap h root s1 place (y ∷ ys) =
        subst (λ l. IsHeap h root s1 place l) e (coalesce_free_blocks-IsHeap x xs v) in
      let same : live s.heap_head (y ∷ ys) ≡ live s.heap_head (x ∷ xs) =
        ap (live s.heap_head) (sym e) ∙ live-coalesced s.heap_head x xs in
      let found = found_block-first_fit y ys n v1 in
      elim (Bool-cases (first_fit s.heap_head (y ∷ ys) n == null)) [
        | inl none_fits ↦
            let (r, got, grown) = heap_grow-Expands (suc fuel) s1 place y ys v1 (omega arith) in
            let (a, done, w) =
              grown-Serves fuel s1 (y ∷ ys) n (λ s2. kmalloc_loop fuel s2 n) r grown few
                (λ s2 place2 z zs v2 few2. kmalloc_loop-Serves fuel s2 place2 z zs n v2 few2) in
            rw (found, none_fits, got) (a, done, Serves-after refl same w)
        | inr fits ↦
            let (zs, valid, taken) = take_block-Takes (y ∷ ys) n v1 (==→ne _ _ fits) in
            rw (found, fits)
              (
                take_block s1 (first_fit s.heap_head (y ∷ ys) n) n,
                refl,
                record {
                  place = place;
                  old = y ∷ ys;
                  segs = zs;
                  valid = valid;
                  same_head = refl;
                  kept = same;
                  answer = inr taken;
                },
              )
      ]

  -- `kmalloc` ends with two rounds more than there are free pages, in a heap whose blocks fill the
  -- committed pages; then they do so again, with the blocks in use as before, and the call has either
  -- put one more in use, behind the pointer that it returns, with room for the aligned size and
  -- inside the committed pages, or returned NULL with no change to the blocks in use.
  pub kmalloc-Serves :
      (fuel : ℕ) (s : Heap) (place : Places) (x : Seg) (xs : List Seg) (size : ℕ)
      → IsHeap h root s place (x ∷ xs)
      → s.paging.pmm.free_pages + 2 ≤ fuel
      → (a : Ptr × Heap) × (kmalloc fuel s size ≡ some a)
        × Serves h root s (x ∷ xs) (align_size size) a
  unfolding kmalloc
  kmalloc-Serves fuel s place x xs size v few = elim (Bool-cases (size == 0)) [
    | inl none_asked ↦ rw none_asked (
      (null, s),
      refl,
      record {
        place = place;
        old = x ∷ xs;
        segs = x ∷ xs;
        valid = v;
        same_head = refl;
        kept = refl;
        answer = inl (refl, refl);
      },
    )
    | inr asked ↦ rw asked (kmalloc_loop-Serves fuel s place x xs (align_size size) v few)
  ]

  -- In a heap whose blocks fill the committed pages, and with two rounds more than there are free
  -- pages, a pointer other than NULL that `kmalloc` returns for a size below 2^64 - 15 has room
  -- for that size between the first header and the committed end.
  pub kmalloc_room :
      (fuel : ℕ) (s : Heap) (place : Places) (x : Seg) (xs : List Seg) (size : ℕ) (a : Ptr × Heap)
      → IsHeap h root s place (x ∷ xs)
      → s.paging.pmm.free_pages + 2 ≤ fuel
      → size + 15 < 2 ^ 64
      → kmalloc fuel s size ≡ some a
      → a.0 ≢ null
      → (granted : ℕ) × (size ≤ granted)
        × (s.heap_head + header ≤ a.0)
        × (a.0 + granted ≤ a.1.heap_committed_end)
  unfolding align_size
  kmalloc_room fuel s place x xs size a v few nowrap got nn =
      let (b, done, w) = kmalloc-Serves fuel s place x xs size v few in
      let same : a ≡ b = some_inj (sym got ∙ done) in
      elim w.answer [
        | inl (z, _) ↦ absurd (nn (ap (λ (r : Ptr × Heap). r.0) same ∙ z))
        | inr t ↦ (
          t.granted,
          omega (arith, t.enough),
          omega (arith, t.pointer, (t.inside).0, ap (λ (r : Ptr × Heap). r.0) same),
          omega (
            arith,
            (t.inside).1,
            t.same_total,
            w.valid.committed,
            w.same_head,
            ap (λ (r : Ptr × Heap). r.0) same,
            ap (λ (r : Ptr × Heap). r.1.heap_committed_end) same,
          ),
        )
      ]
