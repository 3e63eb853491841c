-- ===== src/Mm/Heap/Serve.antt =====
-- The specification of `kmalloc` of heap.c, and `heap_grow` as `kmalloc` calls it.
use zenith_os.Prelude.{
  ℕ, zero, suc, ◌+◌, ◌<◌, ◌≤◌, ◌%◌, ◌^◌, ◌≡◌, refl, subst, ltb, Bool, true, false, List, ◌∷◌, arith,
  Bool-cases, inl, inr,
}
use zenith_os.Prelude.{some}
use zenith_os.Prelude.{◌⊎◌}
use zenith_os.Vmm.Paging.{Ptr, null}
use zenith_os.Vmm.Paging.Tree.{Places}
use zenith_os.Mm.Heap.Calls.{Heap, heap_committed_size, heap_expand, heap_grow, heap_grow_size}
use zenith_os.Mm.Heap.Chain.{Seg, total, live}
use zenith_os.Mm.Heap.State.{IsHeap, Takes}
use zenith_os.Mm.Heap.Expand.{Expands, heap_expand-Expands}

-- What `kmalloc` does to the blocks in use: it takes one more, or it returns NULL.
pub record Serves (h : ℕ) (root : Ptr) (s : Heap) (xs : List Seg) (n : ℕ) (r : Ptr × Heap)
    : Type 0 where
  pub place : Places
  pub old : List Seg
  pub segs : List Seg
  pub valid : IsHeap h root r.1 place segs
  pub same_head : r.1.heap_head ≡ s.heap_head
  pub kept : live s.heap_head old ≡ live s.heap_head xs
  pub answer :
      ((r.0 ≡ null) × (live s.heap_head segs ≡ live s.heap_head xs))
      ⊎ Takes s.heap_head old segs n r.0

ltb-true : {a b : ℕ} → a < b → ltb a b ≡ true
ltb-true h = ground arith

ltb-false : {a b : ℕ} → b ≤ a → ltb a b ≡ false
ltb-false h = ground arith

module _ {h : ℕ} {root : Ptr} where
  committed-total :
      (s : Heap) (place : Places) (xs : List Seg)
      → IsHeap h root s place xs
      → heap_committed_size s ≡ total xs
  committed-total s place xs v = omega (arith, v.committed, v.same_start, v.room)

  -- One more page is enough for the goal that `kmalloc` gives to `heap_grow`.
  pub heap_grow-Expands :
      (fuel : ℕ) (s : Heap) (place : Places) (x : Seg) (xs : List Seg)
      → IsHeap h root s place (x ∷ xs)
      → 2 ≤ fuel
      → (r : Bool × Heap) × (heap_grow fuel s ((heap_committed_size s + heap_grow_size) % 2 ^ 64)
          ≡ some r)
        × Expands h root s (x ∷ xs) r
  unfolding heap_grow
  heap_grow-Expands (suc (suc fuel)) s place x xs v two =
      let goal = (heap_committed_size s + heap_grow_size) % 2 ^ 64 in
      let size = committed-total s place (x ∷ xs) v in
      let e = heap_expand-Expands s x xs place v in
      let short : ltb (heap_committed_size s) goal ≡ true =
        ltb-true (omega (arith, v.committed, v.room)) in
      rw short (elim (Bool-cases (heap_expand s).0) [
        | inl grown ↦
            let enough : ltb (heap_committed_size (heap_expand s).1) goal ≡ false =
              ltb-false
                (omega (arith, committed-total _ e.place e.segs e.valid, (e.progress grown).1)) in
            rw (grown, enough)
              (
                (true, (heap_expand s).1),
                refl,
                subst (λ b. Expands h root s (x ∷ xs) (b, (heap_expand s).1)) grown e,
              )
        | inr stuck ↦ rw stuck (
          (false, (heap_expand s).1),
          refl,
          subst (λ b. Expands h root s (x ∷ xs) (b, (heap_expand s).1)) stuck e,
        )
      ])
  heap_grow-Expands (suc zero) s place x xs v two = absurd (omega arith)
  heap_grow-Expands zero s place x xs v two = absurd (omega arith)
