-- ===== src/Mm/Heap/Free.antt =====
-- About `kfree` of heap.c: the two merges, on the list of the blocks.

use zenith_os.Prelude.{
  ℕ, ◌+◌, ◌<◌, ◌^◌, ◌≡◌, refl, sym, ap, ◌∙◌, subst, ◌==◌, if◌then◌else◌, Bool, true, false, List,
  [], ◌∷◌, ◌++◌, arith, Bool-cases, inl, inr, ne→==, eq→==,
}
use zenith_os.Vmm.Paging.{Ptr, null}
use zenith_os.Vmm.Paging.Tree.{Places}
use zenith_os.Mm.Heap.{Block, Blocks, header, set_free, merge_with_next, merge_with_previous}
use zenith_os.Mm.Heap.Calls.{Heap, block_of, free_block, kfree}
use zenith_os.Mm.Heap.Chain.{
  Seg, behind, total, Chain, Chain-frame, Chain-split, replace-Chain, end_of, end_of-total,
  last_block, unsnoc, end_of_snoc, snoc_append, total_append, live, live_append,
}
use zenith_os.Mm.Heap.Merge.{joined, merge_with_next-Chain, merge_with_next_below}
use zenith_os.Mm.Heap.State.{IsHeap, set_blocks-IsHeap}

-- The blocks `ys` in the place of `xs`: as many bytes, and the same blocks in use.
abbrev Same : Ptr → List Seg → List Seg → Type 0
Same a xs ys = (total ys ≡ total xs) × (live a ys ≡ live a xs)

Same-append :
    (a : Ptr) (ws xs ys : List Seg) → Same (end_of a ws) xs ys → Same a (ws ++ xs) (ws ++ ys)
Same-append a ws xs ys (t, l) = (
  omega (arith, total_append ws xs, total_append ws ys, t),
  live_append a ws ys ∙ ap (λ z. live a ws ++ z) l ∙ sym (live_append a ws xs),
)

-- A change of the header at `p` alone.
set_free-Chain :
    (m : Blocks) (q p n : ℕ) (f g : Bool) (ys : List Seg)
    → Chain m q p ((n, f) ∷ ys)
    → Chain (set_free m p g) q p ((n, g) ∷ ys) × ((t : Ptr) → t < p → set_free m p g t ≡ m t)
unfolding Chain
set_free-Chain m q p n f g ys (here, rest) = (
  (
    rw (eq→== p p refl, here) refl,
    Chain-frame m (set_free m p g) p (behind p (n, f)) ys
        (λ t le. rw (ne→== t p (λ e. absurd (omega arith))) refl) rest,
  ),
  λ t lt. rw (ne→== t p (λ e. absurd (omega arith))) refl,
)

-- The merge with the next block, as blocks in the place of those there were.
record Merges (m k : Blocks) (q p : Ptr) (x : Seg) (ys : List Seg) : Type 0 where
  size : ℕ
  rest : List Seg
  chain : Chain k q p ((size, x.1) ∷ rest)
  below : (t : Ptr) → t < p → k t ≡ m t
  same : Same p (x ∷ ys) ((size, x.1) ∷ rest)

next_null :
    (m : Blocks) (q p : Ptr) (x : Seg) → 0 < p → Chain m q p (x ∷ []) → merge_with_next m p ≡ m
unfolding Chain merge_with_next
next_null m q p x pos (here, _) = rw (ne→== p null (λ e. absurd (omega arith)), here) refl

merge_with_next-Merges :
    (m : Blocks) (q p n : ℕ) (ys : List Seg)
    → 0 < p
    → p + total ((n, true) ∷ ys) < 2 ^ 64
    → Chain m q p ((n, true) ∷ ys)
    → Merges m (merge_with_next m p) q p (n, true) ys
merge_with_next-Merges m q p n [] pos fits c =
    subst (λ k. Merges m k q p (n, true) []) (sym (next_null m q p (n, true) pos c))
      (record { size = n; rest = []; chain = c; below = λ t lt. refl; same = (refl, refl) })
merge_with_next-Merges m q p n ((j, true) ∷ ys) pos fits c = record {
  size = n + (header + j);
  rest = ys;
  chain = merge_with_next-Chain m q p (n, true) (j, true) ys pos fits c;
  below = merge_with_next_below m q p (n, true) (j, true) ys pos c;
  same = (omega arith, ap (λ b. live b ys) (omega arith));
}
merge_with_next-Merges m q p n ((j, false) ∷ ys) pos fits c = record {
  size = n;
  rest = (j, false) ∷ ys;
  chain = merge_with_next-Chain m q p (n, true) (j, false) ys pos fits c;
  below = merge_with_next_below m q p (n, true) (j, false) ys pos c;
  same = (refl, refl);
}

-- `merge_with_previous` for a free block at `p` behind one at `l`.
previous_step :
    (m : Blocks) (q l n : ℕ) (w : Seg) (ys : List Seg)
    → 0 < l
    → Chain m q l (w ∷ (n, true) ∷ ys)
    → merge_with_previous m (behind l w) ≡ (if w.1 then merge_with_next m l else m)
unfolding Chain merge_with_previous merge_with_next
previous_step m q l n w ys pos (here, (there, rest)) =
    let b = behind l w in
    let nb : (b == null) ≡ false = ne→== b null (λ e. absurd (omega arith)) in
    let nl : (l == null) ≡ false = ne→== l null (λ e. absurd (omega arith)) in
    let link : (m l).next ≡ b = ap (λ (c : Block). c.next) here in
    let free_l : (m l).free ≡ w.1 = ap (λ (c : Block). c.free) here in
    let back : (m b).prev ≡ l = ap (λ (c : Block). c.prev) there in
    let free_b : (m b).free ≡ true = ap (λ (c : Block). c.free) there in
    rw (nb, back, nl, free_l, link, nb, free_b)
      (elim (Bool-cases w.1) [ inl free ↦ rw free refl | inr used ↦ rw used refl ])

previous_null :
    (m : Blocks) (p n : ℕ) (ys : List Seg)
    → 0 < p
    → Chain m null p ((n, true) ∷ ys)
    → merge_with_previous m p ≡ m
unfolding Chain merge_with_previous
previous_null m p n ys pos (here, _) = rw (ne→== p null (λ e. absurd (omega arith)), here) refl

previous-behind :
    (m : Blocks) (a n : ℕ) (us : List Seg) (w : Seg) (ys : List Seg)
    → 0 < a
    → a + total (us ++ (w ∷ (n, true) ∷ ys)) < 2 ^ 64
    → Chain m null a (us ++ (w ∷ (n, true) ∷ ys))
    → (zs : List Seg) × Chain (merge_with_previous m (behind (end_of a us) w)) null a zs
      × Same a (us ++ (w ∷ (n, true) ∷ ys)) zs
previous-behind m a n us (j, false) ys pos fits c =
    let l = end_of a us in
    let d = (Chain-split m null a us (j, false) ((n, true) ∷ ys) c).1 in
    let step = previous_step m _ l n (j, false) ys (omega (arith, end_of-total a us)) d in
    (
      us ++ ((j, false) ∷ (n, true) ∷ ys),
      subst (λ k. Chain k null a (us ++ ((j, false) ∷ (n, true) ∷ ys))) (sym step) c,
      (refl, refl),
    )
previous-behind m a n us (j, true) ys pos fits c =
    let l = end_of a us in
    let q = last_block null a us in
    let zs = joined (j, true) (n, true) ∷ ys in
    let len = total_append us ((j, true) ∷ (n, true) ∷ ys) in
    let end = end_of-total a us in
    let some_l : 0 < l = omega arith in
    let d = (Chain-split m null a us (j, true) ((n, true) ∷ ys) c).1 in
    let step = previous_step m q l n (j, true) ys some_l d in
    let merged = merge_with_next-Chain m q l (j, true) (n, true) ys some_l (omega arith) d in
    let below = merge_with_next_below m q l (j, true) (n, true) ys some_l d in
    (
      us ++ zs,
      subst (λ k. Chain k null a (us ++ zs)) (sym step)
          (replace-Chain m _ null a us (j, true) ((n, true) ∷ ys) _ ys c below merged),
      Same-append a us ((j, true) ∷ (n, true) ∷ ys) zs
          (omega arith, ap (λ b. live b ys) (omega arith)),
    )

-- `merge_with_previous` behind the blocks `ws`.
previous-Same :
    (m : Blocks) (a n : ℕ) (ws ys : List Seg)
    → 0 < a
    → a + total (ws ++ ((n, true) ∷ ys)) < 2 ^ 64
    → Chain m null a (ws ++ ((n, true) ∷ ys))
    → (zs : List Seg) × Chain (merge_with_previous m (end_of a ws)) null a zs
      × Same a (ws ++ ((n, true) ∷ ys)) zs
previous-Same m a n [] ys pos fits c = (
  (n, true) ∷ ys,
  subst (λ k. Chain k null a ((n, true) ∷ ys)) (sym (previous_null m a n ys pos c)) c,
  (refl, refl),
)
previous-Same m a n (x ∷ xs) ys pos fits c =
    let (us, w, e) = unsnoc x xs in
    let list : (x ∷ xs) ++ ((n, true) ∷ ys) ≡ us ++ (w ∷ (n, true) ∷ ys) =
      ap (λ l. l ++ ((n, true) ∷ ys)) e ∙ snoc_append us w ((n, true) ∷ ys) in
    let place : end_of a (x ∷ xs) ≡ behind (end_of a us) w = ap (end_of a) e ∙ end_of_snoc a us w in
    let (zs, d, same) =
      previous-behind m a n us w ys pos (omega (arith, ap total list))
        (subst (λ l. Chain m null a l) list c) in
    (
      zs,
      subst (λ b. Chain (merge_with_previous m b) null a zs) (sym place) d,
      (same.0 ∙ ap total (sym list), same.1 ∙ ap (live a) (sym list)),
    )

-- Both merges of a block that has just become free, behind the blocks `ws`.
pub free_block-Same :
    (m : Blocks) (a n : ℕ) (ws ys : List Seg)
    → 0 < a
    → a + total (ws ++ ((n, true) ∷ ys)) < 2 ^ 64
    → Chain m null a (ws ++ ((n, false) ∷ ys))
    → (zs : List Seg) × Chain (free_block m (end_of a ws)) null a zs
      × Same a (ws ++ ((n, true) ∷ ys)) zs
unfolding free_block
free_block-Same m a n ws ys pos fits c =
    let p = end_of a ws in
    let q = last_block null a ws in
    let len = total_append ws ((n, true) ∷ ys) in
    let end = end_of-total a ws in
    let (freed, stay) =
      set_free-Chain m q p n false true ys (Chain-split m null a ws (n, false) ys c).1 in
    let g = merge_with_next-Merges (set_free m p true) q p n ys (omega arith) (omega arith) freed in
    let k = merge_with_next (set_free m p true) p in
    let chain : Chain k null a (ws ++ ((g.size, true) ∷ g.rest)) =
      replace-Chain m k null a ws (n, false) ys _ _ c (λ t lt. g.below t lt ∙ stay t lt) g.chain in
    let same = Same-append a ws ((n, true) ∷ ys) ((g.size, true) ∷ g.rest) g.same in
    let (zs, d, same') = previous-Same k a g.size ws g.rest pos (omega (arith, same.0)) chain in
    (zs, d, (omega (arith, same.0, same'.0), same'.1 ∙ same.1))

-- In a heap whose blocks fill the committed pages, `kfree` of the pointer behind the header of a block
-- in use takes that block, and no other, out of the blocks in use; the blocks fill the committed
-- pages again.
pub kfree-Frees :
    (h : ℕ) (root : Ptr) (s : Heap) (place : Places) (ws : List Seg) (n : ℕ) (ys : List Seg)
    → IsHeap h root s place (ws ++ ((n, false) ∷ ys))
    → let p = end_of s.heap_head ws in
      let rest = live (behind p (n, false)) ys in
      (live s.heap_head (ws ++ ((n, false) ∷ ys)) ≡ live s.heap_head ws ++ ((p, n) ∷ rest))
      × ((zs : List Seg) × IsHeap h root (kfree s (p + header)) place zs
          × (live s.heap_head zs ≡ live s.heap_head ws ++ rest))
unfolding kfree
kfree-Frees h root s place ws n ys v =
    let a = s.heap_head in
    let len = total_append ws ((n, true) ∷ ys) in
    let len' = total_append ws ((n, false) ∷ ys) in
    let end = end_of-total a ws in
    let (zs, c, same) =
      free_block-Same s.blocks a n ws ys v.pos (omega (arith, v.committed, v.room)) v.chain in
    let block : block_of (end_of a ws + header) ≡ end_of a ws =
      omega (arith, v.committed, v.room) in
    let some_p : (end_of a ws + header == null) ≡ false = ne→== _ _ (λ e. absurd (omega arith)) in
    (
      live_append a ws ((n, false) ∷ ys),
      rw (some_p, block)
          (
            zs,
            set_blocks-IsHeap _ zs v c (omega (arith, same.0)),
            same.1 ∙ live_append a ws ((n, true) ∷ ys),
          ),
    )
