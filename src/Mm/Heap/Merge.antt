-- ===== src/Mm/Heap/Merge.antt =====
-- The merging of blocks of heap.c, on the list of the blocks.
use Prim.{tt}
use zenith_os.Prelude.{
  ◌+◌, ◌<◌, ◌%◌, ◌^◌, ◌≡◌, ◌≢◌, refl, sym, ap, ◌∙◌, subst, if◌then◌else◌, Bool, true, false, List,
  [], ◌∷◌, arith, ne→==,
}
use zenith_os.Vmm.Paging.{Ptr, null}
use zenith_os.Mm.Heap.{Block, Blocks, header, join, merge_with_next}
use zenith_os.Mm.Heap.Chain.{
  Seg, behind, total, next_link, block_at, below_link, Chain, Chain-frame,
}

-- One block in the place of two.
abbrev pub joined : Seg → Seg → Seg
joined x y = (x.0 + (header + y.0), x.1)

module _ (m : Blocks) (a n : Ptr) (apart : n ≢ a) where
  join_here :
      (m n).next ≢ a
      → join m a n a ≡ record {
        size = ((m a).size + (header + (m n).size)) % 2 ^ 64;
        free = (m a).free;
        next = (m n).next;
        prev = (m a).prev;
      }
  unfolding join
  join_here other = ground arith

  join_next :
      (b : Ptr) → (m n).next ≡ b → b ≢ a → b ≢ null → join m a n b ≡ record (m b) { prev = a }
  unfolding join
  join_next b leads other nn = ground arith

  pub join_other : (t : Ptr) → t ≢ a → (t ≡ (m n).next → t ≡ null) → join m a n t ≡ m t
  unfolding join
  join_other t not_a not_next = ground arith

-- The header of a block that is joined with the one behind it.
join_head :
    (m : Blocks) (q a k : Ptr) (x y : Seg)
    → m a ≡ block_at x q (behind a x)
    → m (behind a x) ≡ block_at y a k
    → x.0 + (header + y.0) < 2 ^ 64
    → k ≢ a
    → join m a (behind a x) a ≡ block_at (joined x y) q k
join_head m q a k x y here there fits other =
    join_here m a (behind a x) (λ e. absurd (omega arith))
      (λ e. other (sym (ap (λ (b : Block). b.next) there) ∙ e))
    ∙ rw (here, there)
        (ap (λ n. block_at (n, x.1) q k) {x = (x.0 + (header + y.0)) % 2 ^ 64}
          {y = x.0 + (header + y.0)} (omega arith))

-- A block joined with the one behind it.
pub join-Chain :
    (m : Blocks) (q a : Ptr) (x y : Seg) (ys : List Seg)
    → 0 < a
    → a + total (x ∷ y ∷ ys) < 2 ^ 64
    → Chain m q a (x ∷ y ∷ ys)
    → Chain (join m a (behind a x)) q a (joined x y ∷ ys)
unfolding Chain
join-Chain m q a x y [] pos fits (here, (there, _)) =
    (join_head m q a null x y here there (omega arith) (λ e. absurd (omega arith)), tt)
join-Chain m q a x y (z ∷ zs) pos fits (here, (there, (next, rest))) =
    let b = behind (behind a x) y in
    let m' = join m a (behind a x) in
    let apart : behind a x ≢ a = λ e. absurd (omega arith) in
    let leads : (m (behind a x)).next ≡ b = ap (λ (c : Block). c.next) there in
    subst
      (λ b.
        (m' a ≡ block_at (joined x y) q b)
        × ((m' b ≡ block_at z a (next_link (behind b z) zs)) × Chain m' b (behind b z) zs))
      {x = b} {y = behind a (joined x y)} (omega arith)
      (
        join_head m q a b x y here there (omega arith) (λ e. absurd (omega arith)),
        (
          join_next m a (behind a x) apart b leads (λ e. absurd (omega arith))
                (λ e. absurd (omega arith))
              ∙ ap (λ (c : Block). record c { prev = a }) next,
          Chain-frame m m' b (behind b z) zs
              (λ t le.
                join_other m a (behind a x) apart t (λ e. absurd (omega arith))
                  (λ e. absurd (omega (arith, leads))))
              rest,
        ),
      )

-- A block merged with the next one, where that is free.
merge_step :
    (m : Blocks) (a n : Ptr) (f : Bool)
    → a ≢ null
    → (m a).next ≡ n
    → n ≢ null
    → (m n).free ≡ f
    → merge_with_next m a ≡ (if f then join m a n else m)
unfolding merge_with_next
merge_step m a n true nn leads some_n free =
    rw (ne→== a null nn, leads, ne→== n null some_n, free) refl
merge_step m a n false nn leads some_n free =
    rw (ne→== a null nn, leads, ne→== n null some_n, free) refl

next_step :
    (m : Blocks) (q a : Ptr) (x y : Seg) (ys : List Seg)
    → m a ≡ block_at x q (behind a x)
    → m (behind a x) ≡ block_at y a (next_link (behind (behind a x) y) ys)
    → 0 < a
    → merge_with_next m a ≡ (if y.1 then join m a (behind a x) else m)
next_step m q a x y ys here there pos =
    merge_step m a (behind a x) y.1 (λ e. absurd (omega arith)) (ap (λ (c : Block). c.next) here)
      (λ e. absurd (omega arith)) (ap (λ (c : Block). c.free) there)

-- `merge_with_next` for a block with one behind it.
pub merge_with_next-Chain :
    (m : Blocks) (q a : Ptr) (x y : Seg) (ys : List Seg)
    → 0 < a
    → a + total (x ∷ y ∷ ys) < 2 ^ 64
    → Chain m q a (x ∷ y ∷ ys)
    → Chain (merge_with_next m a) q a (if y.1 then joined x y ∷ ys else x ∷ y ∷ ys)
unfolding Chain
merge_with_next-Chain m q a x (n, true) ys pos fits (here, (there, rest)) =
    subst (λ k. Chain k q a (joined x (n, true) ∷ ys))
      (sym (next_step m q a x (n, true) ys here there pos))
      (join-Chain m q a x (n, true) ys pos fits (here, (there, rest)))
merge_with_next-Chain m q a x (n, false) ys pos fits (here, (there, rest)) =
    subst (λ k. Chain k q a (x ∷ (n, false) ∷ ys))
      (sym (next_step m q a x (n, false) ys here there pos)) (here, (there, rest))

-- The headers in front of the block stay.
pub merge_with_next_below :
    (m : Blocks) (q a : Ptr) (x y : Seg) (ys : List Seg)
    → 0 < a
    → Chain m q a (x ∷ y ∷ ys)
    → (t : Ptr) → t < a
    → merge_with_next m a t ≡ m t
unfolding Chain
merge_with_next_below m q a x (n, false) ys pos (here, (there, rest)) t lt =
    ap (λ (k : Blocks). k t) (next_step m q a x (n, false) ys here there pos)
merge_with_next_below m q a x (n, true) ys pos (here, (there, rest)) t lt =
    ap (λ (k : Blocks). k t) (next_step m q a x (n, true) ys here there pos)
    ∙ join_other m a (behind a x) (λ e. absurd (omega arith)) t (λ e. absurd (omega arith))
        (λ e.
          below_link (behind (behind a x) (n, true)) ys t (omega arith)
            (e ∙ ap (λ (c : Block). c.next) there))
