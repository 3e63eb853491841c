-- ===== src/Mm/Heap/Grow.antt =====
-- The new page behind the last block, which `heap_expand` of heap.c appends to the list.
use Prim.{tt}
use zenith_os.Prelude.{
  ◌+◌, ◌-◌, ◌<◌, ◌^◌, ◌≡◌, ◌≢◌, refl, sym, ap, ◌∙◌, subst, if◌then◌else◌, true, false, List, [],
  ◌∷◌, ◌++◌, arith, Bool-cases, inl, inr,
}
use zenith_os.Vmm.Paging.{Ptr, null}
use zenith_os.Mm.Pmm.{page_size}
use zenith_os.Mm.Heap.{Block, Blocks, header, merge_with_next}
use zenith_os.Mm.Heap.Calls.{attach_block, append_block, heap_create_block}
use zenith_os.Mm.Heap.Chain.{
  Seg, behind, total, block_at, Chain, Chain-split, replace-Chain, end_of, end_of-total,
  total_append, live, live_append,
}
use zenith_os.Mm.Heap.Merge.{joined, merge_with_next-Chain, merge_with_next_below}

-- The block of a new page.
abbrev pub page_block : Seg
page_block = (page_size - header, true)

-- The last block with the new page.
abbrev pub extended : Seg → List Seg
extended x = if x.1 then joined x page_block ∷ [] else x ∷ page_block ∷ []

module _ (m : Blocks) (q a : Ptr) (x : Seg) (pos : 0 < a)
    (fits : a + total (x ∷ page_block ∷ []) < 2 ^ 64) (c : Chain m q a (x ∷ [])) where
  apart : behind a x ≢ a
  apart e = absurd (omega arith)

  alone : m a ≡ block_at x q null
  unfolding Chain
  alone = c.0

  attached_last : attach_block m a (behind a x) a ≡ block_at x q (behind a x)
  unfolding attach_block heap_create_block
  attached_last = let n = apart in ground (arith, alone)

  attached_new : attach_block m a (behind a x) (behind a x) ≡ block_at page_block a null
  unfolding attach_block heap_create_block
  attached_new = let n = apart in ground arith

  attached-Chain : Chain (attach_block m a (behind a x)) q a (x ∷ page_block ∷ [])
  unfolding Chain
  attached-Chain = (attached_last, (attached_new, tt))

  attached_below : (t : Ptr) → t < a → attach_block m a (behind a x) t ≡ m t
  unfolding attach_block heap_create_block
  attached_below t lt = ground arith

  appended : append_block m a (behind a x) ≡ (
      if x.1
      then merge_with_next (attach_block m a (behind a x)) a
      else attach_block m a (behind a x))
  unfolding append_block
  appended =
      ap
        (λ f.
          if f
          then merge_with_next (attach_block m a (behind a x)) a
          else attach_block m a (behind a x))
        (ap (λ (b : Block). b.free) attached_last)

  abbrev Extends : Blocks → List Seg → Type 0
  Extends k zs = Chain k q a zs × ((t : Ptr) → t < a → k t ≡ m t)

  append_block-Chain : Extends (append_block m a (behind a x)) (extended x)
  append_block-Chain =
      subst (λ k. Extends k (extended x)) (sym appended)
        (elim (Bool-cases x.1) [
          | inl free ↦
              subst
                (λ f.
                  Extends
                    (if f
                      then merge_with_next (attach_block m a (behind a x)) a
                      else attach_block m a (behind a x))
                    (if f then joined x page_block ∷ [] else x ∷ page_block ∷ []))
                (sym free)
                (
                  merge_with_next-Chain (attach_block m a (behind a x)) q a x page_block [] pos fits
                      attached-Chain,
                  λ t lt.
                      merge_with_next_below (attach_block m a (behind a x)) q a x page_block [] pos
                        attached-Chain t lt
                      ∙ attached_below t lt,
                )
          | inr used ↦
              subst
                (λ f.
                  Extends
                    (if f
                      then merge_with_next (attach_block m a (behind a x)) a
                      else attach_block m a (behind a x))
                    (if f then joined x page_block ∷ [] else x ∷ page_block ∷ []))
                (sym used) (attached-Chain, attached_below)
        ])

total-extended : (x : Seg) → total (extended x) ≡ total (x ∷ []) + page_size
total-extended (n, true) = omega arith
total-extended (n, false) = omega arith

live-extended : (a : Ptr) (x : Seg) → live a (extended x) ≡ live a (x ∷ [])
live-extended a (n, true) = refl
live-extended a (n, false) = refl

-- The new page behind all blocks.
pub append-Chain :
    (m : Blocks) (q a : Ptr) (ws : List Seg) (z : Seg)
    → 0 < a
    → a + (total (ws ++ (z ∷ [])) + page_size) < 2 ^ 64
    → Chain m q a (ws ++ (z ∷ []))
    → Chain (append_block m (end_of a ws) (behind (end_of a ws) z)) q a (ws ++ extended z)
append-Chain m q a ws (n, true) pos fits c =
    let len = total_append ws ((n, true) ∷ []) in
    let end = end_of-total a ws in
    let (d, below) =
      append_block-Chain m _ (end_of a ws) (n, true) (omega arith) (omega arith)
        (Chain-split m q a ws (n, true) [] c).1 in
    replace-Chain m _ q a ws (n, true) [] _ [] c below d
append-Chain m q a ws (n, false) pos fits c =
    let len = total_append ws ((n, false) ∷ []) in
    let end = end_of-total a ws in
    let (d, below) =
      append_block-Chain m _ (end_of a ws) (n, false) (omega arith) (omega arith)
        (Chain-split m q a ws (n, false) [] c).1 in
    replace-Chain m _ q a ws (n, false) [] _ (page_block ∷ []) c below d

-- What the new page does to the list of the blocks.
pub append-List :
    (a : Ptr) (ws : List Seg) (z : Seg)
    → (total (ws ++ extended z) ≡ total (ws ++ (z ∷ [])) + page_size)
      × (live a (ws ++ extended z) ≡ live a (ws ++ (z ∷ [])))
append-List a ws z = (
  omega (arith, total_append ws (extended z), total_append ws (z ∷ []), total-extended z),
  live_append a ws (extended z)
      ∙ ap (λ l. live a ws ++ l) (live-extended (end_of a ws) z)
      ∙ sym (live_append a ws (z ∷ [])),
)
