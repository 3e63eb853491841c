-- ===== src/Mm/Heap/Coalesce.antt =====
-- `coalesce_free_blocks` of heap.c on the list of the blocks.
use Prim.{Unit, tt}
use zenith_os.Prelude.{
  ℕ, zero, suc, ◌+◌, ◌<◌, ◌≤◌, ◌^◌, ◌≡◌, refl, sym, ap, ◌∙◌, subst, ◌==◌, if◌then◌else◌, true,
  false, not, ◌&&◌, List, [], ◌∷◌, length, arith, Bool-cases, inl, inr, ne→==,
}
use zenith_os.Vmm.Paging.{Ptr, null}
use zenith_os.Mm.Heap.{Block, Blocks, merge_with_next, absorb, coalesce_from}
use zenith_os.Mm.Heap.Chain.{Seg, behind, total, next_link, block_at, Chain, live}
use zenith_os.Mm.Heap.Merge.{joined, merge_with_next-Chain, merge_with_next_below}

-- The block and the blocks behind it once the inner loop has ended.
abbrev pub absorbed : Seg → List Seg → Seg × List Seg
absorbed x [] = (x, [])
absorbed x (y ∷ ys) =
    let more = absorbed (joined x y) ys in if x.1 && y.1 then more else (x, y ∷ ys)

-- The blocks with each run of free ones in one.
abbrev pub coalesced : Seg → List Seg → List Seg
coalesced x [] = x ∷ []
coalesced x (y ∷ ys) =
    let more = coalesced (joined x y) ys in
    let rest = coalesced y ys in if x.1 && y.1 then more else x ∷ rest

abbrev pub coalesced_all : List Seg → List Seg
coalesced_all [] = []
coalesced_all (x ∷ xs) = coalesced x xs

pub coalesced-absorbed :
    (x : Seg) (ys : List Seg) → coalesced x ys ≡ (absorbed x ys).0 ∷ coalesced_all (absorbed x ys).1
coalesced-absorbed x [] = refl
coalesced-absorbed x (y ∷ ys) = elim (Bool-cases (x.1 && y.1)) [
  | inl both ↦ rw both (coalesced-absorbed (joined x y) ys)
  | inr apart ↦ rw apart refl
]

total-absorbed :
    (x : Seg) (ys : List Seg) → total ((absorbed x ys).0 ∷ (absorbed x ys).1) ≡ total (x ∷ ys)
total-absorbed x [] = refl
total-absorbed x (y ∷ ys) = elim (Bool-cases (x.1 && y.1)) [
  | inl both ↦ rw both (total-absorbed (joined x y) ys ∙ omega arith)
  | inr apart ↦ rw apart refl
]

length-absorbed : (x : Seg) (ys : List Seg) → length (absorbed x ys).1 ≤ length ys
length-absorbed x [] = omega arith
length-absorbed x (y ∷ ys) = elim (Bool-cases (x.1 && y.1)) [
  | inl both ↦ rw both (omega (arith, length-absorbed (joined x y) ys))
  | inr apart ↦ rw apart (omega arith)
]

-- The test of the inner loop.
absorbs :
    (m : Blocks) (q a : Ptr) (x y : Seg) (ys : List Seg)
    → Chain m q a (x ∷ y ∷ ys)
    → 0 < a
    → ((m a).free && not ((m a).next == null) && (m (m a).next).free) ≡ (x.1 && y.1)
unfolding Chain
absorbs m q a x y ys (here, (there, _)) pos =
    rw (here, there, ne→== (behind a x) null (λ e. absurd (omega arith))) (ground arith)

stops :
    (m : Blocks) (q a : Ptr) (x : Seg)
    → Chain m q a (x ∷ [])
    → ((m a).free && not ((m a).next == null) && (m (m a).next).free) ≡ false
unfolding Chain
stops m q a x (here, _) = rw here (ground arith)

absorb-Chain :
    (fuel : ℕ) (m : Blocks) (q a : Ptr) (x : Seg) (ys : List Seg)
    → length ys ≤ fuel
    → 0 < a
    → a + total (x ∷ ys) < 2 ^ 64
    → Chain m q a (x ∷ ys)
    → Chain (absorb fuel m a) q a ((absorbed x ys).0 ∷ (absorbed x ys).1)
      × ((t : Ptr) → t < a → absorb fuel m a t ≡ m t)
unfolding absorb
absorb-Chain zero m q a x [] h pos fits c = (c, λ t lt. refl)
absorb-Chain zero m q a x (y ∷ ys) h pos fits c = absurd (omega arith)
absorb-Chain (suc fuel) m q a x [] h pos fits c = rw (stops m q a x c) (c, λ t lt. refl)
absorb-Chain (suc fuel) m q a x (y ∷ ys) h pos fits c =
    rw (absorbs m q a x y ys c pos) (elim (Bool-cases (x.1 && y.1)) [
      | inl both ↦
          let free : y.1 ≡ true = ground arith in
          let step = merge_with_next-Chain m q a x y ys pos fits c in
          let (chain, below) =
            absorb-Chain fuel (merge_with_next m a) q a (joined x y) ys (omega arith) pos
              (omega arith)
              (subst
                (λ b. Chain (merge_with_next m a) q a (if b then joined x y ∷ ys else x ∷ y ∷ ys))
                free step) in
          rw both (chain, λ t lt. below t lt ∙ merge_with_next_below m q a x y ys pos c t lt)
      | inr apart ↦ rw apart (c, λ t lt. refl)
    ])

next_link-coalesced : (b : Ptr) (ys : List Seg) → next_link b (coalesced_all ys) ≡ next_link b ys
next_link-coalesced b [] = refl
next_link-coalesced b (y ∷ ys) = ap (next_link b) (coalesced-absorbed y ys)

pub total-coalesced : (x : Seg) (ys : List Seg) → total (coalesced x ys) ≡ total (x ∷ ys)
total-coalesced x [] = refl
total-coalesced x (y ∷ ys) = elim (Bool-cases (x.1 && y.1)) [
  | inl both ↦ rw both (total-coalesced (joined x y) ys ∙ omega arith)
  | inr apart ↦ rw apart (omega (arith, total-coalesced y ys))
]

-- What the outer loop keeps.
abbrev pub Coalesces : Blocks → Blocks → Ptr → Ptr → List Seg → Type 0
Coalesces m m' q a xs = Chain m' q a (coalesced_all xs) × ((t : Ptr) → t < a → m' t ≡ m t)

-- A round of the outer loop, once the inner one has ended with the block `x`.
coalesce_rest :
    (m m' : Blocks) (q a : Ptr) (x : Seg) (ys : List Seg)
    → Chain m q a (x ∷ ys)
    → Coalesces m m' a (behind a x) ys
    → Chain m' q a (x ∷ coalesced_all ys)
unfolding Chain
coalesce_rest m m' q a x ys (here, _) (rest, below) = (
  below a (omega arith) ∙ here ∙ ap (block_at x q) (sym (next_link-coalesced (behind a x) ys)),
  rest,
)

next_of_block :
    (m : Blocks) (q a : Ptr) (x : Seg) (ys : List Seg)
    → Chain m q a (x ∷ ys)
    → ((m a).next ≡ next_link (behind a x) ys) × Chain m a (behind a x) ys
unfolding Chain
next_of_block m q a x ys (here, rest) = (ap (λ (c : Block). c.next) here, rest)

-- With as much fuel as there are blocks, the loops of `coalesce_free_blocks` put each run of free
-- blocks in one and leave the headers in front.
pub coalesce_from-Chain :
    (inner fuel : ℕ) (m : Blocks) (q a : Ptr) (xs : List Seg)
    → length xs ≤ fuel
    → length xs ≤ inner
    → 0 < a
    → a + total xs < 2 ^ 64
    → Chain m q a xs
    → Coalesces m (coalesce_from inner fuel m (next_link a xs)) q a xs
unfolding coalesce_from
coalesce_from-Chain inner zero m q a [] h k pos fits c = (c, λ t lt. refl)
coalesce_from-Chain inner (suc fuel) m q a [] h k pos fits c = (c, λ t lt. refl)
coalesce_from-Chain inner zero m q a (x ∷ xs) h k pos fits c = absurd (omega arith)
coalesce_from-Chain inner (suc fuel) m q a (x ∷ xs) h k pos fits c =
    let (c1, below1) = absorb-Chain inner m q a x xs (omega arith) pos fits c in
    let x' = (absorbed x xs).0 in
    let ys' = (absorbed x xs).1 in
    let m1 = absorb inner m a in
    let (link, rest) = next_of_block m1 q a x' ys' c1 in
    let more : Coalesces m1 (coalesce_from inner fuel m1 (m1 a).next) a (behind a x') ys' =
      subst (λ n. Coalesces m1 (coalesce_from inner fuel m1 n) a (behind a x') ys') (sym link)
        (coalesce_from-Chain inner fuel m1 a (behind a x') ys' (omega (arith, length-absorbed x xs))
          (omega (arith, length-absorbed x xs)) (omega arith) (omega (arith, total-absorbed x xs))
          rest) in
    rw (ne→== a null (λ e. absurd (omega arith)), coalesced-absorbed x xs)
      (coalesce_rest m1 _ q a x' ys' c1 more, λ t lt. more.1 t (omega arith) ∙ below1 t lt)

-- No two neighbours are free.
abbrev pub IsApart : List Seg → Type 0
IsApart [] = Unit
IsApart (x ∷ []) = Unit
IsApart (x ∷ y ∷ ys) = ((x.1 && y.1) ≡ false) × IsApart (y ∷ ys)

-- The first of the blocks is free or in use as before.
IsApart-coalesced_below :
    (x y : Seg) (ys : List Seg)
    → (x.1 && y.1) ≡ false
    → IsApart (coalesced y ys)
    → IsApart (x ∷ coalesced y ys)
IsApart-coalesced_below x y [] apart rest = (apart, tt)
IsApart-coalesced_below x y (z ∷ zs) apart rest = elim (Bool-cases (y.1 && z.1)) [
  | inl both ↦ rw both (IsApart-coalesced_below x (joined y z) zs apart (rw both at rest))
  | inr other ↦ rw other (apart, rw other at rest)
]

pub coalesced-IsApart : (x : Seg) (ys : List Seg) → IsApart (coalesced x ys)
coalesced-IsApart x [] = tt
coalesced-IsApart x (y ∷ ys) = elim (Bool-cases (x.1 && y.1)) [
  | inl both ↦ rw both (coalesced-IsApart (joined x y) ys)
  | inr apart ↦ rw apart (IsApart-coalesced_below x y ys apart (coalesced-IsApart y ys))
]

-- The blocks in use stay where they are.
pub live-coalesced : (a : Ptr) (x : Seg) (ys : List Seg) → live a (coalesced x ys) ≡ live a (x ∷ ys)
live-coalesced a x [] = refl
live-coalesced a x (y ∷ ys) = elim (Bool-cases (x.1 && y.1)) [
  | inl both ↦
      let x_free : x.1 ≡ true = ground arith in
      let y_free : y.1 ≡ true = ground arith in
      let here : behind a (joined x y) ≡ behind (behind a x) y = omega arith in
      let one = live-coalesced a (joined x y) ys in
      rw both (one ∙ rw (x_free, y_free) (ap (λ b. live b ys) here))
  | inr apart ↦ rw apart (rw (live-coalesced (behind a x) y ys) refl)
]
