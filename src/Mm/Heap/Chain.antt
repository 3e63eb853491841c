-- ===== src/Mm/Heap/Chain.antt =====
-- The list of the blocks of heap.c as a list of sizes: the blocks lie one behind the other from the
-- head on, and each header has the pointers to its neighbours.
use Prim.{Unit, tt}
use zenith_os.Prelude.{
  ℕ, zero, suc, ◌+◌, ◌*◌, ◌<◌, ◌≤◌, ◌≡◌, ◌≢◌, refl, ap, ◌∙◌, leb, if◌then◌else◌, Bool, true, false,
  ◌&&◌, List, [], ◌∷◌, ◌++◌, length, arith, Bool-cases, inl, inr, ne→==,
}
use zenith_os.Vmm.Paging.{Ptr, null}
use zenith_os.Mm.Heap.{Block, Blocks, header, find_free_block, find_last_block}

-- The size of a block, and whether it is free.
abbrev pub Seg : Type 0
Seg = ℕ × Bool

-- The address behind a block at `a`.
abbrev pub behind : Ptr → Seg → Ptr
behind a x = a + (header + x.0)

abbrev pub total : List Seg → ℕ
total [] = 0
total (x ∷ xs) = (header + x.0) + total xs

abbrev pub next_link : Ptr → List Seg → Ptr
next_link a [] = null
next_link a (x ∷ xs) = a

pub next_link-le : (b : Ptr) (ys : List Seg) → next_link b ys ≤ b
next_link-le b [] = omega arith
next_link-le b (y ∷ ys) = omega arith

-- A pointer in front of the next block is not the link to it.
pub below_link : (b : Ptr) (ys : List Seg) (t : Ptr) → t < b → t ≡ next_link b ys → t ≡ null
below_link b [] t lt e = e
below_link b (y ∷ ys) t lt e = absurd (omega arith)

-- The header of a block with the pointers to its neighbours.
abbrev pub block_at : Seg → Ptr → Ptr → Block
block_at x q n = record { size = x.0; free = x.1; next = n; prev = q }

-- From `a` on lie the blocks `xs` and no other; `q` is the block in front of them.
unfoldable pub Chain : Blocks → Ptr → Ptr → List Seg → Type 0
Chain m q a [] = Unit
Chain m q a (x ∷ xs) = (m a ≡ block_at x q (next_link (behind a x) xs)) × Chain m a (behind a x) xs

-- From `a` to `p` lie the blocks `xs`, and more from there on; `q` is the block in front of them.
unfoldable pub Front : Blocks → Ptr → Ptr → List Seg → Type 0
Front m q a [] = Unit
Front m q a (x ∷ xs) = (m a ≡ block_at x q (behind a x)) × Front m a (behind a x) xs

-- The last block in front of the end of `xs`.
abbrev pub last_block : Ptr → Ptr → List Seg → Ptr
last_block q a [] = q
last_block q a (x ∷ xs) = last_block a (behind a x) xs

-- The address behind the blocks.
abbrev pub end_of : Ptr → List Seg → Ptr
end_of a [] = a
end_of a (x ∷ xs) = end_of (behind a x) xs

pub end_of-total : (a : Ptr) (xs : List Seg) → end_of a xs ≡ a + total xs
end_of-total a [] = omega arith
end_of-total a (x ∷ xs) = omega (arith, end_of-total (behind a x) xs)

pub total_append : (xs ys : List Seg) → total (xs ++ ys) ≡ total xs + total ys
total_append [] ys = omega arith
total_append (x ∷ xs) ys = omega (arith, total_append xs ys)

pub Front-Chain :
    (m : Blocks) (q a : Ptr) (xs : List Seg) (y : Seg) (ys : List Seg)
    → Front m q a xs
    → Chain m (last_block q a xs) (end_of a xs) (y ∷ ys)
    → Chain m q a (xs ++ (y ∷ ys))
unfolding Front Chain
Front-Chain m q a [] y ys f c = c
Front-Chain m q a (x ∷ []) y ys (here, f) c = (here, c)
Front-Chain m q a (x ∷ z ∷ zs) y ys (here, f) c =
    (here, Front-Chain m a (behind a x) (z ∷ zs) y ys f c)

pub Chain-split :
    (m : Blocks) (q a : Ptr) (xs : List Seg) (y : Seg) (ys : List Seg)
    → Chain m q a (xs ++ (y ∷ ys))
    → Front m q a xs × Chain m (last_block q a xs) (end_of a xs) (y ∷ ys)
unfolding Front Chain
Chain-split m q a [] y ys c = (tt, c)
Chain-split m q a (x ∷ []) y ys (here, c) = ((here, tt), c)
Chain-split m q a (x ∷ z ∷ zs) y ys (here, c) =
    let (f, r) = Chain-split m a (behind a x) (z ∷ zs) y ys c in ((here, f), r)

-- Writes behind the blocks, and in front of them, leave them.
pub Front-frame :
    (m m' : Blocks) (q a : Ptr) (xs : List Seg)
    → ((t : Ptr) → t < end_of a xs → m' t ≡ m t)
    → Front m q a xs
    → Front m' q a xs
unfolding Front
Front-frame m m' q a [] same f = tt
Front-frame m m' q a (x ∷ xs) same (here, f) = (
  same a (omega (arith, end_of-total (behind a x) xs)) ∙ here,
  Front-frame m m' a (behind a x) xs same f,
)

pub Chain-frame :
    (m m' : Blocks) (q a : Ptr) (xs : List Seg)
    → ((t : Ptr) → a ≤ t → m' t ≡ m t)
    → Chain m q a xs
    → Chain m' q a xs
unfolding Chain
Chain-frame m m' q a [] same c = tt
Chain-frame m m' q a (x ∷ xs) same (here, c) = (
  same a (omega arith) ∙ here,
  Chain-frame m m' a (behind a x) xs (λ t le. same t (omega arith)) c,
)

-- The blocks behind a new block `c`: the first of them gets a new pointer back.
pub move-Chain :
    (m w : Blocks) (p c b : Ptr) (ys : List Seg)
    → 0 < b
    → (next_link b ys ≢ null → w (next_link b ys) ≡ record (m (next_link b ys)) { prev = c })
    → ((t : Ptr) → b < t → w t ≡ m t)
    → Chain m p b ys
    → Chain w c b ys
unfolding Chain
move-Chain m w p c b [] pos first same here = tt
move-Chain m w p c b (z ∷ zs) pos first same (here, rest) = (
  first (λ e. absurd (omega arith)) ∙ ap (λ (x : Block). record x { prev = c }) here,
  Chain-frame m w b (behind b z) zs (λ t le. same t (omega arith)) rest,
)

-- The first block that is free and large enough, or NULL.
abbrev pub first_fit : Ptr → List Seg → ℕ → Ptr
first_fit a [] n = null
first_fit a (x ∷ xs) n =
    let rest = first_fit (behind a x) xs n in if x.1 && leb n x.0 then a else rest

-- On the list of the blocks `find_free_block` gives the first one that is free and large enough, with
-- as much fuel as there are blocks.
pub find_free_block-first_fit :
    (fuel : ℕ) (m : Blocks) (q a : Ptr) (xs : List Seg) (n : ℕ)
    → Chain m q a xs
    → 0 < a
    → length xs ≤ fuel
    → find_free_block fuel m (next_link a xs) n ≡ first_fit a xs n
unfolding Chain find_free_block
find_free_block-first_fit zero m q a [] n c pos h = refl
find_free_block-first_fit zero m q a (x ∷ xs) n c pos h = absurd (omega arith)
find_free_block-first_fit (suc fuel) m q a [] n c pos h = refl
find_free_block-first_fit (suc fuel) m q a (x ∷ xs) n (here, c) pos h =
    rw
      (
        ne→== a null (omega arith),
        here,
        find_free_block-first_fit fuel m a (behind a x) xs n c (omega arith) (omega arith),
      )
      refl

pub find_last_block-last_block :
    (fuel : ℕ) (m : Blocks) (q a : Ptr) (x : Seg) (xs : List Seg)
    → Chain m q a (x ∷ xs)
    → 0 < a
    → length xs < fuel
    → find_last_block fuel m a ≡ last_block q a (x ∷ xs)
unfolding Chain find_last_block
find_last_block-last_block zero m q a x xs c pos h = absurd (omega arith)
find_last_block-last_block (suc fuel) m q a x [] (here, c) pos h = rw here refl
find_last_block-last_block (suc fuel) m q a x (y ∷ ys) (here, c) pos h =
    rw (here, ne→== (behind a x) null (omega arith))
      (find_last_block-last_block fuel m a (behind a x) y ys c (omega arith) (omega arith))

-- The blocks in use, by address and size.
abbrev pub live : Ptr → List Seg → List (Ptr × ℕ)
live a [] = []
live a (x ∷ xs) = let rest = live (behind a x) xs in if x.1 then rest else (a, x.0) ∷ rest

pub live_append :
    (a : Ptr) (xs ys : List Seg) → live a (xs ++ ys) ≡ live a xs ++ live (end_of a xs) ys
live_append a [] ys = refl
live_append a (x ∷ xs) ys = elim (Bool-cases x.1) [
  | inl free ↦ rw free (live_append (behind a x) xs ys)
  | inr used ↦ rw used (ap (λ zs. (a, x.0) ∷ zs) (live_append (behind a x) xs ys))
]

pub last_block_append :
    (q a : Ptr) (xs : List Seg) (y : Seg) → last_block q a (xs ++ (y ∷ [])) ≡ end_of a xs
last_block_append q a [] y = refl
last_block_append q a (x ∷ xs) y = last_block_append a (behind a x) xs y

-- The last of the blocks, and those in front of it.
pub unsnoc : (x : Seg) (xs : List Seg) → (ws : List Seg) × (z : Seg) × (x ∷ xs ≡ ws ++ (z ∷ []))
unsnoc x [] = ([], x, refl)
unsnoc x (y ∷ ys) = let (ws, z, e) = unsnoc y ys in (x ∷ ws, z, ap (λ zs. x ∷ zs) e)

-- Other blocks from `end_of a ws` on, where the headers in front stay.
pub replace-Chain :
    (m k : Blocks) (q a : Ptr) (ws : List Seg) (y : Seg) (ys : List Seg) (z : Seg) (zs : List Seg)
    → Chain m q a (ws ++ (y ∷ ys))
    → ((t : Ptr) → t < end_of a ws → k t ≡ m t)
    → Chain k (last_block q a ws) (end_of a ws) (z ∷ zs)
    → Chain k q a (ws ++ (z ∷ zs))
replace-Chain m k q a ws y ys z zs c same d =
    Front-Chain k q a ws z zs (Front-frame m k q a ws same (Chain-split m q a ws y ys c).0) d

pub length-total : (xs : List Seg) → length xs * header ≤ total xs
length-total [] = omega arith
length-total (x ∷ xs) = omega (arith, length-total xs)

-- The block that is found: free, large enough, and not NULL.
pub first_fit-inv :
    (a : Ptr) (xs : List Seg) (n : ℕ)
    → first_fit a xs n ≢ null
    → (ws : List Seg) × (k : ℕ) × (ys : List Seg) × (xs ≡ ws ++ ((k, true) ∷ ys))
      × (first_fit a xs n ≡ end_of a ws)
      × (n ≤ k)
first_fit-inv a [] n nn = absurd (nn refl)
first_fit-inv a ((k, true) ∷ xs) n nn = elim (Bool-cases (leb n k)) [
  | inl fits ↦ ([], k, xs, refl, rw fits refl, ground arith)
  | inr small ↦
      let (ws, j, ys, e, p, h) = first_fit-inv (behind a (k, true)) xs n (λ z. nn (rw small z)) in
      ((k, true) ∷ ws, j, ys, ap (λ zs. (k, true) ∷ zs) e, rw small p, h)
]
first_fit-inv a ((k, false) ∷ xs) n nn =
    let (ws, j, ys, e, p, h) = first_fit-inv (behind a (k, false)) xs n nn in
    ((k, false) ∷ ws, j, ys, ap (λ zs. (k, false) ∷ zs) e, p, h)

pub end_of_snoc :
    (a : Ptr) (ws : List Seg) (z : Seg) → end_of a (ws ++ (z ∷ [])) ≡ behind (end_of a ws) z
end_of_snoc a [] z = refl
end_of_snoc a (x ∷ xs) z = end_of_snoc (behind a x) xs z

pub snoc_append :
    (ws : List Seg) (z : Seg) (zs : List Seg) → (ws ++ (z ∷ [])) ++ zs ≡ ws ++ (z ∷ zs)
snoc_append [] z zs = refl
snoc_append (x ∷ xs) z zs = ap (λ l. x ∷ l) (snoc_append xs z zs)
