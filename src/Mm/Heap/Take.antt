-- ===== src/Mm/Heap/Take.antt =====
-- `split_block` of heap.c, and the block that `kmalloc` takes, on the list of the blocks.

use zenith_os.Prelude.{
  ℕ, ◌+◌, ◌-◌, ◌<◌, ◌≤◌, ◌%◌, ◌^◌, ◌≡◌, ◌≢◌, refl, sym, ap, ◌∙◌, subst, leb, if◌then◌else◌, Bool,
  true, false, List, [], ◌∷◌, ◌++◌, arith, Bool-cases, inl, inr, ne→==, eq→==,
}
use zenith_os.Vmm.Paging.{Ptr, null}
use zenith_os.Mm.Heap.{Block, Blocks, header, set_size, set_next, set_free, link_new, split_block}
use zenith_os.Mm.Heap.Chain.{
  Seg, behind, total, next_link, block_at, below_link, next_link-le, move-Chain, Chain, Chain-frame,
}

-- The block found, in use, and the free one that is cut off behind it.
abbrev pub taken : ℕ → ℕ → List Seg
taken size n =
    if leb n (size + header)
    then (n, false) ∷ []
    else (size, false) ∷ (n - size - header, true) ∷ []

abbrev cut : Blocks → Ptr → ℕ → Blocks
cut m p size = set_free (split_block m p size) p false

-- The last writes: to the header at `p` alone.
write_self :
    (k : Blocks) (p c size : ℕ)
    → set_free (set_size (set_next k p c) p size) p false p ≡ block_at (size, false) (k p).prev c
write_self k p c size = ground arith

write_other :
    (k : Blocks) (p c size : ℕ) (t : Ptr)
    → t ≢ p
    → set_free (set_size (set_next k p c) p size) p false t ≡ k t
write_other k p c size t other = ground arith

module _ (m : Blocks) (p c size : ℕ) (apart : c ≢ p) (not_self : (m p).next ≢ p)
    (not_new : (m p).next ≢ c) where
  link_self : link_new m p c size p ≡ m p
  unfolding link_new
  link_self = ground arith

  link_here : link_new m p c size c ≡ block_at ((m p).size - size - header, true) p (m p).next
  unfolding link_new
  link_here = ground arith

  link_next :
      (m p).next ≢ null → link_new m p c size (m p).next ≡ record (m (m p).next) { prev = c }
  unfolding link_new
  link_next nn = ground arith

  link_other : (t : Ptr) → t ≢ c → (t ≡ (m p).next → t ≡ null) → link_new m p c size t ≡ m t
  unfolding link_new
  link_other t not_c not_next = ground arith

cut_small :
    (m : Blocks) (p size : ℕ)
    → size + header < 2 ^ 64
    → leb (m p).size (size + header) ≡ true
    → cut m p size ≡ set_free m p false
unfolding split_block
cut_small m p size short small =
    let guard : leb (m p).size ((size + header) % 2 ^ 64) ≡ true =
      ap (leb (m p).size) {x = (size + header) % 2 ^ 64} {y = size + header} (omega arith)
      ∙ small in
    rw guard refl

cut_large :
    (m : Blocks) (p size : ℕ)
    → size + header < 2 ^ 64
    → p + (header + size) < 2 ^ 64
    → leb (m p).size (size + header) ≡ false
    → cut m p size
      ≡ set_free
          (set_size
            (set_next (link_new m p (p + (header + size)) size) p (p + (header + size)))
            p
            size)
          p
          false
unfolding split_block
cut_large m p size short nowrap large =
    let guard : leb (m p).size ((size + header) % 2 ^ 64) ≡ false =
      ap (leb (m p).size) {x = (size + header) % 2 ^ 64} {y = size + header} (omega arith)
      ∙ large in
    let place : (p + header + size) % 2 ^ 64 ≡ p + (header + size) = omega arith in
    rw (guard, place) refl

module _ (m : Blocks) (q p n size : ℕ) (f : Bool) (ys : List Seg) (pos : 0 < p)
    (fits : p + total ((n, f) ∷ ys) < 2 ^ 64) (room : size ≤ n)
    (c : Chain m q p ((n, f) ∷ ys)) where
  head : m p ≡ block_at (n, f) q (next_link (behind p (n, f)) ys)
  unfolding Chain
  head = c.0

  whole_Chain : Chain (set_free m p false) q p ((n, false) ∷ ys)
  unfolding Chain
  whole_Chain = (
    rw (eq→== p p refl, head) refl,
    Chain-frame m (set_free m p false) p (behind p (n, f)) ys
        (λ t le. rw (ne→== t p (λ e. absurd (omega arith))) refl) c.1,
  )

  module _ (larger : size + header < n) where
    abbrev cut_at : Ptr
    cut_at = p + (header + size)

    abbrev linked : Blocks
    linked = link_new m p cut_at size

    abbrev written : Blocks
    written = set_free (set_size (set_next linked p cut_at) p size) p false

    apart : cut_at ≢ p
    apart e = absurd (omega arith)

    next_is : (m p).next ≡ next_link (behind p (n, f)) ys
    next_is = ap (λ (b : Block). b.next) head

    next_far : (t : Ptr) → 0 < t → t < behind p (n, f) → (m p).next ≢ t
    next_far t some_t lt e =
        let z = below_link (behind p (n, f)) ys t lt (sym e ∙ next_is) in absurd (omega arith)

    not_self : (m p).next ≢ p
    not_self = next_far p pos (omega arith)

    not_new : (m p).next ≢ cut_at
    not_new = next_far cut_at (omega arith) (omega arith)

    written_self : written p ≡ block_at (size, false) q cut_at
    written_self =
        write_self linked p cut_at size
        ∙ ap (λ (b : Block). block_at (size, false) b.prev cut_at)
            (link_self m p cut_at size apart not_self not_new ∙ head)

    written_cut :
        written cut_at ≡ block_at (n - size - header, true) p (next_link (behind p (n, f)) ys)
    written_cut =
        write_other linked p cut_at size cut_at apart
        ∙ link_here m p cut_at size apart not_self not_new
        ∙ rw head refl

    written_below : (t : Ptr) → t < p → written t ≡ m t
    written_below t lt =
        write_other linked p cut_at size t (λ e. absurd (omega arith))
        ∙ link_other m p cut_at size apart not_self not_new t (λ e. absurd (omega arith))
            (λ e. below_link (behind p (n, f)) ys t (omega arith) (e ∙ next_is))

    written_rest : Chain written cut_at (behind p (n, f)) ys
    unfolding Chain
    written_rest =
        move-Chain m written p cut_at (behind p (n, f)) ys (omega arith)
          (λ nn.
            subst (λ b. written b ≡ record (m b) { prev = cut_at }) next_is
              (write_other linked p cut_at size (m p).next not_self
                ∙ link_next m p cut_at size apart not_self not_new (λ e. nn (sym next_is ∙ e))))
          (λ t lt.
            write_other linked p cut_at size t (λ e. absurd (omega arith))
            ∙ link_other m p cut_at size apart not_self not_new t (λ e. absurd (omega arith))
                (λ e. absurd (omega (arith, e, next_is, next_link-le (behind p (n, f)) ys))))
          c.1

    parts_Chain : Chain written q p ((size, false) ∷ (n - size - header, true) ∷ ys)
    unfolding Chain
    parts_Chain =
        let b = behind p (n, f) in
        (
          written_self,
          subst
              (λ b.
                (written cut_at ≡ block_at (n - size - header, true) p (next_link b ys))
                × Chain written cut_at b ys)
              {x = b} {y = behind cut_at (n - size - header, true)} (omega arith)
              (written_cut, written_rest),
        )

  -- The block at `p`, taken for `size` bytes, and the headers in front of it.
  pub cut-Chain :
      size + header < 2 ^ 64
      → Chain (cut m p size) q p (taken size n ++ ys) × ((t : Ptr) → t < p → cut m p size t ≡ m t)
  cut-Chain short =
      let Cut : Blocks → List Seg → Type 0 =
        λ k zs. Chain k q p (zs ++ ys) × ((t : Ptr) → t < p → k t ≡ m t) in
      elim (Bool-cases (leb n (size + header))) [
        | inl small ↦ rw small (
            subst (λ k. Cut k ((n, false) ∷ [])) (sym (cut_small m p size short (rw head small)))
              (whole_Chain, λ t lt. rw (ne→== t p (λ e. absurd (omega arith))) refl))
        | inr large ↦
            let larger : size + header < n = ground arith in
            rw large (
              subst (λ k. Cut k ((size, false) ∷ (n - size - header, true) ∷ []))
                (sym (cut_large m p size short (omega arith) (rw head large)))
                (parts_Chain larger, written_below larger))
      ]
