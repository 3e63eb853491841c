-- ===== src/Elf/Loader/Loop.antt =====
-- About the second loop of elf_loader.c, over all the segments.
use zenith_os.Prelude.{
  ℕ, zero, suc, ◌+◌, ◌-◌, ◌≤◌, ◌<◌, ◌==◌, ◌≡◌, refl, sym, ap, ◌∙◌, ◌⊎◌, inl, inr, Option, none,
  some, arith, Bool-cases, ==→eq, ==→ne, subst,
}
use zenith_os.Elf.{Image, ProgramHeader}
use zenith_os.Elf.Loader.{Block, segment, load_segment, and_load, load_segments}
use zenith_os.Elf.Loader.Content.{Loaded, FitsAt, Apart, Holds, load_segment_lem}

abbrev pub LoadedAt : Image → ℕ → Block → Option ProgramHeader → Type 0
LoadedAt image lowest b none = Unit {0}
LoadedAt image lowest b (some ph) = Loaded image lowest b ph

-- Two segments that may be none.
abbrev pub ApartAt : Option ProgramHeader → Option ProgramHeader → Type 0
ApartAt none o = Unit {0}
ApartAt (some p) o = Apart p o

module _ (image : Image) (lowest : ℕ) where
  -- What a segment apart from those of the loop keeps.
  pub Keeps : Block → Block → ProgramHeader → Type 0
  Keeps b b' p = Loaded image lowest b p → Loaded image lowest b' p

  abbrev Stepped : Block → Option ProgramHeader → Block → Type 0
  Stepped b o b' =
      (b'.size ≡ b.size)
      × LoadedAt image lowest b' o
      × ((p : ProgramHeader) → lowest ≤ p.p_vaddr → Apart p o → Keeps b b' p)

  outside :
      (p q : ProgramHeader) (k : ℕ)
      → lowest ≤ p.p_vaddr
      → lowest ≤ q.p_vaddr
      → k < p.p_memsz
      → Apart p (some q)
      → (p.p_vaddr - lowest + k < q.p_vaddr - lowest)
        ⊎ (q.p_vaddr - lowest + q.p_memsz ≤ p.p_vaddr - lowest + k)
  outside p q k h i j (inl a) = inl (omega arith)
  outside p q k h i j (inr a) = inr (omega arith)

  step :
      (b : Block) (o : Option ProgramHeader)
      → FitsAt lowest b.size o
      → (b' : Block) × (load_segment image lowest b o ≡ some b') × Stepped b o b'
  unfolding Holds Loaded Keeps
  step b none fits = (b, refl, (refl, tt, λ p h a l. l))
  step b (some q) fits =
      let (b', e, (size, loaded, kept)) = load_segment_lem image lowest b q fits in
      (
        b',
        e,
        (
          size,
          loaded,
          λ p h a l k j. kept (p.p_vaddr - lowest + k) (outside p q k h fits.above j a) ∙ l k j,
        ),
      )

  keep_at :
      (left i size : ℕ) (b b' : Block) (o : Option ProgramHeader)
      → ((p : ProgramHeader)
          → lowest ≤ p.p_vaddr
          → ((j : ℕ) → i ≤ j → j < i + left → Apart p (segment image j))
          → Keeps b b' p)
      → FitsAt lowest size o
      → ((j : ℕ) → i ≤ j → j < i + left → ApartAt o (segment image j))
      → LoadedAt image lowest b o
      → LoadedAt image lowest b' o
  unfolding Keeps
  keep_at left i size b b' none keeps fits a l = tt
  keep_at left i size b b' (some p) keeps fits a l = keeps p fits.above a l

  pub loop :
      (left i size : ℕ) (b : Block)
      → b.size ≡ size
      → ((j : ℕ) → i ≤ j → j < i + left → FitsAt lowest size (segment image j))
      → (b' : Block) × (load_segments image lowest left i b ≡ some b')
        × (b'.size ≡ size)
        × ((p : ProgramHeader)
            → lowest ≤ p.p_vaddr
            → ((j : ℕ) → i ≤ j → j < i + left → Apart p (segment image j))
            → Keeps b b' p)
        × ((j : ℕ)
            → i ≤ j
            → j < i + left
            → ((k : ℕ) → j < k → k < i + left → ApartAt (segment image j) (segment image k))
            → LoadedAt image lowest b' (segment image j))
  unfolding load_segments Keeps
  loop zero i size b e fits = (b, refl, e, (λ p h a l. l), λ j h k a. absurd (omega arith))
  loop (suc left) i size b e fits =
      let (b1, load, (same, loaded, keeps)) = step b (segment image i) (
        subst (λ n. FitsAt lowest n (segment image i)) (sym e)
          (fits i (omega arith) (omega arith))) in
      let (b2, rest, size2, keeps2, loaded2) =
        loop left (suc i) size b1 (same ∙ e) (λ j h k. fits j (omega arith) (omega arith)) in
      (
        b2,
        ap (and_load (load_segments image lowest left (suc i))) load ∙ rest,
        size2,
        (λ p h a l.
            keeps2 p h (λ j x y. a j (omega arith) (omega arith))
              (keeps p h (a i (omega arith) (omega arith)) l)),
        λ j h k a. elim (Bool-cases (j == i)) [
          | inl q ↦
              let at = ==→eq j i q in
              subst (λ n. LoadedAt image lowest b2 (segment image n)) (sym at)
                (keep_at left (suc i) size b1 b2 (segment image i) keeps2
                  (fits i (omega arith) (omega arith))
                  (λ n x y.
                    subst (λ m. ApartAt (segment image m) (segment image n)) at
                      (a n (omega (arith, at)) (omega arith)))
                  loaded)
          | inr q ↦
              let other = ==→ne j i q in
              loaded2 j (omega arith) (omega arith) (λ n x y. a n x (omega arith))
        ],
      )
