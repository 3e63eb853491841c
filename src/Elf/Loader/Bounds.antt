-- ===== src/Elf/Loader/Bounds.antt =====
-- About the segments that elf_loader.c loads.
use zenith_os.Prelude.{
  ℕ, zero, suc, ◌+◌, ◌≤◌, ◌<◌, ◌%◌, ◌^◌, ◌==◌, ◌≡◌, sym, inl, inr, Option, none, some, arith,
  Bool-cases, ==→eq, ==→ne, subst,
}
use zenith_os.Elf.{Image, ProgramHeader}
use zenith_os.Elf.Loader.{Extent, segment, widen, extent}

-- A segment that is not empty, is no longer in the file than in memory, and wraps neither in memory
-- nor in the image.
pub record IsSound (ph : ProgramHeader) : Type 0 where
  pub file_first : ph.p_filesz ≤ ph.p_memsz
  pub no_wrap : ph.p_vaddr + ph.p_memsz < 2 ^ 64
  pub not_empty : 0 < ph.p_memsz
  pub in_image : ph.p_offset + ph.p_filesz ≤ 2 ^ 64

abbrev pub IsSoundAt : Option ProgramHeader → Type 0
IsSoundAt none = Unit {0}
IsSoundAt (some ph) = IsSound ph

-- The segment lies in the extent.
abbrev pub Within : Extent → Option ProgramHeader → Type 0
Within e none = Unit {0}
Within e (some ph) = (e.lowest ≤ ph.p_vaddr) × (ph.p_vaddr + ph.p_memsz ≤ e.highest)

abbrev Widens : Extent → Extent → Type 0
Widens e f = (f.lowest ≤ e.lowest) × (e.highest ≤ f.highest)

widen-Widens : (e : Extent) (o : Option ProgramHeader) → Widens e (widen e o)
widen-Widens e none = (omega arith, omega arith)
widen-Widens e (some ph) = (ground arith, ground arith)

widen-Within : (e : Extent) (o : Option ProgramHeader) → IsSoundAt o → Within (widen e o) o
widen-Within e none h = tt
widen-Within e (some ph) h =
    let fits = h.no_wrap in
    let end : (ph.p_vaddr + ph.p_memsz) % 2 ^ 64 ≡ ph.p_vaddr + ph.p_memsz = omega arith in
    (ground arith, rw end (ground arith))

Within-Widens : (e f : Extent) (o : Option ProgramHeader) → Widens e f → Within e o → Within f o
Within-Widens e f none h w = tt
Within-Widens e f (some ph) h w = (omega (arith, h.0, w.0), omega (arith, h.1, w.1))

module _ (image : Image) where
  extent-Widens : (left i : ℕ) (e : Extent) → Widens e (extent image left i e)
  unfolding extent
  extent-Widens zero i e = (omega arith, omega arith)
  extent-Widens (suc left) i e =
      let one = widen-Widens e (segment image i) in
      let rest = extent-Widens left (suc i) (widen e (segment image i)) in
      (omega (arith, one.0, rest.0), omega (arith, one.1, rest.1))

  pub extent-Within :
      (left i : ℕ) (e : Extent)
      → ((j : ℕ) → IsSoundAt (segment image j))
      → (j : ℕ) → i ≤ j
      → j < i + left
      → Within (extent image left i e) (segment image j)
  unfolding extent
  extent-Within zero i e sound j h k = absurd (omega arith)
  extent-Within (suc left) i e sound j h k = elim (Bool-cases (j == i)) [
    | inl q ↦
        let at : j ≡ i = ==→eq j i q in
        subst
          (λ n. Within (extent image left (suc i) (widen e (segment image i))) (segment image n))
          (sym at)
          (Within-Widens (widen e (segment image i))
            (extent image left (suc i) (widen e (segment image i))) (segment image i)
            (extent-Widens left (suc i) (widen e (segment image i)))
            (widen-Within e (segment image i) (sound i)))
    | inr q ↦
        let other = ==→ne j i q in
        extent-Within left (suc i) (widen e (segment image i)) sound j (omega arith) (omega arith)
  ]
