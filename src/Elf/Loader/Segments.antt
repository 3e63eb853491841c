-- ===== src/Elf/Loader/Segments.antt =====
-- About `elf_load_image` of elf_loader.c as a whole.
use zenith_os.Prelude.{
  ℕ, zero, suc, ◌+◌, ◌*◌, ◌-◌, ◌≤◌, ◌<◌, ◌%◌, ◌^◌, ltb, ◌≡◌, refl, ap, ◌∙◌, ◌≢◌, inl, inr, Option,
  none, some, arith, Bool-cases, ne→==, subst,
}
use zenith_os.KernelErr.{success}
use zenith_os.Elf.{Image, ProgramHeader, header_at, elf_validate}
use zenith_os.Elf.Loader.{
  Block, Extent, load_header, load_valid, uint64_max, segment, extent, load_segments, ElfImage,
  load_extent, elf_load_image, widen,
}
use zenith_os.Elf.Loader.Loop.{LoadedAt, ApartAt, loop}
use zenith_os.Elf.Loader.Table.{HasTable, header_lem}
use zenith_os.Elf.Loader.Bounds.{IsSound, IsSoundAt, Within, extent-Within}
use zenith_os.Elf.Loader.Content.{FitsAt}

-- The block of `elf_load_image` and what is in it: segment `i` is that of header `i` of the table,
-- and each is loaded whole, unless a later one overlaps it.
pub record IsLoaded (image : Image) (lowest : ℕ) (b : Block) : Type 0 where
  pub header :
      (i : ℕ)
      → i < (header_at image).e_phnum
      → segment image i
        ≡ load_header image (some ((header_at image).e_phoff + i * (header_at image).e_phentsize))
  pub loaded :
      (i : ℕ)
      → i < (header_at image).e_phnum
      → ((k : ℕ)
          → i < k
          → k < (header_at image).e_phnum
          → ApartAt (segment image i) (segment image k))
      → LoadedAt image lowest b (segment image i)

module _ (image : Image) where
  abbrev pub reach : Extent
  reach = extent image (header_at image).e_phnum 0 (record { lowest = uint64_max; highest = 0 })

  -- What the loop asks for, from the extent.
  fits-Within :
      (o : Option ProgramHeader) (e : Extent)
      → IsSoundAt o
      → Within e o
      → FitsAt e.lowest (e.highest - e.lowest) o
  fits-Within none e s w = tt
  fits-Within (some ph) e s w = record {
    above = w.0;
    inside = let a = w.0 in let b = w.1 in omega arith;
    file_first = s.file_first;
    in_image = s.in_image;
  }

  larger :
      (o : Option ProgramHeader) (lowest n m : ℕ) → n ≤ m → FitsAt lowest n o → FitsAt lowest m o
  larger none lowest n m h f = tt
  larger (some ph) lowest n m h f = record {
    above = f.above;
    inside = let i = f.inside in omega arith;
    file_first = f.file_first;
    in_image = f.in_image;
  }

  highest_bound :
      (left i : ℕ) (e : Extent) → e.highest < 2 ^ 64 → (extent image left i e).highest < 2 ^ 64
  unfolding extent
  highest_bound zero i e h = h
  highest_bound (suc left) i e h =
      highest_bound left (suc i) (widen e (segment image i)) (one (segment image i))
    where
      one : (o : Option ProgramHeader) → (widen e o).highest < 2 ^ 64
      one none = h
      one (some ph) = elim (Bool-cases (ltb e.highest ((ph.p_vaddr + ph.p_memsz) % 2 ^ 64))) [
        | inl q ↦ rw q (omega arith)
        | inr q ↦ rw q h
      ]

  not_empty :
      (o : Option ProgramHeader) (ph : ProgramHeader) (e : Extent)
      → o ≡ some ph
      → IsSoundAt o
      → Within e o
      → (e.lowest < uint64_max) × (e.lowest ≤ e.highest)
  not_empty o ph e eq s w =
      let sound : IsSound ph = subst IsSoundAt eq s in
      let within : Within e (some ph) = subst (Within e) eq w in
      let a = within.0 in
      let b = within.1 in
      let wrap = sound.no_wrap in let some_byte = sound.not_empty in (omega arith, omega arith)

  module _ (kmalloc : ℕ → Option Block) (valid : elf_validate (some (header_at image)) ≡ success)
      (table : HasTable image) (sound : (i : ℕ) → IsSoundAt (segment image i)) (b : Block)
      (given : kmalloc (reach.highest - reach.lowest) ≡ some b)
      (room : reach.highest - reach.lowest ≤ b.size) where
    load_lem :
        (b' : Block)
        → reach.lowest ≢ uint64_max
        → (reach.highest + 2 ^ 64 - reach.lowest) % 2 ^ 64 ≡ reach.highest - reach.lowest
        → load_segments image reach.lowest (header_at image).e_phnum 0 b ≡ some b'
        → load_extent kmalloc image reach
          ≡ some (
            success,
            record {
              base = some b';
              size = reach.highest - reach.lowest;
              entry = (header_at image).e_entry;
              image_base = reach.lowest;
            },
          )
    load_lem b' low size load = rw (ne→== reach.lowest uint64_max low, size, given, load) refl

    -- An image that `elf_validate` accepts, whose table of program headers neither is longer than an
    -- `int` can say nor wraps, with at least one segment to load and none that is empty, longer in
    -- the file than in memory or wraps, in memory or in the image, is loaded by `elf_load_image` if
    -- `kmalloc` returns a block of at least the size asked for: no write runs behind its end, and
    -- behind `image_base` the segment of each header of the table stands at its address, the bytes
    -- of the file before zeros, unless a later segment overlaps it.
    pub elf_load_image-IsLoaded :
        (loaded : ElfImage) (i : ℕ) (ph : ProgramHeader)
        → i < (header_at image).e_phnum
        → segment image i ≡ some ph
        → (b' : Block) × (elf_load_image kmalloc (some image) loaded
            ≡ some (
              success,
              record {
                base = some b';
                size = reach.highest - reach.lowest;
                entry = (header_at image).e_entry;
                image_base = reach.lowest;
              },
            ))
          × (b'.size ≡ b.size)
          × IsLoaded image reach.lowest b'
    unfolding elf_load_image
    elf_load_image-IsLoaded loaded i ph h is =
        let within : (j : ℕ) → j < (header_at image).e_phnum → Within reach (segment image j) =
          λ j k.
            extent-Within image (header_at image).e_phnum 0
              (record { lowest = uint64_max; highest = 0 }) sound j (omega arith) (omega arith) in
        let bounds = not_empty (segment image i) ph reach is (sound i) (within i h) in
        let some_low : reach.lowest ≢ uint64_max = let l = bounds.0 in omega arith in
        let top =
          highest_bound (header_at image).e_phnum 0 (record { lowest = uint64_max; highest = 0 })
            (omega arith) in
        let size : (reach.highest + 2 ^ 64 - reach.lowest) % 2 ^ 64 ≡ reach.highest - reach.lowest =
          let l = bounds.1 in omega arith in
        let (b', load, same, keeps, all) =
          loop image reach.lowest (header_at image).e_phnum 0 b.size b refl (λ j x y.
            larger (segment image j) reach.lowest (reach.highest - reach.lowest) b.size room
              (fits-Within (segment image j) reach (sound j) (within j (omega arith)))) in
        (
          b',
          ap (load_valid kmalloc image loaded) valid ∙ load_lem b' some_low size load,
          same,
          record {
            header = λ j x. header_lem image j table x;
            loaded = λ j x a. all j (omega arith) (omega arith) (λ k y z. a k y (omega arith));
          },
        )
