-- ===== src/Elf/Loader/Content.antt =====
-- About what the second loop of elf_loader.c leaves in the block.
use zenith_os.Prelude.{
  ℕ, ◌+◌, ◌-◌, ◌^◌, ◌≤◌, ◌<◌, ◌&&◌, ltb, leb, if◌then◌else◌, ◌≡◌, refl, ap, ◌∙◌, ◌⊎◌, inl, inr,
  Option, none, some, arith, Bool-cases, false, true,
}
use zenith_os.Elf.{Image, ProgramHeader, forward}
use zenith_os.Elf.Loader.{Block, write_bytes, load_segment}

-- The bytes of the segment: those of the file, and zeros behind them.
unfoldable pub Loaded : Image → ℕ → Block → ProgramHeader → Type 0
Loaded image lowest b ph =
    (k : ℕ)
    → k < ph.p_memsz
    → b.bytes (ph.p_vaddr - lowest + k) ≡ (if ltb k ph.p_filesz then image (ph.p_offset + k) else 0)

-- The segment lies in a block of `size` bytes, and its bytes in the image before the wrap.
pub record Fits (lowest size : ℕ) (ph : ProgramHeader) : Type 0 where
  pub above : lowest ≤ ph.p_vaddr
  pub inside : ph.p_vaddr - lowest + ph.p_memsz ≤ size
  pub file_first : ph.p_filesz ≤ ph.p_memsz
  pub in_image : ph.p_offset + ph.p_filesz ≤ 2 ^ 64

abbrev pub FitsAt : ℕ → ℕ → Option ProgramHeader → Type 0
FitsAt lowest size none = Unit {0}
FitsAt lowest size (some ph) = Fits lowest size ph

-- Two segments that share no byte.
abbrev pub Apart : ProgramHeader → Option ProgramHeader → Type 0
Apart p none = Unit {0}
Apart p (some q) = (p.p_vaddr + p.p_memsz ≤ q.p_vaddr) ⊎ (q.p_vaddr + q.p_memsz ≤ p.p_vaddr)

abbrev overwrite : Block → ℕ → ℕ → (ℕ → ℕ) → Block
overwrite b offset n new = record b {
  bytes = λ i. if leb offset i && ltb i (offset + n) then new (i - offset) else b.bytes i;
}

write_bytes_lem :
    (b : Block) (offset n : ℕ) (new : ℕ → ℕ)
    → offset + n ≤ b.size
    → write_bytes b offset n new ≡ some (overwrite b offset n new)
unfolding write_bytes
write_bytes_lem b offset n new h =
    let fits : ltb b.size (offset + n) ≡ false = ground arith in rw fits

module _ (b : Block) (offset n : ℕ) (new : ℕ → ℕ) (i : ℕ) where
  overwrite_in : offset ≤ i → i < offset + n → (overwrite b offset n new).bytes i ≡ new (i - offset)
  overwrite_in h k = let hit : leb offset i && ltb i (offset + n) ≡ true = ground arith in rw hit

  overwrite_out : (i < offset) ⊎ (offset + n ≤ i) → (overwrite b offset n new).bytes i ≡ b.bytes i
  overwrite_out h =
      let miss : leb offset i && ltb i (offset + n) ≡ false = ground (arith, h) in rw miss

-- One segment.
module _ (image : Image) (lowest : ℕ) (b : Block) (ph : ProgramHeader)
    (fits : Fits lowest b.size ph) where
  abbrev pub offset : ℕ
  offset = ph.p_vaddr - lowest

  abbrev copied : Block
  copied = overwrite b offset ph.p_filesz (λ i. image (forward ph.p_offset i))

  -- The block after the segment.
  unfoldable pub Holds : Block → Type 0
  Holds b' =
      (b'.size ≡ b.size)
      × Loaded image lowest b' ph
      × ((i : ℕ) → (i < offset) ⊎ (offset + ph.p_memsz ≤ i) → b'.bytes i ≡ b.bytes i)

  copied_lem : write_bytes b offset ph.p_filesz (λ i. image (forward ph.p_offset i)) ≡ some copied
  copied_lem =
      let inside = fits.inside in
      let first = fits.file_first in
      write_bytes_lem b offset ph.p_filesz (λ i. image (forward ph.p_offset i)) (omega arith)

  copied_in : (k : ℕ) → k < ph.p_filesz → copied.bytes (offset + k) ≡ image (ph.p_offset + k)
  copied_in k h =
      overwrite_in b offset ph.p_filesz (λ i. image (forward ph.p_offset i)) (offset + k)
        (omega arith) (omega arith)
      ∙ ap image (let inside = fits.in_image in omega arith)

  copied_out : (i : ℕ) → (i < offset) ⊎ (offset + ph.p_filesz ≤ i) → copied.bytes i ≡ b.bytes i
  copied_out = overwrite_out b offset ph.p_filesz (λ i. image (forward ph.p_offset i))

  abbrev cleared : Block
  cleared = overwrite copied (offset + ph.p_filesz) (ph.p_memsz - ph.p_filesz) (λ i. 0)

  cleared_lem :
      ph.p_filesz < ph.p_memsz
      → write_bytes copied (offset + ph.p_filesz) (ph.p_memsz - ph.p_filesz) (λ i. 0) ≡ some cleared
  cleared_lem h =
      let inside = fits.inside in
      write_bytes_lem copied (offset + ph.p_filesz) (ph.p_memsz - ph.p_filesz) (λ i. 0)
        (omega arith)

  cleared_at :
      (k : ℕ)
      → k < ph.p_memsz
      → cleared.bytes (offset + k) ≡ (if ltb k ph.p_filesz then image (ph.p_offset + k) else 0)
  cleared_at k h = elim (Bool-cases (ltb k ph.p_filesz)) [
    | inl e ↦ rw e (
        overwrite_out copied (offset + ph.p_filesz) (ph.p_memsz - ph.p_filesz) (λ i. 0) (offset + k)
          (inl (ground (arith, e)))
        ∙ copied_in k (ground (arith, e)))
    | inr e ↦ rw e (
        overwrite_in copied (offset + ph.p_filesz) (ph.p_memsz - ph.p_filesz) (λ i. 0) (offset + k)
          (ground (arith, e)) (ground (arith, e)))
  ]

  cleared_out : (i : ℕ) → (i < offset) ⊎ (offset + ph.p_memsz ≤ i) → cleared.bytes i ≡ b.bytes i
  cleared_out i h =
      overwrite_out copied (offset + ph.p_filesz) (ph.p_memsz - ph.p_filesz) (λ i. 0) i (beside i h)
      ∙ copied_out i (behind i h)
    where
      beside :
          (i : ℕ)
          → (i < offset) ⊎ (offset + ph.p_memsz ≤ i)
          → (i < offset + ph.p_filesz) ⊎ (offset + ph.p_filesz + (ph.p_memsz - ph.p_filesz) ≤ i)
      beside i (inl h) = inl (omega arith)
      beside i (inr h) = let first = fits.file_first in inr (omega arith)

      behind :
          (i : ℕ)
          → (i < offset) ⊎ (offset + ph.p_memsz ≤ i)
          → (i < offset) ⊎ (offset + ph.p_filesz ≤ i)
      behind i (inl h) = inl h
      behind i (inr h) = let first = fits.file_first in inr (omega arith)

  copied_at :
      ph.p_filesz ≡ ph.p_memsz
      → (k : ℕ) → k < ph.p_memsz
      → copied.bytes (offset + k) ≡ (if ltb k ph.p_filesz then image (ph.p_offset + k) else 0)
  copied_at e k h =
      let short : ltb k ph.p_filesz ≡ true = ground (arith, e) in
      rw short (copied_in k (omega (arith, e)))

  copied_beside :
      ph.p_filesz ≡ ph.p_memsz
      → (i : ℕ) → (i < offset) ⊎ (offset + ph.p_memsz ≤ i)
      → copied.bytes i ≡ b.bytes i
  copied_beside e i (inl h) = copied_out i (inl h)
  copied_beside e i (inr h) = copied_out i (inr (omega (arith, e)))

  pub load_segment_lem : (b' : Block) × (load_segment image lowest b (some ph) ≡ some b') × Holds b'
  unfolding Holds Loaded
  load_segment_lem = elim (Bool-cases (ltb ph.p_filesz ph.p_memsz)) [
    | inl e ↦ (
      cleared,
      rw (copied_lem, e) (cleared_lem (ground (arith, e))),
      (refl, cleared_at, cleared_out),
    )
    | inr e ↦
        let first = fits.file_first in
        let same : ph.p_filesz ≡ ph.p_memsz = ground (arith, e) in
        (copied, rw (copied_lem, e) refl, (refl, copied_at same, copied_beside same))
  ]
