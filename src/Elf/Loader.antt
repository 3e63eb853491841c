-- ===== src/Elf/Loader.antt =====
-- kernel/src/elf/elf_loader.c: loading the segments of an image into one block. `kmalloc` is an
-- argument; the block that it returns is at least as long as it was asked for. Prints are left out.
pub mod Bounds
pub mod Content
pub mod Loop
pub mod Table
pub mod Segments
mod Tests
use zenith_os.Prelude.{
  ℕ, zero, suc, ◌+◌, ◌-◌, ◌%◌, ◌^◌, ◌==◌, ◌&&◌, ltb, leb, not, if◌then◌else◌, Option, none, some,
}
use zenith_os.KernelErr.{Status, success, ok, err, einval, enomem}
use zenith_os.Elf.{
  Image, Header, header_at, ProgramHeader, forward, program_header_at, pt_load, elf_validate,
  elf_program_header,
}

-- A block of memory, from its first byte on; NULL is a block of no bytes.
pub record Block : Type 0 where
  pub size : ℕ
  pub bytes : ℕ → ℕ

abbrev pub no_block : Block
no_block = record { size = 0; bytes = λ i. 0 }

-- A write of `n` bytes from `offset` on; `none` is a write behind the end of the block.
unfoldable pub write_bytes : Block → ℕ → ℕ → (ℕ → ℕ) → Option Block
write_bytes b offset n new =
    if ltb b.size (offset + n)
    then none
    else some (record b {
      bytes = λ i. if leb offset i && ltb i (offset + n) then new (i - offset) else b.bytes i;
    })

-- `lowest` and `highest`
pub record Extent : Type 0 where
  pub lowest : ℕ
  pub highest : ℕ

abbrev pub uint64_max : ℕ
uint64_max = 2 ^ 64 - 1

-- The program header that a round of a loop looks at, if it is of a segment to load.
abbrev pub load_header : Image → Option ℕ → Option ProgramHeader
load_header image none = none
load_header image (some at) =
    if not ((program_header_at image at).p_type == pt_load)
    then none
    else some (program_header_at image at)

unfoldable pub segment : Image → ℕ → Option ProgramHeader
segment image i = load_header image (elf_program_header (some (header_at image)) i)

abbrev pub widen : Extent → Option ProgramHeader → Extent
widen e none = e
widen e (some ph) =
    let end = (ph.p_vaddr + ph.p_memsz) % 2 ^ 64 in
    record {
      lowest = if ltb ph.p_vaddr e.lowest then ph.p_vaddr else e.lowest;
      highest = if ltb e.highest end then end else e.highest;
    }

-- The first loop, with `left` headers to go.
unfoldable pub extent : Image → ℕ → ℕ → Extent → Extent
extent image zero i e = e
extent image (suc left) i e = extent image left (suc i) (widen e (segment image i))

-- The zeros behind the copy.
abbrev pub clear_rest : ProgramHeader → ℕ → Option Block → Option Block
clear_rest ph offset none = none
clear_rest ph offset (some b) =
    if ltb ph.p_filesz ph.p_memsz
    then write_bytes b (offset + ph.p_filesz) (ph.p_memsz - ph.p_filesz) (λ i. 0)
    else some b

abbrev pub load_segment : Image → ℕ → Block → Option ProgramHeader → Option Block
load_segment image lowest b none = some b
load_segment image lowest b (some ph) =
    let offset = ph.p_vaddr - lowest in
    clear_rest ph offset (write_bytes b offset ph.p_filesz (λ i. image (forward ph.p_offset i)))

abbrev pub and_load : (Block → Option Block) → Option Block → Option Block
and_load f none = none
and_load f (some b) = f b

-- The second loop.
unfoldable pub load_segments : Image → ℕ → ℕ → ℕ → Block → Option Block
load_segments image lowest zero i b = some b
load_segments image lowest (suc left) i b =
    and_load (load_segments image lowest left (suc i))
      (load_segment image lowest b (segment image i))

-- `elf_image_t`; `base` is `none` where it is NULL.
pub record ElfImage : Type 0 where
  pub base : Option Block
  pub size : ℕ
  pub entry : ℕ
  pub image_base : ℕ

abbrev pub finish : ElfImage → Option Block → Option (Status × ElfImage)
finish loaded none = none
finish loaded (some b) = some (success, record loaded { base = some b })

-- From the allocation on; `entry` and the headers come from the image.
abbrev pub load_into : Image → ElfImage → ℕ → Option Block → Option (Status × ElfImage)
load_into image loaded lowest none = some (err enomem, loaded)
load_into image loaded lowest (some b) =
    finish loaded (load_segments image lowest (header_at image).e_phnum 0 b)

abbrev pub load_empty : ElfImage → Option Block → Option (Status × ElfImage)
load_empty loaded none = none
load_empty loaded (some b) = some (success, loaded)

abbrev pub load_extent : (ℕ → Option Block) → Image → Extent → Option (Status × ElfImage)
load_extent kmalloc image e =
    let entry = (header_at image).e_entry in
    if e.lowest == uint64_max
    then load_empty (record { base = none; size = 0; entry = entry; image_base = 0 })
        (load_segments image e.lowest (header_at image).e_phnum 0 no_block)
    else let size = (e.highest + 2 ^ 64 - e.lowest) % 2 ^ 64 in
      load_into image (record { base = none; size = size; entry = entry; image_base = e.lowest })
        e.lowest (kmalloc size)

-- What follows the check of the header.
abbrev pub load_valid : (ℕ → Option Block) → Image → ElfImage → Status → Option (Status × ElfImage)
load_valid kmalloc image loaded (err _) = some (err einval, loaded)
load_valid kmalloc image loaded (ok _) =
    load_extent kmalloc image
      (extent image (header_at image).e_phnum 0 (record { lowest = uint64_max; highest = 0 }))

-- The outer `none` is a write behind the end of the block. `loaded` is never NULL.
unfoldable pub elf_load_image :
    (ℕ → Option Block) → Option Image → ElfImage → Option (Status × ElfImage)
elf_load_image kmalloc none loaded = some (err einval, loaded)
elf_load_image kmalloc (some image) loaded =
    load_valid kmalloc image loaded (elf_validate (some (header_at image)))
