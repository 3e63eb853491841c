-- ===== src/Elf/Loader/Tests.antt =====
-- The theorem on elf_loader.c at an image with one segment: two bytes of the file at offset 120, and
-- two zeros behind them, at address 4096.
use zenith_os.Prelude.{
  ℕ, zero, suc, ◌-◌, ◌<◌, ◌≡◌, refl, some, none, List, [], ◌∷◌, ◌++◌, arith, get_or, replicate, leb,
  true,
}
use zenith_os.KernelErr.{success}
use zenith_os.Elf.{Image, field, header_at, ProgramHeader, elf_validate, elf_program_header}
use zenith_os.Elf.Loader.{Block, segment, extent, ElfImage, elf_load_image}
use zenith_os.Elf.Loader.Bounds.{IsSoundAt}
use zenith_os.Elf.Loader.Table.{HasTable}
use zenith_os.Elf.Loader.Segments.{reach, IsLoaded, elf_load_image-IsLoaded}

abbrev ident : List ℕ
ident = 0x7F ∷ b'E' ∷ b'L' ∷ b'F' ∷ 2 ∷ 1 ∷ replicate 10 0

-- Type, machine, version, entry and offset of the program headers.
abbrev fields : List ℕ
fields = 2 ∷ 0 ∷ 62 ∷ 0 ∷ 1 ∷ 0 ∷ 0 ∷ 0 ∷ (0 ∷ 16 ∷ replicate 6 0) ++ (64 ∷ replicate 7 0)

-- The sizes, with one program header of 56 bytes.
abbrev counts : List ℕ
counts = replicate 14 0 ++ (56 ∷ 0 ∷ 1 ∷ 0 ∷ replicate 6 0)

abbrev program : List ℕ
program =
    1 ∷ 0 ∷ 0 ∷ 0 ∷ 6 ∷ 0 ∷ 0 ∷ 0 ∷ (120 ∷ replicate 7 0)
    ++ (0 ∷ 16 ∷ replicate 14 0)
    ++ (2 ∷ replicate 7 0)
    ++ (4 ∷ replicate 15 0)

abbrev file : Image
file i = get_or (ident ++ fields ++ counts ++ program ++ (7 ∷ 9 ∷ [])) i 0

abbrev only : ProgramHeader
only = record { p_type = 1; p_flags = 6; p_offset = 120; p_vaddr = 4096; p_filesz = 2; p_memsz = 4 }

file_valid : elf_validate (some (header_at file)) ≡ success
unfolding elf_validate field
file_valid = refl

first_segment : segment file 0 ≡ some only
unfolding segment elf_program_header field
first_segment = refl

no_segment : (i : ℕ) → segment file (suc i) ≡ none
unfolding segment elf_program_header field
no_segment i = let behind : leb 1 (suc i) ≡ true = ground arith in rw behind

file_sound : (i : ℕ) → IsSoundAt (segment file i)
file_sound zero = rw first_segment (record {
  file_first = omega arith;
  no_wrap = omega arith;
  not_empty = omega arith;
  in_image = omega arith;
})
file_sound (suc i) = rw (no_segment i) tt

file_table : HasTable file
unfolding field
file_table = record { no_overflow = omega arith; no_wrap = omega arith }

abbrev room : Block
room = record { size = 4; bytes = λ i. 255 }

abbrev unset : ElfImage
unset = record { base = none; size = 0; entry = 0; image_base = 0 }

file_reach : (reach file).highest - (reach file).lowest ≡ 4
unfolding extent segment elf_program_header field
file_reach = refl

one_header : 0 < (header_at file).e_phnum
unfolding field
one_header = omega arith

elf_load_image-IsLoaded_example :
    (b' : Block) × (elf_load_image (λ n. some room) (some file) unset
      ≡ some (
        success,
        record {
          base = some b';
          size = (reach file).highest - (reach file).lowest;
          entry = (header_at file).e_entry;
          image_base = (reach file).lowest;
        },
      ))
    × (b'.size ≡ 4)
    × IsLoaded file (reach file).lowest b'
elf_load_image-IsLoaded_example =
    elf_load_image-IsLoaded file (λ n. some room) file_valid file_table file_sound room refl
      (omega (arith, file_reach)) unset 0 only one_header first_segment
