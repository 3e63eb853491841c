-- ===== src/Elf/Loader/Table.antt =====
-- Where `elf_program_header` of elf.c finds the headers.
use zenith_os.Prelude.{ℕ, ◌+◌, ◌*◌, true, false, leb, ◌≤◌, ◌<◌, ◌%◌, ◌^◌, ltb, ◌≡◌, ap, some, arith}
use native.Mathlib.Nat.{mul-le-mul_right}
use zenith_os.Elf.{Image, Header, header_at, elf_program_header}
use zenith_os.Elf.Loader.{load_header, segment}

-- The program headers stand one behind the other from `e_phoff` on: the `int` in which
-- `elf_program_header` multiplies can hold the size of the table, and the table does not wrap.
pub record HasTable (image : Image) : Type 0 where
  pub no_overflow : (header_at image).e_phnum * (header_at image).e_phentsize < 2 ^ 31
  pub no_wrap :
      (header_at image).e_phoff + (header_at image).e_phnum * (header_at image).e_phentsize < 2 ^ 64

-- The address that `elf_program_header` computes.
elf_program_header_lem :
    (h : Header) (i : ℕ)
    → h.e_phnum * h.e_phentsize < 2 ^ 31
    → h.e_phoff + h.e_phnum * h.e_phentsize < 2 ^ 64
    → i < h.e_phnum
    → elf_program_header (some h) i ≡ some (h.e_phoff + i * h.e_phentsize)
unfolding elf_program_header
elf_program_header_lem h i few fits lt =
    let below : i * h.e_phentsize ≤ h.e_phnum * h.e_phentsize =
      mul-le-mul_right h.e_phentsize (omega arith) in
    let low : i * h.e_phentsize % 2 ^ 32 ≡ i * h.e_phentsize = omega arith in
    let inside : leb h.e_phnum i ≡ false = ground arith in
    let small : ltb (i * h.e_phentsize) (2 ^ 31) ≡ true = ground arith in
    rw (inside, low, small) (ap some (omega arith))

pub header_lem :
    (image : Image) (i : ℕ)
    → HasTable image
    → i < (header_at image).e_phnum
    → segment image i
      ≡ load_header image (some ((header_at image).e_phoff + i * (header_at image).e_phentsize))
unfolding segment
header_lem image i table lt =
    ap (load_header image)
      (elf_program_header_lem (header_at image) i table.no_overflow table.no_wrap lt)
