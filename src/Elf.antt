-- ===== src/Elf.antt =====
-- kernel/src/elf/elf.c and elf_types.h: the headers of an ELF file. An image is the memory from the
-- start of the file on, as a function from the offset of a byte.
pub mod Loader
use zenith_os.Prelude.{
  ℕ, zero, suc, ◌+◌, ◌-◌, ◌*◌, ◌%◌, ◌^◌, ltb, ◌==◌, ◌&&◌, not, leb, if◌then◌else◌, Bool, Option,
  none, some,
}
use zenith_os.KernelErr.{Status, success, err, einval}

abbrev pub Image : Type 0
Image = ℕ → ℕ

-- The offset `n` bytes further on; a pointer has 64 bits.
abbrev pub forward : ℕ → ℕ → ℕ
forward at n = (at + n) % 2 ^ 64

-- A little-endian field of `width` bytes.
unfoldable pub field : ℕ → Image → ℕ → ℕ
field zero image at = 0
field (suc width) image at = image at + 256 * field width image (forward at 1)

-- `elf64_header_t`, the fields that the loader reads.
pub record Header : Type 0 where
  pub e_ident : ℕ → ℕ
  pub e_type : ℕ
  pub e_machine : ℕ
  pub e_version : ℕ
  pub e_entry : ℕ
  pub e_phoff : ℕ
  pub e_phentsize : ℕ
  pub e_phnum : ℕ

-- The cast of the image to `elf64_header_t`.
abbrev pub header_at : Image → Header
header_at image = record {
  e_ident = image;
  e_type = field 2 image 16;
  e_machine = field 2 image 18;
  e_version = field 4 image 20;
  e_entry = field 8 image 24;
  e_phoff = field 8 image 32;
  e_phentsize = field 2 image 54;
  e_phnum = field 2 image 56;
}

-- `elf64_program_header_t`, likewise.
pub record ProgramHeader : Type 0 where
  pub p_type : ℕ
  pub p_flags : ℕ
  pub p_offset : ℕ
  pub p_vaddr : ℕ
  pub p_filesz : ℕ
  pub p_memsz : ℕ

abbrev pub program_header_at : Image → ℕ → ProgramHeader
program_header_at image at = record {
  p_type = field 4 image at;
  p_flags = field 4 image (forward at 4);
  p_offset = field 8 image (forward at 8);
  p_vaddr = field 8 image (forward at 16);
  p_filesz = field 8 image (forward at 32);
  p_memsz = field 8 image (forward at 40);
}

abbrev pub pt_load : ℕ
pt_load = 1

-- ELFCLASS64, ELFDATA2LSB, EV_CURRENT, ET_EXEC and EM_X86_64 are 2, 1, 1, 2 and 62.
unfoldable pub elf_validate : Option Header → Status
elf_validate none = err einval
elf_validate (some h) =
    if not (
      (h.e_ident 0 == 0x7F)
      && (h.e_ident 1 == b'E')
      && (h.e_ident 2 == b'L')
      && (h.e_ident 3 == b'F'))
    then err einval
    else if not (h.e_ident 4 == 2)
    then err einval
    else if not (h.e_ident 5 == 1)
    then err einval
    else if not (h.e_version == 1)
    then err einval
    else if not (h.e_type == 2)
    then err einval
    else if not (h.e_machine == 62)
    then err einval
    else success

-- The product of two `uint16_t`, which C takes in `int`: its lower 32 bits, with the sign in the
-- upper half when it is added to a pointer. C leaves a product from 2^31 on undefined; this is what
-- the multiplication of the processor gives.
abbrev pub int_product : ℕ → ℕ → ℕ
int_product a b =
    let low = a * b % 2 ^ 32 in if ltb low (2 ^ 31) then low else low + (2 ^ 64 - 2 ^ 32)

-- Where the program header `index` is in the image; a pointer is its offset there.
unfoldable pub elf_program_header : Option Header → ℕ → Option ℕ
elf_program_header none index = none
elf_program_header (some h) index =
    if leb h.e_phnum index then none else some (forward h.e_phoff (int_product index h.e_phentsize))
