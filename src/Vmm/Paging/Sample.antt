-- ===== src/Vmm/Paging/Sample.antt =====
-- An empty root table in page 1 of a machine of eight pages, six of them free, for tests of page_table.c
-- and of what stands on it.
use zenith_os.Prelude.{
  ℕ, ◌*◌, ◌≡◌, refl, ap, ◌==◌, if◌then◌else◌, true, none, some, [], ◌∷◌, arith, Bool-cases, inl,
  inr, ==→eq,
}
use zenith_os.Mm.Bitmap.{test, has_bit}
use zenith_os.Mm.Pmm.{Pmm, page_size}
use zenith_os.Mm.Pmm.Count.{count_false}
use zenith_os.Mm.Pmm.Valid.{in_use}
use zenith_os.Mm.Pmm.Valid
use zenith_os.Vmm.Paging.{Ptr, Paging, to_virtual, active_root, current_root}
use zenith_os.Vmm.Paging.Tree.{Places}
use zenith_os.Vmm.Paging.Kept.{IsValid}
use zenith_os.Vmm.Paging.Entry.{free_small, to_virtual-page_inj}

abbrev pub eight_pages : Pmm
eight_pages = record {
  total_memory = 32768;
  usable_memory = 32768;
  reserved_memory = 0;
  highest_address = 32768;
  highest_physical_address = 32768;
  bitmap_size = 1;
  total_pages = 8;
  free_pages = 6;
  used_pages = 2;
  next_free_page = 2;
  map = record { bytes = 3 ∷ []; bits = 8 };
}

abbrev pub offset : ℕ
offset = 0xFFFF800000000000

abbrev pub root_table : Ptr
root_table = to_virtual offset (1 * page_size)

abbrev pub empty_root : Paging
empty_root = record {
  tables = λ t i. 0;
  hhdm_offset = offset;
  hhdm_ready = true;
  cr3 = page_size;
  active_pml4_physical = page_size;
  kernel_pml4 = root_table;
  kernel_pml4_physical = page_size;
  pmm = eight_pages;
}

abbrev pub only_root : Places
only_root t = if t == root_table then some [] else none

pub eight_pages-IsValid : Valid.IsValid eight_pages
unfolding test has_bit count_false
eight_pages-IsValid = record {
  map_valid = record { room = omega arith; are_bytes = (omega arith, tt) };
  bits = refl;
  fits = omega arith;
  counted = refl;
  used = omega arith;
  next_in = omega arith;
  zero_used = refl;
}

pub empty-IsValid :
    (p : Pmm)
    → Valid.IsValid p
    → in_use p 1 ≡ true
    → IsValid offset root_table (record empty_root { pmm = p }) only_root
unfolding active_root current_root
empty-IsValid p v used = record {
  pages = v;
  hhdm = refl;
  rooted = refl;
  root_place = refl;
  tree = λ t π i at_t upper there no_leaf. absurd (cc there);
  unplaced = λ j free. elim (Bool-cases (to_virtual offset (j * page_size) == root_table)) [
    | inl same ↦
        let one : j ≡ 1 =
          to_virtual-page_inj offset j 1 (free_small p j v free) (omega arith) (==→eq _ _ same) in
        absurd (cc (ap (in_use p) one, free, used))
    | inr other ↦ rw other refl
  ];
}

pub empty_root-IsValid : IsValid offset root_table empty_root only_root
unfolding test has_bit
empty_root-IsValid = empty-IsValid eight_pages eight_pages-IsValid refl
