-- ===== src/Vmm/Paging/Entry.antt =====
-- The entry of a new table of page_table.c, for a page of the allocator.
use zenith_os.Prelude.{
  ℕ, ◌+◌, ◌*◌, ◌<◌, ◌^◌, ◌≡◌, ap, ◌∙◌, ltb, true, false, bit_or, arith, Bool-cases, inl, inr,
}
use zenith_os.Mm.Bitmap.Laws.{test_out}
use zenith_os.Mm.Pmm.{Pmm, page_size}
use zenith_os.Mm.Pmm.Valid.{in_use}
use zenith_os.Mm.Pmm.Valid
use zenith_os.Prelude.Words.{bit_or-one, bit_or-two}
use zenith_os.Vmm.Paging.{is_present, is_huge, address_of, to_virtual}

-- Every page of the allocator lies below 2^32.
pub free_small : (s : Pmm) (p : ℕ) → Valid.IsValid s → in_use s p ≡ false → p < 2 ^ 20
free_small s p v free = elim (Bool-cases (ltb p s.total_pages)) [
  | inl small ↦ let below : p < s.total_pages = ground arith in omega (arith, v.fits)
  | inr large ↦ absurd (ground (arith, v.bits, test_out s.map p))
]

pub to_virtual-page_inj :
    (h p q : ℕ)
    → p < 2 ^ 20
    → q < 2 ^ 20
    → to_virtual h (p * page_size) ≡ to_virtual h (q * page_size)
    → p ≡ q
to_virtual-page_inj h p q hp hq same = omega arith

-- The entry of a new table: present, not huge, and it leads to the page.
abbrev pub table_entry : ℕ → ℕ
table_entry physical = bit_or (bit_or physical 1) 2

table_entry_lem : (p : ℕ) → table_entry (p * page_size) ≡ p * page_size + 3
table_entry_lem p =
    let one : bit_or (p * page_size) 1 ≡ p * page_size + 1 =
      omega (arith, bit_or-one (p * page_size)) in
    ap (λ x. bit_or x 2) one ∙ omega (arith, bit_or-two (p * page_size + 1))

pub address_of-table_entry :
    (p : ℕ) → p < 2 ^ 20 → address_of (table_entry (p * page_size)) ≡ p * page_size
address_of-table_entry p small = ap address_of (table_entry_lem p) ∙ omega arith

pub is_present-table_entry : (p : ℕ) → is_present (table_entry (p * page_size)) ≡ true
is_present-table_entry p = ap is_present (table_entry_lem p) ∙ ground arith

pub is_huge-table_entry : (p : ℕ) → is_huge (table_entry (p * page_size)) ≡ false
is_huge-table_entry p = ap is_huge (table_entry_lem p) ∙ ground arith
