-- ===== src/Mm/Pmm/Boot.antt =====
-- The state that `pmm_init` of pmm.c leaves behind.
use zenith_os.Prelude.{
  ℕ, ◌/◌, ◌<◌, ◌≡◌, refl, ◌∙◌, inl, inr, ◌==◌, if◌then◌else◌, Bool, false, not, ◌&&◌, ◌||◌,
  Bool-cases, Option, none, some, List, [], ◌∷◌, arith,
}
use zenith_os.Mm.Pmm.{Pmm, page_size, clamp_page_count, region_page_count, reserve_region}
use zenith_os.Mm.Pmm.Init.{
  Entry, reserve_memmap_type, mark_entry_usable, mark_usable, reserve_kernel,
}
use zenith_os.Mm.Pmm.Valid.{in_use, IsValid}
use zenith_os.Mm.Pmm.Range.{
  covered, reserve_region_lem, total_pages-mark_used_from, mark_free_from-IsValid,
  in_use-mark_free_from, total_pages-mark_free_from,
}

-- An entry of type `type` covers page `j`.
abbrev pub covered_by : ℕ → List Entry → ℕ → Bool
covered_by type [] j = false
covered_by type (e ∷ es) j = (e.type == type && covered e.base e.length j) || covered_by type es j

-- From `s` to `r` the bit of each page `j` of the map changes as `f j` says.
pub record Changes (f : ℕ → Bool → Bool) (s r : Pmm) : Type 0 where
  pub valid : IsValid r
  pub same_total : r.total_pages ≡ s.total_pages
  pub bits : (j : ℕ) → j < s.total_pages → in_use r j ≡ f j (in_use s j)

module _ (s : Pmm) (v : IsValid s) (base length : ℕ) where
  pub reserve_region-Changes :
      Changes (λ j b. covered base length j || b) s (reserve_region s base length)
  unfolding reserve_region
  reserve_region-Changes = record {
    valid = (reserve_region_lem s v base length).0;
    same_total =
        total_pages-mark_used_from
          (clamp_page_count s (base / page_size) (region_page_count length)) (base / page_size) s v;
    bits = λ j h. (reserve_region_lem s v base length).1 j;
  }

module _ (s : Pmm) (v : IsValid s) (e : Entry) where
  mark_entry_usable-Changes :
      Changes
        (λ j b. if covered e.base e.length j && not (j == 0) then false else b)
        s
        (mark_entry_usable e s)
  unfolding mark_entry_usable clamp_page_count
  mark_entry_usable-Changes = record {
    valid =
        mark_free_from-IsValid
          (clamp_page_count s (e.base / page_size) (region_page_count e.length))
          (e.base / page_size) s v;
    same_total =
        total_pages-mark_free_from
          (clamp_page_count s (e.base / page_size) (region_page_count e.length))
          (e.base / page_size) s v;
    bits = λ j h. ground (
      arith,
      in_use-mark_free_from (clamp_page_count s (e.base / page_size) (region_page_count e.length))
          (e.base / page_size) s j v,
    );
  }

pub reserve_memmap_type-Changes :
    (es : List Entry) (type : ℕ) (s : Pmm)
    → IsValid s
    → Changes (λ j b. covered_by type es j || b) s (reserve_memmap_type es type s)
unfolding reserve_memmap_type
reserve_memmap_type-Changes [] type s v = record {
  valid = v;
  same_total = refl;
  bits = λ j h. refl;
}
reserve_memmap_type-Changes (e ∷ es) type s v = elim (Bool-cases (e.type == type)) [
  | inl hit ↦ rw hit (
      let one = reserve_region-Changes s v e.base e.length in
      let rest = reserve_memmap_type-Changes es type (reserve_region s e.base e.length) one.valid in
      record {
        valid = rest.valid;
        same_total = rest.same_total ∙ one.same_total;
        bits =
            λ j h. ground (arith, hit, one.bits j h, rest.bits j (omega (arith, one.same_total)));
      })
  | inr miss ↦ rw miss (
      let rest = reserve_memmap_type-Changes es type s v in
      record {
        valid = rest.valid;
        same_total = rest.same_total;
        bits = λ j h. ground (arith, miss, rest.bits j h);
      })
]

pub mark_usable-Changes :
    (es : List Entry) (usable : ℕ) (s : Pmm)
    → IsValid s
    → Changes
        (λ j b. if covered_by usable es j && not (j == 0) then false else b)
        s
        (mark_usable usable es s)
unfolding mark_usable
mark_usable-Changes [] usable s v = record { valid = v; same_total = refl; bits = λ j h. refl }
mark_usable-Changes (e ∷ es) usable s v = elim (Bool-cases (e.type == usable)) [
  | inl hit ↦ rw hit (
      let one = mark_entry_usable-Changes s v e in
      let rest = mark_usable-Changes es usable (mark_entry_usable e s) one.valid in
      record {
        valid = rest.valid;
        same_total = rest.same_total ∙ one.same_total;
        bits =
            λ j h. ground (arith, hit, one.bits j h, rest.bits j (omega (arith, one.same_total)));
      })
  | inr miss ↦ rw miss (
      let rest = mark_usable-Changes es usable s v in
      record {
        valid = rest.valid;
        same_total = rest.same_total;
        bits = λ j h. ground (arith, miss, rest.bits j h);
      })
]

abbrev pub covered_by_kernel : Option (ℕ × ℕ) → ℕ → Bool
covered_by_kernel none j = false
covered_by_kernel (some (base, size)) j = covered base size j

pub reserve_kernel-Changes :
    (kernel : Option (ℕ × ℕ)) (s : Pmm)
    → IsValid s
    → Changes (λ j b. covered_by_kernel kernel j || b) s (reserve_kernel kernel s)
unfolding reserve_kernel
reserve_kernel-Changes none s v = record { valid = v; same_total = refl; bits = λ j h. refl }
reserve_kernel-Changes (some (base, size)) s v = reserve_region-Changes s v base size
