-- ===== src/Vmm/Paging/Translate.antt =====
-- What `page_table_translate` returns behind `page_table_map`, `page_table_map_page` and
-- `page_table_unmap` of page_table.c.
use zenith_os.Prelude.{
  ℕ, ◌+◌, ◌*◌, ◌/◌, ◌<◌, ◌%◌, ◌^◌, ◌≡◌, ◌≢◌, sym, ap, ◌∙◌, Bool, true, false, Option, List, [], ◌∷◌,
  bit_or, arith, ap₂,
}
use zenith_os.Prelude.Words.{bit_or_page, bit_or-one, without_flag}
use zenith_os.Vmm.Paging.{Ptr, Paging, address_of, level_pt}
use zenith_os.Vmm.Paging.Calls.{
  mapped_entry, address_in, page_table_map, page_table_unmap, page_table_translate,
}
use zenith_os.Vmm.Paging.View.{view, indices, translated, page_table_translate-view}
use zenith_os.Vmm.Paging.Tree.{Places}
use zenith_os.Vmm.Paging.Kept.{IsValid}
use zenith_os.Vmm.Paging.Map.{Changes, page_table_map-Changes, page_table_unmap-Changes}

-- The number of the page that an address of 48 bits lies in.
abbrev pub page_of : ℕ → ℕ
page_of v = v / 2 ^ 12 % 2 ^ 36

-- The indices of four levels as one number.
abbrev joined : ℕ → List ℕ → ℕ
joined n [] = n
joined n (i ∷ is) = joined (n * 512 + i) is

page_of-joined : (v : ℕ) → joined 0 (indices v) ≡ page_of v
page_of-joined v = omega arith

page_of-indices : (v w : ℕ) → indices w ≡ indices v → page_of w ≡ page_of v
page_of-indices v w same = sym (page_of-joined w) ∙ ap (joined 0) same ∙ page_of-joined v

-- The address in the page that an entry of page_table_map leads to.
pub address_in-mapped_entry :
    (physical flags v : ℕ)
    → flags < 4096
    → address_in (mapped_entry physical flags) level_pt v ≡ address_of physical + v % 4096
unfolding mapped_entry
address_in-mapped_entry physical flags v small =
    let x = physical / 2 ^ 12 % 2 ^ 40 in
    let f = without_flag 7 (without_flag 0 flags) in
    let low : f < 4096 = omega arith in
    let entry : bit_or (address_of physical) f ≡ x * 4096 + f = bit_or_page x f low in
    let even : f % 2 ≡ 0 = omega arith in
    let e : mapped_entry physical flags ≡ x * 4096 + f + 1 =
      ap (λ n. bit_or n 1) entry ∙ omega (arith, bit_or-one (x * 4096 + f)) in
    let a : address_of (mapped_entry physical flags) ≡ x * 4096 = ap address_of e ∙ omega arith in
    ap (λ n. bit_or n (v % 4096)) a ∙ bit_or_page x (v % 4096) (omega arith)

pub translate_valid :
    (h : ℕ) (root : Ptr) (s : Paging) (place : Places) (w : ℕ)
    → IsValid h root s place
    → page_table_translate s w ≡ translated w (view s.tables h root (indices w))
translate_valid h root s place w v =
    page_table_translate-view s w
    ∙ ap₂ (λ x y. translated w (view s.tables x y (indices w))) v.hhdm v.rooted

module _ {h : ℕ} {root : Ptr} {s : Paging} {place : Places} (valid : IsValid h root s place) {v : ℕ}
    {after : Option (ℕ × ℕ)} {r : Bool × Paging} (c : Changes h root s v after r) where
  pub translate-others :
      (w : ℕ) → page_of w ≢ page_of v → page_table_translate r.1 w ≡ page_table_translate s w
  translate-others w other =
      translate_valid h root r.1 c.place w c.valid
      ∙ ap (translated w) (c.others w (λ same. other (page_of-indices v w same)))
      ∙ sym (translate_valid h root s place w valid)

  pub translate_failed :
      r.0 ≡ false → (w : ℕ) → page_table_translate r.1 w ≡ page_table_translate s w
  translate_failed failed w =
      translate_valid h root r.1 c.place w c.valid
      ∙ ap (translated w) (c.unchanged failed w)
      ∙ sym (translate_valid h root s place w valid)

  translate_here : r.0 ≡ true → page_table_translate r.1 v ≡ translated v after
  translate_here done =
      translate_valid h root r.1 c.place v c.valid ∙ ap (translated v) (c.here done)

module _ (h : ℕ) (root : Ptr) (s : Paging) (place : Places) (valid : IsValid h root s place) where
  -- With page tables below the root in use that form a tree of which no free page is a part, and
  -- a valid allocator, a call of `page_table_map`, whatever it returns, leaves such page tables
  -- and a valid allocator.
  pub page_table_map-IsValid :
      (v physical flags : ℕ)
      → (place' : Places) × IsValid h root (page_table_map s v physical flags).1 place'
  page_table_map-IsValid v physical flags =
      let c = page_table_map-Changes valid v physical flags in (c.place, c.valid)

  -- With page tables below the root in use that form a tree of which no free page is a part, and
  -- a valid allocator, a call of `page_table_map`, whatever it returns, leaves the translation of
  -- every address of another page as it was.
  pub page_table_map-others :
      (v physical flags w : ℕ)
      → page_of w ≢ page_of v
      → page_table_translate (page_table_map s v physical flags).1 w ≡ page_table_translate s w
  page_table_map-others v physical flags w other =
      translate-others valid (page_table_map-Changes valid v physical flags) w other

  -- With page tables below the root in use that form a tree of which no free page is a part, and
  -- a valid allocator, a call of `page_table_map` that fails changes no translation.
  pub page_table_map_failed :
      (v physical flags w : ℕ)
      → (page_table_map s v physical flags).0 ≡ false
      → page_table_translate (page_table_map s v physical flags).1 w ≡ page_table_translate s w
  page_table_map_failed v physical flags w failed =
      translate_failed valid (page_table_map-Changes valid v physical flags) failed w

  -- With page tables below the root in use that form a tree of which no free page is a part, and
  -- a valid allocator, after a call of `page_table_map` that succeeds with flags in the low 12
  -- bits, `page_table_translate` gives the physical page with the offset of the address.
  pub page_table_translate-page_table_map :
      (v physical flags : ℕ)
      → flags < 4096
      → (page_table_map s v physical flags).0 ≡ true
      → page_table_translate (page_table_map s v physical flags).1 v
        ≡ address_of physical + v % 4096
  page_table_translate-page_table_map v physical flags small done =
      translate_here valid (page_table_map-Changes valid v physical flags) done
      ∙ address_in-mapped_entry physical flags v small

  -- With page tables below the root in use that form a tree of which no free page is a part, and
  -- a valid allocator, a call of `page_table_unmap` leaves such page tables and the translation
  -- of every address of another page as it was; if it succeeds, the address is translated to 0.
  pub page_table_unmap_lem :
      (v : ℕ)
      → ((place' : Places) × IsValid h root (page_table_unmap s v).1 place')
        × ((w : ℕ)
            → page_of w ≢ page_of v
            → page_table_translate (page_table_unmap s v).1 w ≡ page_table_translate s w)
        × ((page_table_unmap s v).0 ≡ true → page_table_translate (page_table_unmap s v).1 v ≡ 0)
  page_table_unmap_lem v =
      let c = page_table_unmap-Changes valid v in
      ((c.place, c.valid), translate-others valid c, translate_here valid c)
