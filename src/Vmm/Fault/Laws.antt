-- ===== src/Vmm/Fault/Laws.antt =====
-- About the handler of demand_paging.c and the translation of addresses.
use zenith_os.Prelude.{
  ℕ, ◌+◌, ◌-◌, ◌*◌, ◌%◌, ◌≡◌, ◌≢◌, refl, sym, ap, ◌∙◌, subst, ◌==◌, Bool, true, false, Option, none,
  some, some_inj, List, [], length, arith, Bool-cases, inl, inr, ne→==, ==→eq, ==→ne,
}
use zenith_os.Mm.Pmm.{Pmm, page_size, alloc_page}
use zenith_os.Mm.Pmm.Valid.{in_use}
use zenith_os.Mm.Pmm.Alloc.{Allocated, alloc_page-none, alloc_page-some}
use zenith_os.Vmm.Vma
use zenith_os.Vmm.Paging.{
  Ptr, Paging, active_root, current_root, physical_to_virtual, is_present, pml4_index, pdpt_index,
  pd_index, pt_index,
}
use zenith_os.Vmm.Paging.Calls.{page_table_map, page_table_translate}
use zenith_os.Vmm.Paging.View.{
  view, indices, translated, next_of, is_leaf, page_table_translate-view,
}
use zenith_os.Vmm.Paging.Tree.{Places}
use zenith_os.Vmm.Paging.Kept.{IsValid}
use zenith_os.Vmm.Paging.Entry.{free_small}
use zenith_os.Vmm.Paging.Create.{agree-SameView}
use zenith_os.Vmm.Paging.Map.{page_table_map-Changes}
use zenith_os.Vmm.Paging.Translate.{
  address_in-mapped_entry, page_of, translate_valid, page_table_map-IsValid, page_table_map-others,
  page_table_map_failed,
}
use zenith_os.Prelude.{get_elem?}
use zenith_os.Prelude.Words.{has_flag}
use zenith_os.Vmm.Fault.{
  is_demand_paged, page_base, clear_page, fault_mapped, fault_allocated, fault_found,
  vmm_handle_page_fault,
}

-- The page `p`, which was free, is mapped at the page of `v`; every other page is translated as
-- before. A call that fails changes no translation.
pub record Faults (h : ℕ) (root : Ptr) (s : Paging) (v : ℕ) (r : Bool × Paging) : Type 0 where
  pub others :
      (w : ℕ) → page_of w ≢ page_of v → page_table_translate r.1 w ≡ page_table_translate s w
  pub unchanged : r.0 ≡ false → (w : ℕ) → page_table_translate r.1 w ≡ page_table_translate s w
  pub mapped :
      r.0 ≡ true
      → (p : ℕ) × (in_use s.pmm p ≡ false)
        × (page_table_translate r.1 v ≡ p * page_size + v % page_size)
        × ((place : Places) × IsValid h root r.1 place)

indices-page_base : (v : ℕ) → indices (page_base v) ≡ indices v
indices-page_base v =
    let one : pml4_index (page_base v) ≡ pml4_index v = omega arith in
    let two : pdpt_index (page_base v) ≡ pdpt_index v = omega arith in
    let three : pd_index (page_base v) ≡ pd_index v = omega arith in
    let four : pt_index (page_base v) ≡ pt_index v = omega arith in rw (one, two, three, four) refl

page_of-page_base : (v : ℕ) → page_of (page_base v) ≡ page_of v
page_of-page_base v = omega arith

-- The translations are read from the tables alone.
set_pmm-translate :
    (g : Paging) (q : Pmm) (w : ℕ)
    → page_table_translate (record g { pmm = q }) w ≡ page_table_translate g w
unfolding active_root current_root
set_pmm-translate g q w =
    page_table_translate-view (record g { pmm = q }) w ∙ sym (page_table_translate-view g w)

module _ (root : Ptr) (s : Paging) (place : Places)
    (valid : IsValid s.hhdm_offset root s place) where
  module _ (p : ℕ) (q : Pmm) (done : Allocated s.pmm p (some (p * page_size), q)) where
    abbrev page : Ptr
    page = physical_to_virtual s (p * page_size)

    abbrev cleared : Paging
    cleared = clear_page (record s { pmm = q }) page

    same_entries :
        (t : Ptr) (π : List ℕ) (i : ℕ) → place t ≡ some π → cleared.tables t i ≡ s.tables t i
    same_entries t π i at_t =
        rw (ne→== t page (λ e. cc (ap place e, at_t, valid.unplaced p done.was_free))) refl

    cleared-IsValid : IsValid s.hhdm_offset root cleared place
    unfolding active_root current_root
    cleared-IsValid = record {
      pages = done.valid;
      hhdm = refl;
      rooted = valid.rooted;
      root_place = valid.root_place;
      tree = λ t π i at_t upper there no_leaf.
          let e = same_entries t π i at_t in
          ap (λ x. place (next_of s.hhdm_offset x)) e
          ∙ valid.tree t π i at_t upper (ap is_present (sym e) ∙ there)
              (ap (is_leaf (3 - length π)) (sym e) ∙ no_leaf);
      unplaced = λ j free. valid.unplaced j (let after = done.in_use_after j in ground arith);
    }

    translate-cleared : (w : ℕ) → page_table_translate cleared w ≡ page_table_translate s w
    translate-cleared w =
        translate_valid s.hhdm_offset root cleared place w cleared-IsValid
        ∙ ap (translated w) (
            agree-SameView s.hhdm_offset valid.tree same_entries root [] (indices w)
              valid.root_place (omega arith))
        ∙ sym (translate_valid s.hhdm_offset root s place w valid)

    translate_here :
        (v : ℕ)
        → (page_table_map cleared (page_base v) (p * page_size) 2).0 ≡ true
        → page_table_translate (page_table_map cleared (page_base v) (p * page_size) 2).1 v
          ≡ p * page_size + v % page_size
    translate_here v ok =
        let c = page_table_map-Changes cleared-IsValid (page_base v) (p * page_size) 2 in
        let small = free_small s.pmm p valid.pages done.was_free in
        translate_valid s.hhdm_offset root _ c.place v c.valid
        ∙ ap
            (λ js. translated v (
              view (page_table_map cleared (page_base v) (p * page_size) 2).1.tables s.hhdm_offset
                root js))
            (sym (indices-page_base v))
        ∙ ap (translated v) (c.here ok)
        ∙ address_in-mapped_entry (p * page_size) 2 v (omega arith)
        ∙ omega arith

    translate-others :
        (v w : ℕ)
        → page_of w ≢ page_of v
        → page_table_translate (page_table_map cleared (page_base v) (p * page_size) 2).1 w
          ≡ page_table_translate s w
    translate-others v w ne =
        page_table_map-others s.hhdm_offset root cleared place cleared-IsValid (page_base v)
          (p * page_size) 2 w (λ e. ne (e ∙ page_of-page_base v))
        ∙ translate-cleared w

    translate_failed :
        (v w : ℕ) (g : Pmm)
        → (page_table_map cleared (page_base v) (p * page_size) 2).0 ≡ false
        → page_table_translate
            (record (page_table_map cleared (page_base v) (p * page_size) 2).1 { pmm = g })
            w
          ≡ page_table_translate s w
    translate_failed v w g failed =
        set_pmm-translate _ g w
        ∙ page_table_map_failed s.hhdm_offset root cleared place cleared-IsValid (page_base v)
            (p * page_size) 2 w failed
        ∙ translate-cleared w

    mapped-Faults :
        (v : ℕ)
        → Faults s.hhdm_offset root s v
            (fault_mapped (p * page_size) (page_table_map cleared (page_base v) (p * page_size) 2))
    unfolding fault_mapped
    mapped-Faults v = elim (Bool-cases (page_table_map cleared (page_base v) (p * page_size) 2).0) [
      | inl ok ↦ rw ok (record {
        others = λ w ne. translate-others v w ne;
        unchanged = λ e. absurd (cc e);
        mapped = λ _. (
          p,
          done.was_free,
          translate_here v ok,
          page_table_map-IsValid s.hhdm_offset root cleared place cleared-IsValid (page_base v)
              (p * page_size) 2,
        );
      })
      | inr failed ↦ rw failed (record {
        others = λ w ne. translate_failed v w _ failed;
        unchanged = λ _ w. translate_failed v w _ failed;
        mapped = λ e. absurd (cc e);
      })
    ]

  stays-Faults : (v : ℕ) (q : Pmm) → Faults s.hhdm_offset root s v (false, record s { pmm = q })
  stays-Faults v q = record {
    others = λ w _. set_pmm-translate s q w;
    unchanged = λ _ w. set_pmm-translate s q w;
    mapped = λ e. absurd (cc e);
  }

  Allocated-Faults :
      (v p : ℕ) (r : Option ℕ × Pmm)
      → Allocated s.pmm p r
      → Faults s.hhdm_offset root s v (fault_allocated s v r)
  unfolding fault_allocated
  Allocated-Faults v p (none, q) done = absurd (cc done.address)
  Allocated-Faults v p (some a, q) done =
      let page_at : a ≡ p * page_size = some_inj done.address in
      rw page_at (mapped-Faults p q (rw page_at at done) v)

  found-Faults :
      (areas : Vma.Table) (v : ℕ) (o : Option ℕ)
      → Faults s.hhdm_offset root s v (fault_found areas s v o)
  unfolding fault_found fault_allocated
  found-Faults areas v none = stays-Faults v s.pmm
  found-Faults areas v (some area) = elim (Bool-cases (is_demand_paged (get_elem? areas area))) [
    | inl demand ↦ rw demand (elim (Bool-cases (s.pmm.free_pages == 0)) [
      | inl empty ↦
          subst (λ r. Faults s.hhdm_offset root s v (fault_allocated s v r))
            (sym (alloc_page-none s.pmm (==→eq _ _ empty))) (stays-Faults v s.pmm)
      | inr more ↦
          let (p, done, _) = alloc_page-some s.pmm valid.pages (omega (arith, ==→ne _ _ more)) in
          Allocated-Faults v p (alloc_page s.pmm) done
    ])
    | inr other ↦ rw other (stays-Faults v s.pmm)
  ]

  -- With page tables below the root in use that form a tree of which no free page is a part, and a
  -- valid allocator, a call of `vmm_handle_page_fault` leaves the translation of every other page as
  -- it was; one that fails changes no translation; and one that succeeds maps a page that was free at
  -- the page of the fault, and the tables form such a tree again.
  pub vmm_handle_page_fault-Faults :
      (areas : Vma.Table) (v error_code : ℕ)
      → Faults s.hhdm_offset root s v (vmm_handle_page_fault areas s v error_code)
  unfolding vmm_handle_page_fault
  vmm_handle_page_fault-Faults areas v error_code = elim (Bool-cases (has_flag 0 error_code)) [
    | inl protection ↦ rw protection (stays-Faults v s.pmm)
    | inr absent ↦ rw absent (found-Faults areas v (Vma.find areas v))
  ]
