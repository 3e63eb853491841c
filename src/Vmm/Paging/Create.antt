-- ===== src/Vmm/Paging/Create.antt =====
-- `page_table_create` of page_table.c: a new root, and what is seen from it.
use zenith_os.Prelude.{
  ℕ, ◌≡◌, ◌≢◌, refl, sym, ap, ◌∙◌, ◌==◌, true, false, not, ◌&&◌, Option, none, some, some_inj, List,
  [], ◌∷◌, length, arith, Bool-cases, inl, inr, ne→==, ==→eq, ==→ne, eq→==,
}
use zenith_os.Mm.Pmm.{Pmm, alloc_page}
use zenith_os.Mm.Pmm.Alloc.{Allocated, alloc_page-none, alloc_page-some}
use zenith_os.Vmm.Paging.{
  Ptr, null, Tables, Paging, is_present, pml4_index, pdpt_index, pd_index, pt_index, clear_table,
  copy_table, physical_to_virtual, to_virtual, copy_table, clear_table, pml4_index,
}
use zenith_os.Vmm.Paging.Calls.{fill_root, create_found, page_table_create}
use zenith_os.Vmm.Paging.View.{next_of, is_leaf, view, indices}
use zenith_os.Vmm.Paging.Tree.{Places, IsTree, next_placed, SameView}
use zenith_os.Vmm.Paging.Kept.{IsValid}

-- Two entries that are the same, above the same view.
view_entry :
    (m m' : Tables) (h : ℕ) (t t' : Ptr) (i j : ℕ) (js : List ℕ)
    → (t' == null) ≡ (t == null)
    → m' t' i ≡ m t i
    → ((is_present (m t i) && not (is_leaf (length (j ∷ js)) (m t i))) ≡ true
        → view m' h (next_of h (m t i)) (j ∷ js) ≡ view m h (next_of h (m t i)) (j ∷ js))
    → view m' h t' (i ∷ j ∷ js) ≡ view m h t (i ∷ j ∷ js)
unfolding view
view_entry m m' h t t' i j js nulls same below =
    rw (same, nulls)
      (elim (Bool-cases (is_present (m t i) && not (is_leaf (length (j ∷ js)) (m t i)))) [
        | inl down ↦ rw (below down) refl
        | inr stop ↦ ground arith
      ])

-- Tables with the same entries give the same view.
module _ {m m' : Tables} (h : ℕ) {place : Places} (tree : IsTree m h place)
    (same : (t : Ptr) (π : List ℕ) (i : ℕ) → place t ≡ some π → m' t i ≡ m t i) where
  pub agree-SameView : SameView h place m m'
  unfolding view
  agree-SameView t π [] at_t n = refl
  agree-SameView t π (k ∷ []) at_t n = rw (same t π k at_t) refl
  agree-SameView t π (k ∷ l ∷ ls) at_t n =
      view_entry m m' h t t k l ls refl (same t π k at_t) λ down.
        agree-SameView (next_of h (m t k)) (k ∷ π) (l ∷ ls)
          (next_placed m h t π k l ls tree at_t n down) (omega arith)

module _ (s : Paging) (place : Places) (valid : IsValid s.hhdm_offset s.kernel_pml4 s place)
    (kernel : s.kernel_pml4 ≢ null) where
  -- The new root `a`, which was no table, sees what the kernel's root sees.
  fill_root-view :
      (q : Pmm) (a : Ptr) (w : ℕ)
      → place a ≡ none
      → a ≢ null
      → view (fill_root (record s { pmm = q }) a).tables s.hhdm_offset a (indices w)
        ≡ view s.tables s.hhdm_offset s.kernel_pml4 (indices w)
  unfolding fill_root
  fill_root-view q a w fresh nn =
      rw (ne→== s.kernel_pml4 null kernel)
        let m' = copy_table (clear_table s.tables a) a s.kernel_pml4 in
          let away : (t : Ptr) (π : List ℕ) → place t ≡ some π → (t == a) ≡ false =
            λ t π at_t. ne→== t a λ same. cc (ap place same, at_t, fresh) in
          let kept : (t : Ptr) (π : List ℕ) (i : ℕ) → place t ≡ some π → m' t i ≡ s.tables t i =
            λ t π i at_t. rw (away t π at_t) refl in
          view_entry s.tables m' s.hhdm_offset s.kernel_pml4 a (pml4_index w) (pdpt_index w)
            (pd_index w ∷ pt_index w ∷ []) (ne→== a null nn ∙ sym (ne→== s.kernel_pml4 null kernel))
            (rw (eq→== a a refl, away s.kernel_pml4 [] valid.root_place) refl)
            (λ down.
              agree-SameView s.hhdm_offset valid.tree kept _ (pml4_index w ∷ [])
                (pdpt_index w ∷ pd_index w ∷ pt_index w ∷ [])
                (next_placed s.tables s.hhdm_offset s.kernel_pml4 [] (pml4_index w) (pdpt_index w)
                  (pd_index w ∷ pt_index w ∷ []) valid.tree valid.root_place (omega arith) down)
                (omega arith))

  create_found-view :
      (p : ℕ) (r : Option ℕ × Pmm) (w : ℕ)
      → Allocated s.pmm p r
      → (create_found s r).0 ≢ null
      → view (create_found s r).2.tables s.hhdm_offset (create_found s r).0 (indices w)
        ≡ view s.tables s.hhdm_offset s.kernel_pml4 (indices w)
  unfolding create_found
  create_found-view p (none, q) w done nn = absurd (cc done.address)
  create_found-view p (some a, q) w done nn = elim (Bool-cases (physical_to_virtual s a == null)) [
    | inl z ↦ absurd (nn (rw z refl))
    | inr nz ↦ rw nz (
        fill_root-view q (physical_to_virtual s a) w
          (ap (λ x. place (to_virtual s.hhdm_offset x)) (some_inj done.address)
            ∙ valid.unplaced p done.was_free)
          (==→ne _ _ nz))
  ]

  -- The root of a new address space sees what the kernel's root sees: `page_table_create`, where it
  -- returns a pointer other than NULL, in a state where the tables below the kernel's root form a
  -- tree of which no free page is a part, and the allocator is valid.
  pub page_table_create-view :
      (w : ℕ)
      → (page_table_create s).0 ≢ null
      → view (page_table_create s).2.tables s.hhdm_offset (page_table_create s).0 (indices w)
        ≡ view s.tables s.hhdm_offset s.kernel_pml4 (indices w)
  unfolding page_table_create create_found
  page_table_create-view w nn = elim (Bool-cases (s.pmm.free_pages == 0)) [
    | inl empty ↦ absurd (nn (rw (alloc_page-none s.pmm (==→eq _ _ empty)) refl))
    | inr more ↦
        let (p, done, _) = alloc_page-some s.pmm valid.pages (omega (arith, ==→ne _ _ more)) in
        create_found-view p (alloc_page s.pmm) w done nn
  ]
