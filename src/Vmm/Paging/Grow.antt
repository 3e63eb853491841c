-- ===== src/Vmm/Paging/Grow.antt =====
-- `ensure_next_table` of page_table.c: what it keeps when it enters a new table.
use zenith_os.Prelude.{
  ℕ, ◌-◌, ◌*◌, ◌/◌, ◌<◌, ◌^◌, ◌≡◌, ◌≢◌, refl, sym, ap, ◌∙◌, subst, ◌==◌, Bool, true, false, ◌&&◌,
  ◌||◌, Option, none, some, some_inj, List, [], ◌∷◌, length, arith, Bool-cases, inl, inr, ne→==,
  ==→eq, ==→ne, eq→==, ap₂,
}
use zenith_os.Mm.Pmm.{
  Pmm, page_size, mark_page_free, alloc_page, free_page, unlock_page, address_to_page,
  mark_page_free,
}
use zenith_os.Mm.Pmm.Valid.{in_use}
use zenith_os.Mm.Pmm.Valid
use zenith_os.Mm.Pmm.Alloc.{Allocated, alloc_page-none, alloc_page-some, mark_page_free-Allocated}
use zenith_os.Vmm.Paging.{
  Ptr, null, Paging, WalkStatus, walk_ok, allocation_failed, is_present, to_virtual, write_entry,
  clear_table, link_table, enter_page, ensure_next_table, active_root, physical_to_virtual,
  current_root, invalid_root,
}
use zenith_os.Vmm.Paging.View.{next_of, is_leaf}
use zenith_os.Vmm.Paging.Tree.{
  Places, put_place, Entering, linked_here, t_ne_a, linked_other, link-SameView, link-IsTree,
  t_ne_a, here_eq,
}
use zenith_os.Vmm.Paging.Kept.{IsValid, Kept, Kept-refl}
use zenith_os.Vmm.Paging.Entry.{
  free_small, to_virtual-page_inj, table_entry, address_of-table_entry, is_present-table_entry,
  is_huge-table_entry,
}

-- What a call of `ensure_next_table` for the entry `i` of a table at `π` does.
abbrev pub Steps : ℕ → Ptr → Paging → Places → Ptr → List ℕ → ℕ → Ptr × WalkStatus × Paging → Type 0
Steps h root s place t π i (u, status, s') =
    (place' : Places) × Kept h root s place s' place'
    × (u ≢ null
        → (place' u ≡ some (i ∷ π))
          × (is_present (s'.tables t i) ≡ true)
          × (is_leaf (3 - length π) (s'.tables t i) ≡ false)
          × (next_of h (s'.tables t i) ≡ u))

module _ (root : Ptr) (s : Paging) (place : Places) (v : IsValid s.hhdm_offset root s place) where
  abbrev h : ℕ
  h = s.hhdm_offset

  -- Only the allocator changes, and no page becomes free.
  set_pmm-Kept :
      (q : Pmm)
      → Valid.IsValid q
      → ((p : ℕ) → in_use q p ≡ in_use s.pmm p)
      → q.free_pages ≡ s.pmm.free_pages
      → Kept h root s place (record s { pmm = q }) place
  unfolding active_root current_root
  set_pmm-Kept q vq same count = record {
    valid = record {
      pages = vq;
      hhdm = v.hhdm;
      rooted = v.rooted;
      root_place = v.root_place;
      tree = v.tree;
      unplaced = λ p free. v.unplaced p (sym (same p) ∙ free);
    };
    places = λ t π at. at;
    same_view = λ t π js at n. refl;
    same_entry = λ t π i at there. refl;
    fewer = omega (arith, count);
  }

  module _ (t : Ptr) (π : List ℕ) (i p : ℕ) (q : Pmm) (at_t : place t ≡ some π)
      (upper : length π < 3) (absent : is_present (s.tables t i) ≡ false)
      (done : Allocated s.pmm p (some (p * page_size), q)) where
    small : p < 2 ^ 20
    small = free_small s.pmm p v.pages done.was_free

    abbrev new : Ptr
    new = to_virtual h (p * page_size)

    abbrev entered : Paging
    entered = record s {
      pmm = q;
      tables = write_entry (clear_table s.tables new) t i (table_entry (p * page_size));
    }

    entering : Entering s.tables h place t new π i (table_entry (p * page_size))
    entering = record {
      tree = v.tree;
      at_t = at_t;
      upper = upper;
      absent = absent;
      fresh = v.unplaced p done.was_free;
      leads = ap (to_virtual h) (address_of-table_entry p small);
      there = is_present-table_entry p;
      no_leaf = is_huge-table_entry p;
    }

    unplaced_after :
        (j : ℕ)
        → in_use q j ≡ false
        → put_place place new (i ∷ π) (to_virtual h (j * page_size)) ≡ none
    unplaced_after j free =
        let after : in_use q j ≡ (p == j || in_use s.pmm j) = done.in_use_after j in
        let before : in_use s.pmm j ≡ false = ground arith in
        let other : p ≢ j = ground arith in
        let apart : (to_virtual h (j * page_size) == new) ≡ false = ne→== _ _ λ same.
          other (sym (to_virtual-page_inj h j p (free_small s.pmm j v.pages before) small same)) in
        rw apart (v.unplaced j before)

    entered-IsValid : IsValid h root entered (put_place place new (i ∷ π))
    unfolding active_root current_root
    entered-IsValid = record {
      pages = done.valid;
      hhdm = v.hhdm;
      rooted = v.rooted;
      root_place = rw (t_ne_a entering root [] v.root_place) v.root_place;
      tree = link-IsTree entering;
      unplaced = unplaced_after;
    }

    entered-Kept : Kept h root s place entered (put_place place new (i ∷ π))
    entered-Kept = record {
      valid = entered-IsValid;
      places = λ u ρ at_u. rw (t_ne_a entering u ρ at_u) at_u;
      same_view = link-SameView entering;
      same_entry = λ u ρ j at_u present_u.
          linked_other entering u ρ j at_u (elim (Bool-cases (u == t && j == i)) [
            | inl here ↦
                let (u_t, j_i) = here_eq entering u j here in
                absurd (cc (present_u, absent, ap₂ (λ x y. is_present (s.tables x y)) u_t j_i))
            | inr other ↦ other
          ]);
      fewer = omega (arith, done.one_less);
    }

    link_table-Steps : Steps h root s place t π i (
      physical_to_virtual s (p * page_size),
      walk_ok,
      link_table (record s { pmm = q }) t i (p * page_size),
    )
    unfolding link_table
    link_table-Steps =
        let here = linked_here entering in
        (
          put_place place new (i ∷ π),
          entered-Kept,
          λ nn. (
            rw (eq→== new new refl) refl,
            ap is_present here ∙ entering.there,
            ap (is_leaf (3 - length π)) here ∙ ground (arith, entering.no_leaf),
            ap (next_of h) here ∙ entering.leads,
          ),
        )

    enter-Steps : Steps h root s place t π i (enter_page t i (some (p * page_size), q) s)
    unfolding enter_page free_page unlock_page address_to_page
    enter-Steps = elim (Bool-cases (physical_to_virtual s (p * page_size) == null)) [
      | inl z ↦
          let (valid, count, same) =
            mark_page_free-Allocated s.pmm p (some (p * page_size), q) done in
          let page : p * page_size / page_size ≡ p = omega arith in
          rw (z, page)
            (place, set_pmm-Kept (mark_page_free q p) valid same count, λ nn. absurd (nn refl))
      | inr nz ↦ rw nz link_table-Steps
    ]

  enter_page-Steps :
      (t : Ptr) (π : List ℕ) (i p : ℕ) (r : Option ℕ × Pmm)
      → place t ≡ some π
      → length π < 3
      → is_present (s.tables t i) ≡ false
      → Allocated s.pmm p r
      → Steps h root s place t π i (enter_page t i r s)
  unfolding enter_page
  enter_page-Steps t π i p (none, q) at_t upper absent done = absurd (cc done.address)
  enter_page-Steps t π i p (some a, q) at_t upper absent done =
      let a_p : a ≡ p * page_size = some_inj done.address in
      rw a_p (enter-Steps t π i p q at_t upper absent (rw a_p at done))

  -- A NULL pointer with the state as it was.
  stay :
      (status : WalkStatus) (t : Ptr) (π : List ℕ) (i : ℕ)
      → Steps h root s place t π i (null, status, s)
  stay status t π i = (place, Kept-refl v, λ nn. absurd (nn refl))

  alloc_page-Steps :
      (t : Ptr) (π : List ℕ) (i : ℕ)
      → place t ≡ some π
      → length π < 3
      → is_present (s.tables t i) ≡ false
      → Steps h root s place t π i (enter_page t i (alloc_page s.pmm) s)
  unfolding enter_page
  alloc_page-Steps t π i at_t upper absent = elim (Bool-cases (s.pmm.free_pages == 0)) [
    | inl empty ↦ rw (alloc_page-none s.pmm (==→eq _ _ empty)) (stay allocation_failed t π i)
    | inr more ↦
        let (p, done, _) = alloc_page-some s.pmm v.pages (omega (arith, ==→ne _ _ more)) in
        enter_page-Steps t π i p (alloc_page s.pmm) at_t upper absent done
  ]

  -- `ensure_next_table` for an entry that does not map a page.
  pub ensure_next_table-Steps :
      (t : Ptr) (π : List ℕ) (i : ℕ) (create : Bool) (missing : WalkStatus)
      → place t ≡ some π
      → length π < 3
      → (is_present (s.tables t i) && is_leaf (3 - length π) (s.tables t i)) ≡ false
      → Steps h root s place t π i (ensure_next_table s t i create missing)
  unfolding ensure_next_table
  ensure_next_table-Steps t π i create missing at_t upper no_leaf = elim (Bool-cases (t == null)) [
    | inl z ↦ rw z (stay invalid_root t π i)
    | inr nz ↦ rw nz (elim (Bool-cases (is_present (s.tables t i))) [
      | inl there ↦
          let below = v.tree t π i at_t upper there (rw there at no_leaf) in
          rw there (place, Kept-refl v, λ nn. (below, there, rw there at no_leaf, refl))
      | inr absent ↦ rw absent (elim (Bool-cases create) [
        | inl creates ↦ rw creates (alloc_page-Steps t π i at_t upper absent)
        | inr looks ↦ rw looks (stay missing t π i)
      ])
    ])
  ]

pub ensure-Steps :
    {h : ℕ} (root : Ptr) (s : Paging) (place : Places) (t : Ptr) (π : List ℕ) (i : ℕ)
    (create : Bool) (missing : WalkStatus)
    → IsValid h root s place
    → place t ≡ some π
    → length π < 3
    → (is_present (s.tables t i) && is_leaf (3 - length π) (s.tables t i)) ≡ false
    → Steps h root s place t π i (ensure_next_table s t i create missing)
ensure-Steps root s place t π i create missing v at_t upper no_leaf =
    subst
      (λ h.
        IsValid h root s place
        → Steps h root s place t π i (ensure_next_table s t i create missing))
      v.hhdm (λ w. ensure_next_table-Steps root s place w t π i create missing at_t upper no_leaf) v
