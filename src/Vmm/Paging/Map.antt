-- ===== src/Vmm/Paging/Map.antt =====
-- `page_table_map` and `page_table_unmap` of page_table.c: what they do to the translation of every
-- address.

use zenith_os.Prelude.{
  ℕ, ◌+◌, ◌<◌, ◌≤◌, ◌≡◌, ◌≢◌, refl, sym, ap, ◌∙◌, subst, ◌==◌, if◌then◌else◌, Bool, true, false,
  not, ◌&&◌, Option, none, some, some_inj, List, [], ◌∷◌, length, bit_or, arith, Bool-cases, inl,
  inr, ne→==, ==→eq, ap₂,
}
use zenith_os.Prelude.Words.{bit_or-one, without_flag}
use zenith_os.Vmm.Paging.{
  Ptr, Paging, level_none, level_pt, level_pd, level_pdpt, Walk, failed, found, is_present,
  address_of, write_entry, page_walk_internal, active_root, current_root,
}
use zenith_os.Vmm.Paging.Calls.{
  mapped_entry, set_entry, map_found, page_table_map, unmap_found, page_table_unmap,
}
use zenith_os.Vmm.Paging.View.{next_of, is_leaf, view, indices}
use zenith_os.Vmm.Paging.Tree.{Places, next_placed}
use zenith_os.Vmm.Paging.Kept.{IsValid, Kept}
use zenith_os.Vmm.Paging.Reach.{extend, length-extend, Reaches, Grows, page_walk_internal-Grows}

-- A write to an entry of a table of the last level.
module _ {h : ℕ} {root : Ptr} {s : Paging} {place : Places} (v : IsValid h root s place) (u : Ptr)
    (ρ : List ℕ) (i e : ℕ) (at_u : place u ≡ some ρ) (deep : length ρ ≡ 3) where
  not_upper : (t : Ptr) (π : List ℕ) → place t ≡ some π → length π < 3 → (t == u) ≡ false
  not_upper t π at_t upper = ne→== t u λ same.
      let π_ρ : π ≡ ρ = some_inj (sym at_t ∙ ap place same ∙ at_u) in
      let e = ap length π_ρ in absurd (omega arith)

  set_entry-IsValid : IsValid h root (set_entry s u i e) place
  unfolding active_root current_root
  set_entry-IsValid = record {
    pages = v.pages;
    hhdm = v.hhdm;
    rooted = v.rooted;
    root_place = v.root_place;
    tree = λ t π j at_t upper there no_leaf.
        let other = not_upper t π at_t upper in
        rw other (v.tree t π j at_t upper (rw other at there) (rw other at no_leaf));
    unplaced = v.unplaced;
  }

  -- Another address sees what it saw.
  view-set_entry :
      (t : Ptr) (π ks : List ℕ)
      → place t ≡ some π
      → length π + length ks ≡ 4
      → extend π ks ≢ i ∷ ρ
      → view (write_entry s.tables u i e) h t ks ≡ view s.tables h t ks
  unfolding view
  view-set_entry t π [] at_t n other = refl
  view-set_entry t π (k ∷ []) at_t n other = elim (Bool-cases (t == u && k == i)) [
    | inl here ↦
        let t_u : t ≡ u = ==→eq t u (ground arith) in
        let k_i : k ≡ i = ==→eq k i (ground arith) in
        let π_ρ : π ≡ ρ = some_inj (sym at_t ∙ ap place t_u ∙ at_u) in
        absurd (other (ap₂ (λ x xs. x ∷ xs) k_i π_ρ))
    | inr away ↦ rw away refl
  ]
  view-set_entry t π (k ∷ l ∷ ls) at_t n other =
      rw (not_upper t π at_t (omega arith))
        (elim (Bool-cases
          (is_present (s.tables t k) && not (is_leaf (length (l ∷ ls)) (s.tables t k)))) [
            | inl down ↦
                let below = next_placed s.tables h t π k l ls v.tree at_t n down in
                rw
                  (view-set_entry (next_of h (s.tables t k)) (k ∷ π) (l ∷ ls) below (omega arith)
                    other)
                  refl
            | inr stop ↦ ground arith
          ])

is_present-mapped_entry : (physical flags : ℕ) → is_present (mapped_entry physical flags) ≡ true
unfolding mapped_entry
is_present-mapped_entry physical flags =
    let entry = bit_or (address_of physical) (without_flag 7 (without_flag 0 flags)) in
    ground (arith, bit_or-one entry)

-- What an operation on the entry of the address `v` does to the view: another address sees what it
-- saw, and `v` sees `after`, unless the operation fails and nothing changes.
pub record Changes (h : ℕ) (root : Ptr) (s : Paging) (v : ℕ) (after : Option (ℕ × ℕ))
    (r : Bool × Paging) : Type 0 where
  pub place : Places
  pub valid : IsValid h root r.1 place
  pub others :
      (w : ℕ)
      → indices w ≢ indices v
      → view r.1.tables h root (indices w) ≡ view s.tables h root (indices w)
  pub unchanged :
      r.0 ≡ false → (w : ℕ) → view r.1.tables h root (indices w) ≡ view s.tables h root (indices w)
  pub fewer : r.1.pmm.free_pages ≤ s.pmm.free_pages
  pub here : r.0 ≡ true → view r.1.tables h root (indices v) ≡ after

module _ {h : ℕ} {root : Ptr} {s : Paging} {place : Places} (valid : IsValid h root s place)
    (v : ℕ) where
  -- The walk alone.
  Kept-Changes :
      (s' : Paging) (place' : Places) (after : Option (ℕ × ℕ))
      → Kept h root s place s' place'
      → Changes h root s v after (false, s')
  Kept-Changes s' place' after k = record {
    place = place';
    valid = k.valid;
    others = λ w ne. k.same_view root [] (indices w) valid.root_place (omega arith);
    unchanged = λ _ w. k.same_view root [] (indices w) valid.root_place (omega arith);
    fewer = k.fewer;
    here = λ done. absurd (cc done);
  }

  reached-Changes :
      (s' : Paging) (place' : Places) (u : Ptr) (i e : ℕ)
      → Kept h root s place s' place'
      → Reaches s'.tables h place' root [] (indices v) u i
      → Changes h root s v (if is_present e then some (0, e) else none) (true, set_entry s' u i e)
  reached-Changes s' place' u i e k at =
      let depth = ap length at.last ∙ length-extend [] (indices v) in
      let deep : length at.ρ ≡ 3 = omega arith in
      record {
        place = place';
        valid = set_entry-IsValid k.valid u at.ρ i e at.at_u deep;
        others = λ w ne.
            view-set_entry k.valid u at.ρ i e at.at_u deep root [] (indices w) k.valid.root_place
              (omega arith) (λ same. ne (ap (extend []) (same ∙ at.last)))
            ∙ k.same_view root [] (indices w) valid.root_place (omega arith);
        unchanged = λ failed. absurd (cc failed);
        fewer = k.fewer;
        here = λ _. at.written e;
      }

  map_found-Changes :
      (e : ℕ) (r : Walk × Paging)
      → is_present e ≡ true
      → Grows h root s place root [] (indices v) r
      → Changes h root s v (some (0, e)) (map_found e r)
  unfolding map_found
  map_found-Changes e (failed _, s') there (place', k, _) = Kept-Changes s' place' _ k
  map_found-Changes e (found level_none u i, s') there (place', k, _) = Kept-Changes s' place' _ k
  map_found-Changes e (found level_pd u i, s') there (place', k, _) = Kept-Changes s' place' _ k
  map_found-Changes e (found level_pdpt u i, s') there (place', k, _) = Kept-Changes s' place' _ k
  map_found-Changes e (found level_pt u i, s') there (place', k, at) =
      subst (λ b. Changes h root s v (if b then some (0, e) else none) (true, set_entry s' u i e))
        there (reached-Changes s' place' u i e k at)

  unmap_found-Changes :
      (r : Walk × Paging)
      → Grows h root s place root [] (indices v) r
      → Changes h root s v none (unmap_found r)
  unfolding unmap_found
  unmap_found-Changes (failed _, s') (place', k, _) = Kept-Changes s' place' _ k
  unmap_found-Changes (found level_none u i, s') (place', k, _) = Kept-Changes s' place' _ k
  unmap_found-Changes (found level_pd u i, s') (place', k, _) = Kept-Changes s' place' _ k
  unmap_found-Changes (found level_pdpt u i, s') (place', k, _) = Kept-Changes s' place' _ k
  unmap_found-Changes (found level_pt u i, s') (place', k, at) =
      elim (Bool-cases (is_present (s'.tables u i))) [
        | inl there ↦ rw there (reached-Changes s' place' u i 0 k at)
        | inr absent ↦ rw absent (Kept-Changes s' place' _ k)
      ]

  pub page_table_map-Changes :
      (physical flags : ℕ)
      → Changes h root s v
          (some (0, mapped_entry physical flags))
          (page_table_map s v physical flags)
  unfolding page_table_map
  page_table_map-Changes physical flags = rw valid.rooted (
      map_found-Changes (mapped_entry physical flags) (page_walk_internal s root v true)
        (is_present-mapped_entry physical flags) (page_walk_internal-Grows s place v true valid))

  pub page_table_unmap-Changes : Changes h root s v none (page_table_unmap s v)
  unfolding page_table_unmap
  page_table_unmap-Changes = rw valid.rooted (
      unmap_found-Changes (page_walk_internal s root v false)
        (page_walk_internal-Grows s place v false valid))
