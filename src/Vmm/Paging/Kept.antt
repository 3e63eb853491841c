-- ===== src/Vmm/Paging/Kept.antt =====
-- The invariant of the tables of page_table.c, each with its place, and what a walk keeps of them.
use zenith_os.Prelude.{ℕ, ◌*◌, ◌≤◌, ◌≡◌, refl, ap, ◌∙◌, true, false, none, some, List, [], arith}
use zenith_os.Mm.Pmm.{page_size}
use zenith_os.Mm.Pmm.Valid.{in_use}
use zenith_os.Mm.Pmm.Valid
use zenith_os.Vmm.Paging.{Ptr, Paging, is_present, to_virtual, active_root}
use zenith_os.Vmm.Paging.Tree.{Places, IsTree, SameView}

-- The tables below the root in use form a tree, and no free page is one of them.
pub record IsValid (h : ℕ) (root : Ptr) (s : Paging) (place : Places) : Type 0 where
  pub pages : Valid.IsValid s.pmm
  pub hhdm : s.hhdm_offset ≡ h
  pub rooted : active_root s ≡ root
  pub root_place : place root ≡ some []
  pub tree : IsTree s.tables h place
  pub unplaced : (p : ℕ) → in_use s.pmm p ≡ false → place (to_virtual h (p * page_size)) ≡ none

-- What a walk keeps.
pub record Kept (h : ℕ) (root : Ptr) (s : Paging) (place : Places) (s' : Paging) (place' : Places)
    : Type 0 where
  pub valid : IsValid h root s' place'
  pub places : (t : Ptr) (π : List ℕ) → place t ≡ some π → place' t ≡ some π
  pub same_view : SameView h place s.tables s'.tables
  pub same_entry :
      (t : Ptr) (π : List ℕ) (i : ℕ)
      → place t ≡ some π
      → is_present (s.tables t i) ≡ true
      → s'.tables t i ≡ s.tables t i
  pub fewer : s'.pmm.free_pages ≤ s.pmm.free_pages

module _ {h : ℕ} {root : Ptr} where
  pub Kept-refl :
      {s : Paging} {place : Places} → IsValid h root s place → Kept h root s place s place
  Kept-refl v = record {
    valid = v;
    places = λ t π at. at;
    same_view = λ t π js at n. refl;
    same_entry = λ t π i at there. refl;
    fewer = omega arith;
  }

  pub Kept-trans :
      {s s' s'' : Paging} {place place' place'' : Places}
      → Kept h root s place s' place'
      → Kept h root s' place' s'' place''
      → Kept h root s place s'' place''
  Kept-trans k l = record {
    valid = l.valid;
    places = λ t π at. l.places t π (k.places t π at);
    same_view = λ t π js at n. l.same_view t π js (k.places t π at) n ∙ k.same_view t π js at n;
    same_entry = λ t π i at there.
        let same = k.same_entry t π i at there in
        l.same_entry t π i (k.places t π at) (ap is_present same ∙ there) ∙ same;
    fewer = omega (arith, k.fewer, l.fewer);
  }
