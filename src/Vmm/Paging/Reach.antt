-- ===== src/Vmm/Paging/Reach.antt =====
-- The entry that the walk of page_table.c finds: a write to it is seen from its own address, and
-- from no other.
use Prim.{Unit, tt}
use zenith_os.Prelude.{
  ℕ, ◌+◌, ◌-◌, ◌≡◌, ◌≢◌, refl, sym, ap, ◌∙◌, ◌==◌, if◌then◌else◌, Bool, true, false, not, ◌&&◌,
  none, some, some_inj, List, [], ◌∷◌, length, arith, Bool-cases, inl, inr, ne→==, ==→ne, eq→==,
}
use zenith_os.Vmm.Paging.{
  Ptr, null, Tables, Paging, WalkLevel, level_none, level_pt, level_pd, level_pdpt, WalkStatus,
  missing_pml4, missing_pdpt, missing_pd, huge_pdpt, huge_pd, Walk, failed, found, is_present,
  is_huge, write_entry, ensure_next_table, on_table, walk_block, walk_page, page_walk_internal,
  pml4_index, pdpt_index, pd_index, pt_index,
}
use zenith_os.Vmm.Paging.Calls.{is_level_pt}
use zenith_os.Vmm.Paging.View.{view_down, next_of, is_leaf, view, indices}
use zenith_os.Vmm.Paging.Tree.{Places}
use zenith_os.Vmm.Paging.Kept.{IsValid, Kept, Kept-refl, Kept-trans}
use zenith_os.Vmm.Paging.Grow.{Steps, ensure-Steps}

-- The indices `js` behind the place `π`.
abbrev pub extend : List ℕ → List ℕ → List ℕ
extend π [] = π
extend π (j ∷ js) = extend (j ∷ π) js

pub length-extend : (π js : List ℕ) → length (extend π js) ≡ length π + length js
length-extend π [] = omega arith
length-extend π (j ∷ js) = omega (arith, length-extend (j ∷ π) js)

-- The entry `i` of `u` is the one that the indices `js` lead to from `t`.
pub record Reaches (m : Tables) (h : ℕ) (place : Places) (t : Ptr) (π js : List ℕ) (u : Ptr) (i : ℕ)
    : Type 0 where
  pub ρ : List ℕ
  pub at_u : place u ≡ some ρ
  pub last : i ∷ ρ ≡ extend π js
  pub written :
      (e : ℕ) → view (write_entry m u i e) h t js ≡ (if is_present e then some (0, e) else none)

abbrev pub Ends : ℕ → Paging → Places → Ptr → List ℕ → List ℕ → Walk → Type 0
Ends h s place t π js (found level_pt u i) = Reaches s.tables h place t π js u i
Ends h s place t π js _ = Unit

-- A walk that may create tables keeps what is seen, and an entry that it finds at the last level is
-- that of its address.
abbrev pub Grows : ℕ → Ptr → Paging → Places → Ptr → List ℕ → List ℕ → Walk × Paging → Type 0
Grows h root s place t π js (r, s') =
    (place' : Places) × Kept h root s place s' place' × Ends h s' place' t π js r

-- The walk ends above the last level.
upper_Ends :
    (h : ℕ) (s : Paging) (place : Places) (t : Ptr) (π : List ℕ) (i : ℕ) (js : List ℕ)
    (create : Bool) (huge : WalkStatus) (level : WalkLevel)
    → is_level_pt level ≡ false
    → Ends h s place t π (i ∷ js) (if create then failed huge else found level t i)
upper_Ends h s place t π i js true huge level upper = tt
upper_Ends h s place t π i js false huge level_none upper = tt
upper_Ends h s place t π i js false huge level_pd upper = tt
upper_Ends h s place t π i js false huge level_pdpt upper = tt
upper_Ends h s place t π i js false huge level_pt upper = absurd (cc upper)

module _ {h : ℕ} {root : Ptr} where
  walk_page-Grows :
      (s : Paging) (place : Places) (create : Bool) (t : Ptr) (π : List ℕ) (i : ℕ)
      → IsValid h root s place
      → place t ≡ some π
      → t ≢ null
      → Grows h root s place t π (i ∷ []) (walk_page create i t s)
  unfolding walk_page view
  walk_page-Grows s place create t π i v at_t nn =
      elim (Bool-cases (not create && not (is_present (s.tables t i)))) [
        | inl missing ↦ rw missing (place, Kept-refl v, tt)
        | inr there ↦ rw there (
          place,
          Kept-refl v,
          record {
            ρ = π;
            at_u = at_t;
            last = refl;
            written = λ e. rw (ne→== t null nn, eq→== t t refl, eq→== i i refl) refl;
          },
        )
      ]

  -- One level above a walk.
  step-Ends :
      (s s' : Paging) (place place' : Places) (t u : Ptr) (π : List ℕ) (i j : ℕ) (js : List ℕ)
      (r : Walk)
      → Kept h root s place s' place'
      → place t ≡ some π
      → t ≢ null
      → length π + length (i ∷ j ∷ js) ≡ 4
      → is_present (s.tables t i) ≡ true
      → is_leaf (3 - length π) (s.tables t i) ≡ false
      → next_of h (s.tables t i) ≡ u
      → Ends h s' place' u (i ∷ π) (j ∷ js) r
      → Ends h s' place' t π (i ∷ j ∷ js) r
  step-Ends s s' place place' t u π i j js (failed x) k at_t nn n there no_leaf leads e = tt
  step-Ends s s' place place' t u π i j js (found level_none w l) k at_t nn n there no_leaf leads
        e =
      tt
  step-Ends s s' place place' t u π i j js (found level_pd w l) k at_t nn n there no_leaf leads e =
      tt
  step-Ends s s' place place' t u π i j js (found level_pdpt w l) k at_t nn n there no_leaf leads
        e =
      tt
  step-Ends s s' place place' t u π i j js (found level_pt w l) k at_t nn n there no_leaf leads e =
      record {
        ρ = e.ρ;
        at_u = e.at_u;
        last = e.last;
        written = λ x.
            let depth = ap length e.last ∙ length-extend (i ∷ π) (j ∷ js) in
            let other : (t == w) ≡ false = ne→== t w λ same.
              let π_ρ : π ≡ e.ρ = some_inj (sym (k.places t π at_t) ∙ ap place' same ∙ e.at_u) in
              let deep = ap length π_ρ in absurd (omega arith) in
            let cell : write_entry s'.tables w l x t i ≡ s.tables t i =
              rw other (k.same_entry t π i at_t there) in
            view_down (write_entry s'.tables w l x) h t i j js nn (ap is_present cell ∙ there) (
              ap (is_leaf (length (j ∷ js))) cell
              ∙ ap (λ d. is_leaf d (s.tables t i)) {x = length (j ∷ js)} {y = 3 - length π}
                  (omega arith)
              ∙ no_leaf)
            ∙ ap (λ a. view (write_entry s'.tables w l x) h a (j ∷ js))
                (ap (next_of h) cell ∙ leads)
            ∙ e.written x;
      }

  -- What follows `ensure_next_table`.
  on_table-Grows :
      (s : Paging) (place : Places) (t : Ptr) (π : List ℕ) (i j : ℕ) (js : List ℕ)
      (r : Ptr × WalkStatus × Paging) (next : Ptr → Paging → Walk × Paging)
      → place t ≡ some π
      → t ≢ null
      → length π + length (i ∷ j ∷ js) ≡ 4
      → Steps h root s place t π i r
      → ((s' : Paging) (place' : Places) (u : Ptr)
          → IsValid h root s' place'
          → place' u ≡ some (i ∷ π)
          → u ≢ null
          → Grows h root s' place' u (i ∷ π) (j ∷ js) (next u s'))
      → Grows h root s place t π (i ∷ j ∷ js) (on_table r next)
  unfolding on_table
  on_table-Grows s place t π i j js (u, status, s') next at_t nn n (place', k, edge) below =
      elim (Bool-cases (u == null)) [
        | inl z ↦ rw z (place', k, tt)
        | inr nz ↦
            let nu = ==→ne u null nz in
            let (at_u, there, down, leads) = edge nu in
            let (place'', k', e) = below s' place' u k.valid at_u nu in
            rw nz (
              place'',
              Kept-trans k k',
              step-Ends s' _ place' place'' t u π i j js _ k' (k.places t π at_t) nn n there down
                  leads e,
            )
      ]

  module _ (s : Paging) (place : Places) (t : Ptr) (π : List ℕ) (i j : ℕ) (js : List ℕ)
      (create : Bool) (missing : WalkStatus) (next : Ptr → Paging → Walk × Paging)
      (v : IsValid h root s place) (at_t : place t ≡ some π) (nn : t ≢ null)
      (n : length π + length (i ∷ j ∷ js) ≡ 4)
      (below : (s' : Paging) (place' : Places) (u : Ptr)
        → IsValid h root s' place'
        → place' u ≡ some (i ∷ π)
        → u ≢ null
        → Grows h root s' place' u (i ∷ π) (j ∷ js) (next u s')) where
    ensure-Grows :
        (is_present (s.tables t i) && is_leaf (3 - length π) (s.tables t i)) ≡ false
        → Grows h root s place t π
            (i ∷ j ∷ js)
            (on_table (ensure_next_table s t i create missing) next)
    ensure-Grows no_leaf =
        on_table-Grows s place t π i j js (ensure_next_table s t i create missing) next at_t nn n
          (ensure-Steps root s place t π i create missing v at_t (omega arith) no_leaf) below

    walk_block-Grows :
        (huge : WalkStatus) (level : WalkLevel)
        → is_level_pt level ≡ false
        → Grows h root s place t π (i ∷ j ∷ js) (walk_block s t i create huge missing level next)
    unfolding walk_block
    walk_block-Grows huge level upper =
        elim (Bool-cases (is_present (s.tables t i) && is_huge (s.tables t i))) [
          | inl leaf ↦
              rw leaf
                (place, Kept-refl v, upper_Ends h s place t π i (j ∷ js) create huge level upper)
          | inr no_leaf ↦
              rw no_leaf (elim (Bool-cases (not (is_present (s.tables t i)) && not create)) [
                | inl absent ↦ rw absent (place, Kept-refl v, tt)
                | inr goes ↦ rw goes (ensure-Grows (ground arith))
              ])
        ]

  -- The whole walk from the root.
  pub page_walk_internal-Grows :
      (s : Paging) (place : Places) (v : ℕ) (create : Bool)
      → IsValid h root s place
      → Grows h root s place root [] (indices v) (page_walk_internal s root v create)
  unfolding page_walk_internal
  page_walk_internal-Grows s place v create w = elim (Bool-cases (root == null)) [
    | inl z ↦ rw z (place, Kept-refl w, tt)
    | inr nz ↦ rw nz (
        ensure-Grows s place root [] (pml4_index v) (pdpt_index v) (pd_index v ∷ pt_index v ∷ [])
          create missing_pml4 _ w w.root_place (==→ne root null nz) (omega arith)
          (λ s1 place1 pdpt w1 at_pdpt some_pdpt.
            walk_block-Grows s1 place1 pdpt (pml4_index v ∷ []) (pdpt_index v) (pd_index v)
              (pt_index v ∷ []) create missing_pdpt _ w1 at_pdpt some_pdpt (omega arith)
              (λ s2 place2 pd w2 at_pd some_pd.
                walk_block-Grows s2 place2 pd (pdpt_index v ∷ pml4_index v ∷ []) (pd_index v)
                  (pt_index v) [] create missing_pd _ w2 at_pd some_pd (omega arith)
                  (λ s3 place3 pt w3 at_pt some_pt.
                    walk_page-Grows s3 place3 create pt
                      (pd_index v ∷ pdpt_index v ∷ pml4_index v ∷ []) (pt_index v) w3 at_pt some_pt)
                  huge_pd level_pd refl)
              huge_pdpt level_pdpt refl)
          (ground arith))
  ]
