-- ===== src/Vmm/Paging/Tree.antt =====
-- The tables of page_table.c form a tree: each table has one place, by which writes to one table are
-- seen from one address alone.
use zenith_os.Prelude.{
  ℕ, ◌+◌, ◌-◌, ◌<◌, ◌≡◌, refl, sym, ap, ◌∙◌, ◌==◌, if◌then◌else◌, true, false, not, ◌&&◌, Option,
  none, some, some_inj, List, [], ◌∷◌, length, arith, Bool-cases, inl, inr, ne→==, ==→eq, eq→==,
}
use zenith_os.Vmm.Paging.{Ptr, Tables, is_present, is_huge, write_entry, clear_table}
use zenith_os.Vmm.Paging.View.{next_of, is_leaf, view}

-- The place of a table: the indices that lead to it from the root, the last one first.
abbrev pub Places : Type 0
Places = Ptr → Option (List ℕ)

-- An entry that leads to a table leads to the table of that place.
abbrev pub IsTree : Tables → ℕ → Places → Type 0
IsTree m h place =
    (t : Ptr) (π : List ℕ) (i : ℕ)
    → place t ≡ some π
    → length π < 3
    → is_present (m t i) ≡ true
    → is_leaf (3 - length π) (m t i) ≡ false
    → place (next_of h (m t i)) ≡ some (i ∷ π)

-- Where the view of `k ∷ l ∷ ls` goes on below the entry `k`.
pub next_placed :
    (m : Tables) (h : ℕ) {place : Places} (t : Ptr) (π : List ℕ) (k l : ℕ) (ls : List ℕ)
    → IsTree m h place
    → place t ≡ some π
    → length π + length (k ∷ l ∷ ls) ≡ 4
    → (is_present (m t k) && not (is_leaf (length (l ∷ ls)) (m t k))) ≡ true
    → place (next_of h (m t k)) ≡ some (k ∷ π)
next_placed m h t π k l ls tree at_t n down =
    let level =
      ap (λ d. is_leaf d (m t k)) {x = 3 - length π} {y = length (l ∷ ls)} (omega arith) in
    tree t π k at_t (omega arith) (ground arith) (level ∙ ground arith)

-- What is seen from every table that has a place.
abbrev pub SameView : ℕ → Places → Tables → Tables → Type 0
SameView h place m m' =
    (t : Ptr) (π js : List ℕ)
    → place t ≡ some π
    → length π + length js ≡ 4
    → view m' h t js ≡ view m h t js

abbrev pub put_place : Places → Ptr → List ℕ → Places
put_place place a π t = if t == a then some π else place t

-- In an empty table nothing is mapped.
view_empty :
    (m : Tables) (h : ℕ) (a : Ptr) (js : List ℕ) → ((i : ℕ) → m a i ≡ 0) → view m h a js ≡ none
unfolding view
view_empty m h a [] z = refl
view_empty m h a (j ∷ []) z = ground (arith, z j)
view_empty m h a (j ∷ k ∷ ks) z = ground (arith, z j)

-- A new, empty table `a` is entered at the entry `i` of `t`, which was not present.
pub record Entering (m : Tables) (h : ℕ) (place : Places) (t a : Ptr) (π : List ℕ) (i e : ℕ)
    : Type 0 where
  pub tree : IsTree m h place
  pub at_t : place t ≡ some π
  pub upper : length π < 3
  pub absent : is_present (m t i) ≡ false
  pub fresh : place a ≡ none
  pub leads : next_of h e ≡ a
  pub there : is_present e ≡ true
  pub no_leaf : is_huge e ≡ false

abbrev pub linked : Tables → Ptr → Ptr → ℕ → ℕ → Tables
linked m t a i e = write_entry (clear_table m a) t i e

module _ {m : Tables} {h : ℕ} {place : Places} {t a : Ptr} {π : List ℕ} {i e : ℕ}
    (l : Entering m h place t a π i e) where
  pub t_ne_a : (u : Ptr) (ρ : List ℕ) → place u ≡ some ρ → (u == a) ≡ false
  t_ne_a u ρ at_u = elim (Bool-cases (u == a)) [
    | inl same ↦ absurd (cc (ap place (==→eq u a same), at_u, l.fresh))
    | inr other ↦ other
  ]

  linked_new : (j : ℕ) → (linked m t a i e) a j ≡ 0
  linked_new j = rw (ne→== a t (λ same. cc (ap place same, l.at_t, l.fresh)), eq→== a a refl) refl

  pub linked_here : (linked m t a i e) t i ≡ e
  linked_here = rw (eq→== t t refl, eq→== i i refl) refl

  pub linked_other :
      (u : Ptr) (ρ : List ℕ) (j : ℕ)
      → place u ≡ some ρ
      → (u == t && j == i) ≡ false
      → (linked m t a i e) u j ≡ m u j
  linked_other u ρ j at_u other = rw (other, t_ne_a u ρ at_u) refl

  pub here_eq : (u : Ptr) (j : ℕ) → (u == t && j == i) ≡ true → (u ≡ t) × (j ≡ i)
  here_eq u j h = (ground arith, ground arith)

  pub link-SameView : SameView h place m (linked m t a i e)
  unfolding view
  link-SameView u ρ [] at_u n = refl
  link-SameView u ρ (j ∷ []) at_u n = elim (Bool-cases (u == t && j == i)) [
    | inl here ↦
        let same = ap place (here_eq u j here).0 in
        let π_ρ : ρ ≡ π = some_inj (sym at_u ∙ same ∙ l.at_t) in
        let e = ap length π_ρ in absurd (omega arith)
    | inr other ↦ rw (linked_other u ρ j at_u other) refl
  ]
  link-SameView u ρ (j ∷ k ∷ ks) at_u n = elim (Bool-cases (u == t && j == i)) [
    | inl here ↦
        let (u_t, j_i) = here_eq u j here in
        rw
          (
            u_t,
            j_i,
            linked_here,
            l.absent,
            l.leads,
            view_empty (linked m t a i e) h a (k ∷ ks) linked_new,
          )
          (ground arith)
    | inr other ↦
        rw (linked_other u ρ j at_u other)
          (elim (Bool-cases (is_present (m u j) && not (is_leaf (length (k ∷ ks)) (m u j)))) [
            | inl down ↦
                let below = next_placed m h u ρ j k ks l.tree at_u n down in
                rw (link-SameView (next_of h (m u j)) (j ∷ ρ) (k ∷ ks) below (omega arith)) refl
            | inr stop ↦ ground arith
          ])
  ]

  pub link-IsTree : IsTree (linked m t a i e) h (put_place place a (i ∷ π))
  link-IsTree u ρ j at_u above present_u no_leaf_u = elim (Bool-cases (u == a)) [
    | inl new ↦ absurd (cc (rw (==→eq u a new, linked_new j) at present_u))
    | inr old ↦
        let at_u' : place u ≡ some ρ = rw old at at_u in
        elim (Bool-cases (u == t && j == i)) [
          | inl here ↦
              let (u_t, j_i) = here_eq u j here in
              let π_ρ : ρ ≡ π = some_inj (sym at_u' ∙ ap place u_t ∙ l.at_t) in
              rw (u_t, j_i, linked_here, l.leads, eq→== a a refl, π_ρ) refl
          | inr other ↦
              let same = linked_other u ρ j at_u' other in
              let below : place (next_of h (m u j)) ≡ some (j ∷ ρ) =
                l.tree u ρ j at_u' above (ap is_present (sym same) ∙ present_u)
                  (ap (is_leaf (3 - length ρ)) (sym same) ∙ no_leaf_u) in
              rw (same, t_ne_a (next_of h (m u j)) (j ∷ ρ) below) below
        ]
  ]
