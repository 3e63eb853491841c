-- ===== src/Vmm/Paging/View.antt =====
-- What the page tables of page_table.c map: the walk as a recursion on the indices of an address,
-- over the entries alone.
use zenith_os.Prelude.{
  ℕ, zero, suc, ◌<◌, ◌≡◌, ◌≢◌, refl, ◌==◌, ltb, if◌then◌else◌, Bool, true, false, not, ◌&&◌, Option,
  none, some, List, [], ◌∷◌, length, arith, Bool-cases, inl, inr, ne→==, ==→eq, ==→ne,
}
use zenith_os.Vmm.Paging.{
  Ptr, null, Tables, Paging, WalkLevel, level_none, level_pt, level_pd, level_pdpt, WalkStatus,
  walk_ok, missing_pml4, missing_pdpt, missing_pd, huge_pdpt, huge_pd, Walk, is_present, is_huge,
  address_of, to_virtual, pml4_index, pdpt_index, pd_index, pt_index, ensure_next_table, on_table,
  walk_block, walk_page, page_walk_internal, active_root,
}
use zenith_os.Vmm.Paging.Calls.{address_in, translate_found, page_table_translate}

-- The table that an entry leads to.
abbrev pub next_of : ℕ → ℕ → Ptr
next_of offset entry = to_virtual offset (address_of entry)

-- Whether an entry with `n` levels below it maps a page of its own: not in the root table.
abbrev pub is_leaf : ℕ → ℕ → Bool
is_leaf n entry = ltb n 3 && is_huge entry

abbrev pub is_mapped_at : Tables → Ptr → ℕ → Bool
is_mapped_at m t i = not (t == null) && is_present (m t i)

-- The entry that maps the address with these indices, and the number of levels below it.
unfoldable pub view : Tables → ℕ → Ptr → List ℕ → Option (ℕ × ℕ)
view m h t [] = none
view m h t (i ∷ []) = if is_mapped_at m t i then some (0, m t i) else none
view m h t (i ∷ j ∷ js) =
    let below = view m h (next_of h (m t i)) (j ∷ js) in
    if is_mapped_at m t i
    then (if is_leaf (length (j ∷ js)) (m t i) then some (length (j ∷ js), m t i) else below)
    else none

abbrev pub indices : ℕ → List ℕ
indices v = pml4_index v ∷ pdpt_index v ∷ pd_index v ∷ pt_index v ∷ []

abbrev pub level_of : ℕ → WalkLevel
level_of zero = level_pt
level_of (suc zero) = level_pd
level_of (suc (suc zero)) = level_pdpt
level_of _ = level_none

abbrev pub translated : ℕ → Option (ℕ × ℕ) → ℕ
translated v none = 0
translated v (some (n, entry)) = address_in entry (level_of n) v

view-null : (m : Tables) (h : ℕ) (js : List ℕ) → view m h null js ≡ none
unfolding view
view-null m h [] = refl
view-null m h (j ∷ []) = refl
view-null m h (j ∷ k ∷ ks) = refl

-- An entry that leads to a table passes on what is seen there.
pub view_down :
    (m : Tables) (h : ℕ) (t : Ptr) (i j : ℕ) (js : List ℕ)
    → t ≢ null
    → is_present (m t i) ≡ true
    → is_leaf (length (j ∷ js)) (m t i) ≡ false
    → view m h t (i ∷ j ∷ js) ≡ view m h (next_of h (m t i)) (j ∷ js)
unfolding view
view_down m h t i j js nn there no_leaf = rw (ne→== t null nn, there, no_leaf) refl

module _ (s : Paging) (v : ℕ) where
  -- A walk that may not create tables changes nothing, and finds what the view says.
  abbrev Sees : Ptr → List ℕ → Walk × Paging → Type 0
  Sees t js r = (r.1 ≡ s) × (translate_found v r ≡ translated v (view s.tables s.hhdm_offset t js))

  walk_page-Sees : (t : Ptr) (i : ℕ) → t ≢ null → Sees t (i ∷ []) (walk_page false i t s)
  unfolding walk_page translate_found view
  walk_page-Sees t i nn = elim (Bool-cases (is_present (s.tables t i))) [
    | inl there ↦ rw (there, ne→== t null nn) (refl, rw there refl)
    | inr absent ↦ rw (absent, ne→== t null nn) (refl, refl)
  ]

  on_table-Sees :
      (t : Ptr) (js : List ℕ) (status : WalkStatus) (k : Ptr → Paging → Walk × Paging)
      → (t ≢ null → Sees t js (k t s))
      → Sees t js (on_table (t, status, s) k)
  unfolding on_table translate_found
  on_table-Sees t js status k h = elim (Bool-cases (t == null)) [
    | inl z ↦ rw z (refl, rw (==→eq t null z, view-null s.tables s.hhdm_offset js) refl)
    | inr nn ↦ rw nn (h (==→ne t null nn))
  ]

  ensure-Sees :
      (t : Ptr) (i j : ℕ) (js : List ℕ) (missing : WalkStatus) (k : Ptr → Paging → Walk × Paging)
      → t ≢ null
      → (is_present (s.tables t i) && is_leaf (length (j ∷ js)) (s.tables t i)) ≡ false
      → ((u : Ptr) → u ≢ null → Sees u (j ∷ js) (k u s))
      → Sees t (i ∷ j ∷ js) (on_table (ensure_next_table s t i false missing) k)
  unfolding ensure_next_table view translate_found on_table
  ensure-Sees t i j js missing k nn no_leaf h = elim (Bool-cases (is_present (s.tables t i))) [
    | inl there ↦
        let below = on_table-Sees (next_of s.hhdm_offset (s.tables t i)) (j ∷ js) walk_ok k (h _) in
        rw (ne→== t null nn, there, rw there at no_leaf) below
    | inr absent ↦ rw (ne→== t null nn, absent) (refl, refl)
  ]

  block-Sees :
      (t : Ptr) (i j : ℕ) (js : List ℕ) (huge missing : WalkStatus)
      (k : Ptr → Paging → Walk × Paging)
      → length (j ∷ js) < 3
      → t ≢ null
      → ((u : Ptr) → u ≢ null → Sees u (j ∷ js) (k u s))
      → Sees t (i ∷ j ∷ js) (walk_block s t i false huge missing (level_of (length (j ∷ js))) k)
  unfolding walk_block view translate_found
  block-Sees t i j js huge missing k deep nn h =
      elim (Bool-cases (is_present (s.tables t i) && is_huge (s.tables t i))) [
        | inl leaf ↦ rw leaf (refl, ground arith)
        | inr no_leaf ↦ rw no_leaf (elim (Bool-cases (is_present (s.tables t i))) [
          | inl there ↦
              let below = ensure-Sees t i j js missing k nn (ground arith) h in
              rw there (rw there at below)
          | inr absent ↦ rw (absent, ne→== t null nn) (refl, refl)
        ])
      ]

  -- The walk that may not create tables changes nothing, and finds the entry of the view.
  pub walk-Sees : (t : Ptr) → Sees t (indices v) (page_walk_internal s t v false)
  unfolding page_walk_internal translate_found
  walk-Sees t = elim (Bool-cases (t == null)) [
    | inl z ↦ rw z (refl, rw (==→eq t null z, view-null s.tables s.hhdm_offset (indices v)) refl)
    | inr nz ↦ rw nz (
        ensure-Sees t (pml4_index v) (pdpt_index v) (pd_index v ∷ pt_index v ∷ []) missing_pml4 _
          (==→ne t null nz) (ground arith)
          λ pdpt some_pdpt.
            block-Sees pdpt (pdpt_index v) (pd_index v) (pt_index v ∷ []) huge_pdpt missing_pdpt _
              (omega arith) some_pdpt
              λ pd some_pd.
                block-Sees pd (pd_index v) (pt_index v) [] huge_pd missing_pd _ (omega arith)
                  some_pd λ pt some_pt. walk_page-Sees pt (pt_index v) some_pt)
  ]

-- `page_table_translate` is the entry of the view, with the offset in its page; an address that is
-- not mapped gives 0.
pub page_table_translate-view :
    (s : Paging) (v : ℕ)
    → page_table_translate s v
      ≡ translated v (view s.tables s.hhdm_offset (active_root s) (indices v))
unfolding page_table_translate
page_table_translate-view s v = (walk-Sees s v (active_root s)).1
