-- ===== src/Mm/Pmm/Alloc.antt =====
-- `pmm_alloc_page` and `pmm_free_page` of pmm.c.
use zenith_os.Prelude.{
  ℕ, ◌+◌, ◌-◌, ◌*◌, ◌/◌, ◌≤◌, ◌<◌, ◌≡◌, ◌≢◌, refl, sym, ◌∙◌, ap, inl, inr, ◌⊎◌, ◌==◌, ltb, leb,
  if◌then◌else◌, ne→==, ==→eq, eq→==, ==→ne, true, false, ◌||◌, Bool-cases, Option-cases, Option,
  none, some, some_inj, arith,
}
use zenith_os.Mm.Pmm.{
  Pmm, page_size, mark_page_used, mark_page_free, address_to_page, unlock_page, free_page,
  seek_next_free_page, scan, take_page, alloc_page,
}
use zenith_os.Mm.Pmm.Count.{count_false_zero}
use zenith_os.Mm.Pmm.Valid.{
  in_use, IsValid, in_use-mark_page_used, mark_page_used-IsValid, in_use-mark_page_free,
  mark_page_free-IsValid, total_pages-mark_page_used,
}
use zenith_os.Mm.Pmm.Search.{AllSet, seek-Stops, Finds, scan-Finds}

-- `p` is the first free page from `next_free_page` on, going round at the last page.
abbrev pub NextFree : Pmm → ℕ → Type 0
NextFree s p =
    ((s.next_free_page ≤ p) × AllSet s.map s.next_free_page p)
    ⊎ ((p < s.next_free_page) × AllSet s.map s.next_free_page s.total_pages × AllSet s.map 0 p)

-- What a successful call of `pmm_alloc_page` does: it returns the address of page `p`.
pub record Allocated (s : Pmm) (p : ℕ) (r : Option ℕ × Pmm) : Type 0 where
  pub address : r.0 ≡ some (p * page_size)
  pub was_free : in_use s p ≡ false
  pub in_range : p < s.total_pages
  pub not_null : p ≢ 0
  pub in_use_after : (j : ℕ) → in_use r.1 j ≡ (p == j || in_use s j)
  pub one_less : r.1.free_pages + 1 ≡ s.free_pages
  pub same_total : r.1.total_pages ≡ s.total_pages
  pub valid : IsValid r.1

module _ (s : Pmm) (v : IsValid s) where
  pub seek_next_free_page-IsValid : IsValid (seek_next_free_page s)
  unfolding seek_next_free_page
  seek_next_free_page-IsValid =
      let stop =
        seek-Stops (s.total_pages - s.next_free_page) s.map s.total_pages s.next_free_page v.next_in
          (omega arith) in
      record {
        map_valid = v.map_valid;
        bits = v.bits;
        fits = v.fits;
        counted = v.counted;
        used = v.used;
        next_in = stop.upto;
        zero_used = v.zero_used;
      }

  -- `next_free_page` plays no part in the rest of the invariant.
  move_next-IsValid : (n : ℕ) → n ≤ s.total_pages → IsValid (record s { next_free_page = n })
  move_next-IsValid n h = record {
    map_valid = v.map_valid;
    bits = v.bits;
    fits = v.fits;
    counted = v.counted;
    used = v.used;
    next_in = h;
    zero_used = v.zero_used;
  }

free_pages-mark_page_used :
    (s : Pmm) (p : ℕ)
    → 0 < s.free_pages
    → p < s.total_pages
    → in_use s p ≡ false
    → (mark_page_used s p).free_pages + 1 ≡ s.free_pages
unfolding mark_page_used
free_pages-mark_page_used s p h k e = ground arith

module _ (s : Pmm) (v : IsValid s) (p : ℕ) (some_free : 0 < s.free_pages) (h : p < s.total_pages)
    (clear : in_use s p ≡ false) where
  take_page-Allocated : Allocated s p (take_page s p)
  unfolding take_page seek_next_free_page
  take_page-Allocated =
      let s1 = mark_page_used s p in
      let v1 : IsValid s1 = mark_page_used-IsValid s p v in
      let next : ℕ = if leb s1.total_pages (p + 1) then 0 else p + 1 in
      let v2 : IsValid (record s1 { next_free_page = next }) =
        move_next-IsValid s1 v1 next (ground arith) in
      record {
        address = refl;
        was_free = clear;
        in_range = h;
        not_null = λ e. cc (ap (in_use s) e, v.zero_used);
        in_use_after = in_use-mark_page_used s p v;
        one_less = free_pages-mark_page_used s p some_free h clear;
        same_total = total_pages-mark_page_used s p v;
        valid = seek_next_free_page-IsValid (record s1 { next_free_page = next }) v2;
      }

-- With no free page `pmm_alloc_page` returns NULL and changes nothing.
pub alloc_page-none : (s : Pmm) → s.free_pages ≡ 0 → alloc_page s ≡ (none, s)
unfolding alloc_page
alloc_page-none s h = rw (eq→== s.free_pages 0 h)

module _ (s : Pmm) (v : IsValid s) where
  abbrev Result : Option ℕ × Pmm → Type 0
  Result r = (p : ℕ) × Allocated s p r × NextFree s p

  abbrev second_pass : Option ℕ → Option ℕ × Pmm
  second_pass o = elim o [ some page ↦ take_page s page | none ↦ (none, s) ]

  second_pass-Result :
      (o : Option ℕ)
      → 0 < s.free_pages
      → AllSet s.map s.next_free_page s.total_pages
      → Finds s.map 0 s.next_free_page o
      → Result (second_pass o)
  second_pass-Result none h upper lower =
      let all : AllSet s.map 0 s.total_pages = λ j a b. elim (Bool-cases (ltb j s.next_free_page)) [
        | inl lt ↦ lower j a (ground arith)
        | inr ge ↦ upper j (ground arith) b
      ] in
      absurd (
        omega (
          arith,
          v.counted,
          count_false_zero (in_use s) s.total_pages (λ j b. all j (omega arith) b),
        ))
  second_pass-Result (some p) h upper (a, b, c, d) =
      (p, take_page-Allocated s v p h (omega (arith, v.next_in)) c, inr (b, upper, d))

  first_pass-Result :
      (p : ℕ)
      → 0 < s.free_pages
      → Finds s.map s.next_free_page s.total_pages (some p)
      → Result (take_page s p)
  first_pass-Result p h (a, b, c, d) = (p, take_page-Allocated s v p h b c, inl (a, d))

  -- In a valid state `pmm_alloc_page` succeeds whenever a page is free: it returns the address of the first free
  -- page from `next_free_page` on, going round, which is not NULL, and puts that page alone in use.
  pub alloc_page-some : 0 < s.free_pages → (p : ℕ) × Allocated s p (alloc_page s) × NextFree s p
  unfolding alloc_page
  alloc_page-some h =
      let upper =
        scan-Finds (s.total_pages - s.next_free_page) s.map s.next_free_page s.total_pages
          (omega (arith, v.next_in)) in
      let lower = scan-Finds s.next_free_page s.map 0 s.next_free_page (omega arith) in
      rw (ne→== s.free_pages 0 (omega arith))
        (elim (Option-cases (scan (s.total_pages - s.next_free_page) s.map s.next_free_page)) [
          | inl e ↦ rw e (second_pass-Result _ h (rw e at upper) lower)
          | inr (p, e) ↦ rw e (first_pass-Result p h (rw e at upper))
        ])

  pub alloc_page-IsValid : IsValid (alloc_page s).1
  alloc_page-IsValid = elim (Bool-cases (s.free_pages == 0)) [
    | inl none_left ↦ rw (alloc_page-none s (==→eq _ _ none_left)) v
    | inr some_left ↦ (alloc_page-some (omega (arith, ==→ne _ _ some_left))).1.valid
  ]

  -- A call that returns an address is a successful one.
  alloc_page-inv :
      (a : ℕ)
      → (alloc_page s).0 ≡ some a
      → (p : ℕ) × Allocated s p (alloc_page s) × (a ≡ p * page_size)
  alloc_page-inv a got = elim (Bool-cases (s.free_pages == 0)) [
    | inl none_left ↦
        absurd
          (cc (got, ap (λ (r : Option ℕ × Pmm). r.0) (alloc_page-none s (==→eq _ _ none_left))))
    | inr some_left ↦
        let (p, done, _) = alloc_page-some (omega (arith, ==→ne _ _ some_left)) in
        (p, done, some_inj (sym got ∙ done.address))
  ]

free_pages-mark_page_free :
    (s : Pmm) (p : ℕ)
    → IsValid s
    → p ≢ 0
    → p < s.total_pages
    → in_use s p ≡ true
    → (mark_page_free s p).free_pages ≡ s.free_pages + 1
unfolding mark_page_free
free_pages-mark_page_free s p v ne h e = ground arith

module _ (s : Pmm) (p : ℕ) (r : Option ℕ × Pmm) (done : Allocated s p r) where
  pub mark_page_free-Allocated :
      let s' = mark_page_free r.1 p in
      IsValid s' × (s'.free_pages ≡ s.free_pages) × ((j : ℕ) → in_use s' j ≡ in_use s j)
  mark_page_free-Allocated = (
    mark_page_free-IsValid r.1 p done.valid,
    omega (
      arith,
      free_pages-mark_page_free r.1 p done.valid done.not_null
          (omega (arith, done.same_total, done.in_range)) (rw (done.in_use_after p) (ground arith)),
      done.one_less,
    ),
    λ j. elim (Bool-cases (p == j)) [
      | inl e ↦ ground (
        arith,
        done.in_use_after j,
        in_use-mark_page_free r.1 p done.valid j,
        ap (in_use s) (==→eq p j e),
        done.was_free,
        done.in_range,
        done.same_total,
        done.not_null,
      )
      | inr ne ↦ ground (arith, done.in_use_after j, in_use-mark_page_free r.1 p done.valid j)
    ],
  )

-- Giving back the page that `pmm_alloc_page` has just returned in a valid state keeps the invariant
-- and restores which pages are in use and the number of free pages.
pub free_page-alloc_page :
    (s : Pmm) {address : ℕ}
    → IsValid s
    → (alloc_page s).0 ≡ some address
    → let s' = free_page (alloc_page s).1 address in
      IsValid s' × (s'.free_pages ≡ s.free_pages) × ((j : ℕ) → in_use s' j ≡ in_use s j)
unfolding free_page unlock_page address_to_page
free_page-alloc_page s {address} v got =
    let (p, done, e) = alloc_page-inv s v address got in
    let page : address / page_size ≡ p = omega arith in
    rw page (mark_page_free-Allocated s p (alloc_page s) done)

-- Two successful calls in a row, from a valid state, return different addresses.
pub alloc_page_twice :
    (s : Pmm) {a b : ℕ}
    → IsValid s
    → (alloc_page s).0 ≡ some a
    → (alloc_page (alloc_page s).1).0 ≡ some b
    → a ≢ b
alloc_page_twice s {a} {b} v ha hb same =
    let (p, first, ea) = alloc_page-inv s v a ha in
    let (q, second, eb) = alloc_page-inv (alloc_page s).1 first.valid b hb in
    let e : p ≡ q = omega arith in
    cc (first.in_use_after q, second.was_free, ap (λ b. b || in_use s q) (eq→== p q e))
