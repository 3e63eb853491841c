-- ===== src/Mm/Pmm/Search.antt =====
-- The loops of pmm.c that look for a free page: where they stop.
use zenith_os.Prelude.{
  ℕ, zero, suc, ◌+◌, ◌-◌, ◌≤◌, ◌<◌, ◌≡◌, sym, ◌∙◌, ap, inl, inr, ◌⊎◌, ◌==◌, ltb, ==→eq, ==→ne, true,
  false, ◌&&◌, Bool-cases, Option, none, some, arith,
}
use zenith_os.Mm.Bitmap
use zenith_os.Mm.Bitmap.{Bitmap}
use zenith_os.Mm.Pmm.{seek, scan}

-- Every page from `lo` up to `hi` is in use.
abbrev pub AllSet : Bitmap → ℕ → ℕ → Type 0
AllSet m lo hi = (j : ℕ) → lo ≤ j → j < hi → Bitmap.test m j ≡ true

AllSet-step :
    (m : Bitmap) (lo hi : ℕ) → Bitmap.test m lo ≡ true → AllSet m (lo + 1) hi → AllSet m lo hi
AllSet-step m lo hi e rest j h k = elim (Bool-cases (lo == j)) [
  | inl eq ↦ ap (Bitmap.test m) (sym (==→eq lo j eq)) ∙ e
  | inr ne ↦ rest j (omega (arith, ==→ne lo j ne)) k
]

-- Where `pmm_seek_next_free_page` stops.
pub record Stops (m : Bitmap) (total page r : ℕ) : Type 0 where
  pub from : page ≤ r
  pub upto : r ≤ total
  pub passed : AllSet m page r
  pub at_free : (r ≡ total) ⊎ (Bitmap.test m r ≡ false)

-- With a round for each page that is left, the loop stops by its test.
pub seek-Stops :
    (rounds : ℕ) (m : Bitmap) (total page : ℕ)
    → page ≤ total
    → total - page ≤ rounds
    → Stops m total page (seek rounds m total page)
unfolding seek
seek-Stops zero m total page h k = record {
  from = omega arith;
  upto = omega arith;
  passed = λ j a b. absurd (omega arith);
  at_free = inl (omega arith);
}
seek-Stops (suc rounds) m total page h k =
    elim (Bool-cases (ltb page total && Bitmap.test m page)) [
      | inl go ↦ rw go (
          let rest = seek-Stops rounds m total (page + 1) (ground arith) (omega arith) in
          let set : Bitmap.test m page ≡ true = ground arith in
          record {
            from = omega (arith, rest.from);
            upto = rest.upto;
            passed = AllSet-step m page _ set rest.passed;
            at_free = rest.at_free;
          })
      | inr stop ↦ rw stop (record {
        from = omega arith;
        upto = h;
        passed = λ j a b. absurd (omega arith);
        at_free = ground arith;
      })
    ]

-- What a pass of the search returns: the first free page of its range, or none if there is none.
abbrev pub Finds : Bitmap → ℕ → ℕ → Option ℕ → Type 0
Finds m lo hi none = AllSet m lo hi
Finds m lo hi (some p) = (lo ≤ p) × (p < hi) × (Bitmap.test m p ≡ false) × AllSet m lo p

Finds-step :
    (m : Bitmap) (page hi : ℕ) (r : Option ℕ)
    → Bitmap.test m page ≡ true
    → Finds m (page + 1) hi r
    → Finds m page hi r
Finds-step m page hi none e h = AllSet-step m page hi e h
Finds-step m page hi (some p) e (a, b, c, d) = (omega arith, b, c, AllSet-step m page p e d)

pub scan-Finds :
    (rounds : ℕ) (m : Bitmap) (page hi : ℕ)
    → page + rounds ≡ hi
    → Finds m page hi (scan rounds m page)
unfolding scan
scan-Finds zero m page hi e = λ j a b. absurd (omega arith)
scan-Finds (suc rounds) m page hi e = elim (Bool-cases (Bitmap.test m page)) [
  | inl busy ↦
      rw busy (Finds-step m page hi _ busy (scan-Finds rounds m (page + 1) hi (omega arith)))
  | inr clear ↦ rw clear (omega arith, omega arith, clear, λ j a b. absurd (omega arith))
]
