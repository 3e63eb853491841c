-- ===== src/Mm/Pmm/Range.antt =====
-- The loops of pmm.c that mark a range of pages, and the calls that make them.
use zenith_os.Prelude.{
  ℕ, zero, suc, ◌+◌, ◌/◌, ◌≡◌, refl, ◌∙◌, ◌==◌, ltb, leb, if◌then◌else◌, Bool, false, not, ◌&&◌,
  ◌||◌, arith,
}
use zenith_os.Mm.Bitmap.Laws.{test_out}
use zenith_os.Mm.Pmm.{
  Pmm, page_size, mark_page_used, mark_page_free, mark_used_from, mark_free_from, region_page_count,
  clamp_page_count, reserve_region, unreserve_region, address_to_page, lock_pages, unlock_pages,
}
use zenith_os.Mm.Pmm.Valid.{
  in_use, IsValid, in_use-mark_page_used, mark_page_used-IsValid, in_use-mark_page_free,
  mark_page_free-IsValid, total_pages-mark_page_used, total_pages-mark_page_free,
}

-- `j` is one of the `count` pages from `page` on.
abbrev pub within : ℕ → ℕ → ℕ → Bool
within count page j = leb page j && ltb j (page + count)

pub mark_used_from-IsValid :
    (count page : ℕ) (s : Pmm) → IsValid s → IsValid (mark_used_from count page s)
unfolding mark_used_from
mark_used_from-IsValid zero page s v = v
mark_used_from-IsValid (suc count) page s v =
    mark_used_from-IsValid count (page + 1) (mark_page_used s page)
      (mark_page_used-IsValid s page v)

-- A range that is marked used is in use, and no other page changes.
pub in_use-mark_used_from :
    (count page : ℕ) (s : Pmm) (j : ℕ)
    → IsValid s
    → in_use (mark_used_from count page s) j ≡ (within count page j || in_use s j)
unfolding mark_used_from
in_use-mark_used_from zero page s j v = ground arith
in_use-mark_used_from (suc count) page s j v = ground (
  arith,
  in_use-mark_used_from count (page + 1) (mark_page_used s page) j
      (mark_page_used-IsValid s page v),
  in_use-mark_page_used s page v j,
)

pub total_pages-mark_used_from :
    (count page : ℕ) (s : Pmm)
    → IsValid s
    → (mark_used_from count page s).total_pages ≡ s.total_pages
unfolding mark_used_from
total_pages-mark_used_from zero page s v = refl
total_pages-mark_used_from (suc count) page s v =
    total_pages-mark_used_from count (page + 1) (mark_page_used s page)
      (mark_page_used-IsValid s page v)
    ∙ total_pages-mark_page_used s page v

pub mark_free_from-IsValid :
    (count page : ℕ) (s : Pmm) → IsValid s → IsValid (mark_free_from count page s)
unfolding mark_free_from
mark_free_from-IsValid zero page s v = v
mark_free_from-IsValid (suc count) page s v =
    mark_free_from-IsValid count (page + 1) (mark_page_free s page)
      (mark_page_free-IsValid s page v)

pub total_pages-mark_free_from :
    (count page : ℕ) (s : Pmm)
    → IsValid s
    → (mark_free_from count page s).total_pages ≡ s.total_pages
unfolding mark_free_from
total_pages-mark_free_from zero page s v = refl
total_pages-mark_free_from (suc count) page s v =
    total_pages-mark_free_from count (page + 1) (mark_page_free s page)
      (mark_page_free-IsValid s page v)
    ∙ total_pages-mark_page_free s page v

-- A range that is marked free is free but for page 0, and no other page changes.
pub in_use-mark_free_from :
    (count page : ℕ) (s : Pmm) (j : ℕ)
    → IsValid s
    → in_use (mark_free_from count page s) j
      ≡ (if within count page j && not (j == 0) && ltb j s.total_pages then false else in_use s j)
unfolding mark_free_from
in_use-mark_free_from zero page s j v = ground arith
in_use-mark_free_from (suc count) page s j v = ground (
  arith,
  in_use-mark_free_from count (page + 1) (mark_page_free s page) j
      (mark_page_free-IsValid s page v),
  in_use-mark_page_free s page v j,
  total_pages-mark_page_free s page v,
)

-- The pages that a region of `length` bytes from `base` on covers, page 0 and up, as the code
-- counts them: from the page of `base`, as many as `length` bytes need.
abbrev pub covered : ℕ → ℕ → ℕ → Bool
covered base length j = within (region_page_count length) (base / page_size) j

module _ (s : Pmm) (v : IsValid s) where
  -- `pmm_reserve_region` keeps the invariant and puts the pages that the region covers in use; no
  -- other page changes.
  pub reserve_region_lem :
      (base length : ℕ)
      → IsValid (reserve_region s base length)
        × ((j : ℕ)
            → in_use (reserve_region s base length) j ≡ (covered base length j || in_use s j))
  unfolding reserve_region clamp_page_count
  reserve_region_lem base length = (
    mark_used_from-IsValid (clamp_page_count s (base / page_size) (region_page_count length))
        (base / page_size) s v,
    λ j. ground (
      arith,
      v.bits,
      test_out s.map j,
      in_use-mark_used_from (clamp_page_count s (base / page_size) (region_page_count length))
          (base / page_size) s j v,
    ),
  )

  -- `pmm_unreserve_region` keeps the invariant and frees the pages of the map that the region covers,
  -- but for page 0; no other page changes.
  pub unreserve_region_lem :
      (base length : ℕ)
      → IsValid (unreserve_region s base length)
        × ((j : ℕ)
            → in_use (unreserve_region s base length) j ≡ (
                if covered base length j && not (j == 0) && ltb j s.total_pages
                then false
                else in_use s j))
  unfolding unreserve_region clamp_page_count
  unreserve_region_lem base length = (
    mark_free_from-IsValid (clamp_page_count s (base / page_size) (region_page_count length))
        (base / page_size) s v,
    λ j. ground (
      arith,
      v.bits,
      test_out s.map j,
      in_use-mark_free_from (clamp_page_count s (base / page_size) (region_page_count length))
          (base / page_size) s j v,
    ),
  )

  -- `pmm_lock_pages` keeps the invariant and puts the `count` pages from the address on in use; no
  -- other page changes.
  pub lock_pages_lem :
      (address count : ℕ)
      → IsValid (lock_pages s address count)
        × ((j : ℕ)
            → in_use (lock_pages s address count) j
              ≡ (within count (address / page_size) j || in_use s j))
  unfolding lock_pages clamp_page_count address_to_page
  lock_pages_lem address count = (
    mark_used_from-IsValid (clamp_page_count s (address / page_size) count) (address / page_size) s
        v,
    λ j. ground (
      arith,
      v.bits,
      test_out s.map j,
      in_use-mark_used_from (clamp_page_count s (address / page_size) count) (address / page_size) s
          j v,
    ),
  )

  -- `pmm_unlock_pages` keeps the invariant and frees the `count` pages from the address on that are in
  -- the map, but for page 0; no other page changes.
  pub unlock_pages_lem :
      (address count : ℕ)
      → IsValid (unlock_pages s address count)
        × ((j : ℕ)
            → in_use (unlock_pages s address count) j ≡ (
                if within count (address / page_size) j && not (j == 0) && ltb j s.total_pages
                then false
                else in_use s j))
  unfolding unlock_pages clamp_page_count address_to_page
  unlock_pages_lem address count = (
    mark_free_from-IsValid (clamp_page_count s (address / page_size) count) (address / page_size) s
        v,
    λ j. ground (
      arith,
      v.bits,
      test_out s.map j,
      in_use-mark_free_from (clamp_page_count s (address / page_size) count) (address / page_size) s
          j v,
    ),
  )
