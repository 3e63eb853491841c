-- ===== src/Vmm/Vma/Tests.antt =====
-- The theorems on vma.c at a table of two areas.
use zenith_os.Prelude.{
  ℕ, ◌+◌, ◌&&◌, ◌<◌, ◌↔◌, ltb, leb, if◌then◌else◌, some, length, ◌-◌, ◌^◌, ◌≡◌, refl, true, [], ◌∷◌,
  arith,
}
use zenith_os.Vmm.Vma.{
  vma, max_count, end_of, Table, create, find, resize, overlaps_any, find_start, overlaps_other,
}
use zenith_os.Vmm.Vma.Disjoint.{IsValid}
use zenith_os.Vmm.Vma.Find.{Clear, find-create}

abbrev two_areas : Table
two_areas = vma 4096 8192 1 ∷ vma 16384 20480 3 ∷ []

two_areas-IsValid : IsValid two_areas
two_areas-IsValid = record { disjoint = ((λ a h. ground arith, tt), (tt, tt)); small = omega arith }

created : (create two_areas 8192 4096 1).0 ≡ true
unfolding create overlaps_any
created = refl

-- The range from the last page on, of two pages: it is accepted, and found nowhere.
find-create_example :
    (((create two_areas (2 ^ 64 - 4096) 8192 1).0 ≡ true) ↔ (
      (length two_areas < max_count)
      × Clear (2 ^ 64 - 4096) (end_of (2 ^ 64 - 4096) 8192) two_areas))
    × ((a : ℕ)
        → find (create two_areas (2 ^ 64 - 4096) 8192 1).1 a ≡ (
            if (create two_areas (2 ^ 64 - 4096) 8192 1).0
              && ltb (2 ^ 64 - 4096 + 8192) (2 ^ 64)
              && leb (2 ^ 64 - 4096) a
              && ltb a (2 ^ 64 - 4096 + 8192)
            then some 2
            else find two_areas a))
find-create_example = find-create two_areas (2 ^ 64 - 4096) 8192 1 (omega arith) (omega arith)

wrapped_accepted : (create two_areas (2 ^ 64 - 4096) 8192 1).0 ≡ true
unfolding create overlaps_any
wrapped_accepted = refl

resized : (resize two_areas 4096 8192).0 ≡ true
unfolding resize find_start overlaps_other
resized = refl
