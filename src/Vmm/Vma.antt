-- ===== src/Vmm/Vma.antt =====
-- kernel/src/vmm/vma/vma.c: the table of virtual memory areas. The table is the list of the entries
-- below `vma_count`: the code reads no slot from there on. A pointer into the table is an index.
pub mod Disjoint
pub mod Find
pub mod Resize
mod Tests
use zenith_os.Prelude.{
  ℕ, zero, suc, ◌+◌, ◌-◌, ◌%◌, ◌^◌, ◌==◌, ltb, leb, if◌then◌else◌, Bool, true, false, not, ◌&&◌,
  ◌||◌, Option, none, some, List, [], ◌∷◌, ◌++◌, length, set,
}

-- `vma_t`
pub record Vma : Type 0 where
  pub start : ℕ
  pub end : ℕ
  pub flags : ℕ

abbrev pub vma : ℕ → ℕ → ℕ → Vma
vma start end flags = record { start = start; end = end; flags = flags }

abbrev pub Table : Type 0
Table = List Vma

abbrev pub max_count : ℕ
max_count = 32

-- `start + size` of two `uint64_t`
abbrev pub end_of : ℕ → ℕ → ℕ
end_of start size = (start + size) % 2 ^ 64

unfoldable pub init : Table
init = []

-- The test by which `vma_create` and `vma_resize` refuse a range.
abbrev pub overlaps : ℕ → ℕ → Vma → Bool
overlaps start end v = ltb start v.end && ltb v.start end

unfoldable pub overlaps_any : ℕ → ℕ → Table → Bool
overlaps_any start end [] = false
overlaps_any start end (v ∷ vs) = overlaps start end v || overlaps_any start end vs

unfoldable pub create : Table → ℕ → ℕ → ℕ → Bool × Table
create t start size flags =
    if leb max_count (length t)
    then (false, t)
    else if overlaps_any start (end_of start size) t
    then (false, t)
    else (true, t ++ (vma start (end_of start size) flags ∷ []))

abbrev pub contains : ℕ → Vma → Bool
contains a v = leb v.start a && ltb a v.end

-- The index of the first entry that contains the address, counted from `i`.
unfoldable pub find_from : ℕ → Table → ℕ → Option ℕ
find_from i [] a = none
find_from i (v ∷ vs) a = if contains a v then some i else find_from (suc i) vs a

unfoldable pub find : Table → ℕ → Option ℕ
unfolding find_from
find t a = find_from 0 t a

-- `vma_destroy` moves the entries behind the first one that starts at `start` up by one.
unfoldable pub destroy : Table → ℕ → Bool × Table
destroy [] start = (false, [])
destroy (v ∷ vs) start =
    let (done, rest) = destroy vs start in if v.start == start then (true, vs) else (done, v ∷ rest)

-- The first loop of `vma_resize`: the first entry that starts at `start`, counted from `i`.
unfoldable pub find_start : ℕ → Table → ℕ → Option (ℕ × Vma)
find_start i [] start = none
find_start i (v ∷ vs) start = if v.start == start then some (i, v) else find_start (suc i) vs start

-- The second loop: a range against every entry but that at `skip`.
unfoldable pub overlaps_other : ℕ → ℕ → ℕ → ℕ → Table → Bool
overlaps_other skip i start end [] = false
overlaps_other skip i start end (v ∷ vs) =
    (not (i == skip) && overlaps start end v) || overlaps_other skip (suc i) start end vs

unfoldable pub resize : Table → ℕ → ℕ → Bool × Table
resize t start new_size = elim (find_start 0 t start) [
  | none ↦ (false, t)
  | some (i, v) ↦
      if overlaps_other i 0 start (end_of start new_size) t
      then (false, t)
      else (true, set t i (record v { end = end_of start new_size }))
]
