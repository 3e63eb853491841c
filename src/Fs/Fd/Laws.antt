-- ===== src/Fs/Fd/Laws.antt =====
-- What the functions of fd.c promise to each other.
use zenith_os.Prelude.{
  ℕ, zero, suc, ◌+◌, ◌<◌, ◌≡◌, refl, sym, ap, subst, ◌≢◌, inl, inr, Option, none, some, [], ◌∷◌,
  arith, ◌==◌, if◌then◌else◌, ne→==, ==→eq, ==→ne, lt→leb, Bool-cases, length, get_or, set,
  get_or-set_self, get_or-set_ne,
}
use zenith_os.Prelude.Int.{pos}
use zenith_os.KernelErr.{Result, ok, err, success, enomem}
use zenith_os.Fs.Fd.{FilePtr, Files, fd_max, fd_get, allocate_from, fd_allocate, fd_close}

-- Every slot below `n` is taken.
abbrev pub TakenBelow : Files → ℕ → Type 0
TakenBelow files n = (i : ℕ) → i < n → get_or files i 0 ≢ 0

-- What the loop returns: the first free slot, filled, or none if every slot is taken.
abbrev Allocates : ℕ → Files → FilePtr → Option (ℕ × Files) → Type 0
Allocates fd files file none = TakenBelow files (length files)
Allocates fd files file (some (n, files')) =
    (i : ℕ) × (n ≡ fd + i)
    × (i < length files)
    × (get_or files i 0 ≡ 0)
    × TakenBelow files i
    × (files' ≡ set files i file)

TakenBelow-cons :
    (f : FilePtr) (fs : Files) (n : ℕ) → f ≢ 0 → TakenBelow fs n → TakenBelow (f ∷ fs) (suc n)
TakenBelow-cons f fs n ne h zero k = ne
TakenBelow-cons f fs n ne h (suc i) k = h i (omega arith)

-- What the loop returns for a taken slot and the slots behind it.
keep_slot : FilePtr → Option (ℕ × Files) → Option (ℕ × Files)
keep_slot f o = elim o [ none ↦ none | some (n, fs') ↦ some (n, f ∷ fs') ]

keep_slot-Allocates :
    (fd : ℕ) (f : FilePtr) (fs : Files) (file : FilePtr) (o : Option (ℕ × Files))
    → f ≢ 0
    → Allocates (suc fd) fs file o
    → Allocates fd (f ∷ fs) file (keep_slot f o)
unfolding keep_slot
keep_slot-Allocates fd f fs file none ne h = TakenBelow-cons f fs (length fs) ne h
keep_slot-Allocates fd f fs file (some (n, fs')) ne (i, e, k, z, t, s) =
    (suc i, omega arith, omega arith, z, TakenBelow-cons f fs i ne t, ap (λ r. f ∷ r) s)

allocate_from-Allocates :
    (fd : ℕ) (files : Files) (file : FilePtr)
    → Allocates fd files file (allocate_from fd files file)
unfolding allocate_from keep_slot
allocate_from-Allocates fd [] file = λ i k. absurd (omega arith)
allocate_from-Allocates fd (f ∷ fs) file = elim (Bool-cases (f == 0)) [
  | inl free ↦
      rw free (0, omega arith, omega arith, ==→eq f 0 free, (λ i k. absurd (omega arith)), refl)
  | inr busy ↦ rw busy (
      keep_slot-Allocates fd f fs file (allocate_from (suc fd) fs file) (==→ne f 0 busy)
        (allocate_from-Allocates (suc fd) fs file))
]

-- The two outcomes of `fd_allocate` for a table of FD_MAX slots: the lowest free slot is filled
-- and its number returned, or every slot is taken and nothing changes.
pub data Outcome (files : Files) (file : FilePtr) : Result ℕ × Option Files → Type 0 where
  allocated :
      (fd : ℕ)
      → fd < fd_max
      → get_or files fd 0 ≡ 0
      → TakenBelow files fd
      → Outcome files file (ok fd, some (set files fd file))
  full : TakenBelow files fd_max → Outcome files file (err enomem, some files)

outcome :
    (files : Files) (file : FilePtr) (o : Option (ℕ × Files))
    → length files ≡ fd_max
    → Allocates 0 files file o
    → Outcome files file
        (elim o [ none ↦ (err enomem, some files) | some (fd, files') ↦ (ok fd, some files') ])
outcome files file none size h = full (subst (TakenBelow files) size h)
outcome files file (some (n, fs)) size (i, e, k, z, t, s) =
    let same : n ≡ i = omega arith in rw (s, same) (allocated i (omega arith) z t)

-- `fd_allocate` of a file on a table of FD_MAX slots fills the lowest free slot and returns its
-- number, or, where every slot is taken, returns KERNEL_ENOMEM and changes nothing.
pub fd_allocate-Outcome :
    (files : Files) (file : FilePtr)
    → length files ≡ fd_max
    → file ≢ 0
    → Outcome files file (fd_allocate (some files) file)
unfolding fd_allocate
fd_allocate-Outcome files file size ne =
    rw (ne→== file 0 ne)
      (outcome files file (allocate_from 0 files file) size (allocate_from-Allocates 0 files file))

module _ (files : Files) (file : FilePtr) (size : length files ≡ fd_max) (ne : file ≢ 0) where
  -- The slot that was filled, and every other slot as before; closing the descriptor gives the old
  -- table back.
  abbrev pub Reads : Result ℕ × Option Files → Type 0
  Reads (err e, t) = t ≡ some files
  Reads (ok fd, t) =
      ((g : ℕ) → fd_get t (pos g) ≡ (if g == fd then file else fd_get (some files) (pos g)))
      × (fd_close t (pos fd) ≡ (success, some files))

  set_back : (fs : Files) (i : ℕ) → get_or fs i 0 ≡ 0 → set (set fs i file) i 0 ≡ fs
  set_back [] i z = refl
  set_back (f ∷ fs) zero z = ap (λ y. y ∷ fs) (sym z)
  set_back (f ∷ fs) (suc i) z = ap (λ r. f ∷ r) (set_back fs i z)

  Outcome-Reads : {r : Result ℕ × Option Files} → Outcome files file r → Reads r
  unfolding fd_get fd_close
  Outcome-Reads (full t) = refl
  Outcome-Reads (allocated fd k z t) = (
    λ g. elim (Bool-cases (g == fd)) [
      | inl e ↦ ground (
        arith,
        ap (λ i. get_or (set files fd file) i 0) (==→eq g fd e),
        get_or-set_self files fd file 0,
      )
      | inr n ↦ ground (arith, get_or-set_ne files fd g file 0)
    ],
    rw (lt→leb fd_max fd k, get_or-set_self files fd file 0 (omega arith), ne→== file 0 ne)
        (ap (λ (fs : Files). (success, some fs)) (set_back files fd z)),
  )

  -- After `fd_allocate` of a file on a table of FD_MAX slots the descriptor that it returns reads as the file and the others as before,
  -- and `fd_close` of it gives the old table back; where it fails the table is unchanged.
  pub fd_allocate-get : Reads (fd_allocate (some files) file)
  fd_allocate-get = Outcome-Reads (fd_allocate-Outcome files file size ne)
