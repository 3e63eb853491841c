-- ===== src/Fs/Fd.antt =====
-- kernel/src/fs/fd.c: the descriptor table of a process. A file is a pointer, NULL is 0, and a
-- table pointer is `none` where it is NULL. The table is the list of its FD_MAX pointers.
pub mod Laws
mod Tests
use zenith_os.Prelude.{
  ℕ, zero, suc, ◌==◌, ltb, leb, if◌then◌else◌, ◌||◌, Bool, Option, none, some, List, [], ◌∷◌,
  get_or, set, replicate,
}
use zenith_os.Prelude.Int.{ℤ, pos, negsuc}
use zenith_os.KernelErr.{Result, ok, err, Status, success, einval, enomem}

abbrev pub FilePtr : Type 0
FilePtr = ℕ

abbrev pub Files : Type 0
Files = List FilePtr

abbrev pub fd_max : ℕ
fd_max = 64

-- `k_memset(table, 0, sizeof(fd_table_t))`
unfoldable pub fd_init : Option Files → Option Files
fd_init none = none
fd_init (some files) = some (replicate fd_max 0)

unfoldable pub fd_get : Option Files → ℤ → FilePtr
fd_get none fd = 0
fd_get (some files) (negsuc n) = 0
fd_get (some files) (pos fd) = if leb fd_max fd then 0 else get_or files fd 0

-- The loop of `fd_allocate` over the slots from `fd` on.
unfoldable pub allocate_from : ℕ → Files → FilePtr → Option (ℕ × Files)
allocate_from fd [] file = none
allocate_from fd (f ∷ fs) file =
    if f == 0
    then some (fd, file ∷ fs)
    else elim (allocate_from (suc fd) fs file) [ none ↦ none | some (n, fs') ↦ some (n, f ∷ fs') ]

unfoldable pub fd_allocate : Option Files → FilePtr → Result ℕ × Option Files
unfolding allocate_from
fd_allocate none file = (err einval, none)
fd_allocate (some files) file =
    if file == 0 then (err einval, some files) else elim (allocate_from 0 files file) [
      | none ↦ (err enomem, some files)
      | some (fd, files') ↦ (ok fd, some files')
    ]

unfoldable pub fd_close : Option Files → ℤ → Status × Option Files
fd_close none fd = (err einval, none)
fd_close (some files) (negsuc n) = (err einval, some files)
fd_close (some files) (pos fd) =
    if leb fd_max fd || get_or files fd 0 == 0
    then (err einval, some files)
    else (success, some (set files fd 0))
