-- ===== src/KernelErr.antt =====
-- kernel/src/kernel_err/errno.h: the error codes, and what a function returns that yields a value
-- or a negative code.
use zenith_os.Prelude.Int.{ℤ, negsuc}

pub data Errno : Type 0 where
  einval enomem eexist enoent enotsup ebusy eperm estate eio eagain : Errno

-- The number of a code.
abbrev pub code : Errno → ℤ
code einval = negsuc 0
code enomem = negsuc 1
code eexist = negsuc 2
code enoent = negsuc 3
code enotsup = negsuc 4
code ebusy = negsuc 5
code eperm = negsuc 6
code estate = negsuc 7
code eio = negsuc 8
code eagain = negsuc 9

pub data Result {ℓ} (A : Type ℓ) : Type ℓ where
  ok : A → Result A
  err : Errno → Result A

-- KERNEL_SUCCESS, or an error.
abbrev pub Status : Type 0
Status = Result (Unit {0})

abbrev pub success : Status
success = ok tt
