-- ===== src/Fs/SysFile.antt =====
-- kernel/src/fs/sys_file.c: the file calls of the current process.
pub mod Calls
mod Tests
use zenith_os.Prelude.{ℕ, ◌==◌, if◌then◌else◌, Option, none, some, List}
use zenith_os.Prelude.Int.{ℤ, pos}
use zenith_os.KernelErr.{Result, ok, err, Status, code, einval, enoent}
use zenith_os.Klib.String.{Bytes}
use zenith_os.Fs.Vnode.{Ptr}
use zenith_os.Fs.File.{Opens}
use zenith_os.Fs.Fd.{Files, fd_get, fd_allocate, fd_close}
use zenith_os.Fs.Vfs.{Vfs, VnodeOperations, vfs_open, vfs_read, vfs_write}

-- `fds` is the table of the current process, `none` where there is no current process.
pub record FileState : Type 0 where
  pub fds : Option Files
  pub files : Opens
  pub vfs : Vfs

-- An `int`: a value, or a code.
abbrev pub int_result : Result ℕ → ℤ
int_result (ok n) = pos n
int_result (err e) = code e

-- What `sys_open` does with the result of `vfs_open`.
unfoldable pub allocate_opened : FileState → Option (Result Ptr × Opens) → Option (ℤ × FileState)
allocate_opened s none = none
allocate_opened s (some (err e, files)) = some (code e, record s { files = files })
allocate_opened s (some (ok file, files)) =
    let r = fd_allocate s.fds file in some (int_result r.0, record s { files = files; fds = r.1 })

unfoldable pub sys_open :
    (Ptr → Option VnodeOperations) → Ptr → FileState → Option (List ℕ) → Option (ℤ × FileState)
sys_open ops allocated s none = some (code einval, s)
sys_open ops allocated s (some path) = elim s.fds [
  | none ↦ some (code einval, s)
  | some _ ↦ allocate_opened s (vfs_open ops allocated s.vfs s.files (some path))
]

abbrev pub after_read :
    FileState → Option (ℤ × Option Bytes × Opens) → Option (ℤ × Option Bytes × FileState)
after_read s none = none
after_read s (some (n, buffer, files)) = some (n, buffer, record s { files = files })

-- The rest of `sys_read` with the file that the descriptor leads to.
unfoldable pub read_file :
    (Ptr → Option VnodeOperations)
    → FileState
    → Ptr
    → Option Bytes
    → ℕ
    → Option (ℤ × Option Bytes × FileState)
read_file ops s file buffer size =
    if file == 0
    then some (code enoent, buffer, s)
    else after_read s (vfs_read ops s.vfs s.files file buffer size)

unfoldable pub sys_read :
    (Ptr → Option VnodeOperations)
    → FileState
    → ℤ
    → Option Bytes
    → ℕ
    → Option (ℤ × Option Bytes × FileState)
sys_read ops s fd buffer size = elim s.fds [
  | none ↦ some (code einval, buffer, s)
  | some table ↦ read_file ops s (fd_get (some table) fd) buffer size
]

abbrev pub after_write : FileState → Option (Status × Vfs × Opens) → Option (Status × FileState)
after_write s none = none
after_write s (some (status, v, files)) = some (status, record s { files = files; vfs = v })

unfoldable pub write_file_to :
    (Ptr → Option VnodeOperations)
    → FileState
    → Ptr
    → Option Bytes
    → ℕ
    → Option (Status × FileState)
write_file_to ops s file buffer size =
    if file == 0
    then some (err enoent, s)
    else after_write s (vfs_write ops s.vfs s.files file buffer size)

unfoldable pub sys_write :
    (Ptr → Option VnodeOperations) → FileState → ℤ → Option Bytes → ℕ → Option (Status × FileState)
sys_write ops s fd buffer size = elim s.fds [
  | none ↦ some (err einval, s)
  | some table ↦ write_file_to ops s (fd_get (some table) fd) buffer size
]

unfoldable pub sys_close : FileState → ℤ → Status × FileState
sys_close s fd = elim s.fds [
  | none ↦ (err einval, s)
  | some table ↦ let r = fd_close (some table) fd in (r.0, record s { fds = r.1 })
]
