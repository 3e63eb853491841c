-- ===== src/Fs/File.antt =====
-- kernel/src/fs/file.c: file objects, a store from addresses; NULL is 0.
use zenith_os.Prelude.{ℕ, ◌==◌, if◌then◌else◌, Option, none, some}
use zenith_os.KernelErr.{Result, ok, err, einval, enomem}
use zenith_os.Fs.Vnode.{Ptr, null}

-- `file_t`
pub record OpenFile : Type 0 where
  pub node : Ptr
  pub position : ℕ
  pub flags : ℕ
  pub refcount : ℕ

abbrev pub Opens : Type 0
Opens = Ptr → OpenFile

-- A write to the object at `p`.
abbrev pub write_file : Opens → Ptr → OpenFile → Opens
write_file s p new q = if q == p then new else s q

-- `allocated` is what `kmalloc` returns.
unfoldable pub file_open : Ptr → Opens → Ptr → Result Ptr × Opens
file_open allocated files node =
    if node == null
    then (err einval, files)
    else if allocated == null
    then (err enomem, files)
    else (
      ok allocated,
      write_file files allocated (record { node = node; position = 0; flags = 0; refcount = 1 }),
    )

-- What `kfree` is given, if anything.
unfoldable pub file_close : Ptr → Option Ptr
file_close file = if file == null then none else some file
