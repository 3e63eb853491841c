-- ===== src/Fs/Vfs.antt =====
-- kernel/src/fs/vfs.c: the mounts, the walk along a path, and the calls through the tables of
-- operations of a node. A table is `none` where the pointer to it is NULL, and so is an operation;
-- `kmalloc` returns the argument `allocated`. A path is the list of the bytes before its NUL.
pub mod Walk
pub mod Mounts
pub mod Root
mod Tests
use zenith_os.Prelude.{
  ℕ, zero, suc, ◌==◌, ◌&&◌, not, if◌then◌else◌, Option, none, some, List, [], ◌∷◌, ◌++◌, length,
  Bool, false,
}
use zenith_os.Prelude.Int.{ℤ}
use zenith_os.KernelErr.{Result, ok, err, Status, success, code, einval, enoent, enotsup, enomem}
use zenith_os.Klib.String.{Bytes}
use zenith_os.Fs.Vnode.{Ptr, null, Nodes, FileSystem}
use zenith_os.Fs.File.{OpenFile, Opens, write_file, file_open}
use zenith_os.Fs.Path.{slash, Next, no_more, too_long, component, path_next_component}

-- `vnode_operations_t`, the operations that vfs.c calls.
pub record VnodeOperations : Type 0 where
  pub lookup : Option (Nodes → Ptr → Option Bytes → Result Ptr)
  pub read :
      Option
        (Nodes → Option OpenFile → Option Bytes → ℕ → Option (ℤ × Option Bytes × Option OpenFile))
  pub write :
      Option
        (Nodes → Option OpenFile → Option Bytes → ℕ → Option (Status × Nodes × Option OpenFile))

-- `mount` of `filesystem_operations_t`.
pub record FilesystemOperations : Type 0 where
  pub mount : Option (Nodes → Ptr → FileSystem → Status × Nodes × FileSystem)

-- `mount_t`, the fields that vfs.c writes.
pub record Mount : Type 0 where
  pub fs : Ptr
  pub mountpoint : Ptr
  pub next : Ptr

-- The two static variables, and what the pointers lead to.
pub record Vfs : Type 0 where
  pub mount_list : Ptr
  pub root_mount : Ptr
  pub mounts : Ptr → Mount
  pub systems : Ptr → FileSystem
  pub nodes : Nodes

unfoldable pub vfs_init : Vfs → Vfs
vfs_init v = record v { mount_list = null; root_mount = null }

abbrev pub write_mount : (Ptr → Mount) → Ptr → Mount → Ptr → Mount
write_mount s p new q = if q == p then new else s q

abbrev pub write_system : (Ptr → FileSystem) → Ptr → FileSystem → Ptr → FileSystem
write_system s p new q = if q == p then new else s q

-- The new mount at the head of the list, and as the root if there was none.
unfoldable pub link_mount : Ptr → Vfs → Ptr → Ptr → Vfs
link_mount new v fs mountpoint =
    if v.root_mount == null
    then record v {
      mount_list = new;
      root_mount = new;
      mounts =
          write_mount v.mounts new (record { fs = fs; mountpoint = null; next = v.mount_list });
    }
    else record v {
      mount_list = new;
      mounts =
          write_mount v.mounts new
            (record { fs = fs; mountpoint = mountpoint; next = v.mount_list });
    }

-- `fs->ops->mount(fs)`, if there is such an operation.
unfoldable pub call_mount : Option FilesystemOperations → Vfs → Ptr → Status × Vfs
call_mount none v fs = (success, v)
call_mount (some ops) v fs = elim ops.mount [
  | none ↦ (success, v)
  | some f ↦
      let r = f v.nodes fs (v.systems fs) in
      (r.0, record v { nodes = r.1; systems = write_system v.systems fs r.2 })
]

unfoldable pub vfs_mount :
    (Ptr → Option FilesystemOperations) → Ptr → Vfs → Ptr → Ptr → Status × Vfs
vfs_mount fs_ops allocated v fs mountpoint =
    if fs == null
    then (err einval, v)
    else if not (v.root_mount == null) && (mountpoint == null)
    then (err einval, v)
    else if allocated == null
    then (err enomem, v)
    else call_mount (fs_ops fs) (link_mount allocated v fs mountpoint) fs

unfoldable pub vfs_get_root : Vfs → Ptr
vfs_get_root v =
    if v.root_mount == null
    then null
    else if (v.mounts v.root_mount).fs == null
    then null
    else (v.systems (v.mounts v.root_mount).fs).root

-- `current->ops->lookup(current, component, &next)`; `component` is NUL-terminated.
unfoldable pub call_lookup : Option VnodeOperations → Nodes → Ptr → List ℕ → Result Ptr
call_lookup none s current name = err enotsup
call_lookup (some ops) s current name = elim ops.lookup [
  | none ↦ err enotsup
  | some f ↦ f s current (some (name ++ (0 ∷ [])))
]

unfoldable pub walk_found :
    (Ptr → List ℕ → Option (Result Ptr)) → List ℕ → Result Ptr → Option (Result Ptr)
walk_found again rest (err e) = some (err e)
walk_found again rest (ok next) = again next rest

-- The body of the loop of `vfs_lookup` behind the call of `path_next_component`; `again` is what the
-- next rounds return.
unfoldable pub walk_on :
    (Ptr → Option VnodeOperations)
    → Nodes
    → (Ptr → List ℕ → Option (Result Ptr))
    → Ptr
    → Next
    → Option (Result Ptr)
walk_on ops s again current no_more = some (ok current)
walk_on ops s again current too_long = some (err einval)
walk_on ops s again current (component name rest) =
    walk_found again rest (call_lookup (ops current) s current name)

-- The loop of `vfs_lookup` with `fuel` rounds left; `none` is that they did not suffice.
unfoldable pub walk :
    (Ptr → Option VnodeOperations) → Nodes → ℕ → Ptr → List ℕ → Option (Result Ptr)
walk ops s zero current cursor = none
walk ops s (suc fuel) current cursor =
    walk_on ops s (walk ops s fuel) current (path_next_component cursor)

-- "/"
abbrev pub is_root_path : List ℕ → Bool
is_root_path (c ∷ []) = c == slash
is_root_path _ = false

unfoldable pub vfs_lookup :
    (Ptr → Option VnodeOperations) → Vfs → Option (List ℕ) → Option (Result Ptr)
vfs_lookup ops v none = some (err einval)
vfs_lookup ops v (some path) =
    if vfs_get_root v == null
    then some (err enoent)
    else if is_root_path path
    then some (ok (vfs_get_root v))
    else walk ops v.nodes (suc (length path)) (vfs_get_root v) path

-- What `vfs_open` does with the result of `vfs_lookup`.
unfoldable pub open_found : Ptr → Opens → Option (Result Ptr) → Option (Result Ptr × Opens)
open_found allocated files none = none
open_found allocated files (some (err e)) = some (err e, files)
open_found allocated files (some (ok node)) = some (file_open allocated files node)

unfoldable pub vfs_open :
    (Ptr → Option VnodeOperations)
    → Ptr
    → Vfs
    → Opens
    → Option (List ℕ)
    → Option (Result Ptr × Opens)
vfs_open ops allocated v files none = some (err einval, files)
vfs_open ops allocated v files (some path) =
    open_found allocated files (vfs_lookup ops v (some path))

-- The object at `p` after an operation that was given it.
abbrev pub store_file : Opens → Ptr → Option OpenFile → Opens
store_file files p none = files
store_file files p (some f) = write_file files p f

abbrev pub store_written :
    Vfs → Opens → Ptr → Option (Status × Nodes × Option OpenFile) → Option (Status × Vfs × Opens)
store_written v files p none = none
store_written v files p (some (status, nodes, file)) =
    some (status, record v { nodes = nodes }, store_file files p file)

abbrev pub store_read :
    Opens → Ptr → Option (ℤ × Option Bytes × Option OpenFile) → Option (ℤ × Option Bytes × Opens)
store_read files p none = none
store_read files p (some (count, buffer, file)) = some (count, buffer, store_file files p file)

-- `file->node->ops->write(file, buffer, size)` through the table of the node; the outer `none` is a
-- write behind the end of an object.
unfoldable pub call_write :
    Option VnodeOperations → Vfs → Opens → Ptr → Option Bytes → ℕ → Option (Status × Vfs × Opens)
call_write none v files p buffer size = some (err enotsup, v, files)
call_write (some ops) v files p buffer size = elim ops.write [
  | none ↦ some (err enotsup, v, files)
  | some f ↦ store_written v files p (f v.nodes (some (files p)) buffer size)
]

unfoldable pub vfs_write :
    (Ptr → Option VnodeOperations)
    → Vfs
    → Opens
    → Ptr
    → Option Bytes
    → ℕ
    → Option (Status × Vfs × Opens)
vfs_write ops v files p buffer size =
    if p == null
    then some (err einval, v, files)
    else if (files p).node == null
    then some (err einval, v, files)
    else call_write (ops (files p).node) v files p buffer size

unfoldable pub call_read :
    Option VnodeOperations
    → Vfs
    → Opens
    → Ptr
    → Option Bytes
    → ℕ
    → Option (ℤ × Option Bytes × Opens)
call_read none v files p buffer size = some (code enotsup, buffer, files)
call_read (some ops) v files p buffer size = elim ops.read [
  | none ↦ some (code enotsup, buffer, files)
  | some f ↦ store_read files p (f v.nodes (some (files p)) buffer size)
]

unfoldable pub vfs_read :
    (Ptr → Option VnodeOperations)
    → Vfs
    → Opens
    → Ptr
    → Option Bytes
    → ℕ
    → Option (ℤ × Option Bytes × Opens)
vfs_read ops v files p buffer size =
    if p == null
    then some (code einval, buffer, files)
    else if (files p).node == null
    then some (code einval, buffer, files)
    else call_read (ops (files p).node) v files p buffer size
