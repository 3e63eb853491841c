-- ===== src/Fs/Ramfs.antt =====
-- kernel/src/fs/ramfs.c. A string argument is `none` where it is NULL; a result pointer is the
-- result of the function and never NULL. What `kmalloc` returns is an argument. The outer `none` of
-- a result is a write behind the end of an object.
pub mod Names
pub mod Laws
pub mod Content
pub mod Sample
mod Tests
use zenith_os.Prelude.{
  ℕ, zero, suc, ◌+◌, ◌-◌, ◌%◌, ◌^◌, ◌==◌, ltb, leb, not, ◌||◌, if◌then◌else◌, Bool, Option, none,
  some, List, [], ◌∷◌, ◌++◌, length, false,
}
use zenith_os.Prelude.Int.{ℤ, pos, negsuc}
use zenith_os.KernelErr.{
  Result, ok, err, Status, success, code, einval, enoent, enotsup, eexist, enomem,
}
use zenith_os.Klib.String.{Bytes, k_strcmp, k_strcpy, cons_some}
use zenith_os.Fs.File.{OpenFile}
use zenith_os.Fs.Vnode.{
  Ptr, null, VnodeType, file, directory, is_directory, is_file, Node, Nodes, write_node, blank,
  FileSystem,
}

abbrev pub max_children : ℕ
max_children = 64

abbrev pub is_zero : ℤ → Bool
is_zero (pos n) = n == 0
is_zero (negsuc n) = false

-- The static variable `ramfs_root` is the node at `root`, and `fs` the file system at `at`.
unfoldable pub ramfs_mount : Ptr → Nodes → Ptr → FileSystem → Status × Nodes × FileSystem
ramfs_mount root s at fs = if at == null then (err einval, s, fs) else (
  success,
  write_node s root (record blank { type = directory; fs = at; private_data = root }),
  record fs { root = root },
)

-- "ramfs"
abbrev pub ramfs_name : Bytes
ramfs_name = b'r' ∷ b'a' ∷ b'm' ∷ b'f' ∷ b's' ∷ 0 ∷ []

abbrev pub named : FileSystem → Option Bytes → Option (Status × FileSystem)
named fs none = none
named fs (some name) = some (success, record fs { name = name; root = null })

unfoldable pub ramfs_init : Ptr → FileSystem → Option (Status × FileSystem)
ramfs_init at fs =
    if at == null then some (err einval, fs) else named fs (k_strcpy fs.name ramfs_name)

-- The loop of `ramfs_lookup`.
unfoldable pub find_child : Nodes → List Ptr → Bytes → Result Ptr
find_child s [] name = err enoent
find_child s (c ∷ cs) name =
    if c == null
    then find_child s cs name
    else if is_zero (k_strcmp (s c).name name)
    then ok c
    else find_child s cs name

unfoldable pub ramfs_lookup : Nodes → Ptr → Option Bytes → Result Ptr
ramfs_lookup s dir none = err einval
ramfs_lookup s dir (some name) =
    if dir == null || (s dir).private_data == null
    then err einval
    else find_child s (s (s dir).private_data).children name

-- The new node with its name, and its entry in the directory.
unfoldable pub attach : VnodeType → Ptr → Nodes → Ptr → Bytes → Nodes
attach type child s dir name =
    let parent = (s dir).private_data in
    let new = record blank {
      name = name;
      type = type;
      parent = dir;
      fs = (s dir).fs;
      private_data = child;
    } in
    let s1 = write_node s child new in
    write_node s1 parent (record (s1 parent) { children = (s1 parent).children ++ (child ∷ []) })

-- From the copy of the name on; `copied` is the array after `k_strcpy`.
abbrev pub attach_copied : VnodeType → Ptr → Nodes → Ptr → Option Bytes → Option (Status × Nodes)
attach_copied type child s dir none = none
attach_copied type child s dir (some name) = some (success, attach type child s dir name)

-- `ramfs_mkdir` and `ramfs_create` differ in the type alone. `allocated` is what `kmalloc` returns.
unfoldable pub add_child : VnodeType → Ptr → Nodes → Ptr → Option Bytes → Option (Status × Nodes)
add_child type allocated s dir none = some (err einval, s)
add_child type allocated s dir (some name) =
    if dir == null
    then some (err einval, s)
    else if not (is_directory (s dir).type)
    then some (err enotsup, s)
    else if (s dir).private_data == null
    then some (err einval, s)
    else elim (ramfs_lookup s dir (some name)) [
      | ok _ ↦ some (err eexist, s)
      | err _ ↦
          if leb max_children (length (s (s dir).private_data).children)
          then some (err enomem, s)
          else if allocated == null
          then some (err enomem, s)
          else attach_copied type allocated s dir (k_strcpy blank.name name)
    ]

unfoldable pub ramfs_mkdir : Ptr → Nodes → Ptr → Option Bytes → Option (Status × Nodes)
ramfs_mkdir allocated s dir name = add_child directory allocated s dir name

unfoldable pub ramfs_create : Ptr → Nodes → Ptr → Option Bytes → Option (Status × Nodes)
ramfs_create allocated s dir name = add_child file allocated s dir name

-- `k_memcpy` of `n` bytes between two objects; `none` is an access behind the end of one, a read
-- behind the source or a write behind the destination.
unfoldable pub copy_block : ℕ → Bytes → Bytes → Option Bytes
copy_block zero d s = some d
copy_block (suc n) (x ∷ d) (c ∷ s) = cons_some c (copy_block n d s)
copy_block (suc n) _ _ = none

-- The copy and what follows it; `block` is `node->data`.
abbrev pub written : Nodes → Ptr → ℕ → OpenFile → Option Bytes → Option (Status × Nodes × OpenFile)
written s p size f none = none
written s p size f (some block) = some (
  success,
  write_node s p (record (s p) { content = some block; size = size }),
  record f { position = size },
)

abbrev pub write_result :
    Option (Status × Nodes × OpenFile) → Option (Status × Nodes × Option OpenFile)
write_result none = none
write_result (some (st, s, f)) = some (st, s, some f)

-- `fresh` is the block that `kmalloc(size)` returns. `buffer` is `none` where it is NULL, and so is
-- the file.
unfoldable pub ramfs_write :
    Option Bytes
    → Nodes
    → Option OpenFile
    → Option Bytes
    → ℕ
    → Option (Status × Nodes × Option OpenFile)
ramfs_write fresh s none buffer size = some (err einval, s, none)
ramfs_write fresh s (some f) none size = some (err einval, s, some f)
ramfs_write fresh s (some f) (some buffer) size =
    let p = (s f.node).private_data in
    if p == null
    then some (err einval, s, some f)
    else if not (is_file (s f.node).type)
    then some (err enotsup, s, some f)
    else elim (s p).content [
      | some block ↦ write_result (written s p size f (copy_block size block buffer))
      | none ↦ elim fresh [
        | none ↦ some (err enomem, s, some f)
        | some block ↦
            let s1 = write_node s p (record (s p) { content = some block; capacity = size }) in
            write_result (written s1 p size f (copy_block size block buffer))
      ]
    ]

-- The `int` of the low 32 bits.
abbrev pub to_int : ℕ → ℤ
to_int n = let w = n % 2 ^ 32 in if ltb w (2 ^ 31) then pos w else negsuc (2 ^ 32 - 1 - w)

-- What follows the copy into the caller's buffer; the position is a `uint64_t`.
abbrev pub read_result : ℕ → OpenFile → Option Bytes → Option (ℤ × Option Bytes × Option OpenFile)
read_result bytes f none = none
read_result bytes f (some buffer) =
    some (to_int bytes, some buffer, some (record f { position = (f.position + bytes) % 2 ^ 64 }))

-- The result, the caller's buffer and the file.
unfoldable pub ramfs_read :
    Nodes → Option OpenFile → Option Bytes → ℕ → Option (ℤ × Option Bytes × Option OpenFile)
ramfs_read s none buffer size = some (code einval, buffer, none)
ramfs_read s (some f) none size = some (code einval, none, some f)
ramfs_read s (some f) (some buffer) size =
    let p = (s f.node).private_data in
    if p == null
    then some (code einval, some buffer, some f)
    else if not (is_file (s f.node).type)
    then some (code enotsup, some buffer, some f)
    else elim (s p).content [
      | none ↦ some (pos 0, some buffer, some f)
      | some block ↦
          let bytes = if ltb (s p).size size then (s p).size else size in
          read_result bytes f (copy_block bytes buffer block)
    ]
