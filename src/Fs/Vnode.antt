-- ===== src/Fs/Vnode.antt =====
-- kernel/src/fs/vnode.h and the nodes of kernel/src/fs/ramfs.h. A `vnode_t` of ramfs is the first
-- field of its `ramfs_node_t`, so that both have one address: a node is a number, NULL is 0. The
-- field `ops` is left out, since it is the same table for every node.
use zenith_os.Prelude.{ℕ, ◌==◌, if◌then◌else◌, Bool, true, false, Option, none, List, [], replicate}
use zenith_os.Klib.String.{Bytes}

abbrev pub Ptr : Type 0
Ptr = ℕ

abbrev pub null : Ptr
null = 0

pub data VnodeType : Type 0 where
  file directory device symlink : VnodeType

abbrev pub is_directory : VnodeType → Bool
is_directory directory = true
is_directory _ = false

abbrev pub is_file : VnodeType → Bool
is_file file = true
is_file _ = false

-- `children` has the first `child_count` slots of the array, and `content` the block that `data`
-- leads to, if it is not NULL.
pub record Node : Type 0 where
  pub name : Bytes
  pub type : VnodeType
  pub size : ℕ
  pub parent : Ptr
  pub fs : Ptr
  pub private_data : Ptr
  pub children : List Ptr
  pub content : Option Bytes
  pub capacity : ℕ

abbrev pub Nodes : Type 0
Nodes = Ptr → Node

-- A write to the node at `p`.
abbrev pub write_node : Nodes → Ptr → Node → Nodes
write_node s p new q = if q == p then new else s q

-- What `k_memset(node, 0, sizeof(ramfs_node_t))` leaves.
abbrev pub blank : Node
blank = record {
  name = replicate 64 0;
  type = file;
  size = 0;
  parent = null;
  fs = null;
  private_data = null;
  children = [];
  content = none;
  capacity = 0;
}

-- `filesystem_t`; `ops` is left out for the same reason.
pub record FileSystem : Type 0 where
  pub name : Bytes
  pub root : Ptr
