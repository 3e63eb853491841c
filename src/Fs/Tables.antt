-- ===== src/Fs/Tables.antt =====
-- The two tables of operations at the head of kernel/src/fs/ramfs.c.
use zenith_os.Prelude.{Option, some}
use zenith_os.Klib.String.{Bytes}
use zenith_os.Fs.Vnode.{Ptr}
use zenith_os.Fs.Ramfs.{ramfs_mount, ramfs_lookup, ramfs_read, ramfs_write}
use zenith_os.Fs.Vfs.{VnodeOperations, FilesystemOperations}

-- `fresh` is the block that `kmalloc` returns in `ramfs_write`.
unfoldable pub ramfs_vnode_ops : Option Bytes → VnodeOperations
ramfs_vnode_ops fresh = record {
  lookup = some ramfs_lookup;
  read = some ramfs_read;
  write = some (ramfs_write fresh);
}

-- `root` is the address of the static variable `ramfs_root`.
unfoldable pub ramfs_fs_ops : Ptr → FilesystemOperations
ramfs_fs_ops root = record { mount = some (ramfs_mount root) }
