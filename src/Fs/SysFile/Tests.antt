-- ===== src/Fs/SysFile/Tests.antt =====
-- The theorems on sys_file.c at a process with one open file.
use zenith_os.Prelude.{List, ℕ, ◌≡◌, refl, some, none, [], ◌∷◌, ◌++◌, arith, take, drop, replicate}
use zenith_os.Prelude.Int.{pos}
use zenith_os.KernelErr.{ok, success}
use zenith_os.Fs.Fd.{Files, fd_get}
use zenith_os.Fs.Ramfs.{to_int, ramfs_lookup, find_child}
use zenith_os.Fs.Tables.{ramfs_vnode_ops}
use zenith_os.Fs.Ramfs.Sample.{tree, four_bytes, opened, opened-HasBlock, no_system}
use zenith_os.Fs.Path.{slash, path_next_component, copy_component, skip_slashes, take_component}
use zenith_os.Klib.String.{k_strcmp}
use zenith_os.Fs.Vfs.{
  walk, walk_on, walk_found, call_lookup, vfs_get_root, vfs_lookup, vfs_get_root, walk, walk_on,
}
use zenith_os.Fs.Vfs.Root.{all_ramfs}
use zenith_os.Fs.SysFile.{FileState, sys_open, sys_read, sys_write, List}
use zenith_os.Fs.SysFile.Calls.{Opened, sys_open-Opened, IsOpen, sys_read-sys_write}

abbrev table : Files
table = 4096 ∷ replicate 63 0

abbrev state : FileState
state = record {
  fds = some table;
  files = λ p. opened;
  vfs = record {
    mount_list = 128;
    root_mount = 128;
    mounts = λ p. record { fs = 64; mountpoint = 0; next = 0 };
    systems = λ p. record no_system { root = 8 };
    nodes = tree;
  };
}

abbrev path_a : List ℕ
path_a = slash ∷ b'a' ∷ []

a_found : vfs_lookup (all_ramfs none) state.vfs (some path_a) ≡ some (ok 16)
unfolding vfs_lookup vfs_get_root walk walk_on walk_found call_lookup ramfs_vnode_ops ramfs_lookup
    find_child k_strcmp path_next_component copy_component skip_slashes take_component
a_found = refl

sys_open-Opened_example :
    Opened state table 16 8192 (sys_open (all_ramfs none) 8192 state (some path_a))
sys_open-Opened_example =
    sys_open-Opened (all_ramfs none) 8192 state table refl path_a refl a_found (omega arith)
      (omega arith)

opened-IsOpen : IsOpen state (pos 0) four_bytes
unfolding fd_get
opened-IsOpen = record {
  table = table;
  file = 4096;
  process = refl;
  leads = refl;
  some_file = omega arith;
  has = opened-HasBlock;
}

sys_read-sys_write_example :
    (s' s'' : FileState) × (sys_write (all_ramfs none) state (pos 0) (some (9 ∷ 8 ∷ [])) 2
      ≡ some (success, s'))
    × (sys_read (all_ramfs none) s' (pos 0) (some (0 ∷ 0 ∷ 0 ∷ [])) 3
        ≡ some (to_int 2, some (take 2 (9 ∷ 8 ∷ []) ++ drop 2 (0 ∷ 0 ∷ 0 ∷ [])), s''))
sys_read-sys_write_example =
    sys_read-sys_write none state (pos 0) four_bytes opened-IsOpen (9 ∷ 8 ∷ []) 2 (0 ∷ 0 ∷ 0 ∷ []) 3
      2 (omega arith) (omega arith) (omega arith) refl
