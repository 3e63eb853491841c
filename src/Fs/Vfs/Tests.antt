-- ===== src/Fs/Vfs/Tests.antt =====
-- The theorems on vfs.c at a root directory of ramfs with one file, `a`.
use zenith_os.Prelude.{ℕ, ◌≡◌, refl, ◌⊎◌, some, none, List, [], ◌∷◌, ◌++◌, arith, if◌then◌else◌}
use zenith_os.KernelErr.{Result, ok, success}
use zenith_os.Fs.Vnode.{Ptr, Nodes, file}
use zenith_os.Fs.Ramfs.{add_child, ramfs_lookup, find_child}
use zenith_os.Fs.Ramfs.Names.{same_name}
use zenith_os.Fs.Ramfs.Sample.{tree, name_b, root-IsDirectory, b_absent, b_short, no_system}
use zenith_os.Fs.Path.{slash, path_next_component, copy_component, skip_slashes, take_component}
use zenith_os.Klib.String.{k_strcmp}
use zenith_os.Fs.Path.Split.{IsName}
use zenith_os.Fs.Tables.{ramfs_fs_ops, ramfs_vnode_ops}
use zenith_os.Fs.Vfs.{
  walk, walk_on, walk_found, call_lookup, Vfs, vfs_mount, vfs_lookup, vfs_get_root, walk, walk_on,
  walk_found,
}
use zenith_os.Fs.Vfs.Walk.{Spells, resolve, vfs_lookup-resolve, vfs_lookup-returns}
use zenith_os.Fs.Vfs.Mounts.{IsValid, vfs_mount-IsValid}
use zenith_os.Fs.Vfs.Root.{all_ramfs, vfs_lookup-add_child}

-- The file system at 64 with its root at 8, mounted at 128.
abbrev mounted : Vfs
mounted = record {
  mount_list = 128;
  root_mount = 128;
  mounts = λ p. record { fs = 64; mountpoint = 0; next = 0 };
  systems = λ p. record no_system { root = 8 };
  nodes = tree;
}

abbrev unmounted : Vfs
unmounted = record mounted { mount_list = 0; root_mount = 0 }

mounted_root : vfs_get_root mounted ≡ 8
unfolding vfs_get_root
mounted_root = refl

-- "//a/"
abbrev path_a : List ℕ
path_a = slash ∷ slash ∷ b'a' ∷ slash ∷ []

a-IsName : IsName (b'a' ∷ [])
a-IsName = record { not_empty = λ e. cc; no_slash = (omega arith, tt); fits = omega arith }

path_a-Spells : Spells path_a ((b'a' ∷ []) ∷ [])
path_a-Spells = (2, slash ∷ [], refl, a-IsName, refl, (1, refl))

-- A walk to the file.
a_found : vfs_lookup (all_ramfs none) mounted (some path_a) ≡ some (ok 16)
unfolding vfs_lookup vfs_get_root walk walk_on walk_found call_lookup ramfs_vnode_ops ramfs_lookup
    find_child k_strcmp path_next_component copy_component skip_slashes take_component
a_found = refl

vfs_lookup-resolve_example :
    vfs_lookup (all_ramfs none) mounted (some path_a)
    ≡ some (resolve (all_ramfs none) mounted.nodes (vfs_get_root mounted) ((b'a' ∷ []) ∷ []))
unfolding vfs_get_root
vfs_lookup-resolve_example =
    vfs_lookup-resolve (all_ramfs none) mounted path_a ((b'a' ∷ []) ∷ []) (omega arith)
      path_a-Spells

vfs_lookup-returns_example :
    (r : Result Ptr) × (vfs_lookup (all_ramfs none) mounted (some path_a) ≡ some r)
vfs_lookup-returns_example = vfs_lookup-returns (all_ramfs none) mounted (some path_a)

mounted-IsValid : IsValid mounted (128 ∷ [])
unfolding IsValid
mounted-IsValid = (refl, refl, omega arith, refl, refl)

vfs_mount-IsValid_example :
    let v' = (vfs_mount (λ p. some (ramfs_fs_ops 8)) 256 mounted 64 16).1 in
    IsValid v' (128 ∷ []) ⊎ IsValid v' (256 ∷ 128 ∷ [])
vfs_mount-IsValid_example =
    vfs_mount-IsValid (λ p. some (ramfs_fs_ops 8)) 256 mounted 64 16 (128 ∷ []) (omega arith, tt)
      mounted-IsValid

vfs_lookup-add_child_example :
    (s' : Nodes) × (add_child file 24 tree (vfs_get_root mounted) (some name_b)
      ≡ some (success, s'))
    × ((path component : List ℕ)
        → Spells path (component ∷ [])
        → vfs_lookup (all_ramfs none) (record mounted { nodes = s' }) (some path) ≡ (
            if same_name name_b (component ++ (0 ∷ []))
            then some (ok 24)
            else vfs_lookup (all_ramfs none) mounted (some path)))
unfolding vfs_get_root
vfs_lookup-add_child_example =
    vfs_lookup-add_child none file mounted 24 root-IsDirectory (omega arith) (omega arith) name_b
      b_absent b_short (omega arith, tt) (omega arith)
