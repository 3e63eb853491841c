-- ===== src/Fs/Vfs/Root.antt =====
-- About vfs.c with ramfs mounted at the root.
use zenith_os.Prelude.{
  ℕ, ◌<◌, if◌then◌else◌, ◌≡◌, refl, sym, ap, ◌∙◌, ◌≢◌, Option, some, List, [], ◌∷◌, ◌++◌, All,
  eq→==, ne→==, length, true, false, Bool, replicate,
}
use zenith_os.KernelErr.{Result, ok, err, Status, success, enoent, Errno}
use zenith_os.Klib.String.{Bytes, k_strlen}
use zenith_os.Fs.Vnode.{Ptr, null, Nodes, VnodeType}
use zenith_os.Fs.Ramfs.{ramfs_mount, ramfs_lookup, add_child, max_children}
use zenith_os.Fs.Ramfs.Names.{same_name, IsDirectory}
use zenith_os.Fs.Ramfs.Laws.{ramfs_lookup-add_child, ramfs_lookup-ramfs_mount}
use zenith_os.Fs.Tables.{ramfs_vnode_ops, ramfs_fs_ops}
use zenith_os.Fs.Vfs.{
  FilesystemOperations, VnodeOperations, Vfs, link_mount, call_mount, call_lookup, vfs_mount,
  vfs_get_root, vfs_lookup, Bool, slash,
}
use zenith_os.Fs.Vfs.Walk.{Spells, and_then, resolve, vfs_lookup-resolve}

-- Every node has the table of ramfs; `fresh` is the block that `kmalloc` returns.
abbrev pub all_ramfs : Option Bytes → Ptr → Option VnodeOperations
all_ramfs fresh p = some (ramfs_vnode_ops fresh)

and_then-ok : (r : Result Ptr) → and_then ok r ≡ r
and_then-ok (ok p) = refl
and_then-ok (err e) = refl

if-some : (b : Bool) (x y : Result Ptr) → some (if b then x else y) ≡ (if b then some x else some y)
if-some true x y = refl
if-some false x y = refl

module _ (fresh : Option Bytes) where
  resolve_one :
      (s : Nodes) (dir : Ptr) (name : List ℕ)
      → resolve (all_ramfs fresh) s dir (name ∷ []) ≡ ramfs_lookup s dir (some (name ++ (0 ∷ [])))
  unfolding resolve call_lookup ramfs_vnode_ops
  resolve_one s dir name = and_then-ok (ramfs_lookup s dir (some (name ++ (0 ∷ []))))

  vfs_lookup_one :
      (v : Vfs) (path name : List ℕ)
      → vfs_get_root v ≢ null
      → Spells path (name ∷ [])
      → vfs_lookup (all_ramfs fresh) v (some path)
        ≡ some (ramfs_lookup v.nodes (vfs_get_root v) (some (name ++ (0 ∷ []))))
  vfs_lookup_one v path name ne sp =
      vfs_lookup-resolve (all_ramfs fresh) v path (name ∷ []) ne sp
      ∙ ap some (resolve_one v.nodes (vfs_get_root v) name)

  same_root : (v : Vfs) (s : Nodes) → vfs_get_root (record v { nodes = s }) ≡ vfs_get_root v
  unfolding vfs_get_root
  same_root v s = refl

  module _ (type : VnodeType) (v : Vfs) (child : Ptr) (is : IsDirectory v.nodes (vfs_get_root v))
      (new : child ≢ null) (other_dir : child ≢ vfs_get_root v) (name : Bytes) {e : Errno}
      (absent : ramfs_lookup v.nodes (vfs_get_root v) (some name) ≡ err e)
      (short : k_strlen name < 64) (old : All (λ c. c ≢ child) (v.nodes (vfs_get_root v)).children)
      (room : length (v.nodes (vfs_get_root v)).children < max_children) where
    -- With a root directory of ramfs that has room, `ramfs_create` or `ramfs_mkdir` of a name in it that
    -- is at most 63 bytes long and not there, with a new node from `kmalloc`, succeeds, and then
    -- `vfs_lookup` of a path with one component, however many slashes it has, finds the new node if the
    -- component is that name, and what it found before if not.
    pub vfs_lookup-add_child :
        (s' : Nodes) × (add_child type child v.nodes (vfs_get_root v) (some name)
          ≡ some (success, s'))
        × ((path component : List ℕ)
            → Spells path (component ∷ [])
            → vfs_lookup (all_ramfs fresh) (record v { nodes = s' }) (some path) ≡ (
                if same_name name (component ++ (0 ∷ []))
                then some (ok child)
                else vfs_lookup (all_ramfs fresh) v (some path)))
    vfs_lookup-add_child =
        let (s', made, finds) =
          ramfs_lookup-add_child type v.nodes (vfs_get_root v) child is new other_dir name absent
            short old room in
        (
          s',
          made,
          λ path component sp.
              vfs_lookup_one (record v { nodes = s' }) path component
                (λ r. is.not_null (sym (same_root v s') ∙ r)) sp
              ∙ ap (λ p. some (ramfs_lookup s' p (some (component ++ (0 ∷ []))))) (same_root v s')
              ∙ ap some (finds (component ++ (0 ∷ [])))
              ∙ if-some (same_name name (component ++ (0 ∷ []))) (ok child)
                  (ramfs_lookup v.nodes (vfs_get_root v) (some (component ++ (0 ∷ []))))
              ∙ ap (λ r. if same_name name (component ++ (0 ∷ [])) then some (ok child) else r)
                  (sym (vfs_lookup_one v path component is.not_null sp)),
        )

get_root_lem :
    (w : Vfs) (mount fs : Ptr)
    → w.root_mount ≡ mount
    → mount ≢ null
    → (w.mounts w.root_mount).fs ≡ fs
    → fs ≢ null
    → vfs_get_root w ≡ (w.systems fs).root
unfolding vfs_get_root
get_root_lem w mount fs r mn f fn =
    rw (ne→== w.root_mount null (λ e. mn (sym r ∙ e)), f, ne→== fs null fn)

module _ (fs_ops : Ptr → Option FilesystemOperations) (fresh : Option Bytes) (new : Ptr) (v : Vfs)
    (fs mountpoint root : Ptr) (no_root : v.root_mount ≡ null) (some_fs : fs ≢ null)
    (some_new : new ≢ null) (some_root : root ≢ null)
    (is_ramfs : fs_ops fs ≡ some (ramfs_fs_ops root)) where
  abbrev after : Vfs
  after = (vfs_mount fs_ops new v fs mountpoint).1

  mounted :
      vfs_mount fs_ops new v fs mountpoint
      ≡ call_mount (some (ramfs_fs_ops root)) (link_mount new v fs mountpoint) fs
  unfolding vfs_mount
  mounted =
      rw (ne→== fs null some_fs, eq→== v.root_mount null no_root, ne→== new null some_new, is_ramfs)

  abbrev linked : Vfs
  linked = link_mount new v fs mountpoint

  linked_root : linked.root_mount ≡ new
  unfolding link_mount
  linked_root = rw (eq→== v.root_mount null no_root)

  linked_fs : (linked.mounts linked.root_mount).fs ≡ fs
  unfolding link_mount
  linked_fs =
      ap (λ p. (linked.mounts p).fs) linked_root
      ∙ rw (eq→== v.root_mount null no_root, eq→== new new refl)

  linked_mounted : vfs_get_root (call_mount (some (ramfs_fs_ops root)) linked fs).1 ≡ root
  unfolding call_mount ramfs_fs_ops ramfs_mount
  linked_mounted =
      get_root_lem (call_mount (some (ramfs_fs_ops root)) linked fs).1 new fs linked_root some_new
        linked_fs some_fs
      ∙ rw (eq→== fs fs refl, ne→== fs null some_fs)

  after_root : vfs_get_root after ≡ root
  after_root = ap (λ (r : Status × Vfs). vfs_get_root r.1) mounted ∙ linked_mounted

  has_root : vfs_get_root after ≢ null
  has_root e = some_root (sym after_root ∙ e)

  returns : (vfs_mount fs_ops new v fs mountpoint).0 ≡ success
  unfolding call_mount ramfs_fs_ops ramfs_mount
  returns = ap (λ (r : Status × Vfs). r.0) mounted ∙ rw (ne→== fs null some_fs)

  mounted_root : (ramfs_mount root linked.nodes fs (linked.systems fs)).2.root ≡ root
  unfolding ramfs_mount
  mounted_root = rw (ne→== fs null some_fs)

  no_name :
      (name : List ℕ)
      → ramfs_lookup
          (call_mount (some (ramfs_fs_ops root)) linked fs).1.nodes
          root
          (some (name ++ (0 ∷ [])))
        ≡ err enoent
  unfolding call_mount ramfs_fs_ops ramfs_mount
  no_name name =
      let empty =
        ramfs_lookup-ramfs_mount root linked.nodes fs (linked.systems fs) (name ++ (0 ∷ []))
          some_root some_fs in
      ap
        (λ p.
          ramfs_lookup (ramfs_mount root linked.nodes fs (linked.systems fs)).1 p
            (some (name ++ (0 ∷ []))))
        (sym mounted_root)
      ∙ empty.2

  -- Mounting ramfs where nothing is mounted yet, with memory for the mount, succeeds and makes the root
  -- directory of ramfs the root: a path of slashes alone leads to it, whatever the length, and no path
  -- with one component leads anywhere, which is KERNEL_ENOENT.
  pub vfs_lookup-vfs_mount :
      ((vfs_mount fs_ops new v fs mountpoint).0 ≡ success)
      × ((n : ℕ) → vfs_lookup (all_ramfs fresh) after (some (replicate n slash)) ≡ some (ok root))
      × ((path name : List ℕ)
          → Spells path (name ∷ [])
          → vfs_lookup (all_ramfs fresh) after (some path) ≡ some (err enoent))
  unfolding resolve
  vfs_lookup-vfs_mount = (
    returns,
    λ n.
        vfs_lookup-resolve (all_ramfs fresh) after (replicate n slash) [] has_root (n, refl)
        ∙ ap (λ p. some (ok p)) after_root,
    λ path name sp.
        vfs_lookup_one fresh after path name has_root sp
        ∙ ap (λ p. some (ramfs_lookup after.nodes p (some (name ++ (0 ∷ []))))) after_root
        ∙ ap (λ (r : Status × Vfs). some (ramfs_lookup r.1.nodes root (some (name ++ (0 ∷ [])))))
            mounted
        ∙ ap some (no_name name),
  )
