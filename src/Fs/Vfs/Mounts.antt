-- ===== src/Fs/Vfs/Mounts.antt =====
-- About `vfs_mount` and `vfs_get_root` of vfs.c.
use zenith_os.Prelude.{
  ◌==◌, ◌≡◌, refl, sym, ap, ◌∙◌, ◌≢◌, ◌⊎◌, inl, inr, Option, none, some, List, [], ◌∷◌, All,
  Bool-cases, eq→==, not, ◌&&◌, ne→==, ==→ne, arith, subst,
}
use zenith_os.KernelErr.{Status, success}
use zenith_os.Fs.Vnode.{Ptr, null, FileSystem}
use zenith_os.Fs.Vfs.{
  FilesystemOperations, Mount, Vfs, link_mount, call_mount, vfs_mount, write_mount, Nodes, not,
  write_system,
}

-- The mounts from `p` on: only the last one is the root, and only it stands on no node.
abbrev pub Chained : (Ptr → Mount) → Ptr → Ptr → List Ptr → Type 0
Chained mounts root p [] = (p ≡ null) × (root ≡ null)
Chained mounts root p (q ∷ []) =
    (p ≡ q) × (q ≡ root) × (q ≢ null) × ((mounts q).mountpoint ≡ null) × ((mounts q).next ≡ null)
Chained mounts root p (q ∷ r ∷ rest) =
    (p ≡ q)
    × (q ≢ root)
    × (q ≢ null)
    × ((mounts q).mountpoint ≢ null)
    × Chained mounts root (mounts q).next (r ∷ rest)

unfoldable pub IsValid : Vfs → List Ptr → Type 0
IsValid v list = Chained v.mounts v.root_mount v.mount_list list

-- A list with a mount has a root.
Chained-root :
    (mounts : Ptr → Mount) (root p q : Ptr) (list : List Ptr)
    → Chained mounts root p (q ∷ list)
    → root ≢ null
Chained-root mounts root p q [] h = λ e. h.2 (h.1 ∙ e)
Chained-root mounts root p q (r ∷ rest) h = Chained-root mounts root (mounts q).next r rest h.4

Chained-write :
    (mounts : Ptr → Mount) (root p new : Ptr) (m : Mount) (list : List Ptr)
    → All (λ q. q ≢ new) list
    → Chained mounts root p list
    → Chained (write_mount mounts new m) root p list
Chained-write mounts root p new m [] fresh h = h
Chained-write mounts root p new m (q ∷ []) fresh h = rw (ne→== q new fresh.0) h
Chained-write mounts root p new m (q ∷ r ∷ rest) fresh h =
    rw (ne→== q new fresh.0)
      (h.0, h.1, h.2, h.3, Chained-write mounts root (mounts q).next new m (r ∷ rest) fresh.1 h.4)

Chained-other :
    (mounts : Ptr → Mount) (root p q new : Ptr) (list : List Ptr)
    → All (λ r. r ≢ new) (q ∷ list)
    → Chained mounts root p (q ∷ list)
    → new ≢ root
Chained-other mounts root p q new [] fresh h = λ e. fresh.0 (h.1 ∙ sym e)
Chained-other mounts root p q new (r ∷ rest) fresh h =
    Chained-other mounts root (mounts q).next r new rest fresh.1 h.4

write_mount_self : (s : Ptr → Mount) (p : Ptr) (m : Mount) → write_mount s p m p ≡ m
write_mount_self s p m = rw (eq→== p p refl)

-- The second branch of `link_mount`.
link_mount_later :
    (new : Ptr) (v : Vfs) (fs mountpoint : Ptr)
    → v.root_mount ≢ null
    → link_mount new v fs mountpoint ≡ record v {
      mount_list = new;
      mounts =
          write_mount v.mounts new
            (record { fs = fs; mountpoint = mountpoint; next = v.mount_list });
    }
unfolding link_mount
link_mount_later new v fs mountpoint has = rw (ne→== v.root_mount null has)

link_mount-IsValid :
    (new : Ptr) (v : Vfs) (fs mountpoint : Ptr) (list : List Ptr)
    → new ≢ null
    → All (λ q. q ≢ new) list
    → (v.root_mount ≢ null → mountpoint ≢ null)
    → IsValid v list
    → IsValid (link_mount new v fs mountpoint) (new ∷ list)
unfolding link_mount IsValid
link_mount-IsValid new v fs mountpoint [] nn fresh mp h =
    let m : Mount = record { fs = fs; mountpoint = null; next = v.mount_list } in
    let at_new = write_mount_self v.mounts new m in
    rw (eq→== v.root_mount null h.1) (
      refl,
      refl,
      nn,
      ap (λ (m : Mount). m.mountpoint) at_new,
      ap (λ (m : Mount). m.next) at_new ∙ h.0,
    )
link_mount-IsValid new v fs mountpoint (q ∷ list) nn fresh mp h =
    let has = Chained-root v.mounts v.root_mount v.mount_list q list h in
    let m : Mount = record { fs = fs; mountpoint = mountpoint; next = v.mount_list } in
    let at_new = write_mount_self v.mounts new m in
    subst (λ w. IsValid w (new ∷ q ∷ list)) (sym (link_mount_later new v fs mountpoint has))
      (
        refl,
        Chained-other v.mounts v.root_mount v.mount_list q new list fresh h,
        nn,
        (λ e. mp has (sym (ap (λ (m : Mount). m.mountpoint) at_new) ∙ e)),
        subst (λ p. Chained (write_mount v.mounts new m) v.root_mount p (q ∷ list))
            (sym (ap (λ (m : Mount). m.next) at_new))
            (Chained-write v.mounts v.root_mount v.mount_list new m (q ∷ list) fresh h),
      )

-- The mount of a file system touches no `mount_t`.
call_mount-IsValid :
    (ops : Option FilesystemOperations) (v : Vfs) (fs : Ptr) (list : List Ptr)
    → IsValid v list
    → IsValid (call_mount ops v fs).1 list
unfolding call_mount IsValid
call_mount-IsValid none v fs list h = h
call_mount-IsValid (some ops) v fs list h = called ops.mount
  where
    called :
        (o : Option (Nodes → Ptr → FileSystem → Status × Nodes × FileSystem))
        → IsValid
            (elim o as (λ x. Status × Vfs) [
              | none ↦ (success, v)
              | some f ↦
                  let r = f v.nodes fs (v.systems fs) in
                  (r.0, record v { nodes = r.1; systems = write_system v.systems fs r.2 })
            ]).1
            list
    called none = h
    called (some f) = h

module _ (fs_ops : Ptr → Option FilesystemOperations) (new : Ptr) (v : Vfs)
    (fs mountpoint : Ptr) where
  -- `vfs_mount` keeps the list of mounts in order, whatever it returns: the list is finite and its last
  -- mount is the root and the only one without a mountpoint, or there is neither a mount nor a root.
  -- It is the old list, or the old list behind the mount that `kmalloc` returned, which must be none of them.
  pub vfs_mount-IsValid :
      (list : List Ptr)
      → All (λ q. q ≢ new) list
      → IsValid v list
      → let v' = (vfs_mount fs_ops new v fs mountpoint).1 in
        IsValid v' list ⊎ IsValid v' (new ∷ list)
  unfolding vfs_mount
  vfs_mount-IsValid list fresh h = elim (Bool-cases (fs == null)) [
    | inl e ↦ rw e (inl h)
    | inr e ↦ elim (Bool-cases (not (v.root_mount == null) && (mountpoint == null))) [
      | inl g ↦ rw (e, g) (inl h)
      | inr g ↦ elim (Bool-cases (new == null)) [
        | inl z ↦ rw (e, g, z) (inl h)
        | inr z ↦
            rw (e, g, z)
              (inr (
                call_mount-IsValid (fs_ops fs) (link_mount new v fs mountpoint) fs (new ∷ list) (
                  link_mount-IsValid new v fs mountpoint list (==→ne new null z) fresh
                    (λ r. ground (arith, g)) h)))
      ]
    ]
  ]
