-- ===== src/Fs/Ramfs/Laws.antt =====
-- What `ramfs_create` and `ramfs_mkdir` change for `ramfs_lookup`.
use zenith_os.Prelude.{
  suc, ◌<◌, ◌≡◌, refl, sym, ap, ◌∙◌, ◌≢◌, inl, inr, true, Option, none, some, List, [], ◌∷◌, ◌++◌,
  ◌==◌, if◌then◌else◌, eq→==, ne→==, ==→eq, Bool-cases, lt→leb, drop, length, All,
}
use zenith_os.KernelErr.{Result, ok, err, success, einval, enoent, Errno}
use zenith_os.Klib.String.{Bytes, k_strlen, k_strcpy}
use zenith_os.Klib.String.Laws.{text, text-append, k_strcpy_lem}
use zenith_os.Fs.Vnode.{Ptr, null, VnodeType, Node, Nodes, blank, FileSystem}
use zenith_os.Fs.Ramfs.{
  max_children, find_child, ramfs_lookup, attach, attach_copied, add_child, ramfs_mount,
}
use zenith_os.Fs.Ramfs.Names.{
  same_name, same_name-text, same_name_left, IsDirectory, find_child-snoc, find_child-text,
  or_child, or_child_no,
}

module _ (type : VnodeType) (s : Nodes) (dir child : Ptr) (is : IsDirectory s dir)
    (fresh : child ≢ null) (other_dir : child ≢ dir) where
  attach_dir :
      (name : Bytes)
      → attach type child s dir name dir
        ≡ record (s dir) { children = (s dir).children ++ (child ∷ []) }
  unfolding attach
  attach_dir name =
      rw (is.own_data, eq→== dir dir refl, ne→== dir child (λ e. other_dir (sym e)), is.own_data)

  attach_child : (name : Bytes) → (attach type child s dir name child).name ≡ name
  unfolding attach
  attach_child name = rw (is.own_data, ne→== child dir other_dir, eq→== child child refl)

  attach_others :
      (name : Bytes) (c : Ptr) → c ≢ child → (attach type child s dir name c).name ≡ (s c).name
  unfolding attach
  attach_others name c ne = elim (Bool-cases (c == dir)) [
    | inl e ↦
        rw (is.own_data, e, ne→== dir child (λ x. other_dir (sym x)))
          (ap (λ p. (s p).name) (sym (==→eq c dir e)))
    | inr n ↦ rw (is.own_data, n, ne→== c child ne)
  ]

  attach_names :
      (name : Bytes) (cs : List Ptr)
      → All (λ c. c ≢ child) cs
      → All (λ c. (attach type child s dir name c).name ≡ (s c).name) cs
  attach_names name [] h = tt
  attach_names name (c ∷ cs) h = (attach_others name c h.0, attach_names name cs h.1)

  lookup_lem :
      (r : Nodes) (name : Option Bytes)
      → (r dir).private_data ≡ dir
      → ramfs_lookup r dir name ≡ elim name as (λ x. Result Ptr) [
        | none ↦ err einval
        | some n ↦ find_child r (r dir).children n
      ]
  unfolding ramfs_lookup
  lookup_lem r none own = refl
  lookup_lem r (some n) own = rw (own, ne→== dir null is.not_null)

  module _ (name : Bytes) {e : Errno} (absent : ramfs_lookup s dir (some name) ≡ err e)
      (short : k_strlen name < 64) (old : All (λ c. c ≢ child) (s dir).children) where
    abbrev field : Bytes
    field = text name ++ (0 ∷ drop (suc (k_strlen name)) blank.name)

    abbrev after : Nodes
    after = attach type child s dir field

    field-text : text field ≡ text name
    field-text = text-append name (drop (suc (k_strlen name)) blank.name)

    find_before :
        (other : Bytes) → ramfs_lookup s dir (some other) ≡ find_child s (s dir).children other
    find_before other = lookup_lem s (some other) is.own_data

    find_after :
        (other : Bytes)
        → ramfs_lookup after dir (some other)
          ≡ or_child (same_name name other) child (find_child s (s dir).children other)
    unfolding or_child
    find_after other =
        lookup_lem after (some other)
          (ap (λ (n : Node). n.private_data) (attach_dir field) ∙ is.own_data)
        ∙ ap (λ (n : Node). find_child after n.children other) (attach_dir field)
        ∙ find_child-snoc s after child (after child) fresh (s dir).children other
            (attach_names field (s dir).children old)
        ∙ ap (λ b. or_child b child (find_child s (s dir).children other))
            (ap (λ n. same_name n other) (attach_child field)
              ∙ same_name_left field name other field-text)

    find_same :
        (other : Bytes)
        → or_child (same_name name other) child (find_child s (s dir).children other)
          ≡ (if same_name name other then ok child else find_child s (s dir).children other)
    find_same other = elim (Bool-cases (same_name name other)) [
      | inl hit ↦ rw hit (
          ap (or_child true child) (
            sym (find_child-text s (s dir).children name other (same_name-text name other hit))
            ∙ sym (find_before name)
            ∙ absent)
          ∙ unfold or_child in refl)
      | inr miss ↦ rw miss (or_child_no child (find_child s (s dir).children other))
    ]

    add_child_lem :
        length (s dir).children < max_children
        → add_child type child s dir (some name)
          ≡ attach_copied type child s dir (k_strcpy blank.name name)
    unfolding add_child
    add_child_lem room = rw (
      is.own_data,
      ne→== dir null is.not_null,
      is.type,
      absent,
      is.own_data,
      lt→leb max_children (length (s dir).children) room,
      ne→== child null fresh,
    )

    -- `ramfs_create` and `ramfs_mkdir` in a directory with room, of a name of at most 63 bytes that is
    -- not there, with a new node from `kmalloc`, succeed: afterwards that name leads to the new node,
    -- and every other name leads where it led before.
    pub ramfs_lookup-add_child :
        length (s dir).children < max_children
        → (s' : Nodes) × (add_child type child s dir (some name) ≡ some (success, s'))
          × ((other : Bytes)
              → ramfs_lookup s' dir (some other)
                ≡ (if same_name name other then ok child else ramfs_lookup s dir (some other)))
    ramfs_lookup-add_child room = (
      after,
      add_child_lem room ∙ ap (attach_copied type child s dir) (k_strcpy_lem blank.name name short),
      λ other.
          find_after other
          ∙ find_same other
          ∙ ap (λ r. if same_name name other then ok child else r) (sym (find_before other)),
    )

-- After `ramfs_mount` the root is a directory in which no name is found.
pub ramfs_lookup-ramfs_mount :
    (root : Ptr) (s : Nodes) (at : Ptr) (fs : FileSystem) (name : Bytes)
    → root ≢ null
    → at ≢ null
    → let (status, s', fs') = ramfs_mount root s at fs in
      (status ≡ success)
      × IsDirectory s' fs'.root
      × (ramfs_lookup s' fs'.root (some name) ≡ err enoent)
unfolding ramfs_mount ramfs_lookup find_child
ramfs_lookup-ramfs_mount root s at fs name nr na = rw (ne→== at null na) (
  refl,
  record { not_null = nr; own_data = rw (eq→== root root refl); type = rw (eq→== root root refl) },
  rw (eq→== root root refl, ne→== root null nr, eq→== root root refl),
)
