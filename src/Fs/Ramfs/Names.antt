-- ===== src/Fs/Ramfs/Names.antt =====
-- How ramfs.c compares names and walks the children of a directory.
use zenith_os.Prelude.{
  ◌≡◌, refl, sym, ap, ◌∙◌, ◌≢◌, inl, inr, Bool, true, false, List, [], ◌∷◌, ◌++◌, ◌==◌,
  if◌then◌else◌, ne→==, ==→eq, Bool-cases, All,
}
use zenith_os.Prelude.Int.{ℤ, pos, negsuc}
use zenith_os.KernelErr.{Result, ok, err}
use zenith_os.Klib.String.{Bytes, k_strcmp}
use zenith_os.Klib.String.Laws.{text, k_strcmp_iff}
use zenith_os.Fs.Vnode.{Ptr, null, directory, Node, Nodes}
use zenith_os.Fs.Ramfs.{is_zero, find_child}

-- Whether `k_strcmp` finds the names equal.
abbrev pub same_name : Bytes → Bytes → Bool
same_name s t = is_zero (k_strcmp s t)

is_zero_eq : (n : ℤ) → is_zero n ≡ true → n ≡ pos 0
is_zero_eq (pos n) h = ap pos (==→eq n 0 h)
is_zero_eq (negsuc n) h = cc

pub same_name-text : (s t : Bytes) → same_name s t ≡ true → text s ≡ text t
same_name-text s t h = (k_strcmp_iff s t).0 (is_zero_eq (k_strcmp s t) h)

text-same_name : (s t : Bytes) → text s ≡ text t → same_name s t ≡ true
text-same_name s t h = rw ((k_strcmp_iff s t).1 h) refl

-- The comparison sees the text of a name alone.
pub same_name_left : (s t u : Bytes) → text s ≡ text t → same_name s u ≡ same_name t u
same_name_left s t u h = elim (Bool-cases (same_name s u)) [
  | inl e ↦ e ∙ sym (text-same_name t u (sym h ∙ same_name-text s u e))
  | inr n ↦
      n
      ∙ sym (elim (Bool-cases (same_name t u)) [
        | inl e ↦ absurd (cc (n, text-same_name s u (h ∙ same_name-text t u e)))
        | inr m ↦ m
      ])
]

-- A directory of ramfs: its own data, with children that are not NULL.
pub record IsDirectory (s : Nodes) (dir : Ptr) : Type 0 where
  pub not_null : dir ≢ null
  pub own_data : (s dir).private_data ≡ dir
  pub type : (s dir).type ≡ directory

module _ (s r : Nodes) (child : Ptr) (new : Node) (nn : child ≢ null) where
  -- Behind the children that were there, whose names are as before, the new one is compared.
  pub find_child-snoc :
      (cs : List Ptr) (name : Bytes)
      → All (λ c. (r c).name ≡ (s c).name) cs
      → find_child r (cs ++ (child ∷ [])) name ≡ elim (find_child s cs name) as (λ x. Result Ptr) [
        | ok c ↦ ok c
        | err e ↦ if same_name (r child).name name then ok child else err e
      ]
  unfolding find_child
  find_child-snoc [] name h = rw (ne→== child null nn)
  find_child-snoc (c ∷ cs) name h = elim (Bool-cases (c == null)) [
    | inl skip ↦ rw skip (find_child-snoc cs name h.1)
    | inr there ↦
        rw (there, h.0)
          (elim (Bool-cases (same_name (s c).name name)) [
            | inl hit ↦ rw hit
            | inr miss ↦ rw miss (find_child-snoc cs name h.1)
          ])
  ]

same_name_right : (s t u : Bytes) → text s ≡ text t → same_name u s ≡ same_name u t
same_name_right s t u h = elim (Bool-cases (same_name u s)) [
  | inl e ↦ e ∙ sym (text-same_name u t (same_name-text u s e ∙ h))
  | inr n ↦
      n
      ∙ sym (elim (Bool-cases (same_name u t)) [
        | inl e ↦ absurd (cc (n, text-same_name u s (same_name-text u t e ∙ sym h)))
        | inr m ↦ m
      ])
]

pub find_child-text :
    (s : Nodes) (cs : List Ptr) (name other : Bytes)
    → text name ≡ text other
    → find_child s cs name ≡ find_child s cs other
unfolding find_child
find_child-text s [] name other h = refl
find_child-text s (c ∷ cs) name other h =
    rw (same_name_right name other (s c).name h, find_child-text s cs name other h)

unfoldable pub or_child : Bool → Ptr → Result Ptr → Result Ptr
or_child b child (ok c) = ok c
or_child b child (err e) = if b then ok child else err e

pub or_child_no : (child : Ptr) (r : Result Ptr) → or_child false child r ≡ r
unfolding or_child
or_child_no child (ok c) = refl
or_child_no child (err e) = refl
