-- ===== src/Fs/Vfs/Walk.antt =====
-- About `vfs_lookup` of vfs.c: the walk against the names of a path, and its number of rounds.
use zenith_os.Prelude.{
  ℕ, zero, suc, ◌-◌, ◌==◌, leb, inl, inr, Option, ◌≤◌, ◌<◌, ◌≡◌, refl, ap, ◌∙◌, ◌≢◌, some, none,
  List, [], ◌∷◌, ◌++◌, arith, length, replicate, Bool-cases, ne→==, true, subst, sym, ==→ne,
}
use zenith_os.KernelErr.{Result, ok, err, einval}
use zenith_os.Fs.Vnode.{Ptr, null, Nodes}
use zenith_os.Fs.Path.{
  slash, max_component_len, Next, no_more, too_long, component, prepend, skip_slashes,
  take_component, copied, copy_component, path_next_component,
}
use zenith_os.Fs.Path.Split.{IsName, AtBreak, path_next_component-append}
use zenith_os.Fs.Vfs.{
  VnodeOperations, Vfs, call_lookup, walk, walk_on, walk_found, vfs_get_root, is_root_path,
  vfs_lookup, enoent,
}

-- A component that was found is followed by a shorter path.
abbrev Shorter : ℕ → Next → Type 0
Shorter n no_more = Unit {0}
Shorter n too_long = Unit {0}
Shorter n (component name rest) = length rest < n

abbrev NotLonger : ℕ → Option (List ℕ × List ℕ) → Type 0
NotLonger n none = Unit {0}
NotLonger n (some (name, rest)) = length rest ≤ n

NotLonger-prepend :
    (n c : ℕ) (o : Option (List ℕ × List ℕ)) → NotLonger n o → NotLonger (suc n) (prepend c o)
NotLonger-prepend n c none h = tt
NotLonger-prepend n c (some (name, rest)) h = omega arith

NotLonger-name :
    (n c : ℕ) (o : Option (List ℕ × List ℕ))
    → NotLonger n o
    → Shorter (suc n) (copied (prepend c o))
NotLonger-name n c none h = tt
NotLonger-name n c (some (name, rest)) h = omega arith

take_component-NotLonger : (len : ℕ) (p : List ℕ) → NotLonger (length p) (take_component len p)
unfolding take_component
take_component-NotLonger len [] = omega arith
take_component-NotLonger len (c ∷ p) = elim (Bool-cases (c == slash)) [
  | inl e ↦ rw e (omega arith)
  | inr e ↦ elim (Bool-cases (leb (max_component_len - 1) len)) [
    | inl f ↦ rw (e, f) tt
    | inr f ↦
        rw (e, f)
          (NotLonger-prepend (length p) c (take_component (suc len) p)
            (take_component-NotLonger (suc len) p))
  ]
]

-- The name that `copy_component` copies has a first byte.
path_next_component-Shorter : (p : List ℕ) → Shorter (length p) (path_next_component p)
unfolding path_next_component skip_slashes copy_component take_component
path_next_component-Shorter [] = tt
path_next_component-Shorter (c ∷ p) = elim (Bool-cases (c == slash)) [
  | inl e ↦ rw e (longer (path_next_component p) (path_next_component-Shorter p))
  | inr e ↦
      rw (e, e) (NotLonger-name (length p) c (take_component 1 p) (take_component-NotLonger 1 p))
]
  where
    longer : (o : Next) → Shorter (length p) o → Shorter (suc (length p)) o
    longer no_more h = tt
    longer too_long h = tt
    longer (component name rest) h = omega arith

-- The next lookup, unless there was an error.
abbrev pub and_then : (Ptr → Result Ptr) → Result Ptr → Result Ptr
and_then f (err e) = err e
and_then f (ok next) = f next

-- The ways to write a list of names as a path: any number of slashes before a name, at least one
-- between two names, any number behind the last.
abbrev pub Spells : List ℕ → List (List ℕ) → Type 0
Spells path [] = (k : ℕ) × (path ≡ replicate k slash)
Spells path (name ∷ names) =
    (n : ℕ) × (rest : List ℕ) × (path ≡ replicate n slash ++ (name ++ rest))
    × IsName name
    × AtBreak rest
    × Spells rest names

skip_slashes_all : (k : ℕ) → skip_slashes (replicate k slash) ≡ []
unfolding skip_slashes
skip_slashes_all zero = refl
skip_slashes_all (suc k) = skip_slashes_all k

module _ (ops : Ptr → Option VnodeOperations) where
  -- One round returns if the next ones do.
  walk_on-returns :
      (s : Nodes) (again : Ptr → List ℕ → Option (Result Ptr)) (n : ℕ) (current : Ptr) (o : Next)
      → Shorter n o
      → ((next : Ptr) (rest : List ℕ)
          → length rest < n
          → (r : Result Ptr) × (again next rest ≡ some r))
      → (r : Result Ptr) × (walk_on ops s again current o ≡ some r)
  unfolding walk_on walk_found
  walk_on-returns s again n current no_more h k = (ok current, refl)
  walk_on-returns s again n current too_long h k = (err einval, refl)
  walk_on-returns s again n current (component name rest) h k =
      found (call_lookup (ops current) s current name)
    where
      found : (o : Result Ptr) → (r : Result Ptr) × (walk_found again rest o ≡ some r)
      found (err e) = (err e, refl)
      found (ok next) = k next rest h

  pub walk-returns :
      (s : Nodes) (fuel : ℕ) (current : Ptr) (cursor : List ℕ)
      → length cursor < fuel
      → (r : Result Ptr) × (walk ops s fuel current cursor ≡ some r)
  unfolding walk
  walk-returns s zero current cursor h = absurd (omega arith)
  walk-returns s (suc fuel) current cursor h =
      walk_on-returns s (walk ops s fuel) (length cursor) current (path_next_component cursor)
        (path_next_component-Shorter cursor)
        (λ next rest k. walk-returns s fuel next rest (omega arith))

  -- What the names of a path lead to, one lookup each; the first error ends it.
  unfoldable pub resolve : Nodes → Ptr → List (List ℕ) → Result Ptr
  resolve s current [] = ok current
  resolve s current (name ∷ names) =
      and_then (λ next. resolve s next names) (call_lookup (ops current) s current name)

  walk-enough :
      (s : Nodes) (fuel : ℕ) (current : Ptr) (path : List ℕ) (names : List (List ℕ))
      → length path < fuel
      → Spells path names
      → walk ops s fuel current path ≡ some (resolve s current names)
  unfolding walk resolve walk_on walk_found path_next_component copy_component skip_slashes
  walk-enough s zero current path names h sp = absurd (omega arith)
  walk-enough s (suc fuel) current path [] h (k, e) =
      ap (λ p. walk_on ops s (walk ops s fuel) current (path_next_component p)) e
      ∙ ap (λ p. walk_on ops s (walk ops s fuel) current (copy_component p)) (skip_slashes_all k)
  walk-enough s (suc fuel) current path (name ∷ names) h (n, rest, e, is, b, sp) =
      let next = ap path_next_component e ∙ path_next_component-append n name rest is b in
      let shorter = subst (Shorter (length path)) next (path_next_component-Shorter path) in
      ap (walk_on ops s (walk ops s fuel) current) next
      ∙ found (call_lookup (ops current) s current name)
          (λ p. walk-enough s fuel p rest names (omega arith) sp)
    where
      found :
          (o : Result Ptr)
          → ((p : Ptr) → walk ops s fuel p rest ≡ some (resolve s p names))
          → walk_found (walk ops s fuel) rest o ≡ some (and_then (λ p. resolve s p names) o)
      found (err er) ih = refl
      found (ok p) ih = ih p

  root_path :
      (s : Nodes) (current : Ptr) (path : List ℕ)
      → is_root_path path ≡ true
      → walk ops s (suc (length path)) current path ≡ some (ok current)
  unfolding walk walk_on path_next_component copy_component skip_slashes
  root_path s current [] h = refl
  root_path s current (c ∷ []) h = rw h refl
  root_path s current (c ∷ d ∷ p) h = absurd (ground arith)

  vfs_lookup-walk :
      (v : Vfs) (path : List ℕ)
      → vfs_get_root v ≢ null
      → vfs_lookup ops v (some path) ≡ walk ops v.nodes (suc (length path)) (vfs_get_root v) path
  unfolding vfs_lookup
  vfs_lookup-walk v path ne =
      rw (ne→== (vfs_get_root v) null ne) (elim (Bool-cases (is_root_path path)) [
        | inl e ↦ rw e (sym (root_path v.nodes (vfs_get_root v) path e))
        | inr e ↦ rw e refl
      ])

  -- With a root, `vfs_lookup` of a path that spells a list of names, with slashes before, between and
  -- behind them, returns what the lookups of the names return, one after the other from the root:
  -- the first error, or the last node.
  pub vfs_lookup-resolve :
      (v : Vfs) (path : List ℕ) (names : List (List ℕ))
      → vfs_get_root v ≢ null
      → Spells path names
      → vfs_lookup ops v (some path) ≡ some (resolve v.nodes (vfs_get_root v) names)
  vfs_lookup-resolve v path names ne sp =
      vfs_lookup-walk v path ne
      ∙ walk-enough v.nodes (suc (length path)) (vfs_get_root v) path names (omega arith) sp

  -- `vfs_lookup` ends for every path, a NULL one included: its loop needs at most one round more
  -- than the path has bytes.
  pub vfs_lookup-returns :
      (v : Vfs) (path : Option (List ℕ)) → (r : Result Ptr) × (vfs_lookup ops v path ≡ some r)
  unfolding vfs_lookup
  vfs_lookup-returns v none = (err einval, refl)
  vfs_lookup-returns v (some path) = elim (Bool-cases (vfs_get_root v == null)) [
    | inl e ↦ rw e (err enoent, refl)
    | inr e ↦
        let (r, h) = walk-returns v.nodes (suc (length path)) (vfs_get_root v) path (omega arith) in
        (r, vfs_lookup-walk v path (==→ne (vfs_get_root v) null e) ∙ h)
  ]
