-- ===== src/Fs/Path/Split.antt =====
-- `path_next_component` of path.c against the way that paths are written.

use zenith_os.Prelude.{
  ℕ, zero, suc, ◌+◌, ◌-◌, ◌<◌, ◌≡◌, refl, ◌≢◌, some, List, [], ◌∷◌, ◌++◌, arith, eq→==, ne→==,
  lt→leb, length, replicate, All,
}
use zenith_os.Fs.Path.{
  slash, max_component_len, component, skip_slashes, take_component, copy_component,
  path_next_component,
}

abbrev pub NotSlash : ℕ → Type 0
NotSlash c = c ≢ slash

-- A name that can stand between slashes: not empty, no slash in it, at most 63 bytes.
pub record IsName (name : List ℕ) : Type 0 where
  pub not_empty : name ≢ []
  pub no_slash : All NotSlash name
  pub fits : length name < max_component_len

-- A cursor that stands behind a component: at the end, or at a slash.
abbrev pub AtBreak : List ℕ → Type 0
AtBreak [] = Unit {0}
AtBreak (c ∷ p) = c ≡ slash

take_component-append :
    (len : ℕ) (name rest : List ℕ)
    → All NotSlash name
    → len + length name < max_component_len
    → AtBreak rest
    → take_component len (name ++ rest) ≡ some (name, rest)
unfolding take_component
take_component-append len [] [] h k b = refl
take_component-append len [] (c ∷ p) h k b = rw (eq→== c slash b)
take_component-append len (c ∷ name) rest h k b = rw (
  ne→== c slash h.0,
  lt→leb (max_component_len - 1) len (omega arith),
  take_component-append (suc len) name rest h.1 (omega arith) b,
)

skip_slashes-slashes : (n : ℕ) (p : List ℕ) → skip_slashes (replicate n slash ++ p) ≡ skip_slashes p
unfolding skip_slashes
skip_slashes-slashes zero p = refl
skip_slashes-slashes (suc n) p = skip_slashes-slashes n p

skip_slashes-name : (c : ℕ) (p : List ℕ) → c ≢ slash → skip_slashes (c ∷ p) ≡ c ∷ p
unfolding skip_slashes
skip_slashes-name c p ne = rw (ne→== c slash ne)

-- Reading gives back what was written: behind any number of slashes, a name followed by the end or
-- by a slash is the next component, and the cursor stops behind it.
pub path_next_component-append :
    (n : ℕ) (name rest : List ℕ)
    → IsName name
    → AtBreak rest
    → path_next_component (replicate n slash ++ (name ++ rest)) ≡ component name rest
unfolding path_next_component copy_component
path_next_component-append n [] rest is b = absurd (is.not_empty refl)
path_next_component-append n (c ∷ name) rest is b = rw (
  skip_slashes-slashes n (c ∷ (name ++ rest)),
  skip_slashes-name c (name ++ rest) is.no_slash.0,
  take_component-append 0 (c ∷ name) rest is.no_slash (let f = is.fits in omega arith) b,
)
