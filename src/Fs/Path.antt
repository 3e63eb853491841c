-- ===== src/Fs/Path.antt =====
-- kernel/src/fs/path.c: the components of a path. A path is the list of the bytes before its NUL,
-- and the cursor is what is left of it.
pub mod Split
mod Tests
use zenith_os.Prelude.{
  ℕ, zero, suc, ◌==◌, ◌-◌, leb, if◌then◌else◌, Bool, Option, none, some, List, [], ◌∷◌,
}

abbrev pub slash : ℕ
slash = b'/'

-- VFS_MAX_COMPONENT_LEN of path.h
abbrev pub max_component_len : ℕ
max_component_len = 64

-- The results 0, -1 and 1 of `path_next_component`; the last one moves the cursor.
pub data Next : Type 0 where
  no_more : Next
  too_long : Next
  component : List ℕ → List ℕ → Next

unfoldable pub skip_slashes : List ℕ → List ℕ
skip_slashes [] = []
skip_slashes (c ∷ p) = if c == slash then skip_slashes p else c ∷ p

abbrev pub prepend : ℕ → Option (List ℕ × List ℕ) → Option (List ℕ × List ℕ)
prepend c none = none
prepend c (some (name, rest)) = some (c ∷ name, rest)

-- The loop that copies a component, with `len` bytes copied so far; `none` is its `return -1`.
unfoldable pub take_component : ℕ → List ℕ → Option (List ℕ × List ℕ)
take_component len [] = some ([], [])
take_component len (c ∷ p) =
    if c == slash
    then some ([], c ∷ p)
    else if leb (max_component_len - 1) len
    then none
    else prepend c (take_component (suc len) p)

abbrev pub copied : Option (List ℕ × List ℕ) → Next
copied none = too_long
copied (some (name, rest)) = component name rest

unfoldable pub copy_component : List ℕ → Next
copy_component [] = no_more
copy_component (c ∷ p) = copied (take_component 0 (c ∷ p))

unfoldable pub path_next_component : List ℕ → Next
path_next_component path = copy_component (skip_slashes path)
