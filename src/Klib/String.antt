-- ===== src/Klib/String.antt =====
-- kernel/src/lib/string.c. A pointer to a string is the list of the bytes from it to the end of the
-- object it points into; the string ends at the first NUL, or with the list.
pub mod Laws
mod Tests
use zenith_os.Prelude.{
  ℕ, zero, suc, ◌-◌, ◌==◌, ◌&&◌, not, ltb, if◌then◌else◌, Bool, true, false, Option, none, some,
  List, [], ◌∷◌,
}
use zenith_os.Prelude.Int.{ℤ, pos, negsuc}

abbrev pub Bytes : Type 0
Bytes = List ℕ

unfoldable pub k_strlen : Bytes → ℕ
k_strlen [] = 0
k_strlen (c ∷ s) = let rest = k_strlen s in if c == 0 then 0 else suc rest

-- `(unsigned char)a - (unsigned char)b`
abbrev pub byte_difference : ℕ → ℕ → ℤ
byte_difference a b = if ltb a b then negsuc (b - a - 1) else pos (a - b)

unfoldable pub k_strcmp : Bytes → Bytes → ℤ
k_strcmp [] [] = pos 0
k_strcmp [] (b ∷ t) = byte_difference 0 b
k_strcmp (a ∷ s) [] = byte_difference a 0
k_strcmp (a ∷ s) (b ∷ t) =
    let rest = k_strcmp s t in if not (a == 0) && a == b then rest else byte_difference a b

abbrev pub cons_some : ℕ → Option Bytes → Option Bytes
cons_some c none = none
cons_some c (some s) = some (c ∷ s)

-- The object that `dest` points into after the call; `none` is a write behind its end.
unfoldable pub k_strcpy : Bytes → Bytes → Option Bytes
k_strcpy [] s = none
k_strcpy (d ∷ dest) [] = some (0 ∷ dest)
k_strcpy (d ∷ dest) (c ∷ s) =
    let rest = k_strcpy dest s in if c == 0 then some (0 ∷ dest) else cons_some c rest
