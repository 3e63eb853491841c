-- ===== src/Klib/String/Tests.antt =====
-- The theorems on string.c at "ab" and "cat".
use zenith_os.Prelude.{[], ◌∷◌, arith, ◌<◌, length}
use zenith_os.Klib.String.{Bytes, k_strlen}

abbrev cat : Bytes
cat = b'c' ∷ b'a' ∷ b't' ∷ 0 ∷ b'x' ∷ []

abbrev ab : Bytes
ab = b'a' ∷ b'b' ∷ 0 ∷ []

ab_fits : k_strlen ab < length cat
unfolding k_strlen
ab_fits = omega arith
