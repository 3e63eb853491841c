-- ===== src/Klib/String/Laws.antt =====
-- What string.c does to strings, seen as the lists of their bytes without the NUL.
use zenith_os.Prelude.{
  ℕ, suc, ◌<◌, ◌≡◌, refl, ◌↔◌, inl, inr, not, ◌&&◌, some, [], ◌∷◌, ◌++◌, arith, ltb, ◌==◌,
  if◌then◌else◌, Bool-cases, length, drop,
}
use zenith_os.Prelude.Int.{pos}
use zenith_os.Klib.String.{Bytes, k_strlen, byte_difference, k_strcmp, k_strcpy}

-- The string at a pointer.
unfoldable pub text : Bytes → Bytes
text [] = []
text (c ∷ s) = if c == 0 then [] else c ∷ text s

pub byte_difference_zero : (a b : ℕ) → byte_difference a b ≡ pos 0 → a ≡ b
byte_difference_zero a b e = elim (Bool-cases (ltb a b)) [
  | inl lt ↦ absurd (cc (rw lt at e))
  | inr ge ↦ ground (arith, e)
]

k_strcmp_sound : (s t : Bytes) → k_strcmp s t ≡ pos 0 → text s ≡ text t
unfolding k_strcmp text
k_strcmp_sound [] [] e = refl
k_strcmp_sound [] (b ∷ t) e = let z = byte_difference_zero 0 b e in ground (arith, z)
k_strcmp_sound (a ∷ s) [] e = let z = byte_difference_zero a 0 e in ground (arith, z)
k_strcmp_sound (a ∷ s) (b ∷ t) e = elim (Bool-cases (not (a == 0) && a == b)) [
  | inl go ↦ ground (arith, k_strcmp_sound s t (rw go at e))
  | inr stop ↦ let z = byte_difference_zero a b (rw stop at e) in ground (arith, z)
]

k_strcmp_complete : (s t : Bytes) → text s ≡ text t → k_strcmp s t ≡ pos 0
unfolding k_strcmp text
k_strcmp_complete [] [] e = refl
k_strcmp_complete [] (b ∷ t) e = ground arith
k_strcmp_complete (a ∷ s) [] e = ground arith
k_strcmp_complete (a ∷ s) (b ∷ t) e = ground (arith, k_strcmp_complete s t)

-- `k_strcmp` returns 0 exactly for equal strings.
pub k_strcmp_iff : (s t : Bytes) → (k_strcmp s t ≡ pos 0) ↔ (text s ≡ text t)
k_strcmp_iff s t = (k_strcmp_sound s t, k_strcmp_complete s t)

-- `k_strlen` is the length of the string.
pub k_strlen_lem : (s : Bytes) → k_strlen s ≡ length (text s)
unfolding k_strlen text
k_strlen_lem [] = refl
k_strlen_lem (c ∷ s) = ground (arith, k_strlen_lem s)

-- `k_strcpy` into an object that is longer than the string writes the string and its NUL, and
-- leaves the bytes behind them.
pub k_strcpy_lem :
    (dest s : Bytes)
    → k_strlen s < length dest
    → k_strcpy dest s ≡ some (text s ++ (0 ∷ drop (suc (k_strlen s)) dest))
unfolding k_strcpy text k_strlen
k_strcpy_lem [] s h = absurd (omega arith)
k_strcpy_lem (d ∷ dest) [] h = refl
k_strcpy_lem (d ∷ dest) (c ∷ s) h = elim (Bool-cases (c == 0)) [
  | inl end ↦ rw end
  | inr more ↦ rw (more, k_strcpy_lem dest s (ground arith))
]

pub text-append : (s rest : Bytes) → text (text s ++ (0 ∷ rest)) ≡ text s
unfolding text
text-append [] rest = refl
text-append (c ∷ s) rest = elim (Bool-cases (c == 0)) [
  | inl end ↦ rw end (ground arith)
  | inr more ↦ rw more (ground (arith, text-append s rest))
]
