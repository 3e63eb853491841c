-- ===== src/Klib/Memory.antt =====
-- kernel/src/lib/memory.c. The memory is a function from addresses to bytes; the loops count the
-- bytes that are left.
pub mod Laws
mod Tests
use zenith_os.Prelude.{ℕ, zero, suc, ◌+◌, ◌-◌, ◌%◌, ◌==◌, ltb, if◌then◌else◌, Bool}
use zenith_os.Prelude.Int.{ℤ, pos, negsuc}
use zenith_os.Klib.String.{byte_difference}

abbrev pub Memory : Type 0
Memory = ℕ → ℕ

-- `*p = v`
abbrev pub store : Memory → ℕ → ℕ → Memory
store m p v a = if a == p then v else m a

-- The loop that goes up from the first byte, also that of `k_memmove` for `d < s`.
unfoldable pub copy_up : ℕ → Memory → ℕ → ℕ → Memory
copy_up zero m d s = m
copy_up (suc n) m d s = copy_up n (store m d (m s)) (d + 1) (s + 1)

-- The loop that goes down from the last byte.
unfoldable pub copy_down : ℕ → Memory → ℕ → ℕ → Memory
copy_down zero m d s = m
copy_down (suc n) m d s = copy_down n (store m (d + n) (m (s + n))) d s

unfoldable pub k_memcpy : Memory → ℕ → ℕ → ℕ → Memory
k_memcpy m dest src n = copy_up n m dest src

unfoldable pub k_memmove : Memory → ℕ → ℕ → ℕ → Memory
k_memmove m dest src n =
    if ltb dest src
    then copy_up n m dest src
    else if ltb src dest
    then copy_down n m dest src
    else m

unfoldable pub set_up : ℕ → Memory → ℕ → ℕ → Memory
set_up zero m p v = m
set_up (suc n) m p v = set_up n (store m p v) (p + 1) v

-- `c` is the `int` that the code converts to a byte, modulo 2 ^ 32.
unfoldable pub k_memset : Memory → ℕ → ℕ → ℕ → Memory
k_memset m p c n = set_up n m p (c % 256)

unfoldable pub k_memcmp : ℕ → Memory → ℕ → ℕ → ℤ
k_memcmp zero m a b = pos 0
k_memcmp (suc n) m a b =
    let rest = k_memcmp n m (a + 1) (b + 1) in
    if m a == m b then rest else byte_difference (m a) (m b)
