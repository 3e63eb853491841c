-- ===== src/Klib/Memory/Tests.antt =====
-- The theorems on memory.c at a memory in which each byte is its address.
use zenith_os.Prelude.{◌≡◌, refl}
use zenith_os.Prelude.Int.{pos}
use zenith_os.Klib.Memory.{Memory, k_memmove, k_memcmp}
use zenith_os.Klib.Memory.Laws.{moved, k_memmove_lem}

abbrev counting : Memory
counting a = a

k_memmove_lem_example : k_memmove counting 12 10 4 13 ≡ moved 4 counting 12 10 13
k_memmove_lem_example = k_memmove_lem counting 12 10 4 13

abbrev all_seven : Memory
all_seven a = 7

equal_ranges : k_memcmp 3 all_seven 10 20 ≡ pos 0
unfolding k_memcmp
equal_ranges = refl
