-- ===== src/Fs/Fd/Tests.antt =====
-- The theorems on fd.c at a table with one file.
use zenith_os.Prelude.{◌≡◌, refl, ◌∷◌, length, replicate}
use zenith_os.Fs.Fd.{Files, fd_max}

abbrev one_file : Files
one_file = 4096 ∷ replicate 63 0

one_file-size : length one_file ≡ fd_max
one_file-size = refl
