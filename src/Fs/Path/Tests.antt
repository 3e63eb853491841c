-- ===== src/Fs/Path/Tests.antt =====
-- The theorem on path.c at the path "//dev/tty".
use zenith_os.Prelude.{ℕ, List, [], ◌∷◌, arith}
use zenith_os.Fs.Path.{slash}
use zenith_os.Fs.Path.Split.{IsName}

abbrev dev : List ℕ
dev = b'd' ∷ b'e' ∷ b'v' ∷ []

abbrev tty : List ℕ
tty = slash ∷ b't' ∷ b't' ∷ b'y' ∷ []

dev-IsName : IsName dev
dev-IsName = record {
  not_empty = λ e. cc;
  no_slash = (omega arith, (omega arith, (omega arith, tt)));
  fits = omega arith;
}
