-- ===== src/Fs/Ramfs/Sample.antt =====
-- A root directory of ramfs with one file of four bytes.
use zenith_os.Prelude.{◌≡◌, ◌<◌, refl, arith, if◌then◌else◌, ◌==◌, some, [], ◌∷◌}
use zenith_os.KernelErr.{err, enoent}
use zenith_os.Klib.String.{Bytes, k_strlen, k_strcmp}
use zenith_os.Fs.File.{OpenFile}
use zenith_os.Fs.Vnode.{directory, Nodes, blank, FileSystem}
use zenith_os.Fs.Ramfs.{find_child, ramfs_lookup}
use zenith_os.Fs.Ramfs.Names.{IsDirectory}
use zenith_os.Fs.Ramfs.Content.{HasBlock}

abbrev pub four_bytes : Bytes
four_bytes = 1 ∷ 2 ∷ 3 ∷ 4 ∷ []

abbrev pub name_a : Bytes
name_a = b'a' ∷ 0 ∷ []

abbrev pub name_b : Bytes
name_b = b'b' ∷ 0 ∷ []

-- The root at 8 and the file `a` at 16.
abbrev pub tree : Nodes
tree p =
    if p == 8
    then record blank { type = directory; private_data = 8; children = 16 ∷ [] }
    else record blank {
      name = name_a;
      private_data = 16;
      parent = 8;
      content = some four_bytes;
      capacity = 4;
      size = 4;
    }

abbrev pub opened : OpenFile
opened = record { node = 16; position = 0; flags = 0; refcount = 1 }

pub opened-HasBlock : HasBlock tree opened four_bytes
opened-HasBlock = record {
  some_node = omega arith;
  own_data = refl;
  is_regular = refl;
  has_block = refl;
  full_block = refl;
}

pub root-IsDirectory : IsDirectory tree 8
root-IsDirectory = record { not_null = omega arith; own_data = refl; type = refl }

pub b_absent : ramfs_lookup tree 8 (some name_b) ≡ err enoent
unfolding ramfs_lookup find_child k_strcmp
b_absent = refl

pub b_short : k_strlen name_b < 64
unfolding k_strlen
b_short = omega arith

abbrev pub no_system : FileSystem
no_system = record { name = []; root = 0 }
