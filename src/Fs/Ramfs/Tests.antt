-- ===== src/Fs/Ramfs/Tests.antt =====
-- The theorems on ramfs.c at a root directory with one file of four bytes.
use zenith_os.Prelude.{
  ◌+◌, ◌%◌, ◌^◌, ◌≡◌, refl, arith, if◌then◌else◌, none, some, [], ◌∷◌, ◌++◌, take, drop,
}
use zenith_os.KernelErr.{ok, success}
use zenith_os.Klib.String.{Bytes}
use zenith_os.Fs.File.{OpenFile}
use zenith_os.Fs.Vnode.{file, Nodes}
use zenith_os.Fs.Ramfs.{ramfs_lookup, add_child, ramfs_write, ramfs_read, to_int}
use zenith_os.Fs.Ramfs.Names.{same_name}
use zenith_os.Fs.Ramfs.Laws.{ramfs_lookup-add_child}
use zenith_os.Fs.Ramfs.Content.{ramfs_write_overrun, ramfs_read-ramfs_write}
use zenith_os.Fs.Ramfs.Sample.{
  four_bytes, name_b, tree, opened, opened-HasBlock, root-IsDirectory, b_absent, b_short,
}

-- A source of five bytes, and a block of four.
abbrev five_bytes : Bytes
five_bytes = 9 ∷ 8 ∷ 7 ∷ 6 ∷ 5 ∷ []

ramfs_write_overrun_example : ramfs_write none tree (some opened) (some five_bytes) 5 ≡ none
ramfs_write_overrun_example =
    ramfs_write_overrun none tree opened four_bytes opened-HasBlock five_bytes 5 (omega arith)

abbrev old_buffer : Bytes
old_buffer = 0 ∷ 0 ∷ 0 ∷ []

ramfs_read-ramfs_write_example :
    (s' : Nodes) × (f' : OpenFile) × (ramfs_write none tree (some opened) (some (9 ∷ 8 ∷ [])) 2
      ≡ some (success, s', some f'))
    × (ramfs_read s' (some f') (some old_buffer) 3
        ≡ some (
          to_int 2,
          some (take 2 (9 ∷ 8 ∷ []) ++ drop 2 old_buffer),
          some (record f' { position = (2 + 2) % 2 ^ 64 }),
        ))
ramfs_read-ramfs_write_example =
    ramfs_read-ramfs_write none tree opened four_bytes opened-HasBlock (9 ∷ 8 ∷ []) 2 old_buffer 3 2
      (omega arith) (omega arith) (omega arith) refl

ramfs_lookup-add_child_example :
    (s' : Nodes) × (add_child file 24 tree 8 (some name_b) ≡ some (success, s'))
    × ((other : Bytes)
        → ramfs_lookup s' 8 (some other)
          ≡ (if same_name name_b other then ok 24 else ramfs_lookup tree 8 (some other)))
ramfs_lookup-add_child_example =
    ramfs_lookup-add_child file tree 8 24 root-IsDirectory (omega arith) (omega arith) name_b
      b_absent b_short (omega arith, tt) (omega arith)
