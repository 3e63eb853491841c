-- ===== src/Fs/Ramfs/Content.antt =====
-- Writing a file of ramfs and reading it back.
use zenith_os.Prelude.{
  ℕ, zero, suc, ◌+◌, ◌%◌, ◌^◌, ◌≤◌, ◌<◌, ◌≡◌, refl, sym, ap, ◌∙◌, ◌≢◌, Option, none, some, [], ◌∷◌,
  ◌++◌, arith, ltb, if◌then◌else◌, eq→==, ne→==, length, take, drop,
}
use zenith_os.KernelErr.{success}
use zenith_os.Klib.String.{Bytes, cons_some}
use zenith_os.Fs.File.{OpenFile}
use zenith_os.Fs.Vnode.{null, file, Node, Nodes, write_node}
use zenith_os.Fs.Ramfs.{
  copy_block, written, write_result, ramfs_write, to_int, read_result, ramfs_read,
}

-- The block after the copy: the first `n` bytes of the source before the rest of the old ones.
copy_block_lem :
    (n : ℕ) (d s : Bytes)
    → n ≤ length d
    → n ≤ length s
    → copy_block n d s ≡ some (take n s ++ drop n d)
unfolding copy_block
copy_block_lem zero d s h k = refl
copy_block_lem (suc n) [] s h k = absurd (omega arith)
copy_block_lem (suc n) (x ∷ d) [] h k = absurd (omega arith)
copy_block_lem (suc n) (x ∷ d) (c ∷ s) h k =
    ap (cons_some c) (copy_block_lem n d s (omega arith) (omega arith))

copy_block_overrun : (n : ℕ) (d s : Bytes) → length d < n → copy_block n d s ≡ none
unfolding copy_block
copy_block_overrun zero d s h = absurd (omega arith)
copy_block_overrun (suc n) [] s h = refl
copy_block_overrun (suc n) (x ∷ d) [] h = refl
copy_block_overrun (suc n) (x ∷ d) (c ∷ s) h =
    ap (cons_some c) (copy_block_overrun n d s (omega arith))

take-take : (k n : ℕ) (xs ys : Bytes) → k ≤ n → n ≤ length xs → take k (take n xs ++ ys) ≡ take k xs
take-take zero n xs ys h i = refl
take-take (suc k) zero xs ys h i = absurd (omega arith)
take-take (suc k) (suc n) [] ys h i = absurd (omega arith)
take-take (suc k) (suc n) (x ∷ xs) ys h i =
    ap (λ zs. x ∷ zs) (take-take k n xs ys (omega arith) (omega arith))

length-take_append : (n : ℕ) (xs ys : Bytes) → n ≤ length xs → n ≤ length (take n xs ++ ys)
length-take_append zero xs ys h = omega arith
length-take_append (suc n) [] ys h = absurd (omega arith)
length-take_append (suc n) (x ∷ xs) ys h =
    let rest = length-take_append n xs ys (omega arith) in omega arith

-- An open file of ramfs whose node has the block, of `capacity` bytes.
pub record HasBlock (s : Nodes) (f : OpenFile) (block : Bytes) : Type 0 where
  pub some_node : f.node ≢ null
  pub own_data : (s f.node).private_data ≡ f.node
  pub is_regular : (s f.node).type ≡ file
  pub has_block : (s f.node).content ≡ some block
  pub full_block : length block ≡ (s f.node).capacity

read_block :
    (s : Nodes) (f : OpenFile) (block : Bytes) (size n : ℕ) (buffer : Bytes)
    → f.node ≢ null
    → (s f.node).private_data ≡ f.node
    → (s f.node).type ≡ file
    → (s f.node).content ≡ some block
    → (s f.node).size ≡ size
    → let k = if ltb size n then size else n in
      ramfs_read s (some f) (some buffer) n ≡ read_result k f (copy_block k buffer block)
unfolding ramfs_read
read_block s f block size n buffer nn own reg has sz =
    rw (own, ne→== f.node null nn, reg, has, own, sz)

module _ (fresh : Option Bytes) (s : Nodes) (f : OpenFile) (block : Bytes)
    (has : HasBlock s f block) (bytes : Bytes) (size : ℕ) where
  write_lem :
      ramfs_write fresh s (some f) (some bytes) size
      ≡ write_result (written s f.node size f (copy_block size block bytes))
  unfolding ramfs_write
  write_lem =
      rw
        (has.own_data, ne→== f.node null has.some_node, has.is_regular, has.has_block, has.own_data)

  -- A write that is longer than the block of the file runs past its end: `ramfs_write` does not
  -- compare `size` with `capacity`.
  pub ramfs_write_overrun :
      (s f.node).capacity < size → ramfs_write fresh s (some f) (some bytes) size ≡ none
  ramfs_write_overrun h =
      write_lem
      ∙ ap (λ o. write_result (written s f.node size f o))
          (copy_block_overrun size block bytes (omega (arith, has.full_block)))

  abbrev pub after : Nodes
  after =
      write_node s f.node
        (record (s f.node) { content = some (take size bytes ++ drop size block); size = size })

  at_node :
      after f.node
      ≡ record (s f.node) { content = some (take size bytes ++ drop size block); size = size }
  at_node = rw (eq→== f.node f.node refl)

  pub write_returns :
      size ≤ (s f.node).capacity
      → size ≤ length bytes
      → ramfs_write fresh s (some f) (some bytes) size
        ≡ some (success, after, some (record f { position = size }))
  write_returns h k =
      write_lem
      ∙ ap (λ o. write_result (written s f.node size f o))
          (copy_block_lem size block bytes (omega (arith, has.full_block)) k)

  pub read_lem :
      (buffer : Bytes) (n k : ℕ)
      → k ≡ (if ltb size n then size else n)
      → size ≤ length bytes
      → n ≤ length buffer
      → ramfs_read after (some (record f { position = size })) (some buffer) n
        ≡ some (
          to_int k,
          some (take k bytes ++ drop k buffer),
          some (record f { position = (size + k) % 2 ^ 64 }),
        )
  read_lem buffer n k at_k h i =
      let small : k ≤ size = ground arith in
      let fits : k ≤ length buffer = ground arith in
      let room = length-take_append size bytes (drop size block) h in
      let got =
        read_block after (record f { position = size }) (take size bytes ++ drop size block) size n
          buffer has.some_node (ap (λ (r : Node). r.private_data) at_node ∙ has.own_data)
          (ap (λ (r : Node). r.type) at_node ∙ has.is_regular)
          (ap (λ (r : Node). r.content) at_node) (ap (λ (r : Node). r.size) at_node) in
      got
      ∙ ap
          (λ m.
            read_result m (record f { position = size })
              (copy_block m buffer (take size bytes ++ drop size block)))
          (sym at_k)
      ∙ ap (read_result k (record f { position = size }))
          (copy_block_lem k buffer (take size bytes ++ drop size block) fits (omega arith))
      ∙ ap (λ r. read_result k (record f { position = size }) (some (r ++ drop k buffer)))
          (take-take k size bytes (drop size block) small h)

  -- What was written is read back: a write of `size` bytes that fit in the block of the file returns
  -- KERNEL_SUCCESS, and a read of `n` bytes afterwards puts the first `min n size` of them at the
  -- front of the caller's buffer, changes nothing else of it, and returns their number as an `int`.
  pub ramfs_read-ramfs_write :
      (buffer : Bytes) (n k : ℕ)
      → size ≤ (s f.node).capacity
      → size ≤ length bytes
      → n ≤ length buffer
      → k ≡ (if ltb size n then size else n)
      → (s' : Nodes) × (f' : OpenFile) × (ramfs_write fresh s (some f) (some bytes) size
          ≡ some (success, s', some f'))
        × (ramfs_read s' (some f') (some buffer) n
            ≡ some (
              to_int k,
              some (take k bytes ++ drop k buffer),
              some (record f' { position = (size + k) % 2 ^ 64 }),
            ))
  ramfs_read-ramfs_write buffer n k room h i at_k =
      (after, record f { position = size }, write_returns room h, read_lem buffer n k at_k h i)
