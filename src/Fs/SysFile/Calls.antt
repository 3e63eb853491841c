-- ===== src/Fs/SysFile/Calls.antt =====
-- About the file calls of sys_file.c on files of ramfs.
use zenith_os.Prelude.{
  ℕ, ◌+◌, ◌%◌, ◌^◌, ◌≤◌, ltb, ◌<◌, if◌then◌else◌, ◌≡◌, refl, sym, ap, ◌∙◌, ◌≢◌, Option, some, List,
  ◌++◌, eq→==, ne→==, length, take, drop, get_or, set, subst,
}
use zenith_os.Prelude.Int.{ℤ, pos}
use zenith_os.KernelErr.{Result, ok, err, success, code, Errno, enomem}
use zenith_os.Klib.String.{Bytes}
use zenith_os.Fs.Vnode.{Ptr, null}
use zenith_os.Fs.File.{OpenFile, write_file, file_open}
use zenith_os.Fs.Fd.{Files, fd_max, fd_get, fd_allocate}
use zenith_os.Fs.Fd.Laws.{TakenBelow, Outcome, allocated, full, fd_allocate-Outcome}
use zenith_os.Fs.Ramfs.{ramfs_read, to_int}
use zenith_os.Fs.Ramfs.Content.{HasBlock, after, write_returns, read_lem}
use zenith_os.Fs.Tables.{ramfs_vnode_ops}
use zenith_os.Fs.Vfs.{
  VnodeOperations, call_write, call_read, vfs_open, vfs_lookup, vfs_write, vfs_read, open_found,
  store_written, store_read,
}
use zenith_os.Fs.Vfs.Root.{all_ramfs}
use zenith_os.Fs.SysFile.{
  FileState, int_result, allocate_opened, sys_open, read_file, sys_read, write_file_to, sys_write,
  after_read, after_write,
}

module _ (ops : Ptr → Option VnodeOperations) (block : Ptr) (s : FileState) (table : Files)
    (process : s.fds ≡ some table) (path : List ℕ) where
  sys_open-found :
      {node : Ptr}
      → vfs_lookup ops s.vfs (some path) ≡ some (ok node)
      → node ≢ null
      → block ≢ null
      → let r = fd_allocate (some table) block in
        sys_open ops block s (some path)
        ≡ some (
          int_result r.0,
          record s {
            files =
                write_file s.files block
                  (record { node = node; position = 0; flags = 0; refcount = 1 });
            fds = r.1;
          },
        )
  unfolding sys_open vfs_open open_found allocate_opened file_open
  sys_open-found {node} found nn na = rw (process, found, ne→== node null nn, ne→== block null na)

  sys_open_error :
      {e : Errno}
      → vfs_lookup ops s.vfs (some path) ≡ some (err e)
      → sys_open ops block s (some path) ≡ some (code e, s)
  unfolding sys_open vfs_open open_found allocate_opened
  sys_open_error found = rw (process, found)

-- What `sys_open` of a node returns: the lowest free descriptor, which leads to the new file at the
-- start of the node, or KERNEL_ENOMEM where every slot is taken. The other slots and the files
-- behind other pointers are as before.
pub data Opened (s : FileState) (table : Files) (node block : Ptr)
    : Option (ℤ × FileState) → Type 0 where
  opened_at :
      (fd : ℕ) (s' : FileState)
      → fd < fd_max
      → get_or table fd 0 ≡ 0
      → TakenBelow table fd
      → s'.fds ≡ some (set table fd block)
      → (s'.files block).node ≡ node
      → (s'.files block).position ≡ 0
      → ((p : Ptr) → p ≢ block → s'.files p ≡ s.files p)
      → s'.vfs ≡ s.vfs
      → Opened s table node block (some (pos fd, s'))
  no_slot :
      (s' : FileState)
      → TakenBelow table fd_max
      → s'.fds ≡ some table
      → Opened s table node block (some (code enomem, s'))

module _ (ops : Ptr → Option VnodeOperations) (block : Ptr) (s : FileState) (table : Files)
    (process : s.fds ≡ some table) where
  -- With a current process whose table has FD_MAX slots, `sys_open` of a path that leads to a node, with
  -- memory for the file, fills the lowest free slot with a new file at the start of that node and
  -- returns its number, with every other file as before; where every slot is taken it returns
  -- KERNEL_ENOMEM and the table is as before.
  pub sys_open-Opened :
      (path : List ℕ) {node : Ptr}
      → length table ≡ fd_max
      → vfs_lookup ops s.vfs (some path) ≡ some (ok node)
      → node ≢ null
      → block ≢ null
      → Opened s table node block (sys_open ops block s (some path))
  sys_open-Opened path {node} size found nn na =
      subst (Opened s table node block)
        (sym (sys_open-found ops block s table process path found nn na))
        (opened (fd_allocate-Outcome table block size na))
    where
      new : OpenFile
      new = record { node = node; position = 0; flags = 0; refcount = 1 }

      at_new : write_file s.files block new block ≡ new
      at_new = rw (eq→== block block refl)

      opened :
          {r : Result ℕ × Option Files}
          → Outcome table block r
          → Opened s table node block
              (some (int_result r.0, record s { files = write_file s.files block new; fds = r.1 }))
      opened (allocated fd k z t) =
          opened_at fd
            (record s { files = write_file s.files block new; fds = some (set table fd block) }) k z
            t refl (ap (λ (f : OpenFile). f.node) at_new) (ap (λ (f : OpenFile). f.position) at_new)
            (λ p ne. rw (ne→== p block ne)) refl
      opened (full t) =
          no_slot (record s { files = write_file s.files block new; fds = some table }) t refl

module _ (ops : Ptr → Option VnodeOperations) (s : FileState) (table : Files) (fd : ℤ) (p : Ptr)
    (process : s.fds ≡ some table) (leads : fd_get (some table) fd ≡ p) (some_file : p ≢ null)
    (some_node : (s.files p).node ≢ null) where
  sys_write_lem :
      (buffer : Option Bytes) (size : ℕ)
      → sys_write ops s fd buffer size
        ≡ after_write s (call_write (ops (s.files p).node) s.vfs s.files p buffer size)
  unfolding sys_write write_file_to vfs_write
  sys_write_lem buffer size =
      rw (process, leads, ne→== p 0 some_file, ne→== (s.files p).node null some_node)

  sys_read_lem :
      (buffer : Option Bytes) (size : ℕ)
      → sys_read ops s fd buffer size
        ≡ after_read s (call_read (ops (s.files p).node) s.vfs s.files p buffer size)
  unfolding sys_read read_file vfs_read
  sys_read_lem buffer size =
      rw (process, leads, ne→== p 0 some_file, ne→== (s.files p).node null some_node)

-- A descriptor of the current process for a file of ramfs whose node has the block.
pub record IsOpen (s : FileState) (fd : ℤ) (block : Bytes) : Type 0 where
  pub table : Files
  pub file : Ptr
  pub process : s.fds ≡ some table
  pub leads : fd_get (some table) fd ≡ file
  pub some_file : file ≢ null
  pub has : HasBlock s.vfs.nodes (s.files file) block

module _ (fresh : Option Bytes) (s : FileState) (fd : ℤ) (block : Bytes) (is : IsOpen s fd block)
    (bytes : Bytes) (size : ℕ) where
  -- Through a descriptor of the current process for a file of ramfs whose node has a block: `sys_write` of
  -- `size` bytes that the buffer has and that fit in the block returns KERNEL_SUCCESS, and `sys_read`
  -- of `n` bytes into a buffer that is as long, through the same descriptor, afterwards returns the
  -- number of the first `min n size` of them as an `int` and puts them at the front of the caller's
  -- buffer, the rest of which is as before.
  pub sys_read-sys_write :
      (buffer : Bytes) (n k : ℕ)
      → size ≤ (s.vfs.nodes (s.files is.file).node).capacity
      → size ≤ length bytes
      → n ≤ length buffer
      → k ≡ (if ltb size n then size else n)
      → (s' s'' : FileState) × (sys_write (all_ramfs fresh) s fd (some bytes) size
          ≡ some (success, s'))
        × (sys_read (all_ramfs fresh) s' fd (some buffer) n
            ≡ some (to_int k, some (take k bytes ++ drop k buffer), s''))
  unfolding call_write call_read ramfs_vnode_ops
  sys_read-sys_write buffer n k room h i at_k =
      let p = is.file in
      let f = s.files p in
      let f' : OpenFile = record f { position = size } in
      let v' = record s.vfs { nodes = after fresh s.vfs.nodes f block is.has bytes size } in
      let s' : FileState = record s { vfs = v'; files = write_file s.files p f' } in
      let at_file : s'.files p ≡ f' = rw (eq→== p p refl) in
      let f'' : OpenFile = record f' { position = (size + k) % 2 ^ 64 } in
      (
        s',
        record s' { files = write_file s'.files p f'' },
        sys_write_lem (all_ramfs fresh) s is.table fd p is.process is.leads is.some_file
              is.has.some_node (some bytes) size
            ∙ ap (λ o. after_write s (store_written s.vfs s.files p o))
                (write_returns fresh s.vfs.nodes f block is.has bytes size room h),
        sys_read_lem (all_ramfs fresh) s' is.table fd p is.process is.leads is.some_file
              (λ e. is.has.some_node (sym (ap (λ (g : OpenFile). g.node) at_file) ∙ e))
              (some buffer) n
            ∙ ap
                (λ g.
                  after_read s'
                    (store_read s'.files p (ramfs_read v'.nodes (some g) (some buffer) n)))
                at_file
            ∙ ap (λ o. after_read s' (store_read s'.files p o))
                (read_lem fresh s.vfs.nodes f block is.has bytes size buffer n k at_k h i),
      )
