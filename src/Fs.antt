-- ===== src/Fs.antt =====
-- kernel/src/fs: descriptors, paths, and the file systems behind them.
pub mod Fd
pub mod Path
pub mod Vnode
pub mod File
pub mod Ramfs
pub mod Vfs
pub mod Tables
pub mod SysFile
