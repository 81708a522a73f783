-- ===== src/Fd.antt =====
-- IXLandSystem/fs: descriptors, the per-task tables and the table of the library.
pub mod Errno
pub mod Files
pub mod Calls
pub mod Static
