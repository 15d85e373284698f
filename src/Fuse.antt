-- ===== src/Fuse.antt =====
-- The filesystem that serves one guarded file: src/fuse_fs/credential_fs.rs.
pub mod Content
pub mod Commit
pub mod Shared
pub mod Mount
