-- ===== src/Fs.antt =====
-- internal/fs: the file system's own logic.
pub mod Attributes
pub mod Changes
pub mod Containers
pub mod Deletion
pub mod DirCache
pub mod Directory
pub mod Removal
pub mod Reader
pub mod Retry
pub mod Root
pub mod Upload
