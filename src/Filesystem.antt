-- ===== src/Filesystem.antt =====
-- internal/backend/fs: credentials as files below a directory, on Linux.
pub mod Steps
pub mod Faults
pub mod Layout
pub mod System
pub mod Paths
pub mod Directories
pub mod Mounts
pub mod Writing
pub mod Storage
pub mod Keyring
pub mod RealSystem
pub mod Posix
pub mod Elsewhere
