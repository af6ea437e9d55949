-- ===== src/Filesystem/Posix/Kernel.antt =====
-- What `realLinuxSystem` of internal/backend/fs/storage_linux.go relies on of the operating system,
-- and what the storage may rely on then.
pub mod Managed
pub mod Mounted
pub mod Real
pub mod Locked
pub mod Stopping
pub mod Crash
use common_keyring.Base.{ℕ, String, List, [], ◌∷◌, ◌≡◌}
use common_keyring.Errors.{Result, ok, Action}
use common_keyring.Contract.{Bytes}
use common_keyring.Filesystem.Directories
use common_keyring.Filesystem.Mounts.Validation.{Environment}
use common_keyring.Filesystem.Posix.{Place, View, Calm}
use common_keyring.Filesystem.Posix.Quiet.{Unused, Spared, Quiet, Opens}

-- The calls on directories: those that make one change no file, and one that opens a directory
-- returns a new descriptor.
pub record Kernel {W : Type 0} (h : Directories.Host W) (root_path : String) (v : View W)
    : Type 0 where
  pub mkdir_all_quiet : (path : String) (mode : ℕ) → Quiet v (h.mkdir_all path mode)
  pub mkdir_at_quiet : (p : ℕ) (name : String) (mode : ℕ) → Quiet v (h.mkdir_at p name mode)
  pub open_path_opens : (path : String) (w : W) → Opens v (h.open_path path) w
  pub open_at_opens : (p : ℕ) (name : String) (w : W) → Opens v (h.open_at p name) w
  pub fstat_quiet : (d : ℕ) → Quiet v (h.fstat d)
  pub close_spares : (d : ℕ) (w : W) → Spared v d w (h.close d w).1
  pub root_inside : (d : ℕ) (w w' : W) → h.open_path root_path w ≡ (ok d, w') → v.inside w' d []
  pub at_inside :
      (p d : ℕ) (name : String) (place : Place) (w w' : W)
      → v.inside w p place
      → h.open_at p name w ≡ (ok d, w')
      → v.inside w' d (name ∷ place)

-- The reading of the mount table and of the status of paths changes no file.
pub record Inspects {W : Type 0} (env : Environment W) (v : View W) : Type 0 where
  pub absolute_quiet : (path : Bytes) → Quiet v (env.absolute path)
  pub stat_quiet : (path : Bytes) → Quiet v (env.stat path)
  pub evaluate_symlinks_quiet : (path : Bytes) → Quiet v (env.evaluate_symlinks path)
  pub mount_info_quiet : Quiet v env.mount_info
  pub close_mount_info_calm : (w : W) → Calm v w (env.close_mount_info w)
