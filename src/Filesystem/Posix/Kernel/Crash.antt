-- ===== src/Filesystem/Posix/Kernel/Crash.antt =====
-- What internal/backend/fs/storage_linux.go leaves of the files when its process is stopped.
use common_keyring.Base.{ℕ, String, some, none, ◌≡◌, ◌⊎◌}
use common_keyring.Contract.{Bytes}
use common_keyring.Filesystem.Storage.{Storage, get, set, delete}
use common_keyring.Filesystem.RealSystem.{Calls, real_system}
use common_keyring.Filesystem.Posix.{Place, View, Held, Files}
use common_keyring.Filesystem.Posix.Folder.{folder}
use common_keyring.Filesystem.Posix.Temporary.{Temporary}
use common_keyring.Filesystem.Posix.Atomic.{credential, set-Atomic}
use common_keyring.Filesystem.Posix.Reading.{get-Got}
use common_keyring.Filesystem.Posix.Removal.{delete-Removed}
use common_keyring.Filesystem.Posix.Kernel.{Kernel, Inspects}
use common_keyring.Filesystem.Posix.Kernel.Real.{real_storage, real_storage-Posix}
use common_keyring.Filesystem.Posix.Kernel.Stopping.{
  stopping, seen, stopping-Files, stopping-Kernel, stopping-Inspects,
}

module _ {W : Type 0} (c : Calls W) (root_path service_id : String) (uid rounds : ℕ)
    (sha256 : Bytes → Bytes) where
  -- The storage on the real system, in a process that is stopped.
  abbrev pub interrupted : Storage (W × ℕ)
  interrupted = real_storage (stopping c) root_path service_id uid rounds sha256

  -- Behind whatever number of calls of the operating system the process is stopped, a credential is
  -- as it was or holds the whole new value during a `set`, and is as it was or removed during a
  -- `delete`. No other file has changed, but for temporary ones in the directory of the storage
  -- during a `set`; and a `get` changes none. The calls of the operating system behave as
  -- documented, and do nothing once the process is stopped.
  pub operations-stopped :
      (v : View W)
      → Kernel c.directories root_path v
      → Inspects c.environment v
      → Files (real_system c) v
      → (key : String) (value : Bytes) (w : W) (calls : ℕ)
      → let own = credential interrupted key in
        let w1 = (set interrupted key value (w, calls)).1.0 in
        let w2 = (delete interrupted key (w, calls)).1.0 in
        (Held v (λ q. Temporary (folder interrupted) q ⊎ (q ≡ own)) w w1)
        × ((v.holds w1 own ≡ v.holds w own) ⊎ (v.holds w1 own ≡ some value))
        × (Held v (λ q. q ≡ own) w w2)
        × ((v.holds w2 own ≡ v.holds w own) ⊎ (v.holds w2 own ≡ none))
        × ((q : Place) → v.holds (get interrupted key (w, calls)).1.0 q ≡ v.holds w q)
  operations-stopped v kernel inspects files key value w calls =
      let posix =
        real_storage-Posix (stopping c) root_path service_id uid rounds sha256 (seen v)
          (stopping-Kernel v c root_path kernel) (stopping-Inspects v c inspects)
          (stopping-Files v c files) in
      let x = set-Atomic interrupted (seen v) posix key value (w, calls) in
      let y = delete-Removed interrupted (seen v) posix key (w, calls) in
      (x.held, x.own, y.held, y.now, (get-Got interrupted (seen v) posix key (w, calls)).held)
