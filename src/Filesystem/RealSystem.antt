-- ===== src/Filesystem/RealSystem.antt =====
-- `realLinuxSystem` of internal/backend/fs/storage_linux.go: the operations of the storage by the
-- mount table, the managed directories and the calls of the operating system.
use common_keyring.Base.{ℕ, String, Option, List, codes, ◌≡◌, ◌∙◌, ap}
use common_keyring.Errors.{GoError, Action, ok}
use common_keyring.Contract.{Bytes}
use common_keyring.Filesystem.Steps.Runs.{relabel-ok, bind-ok}
use common_keyring.Filesystem.System.{System, Flag}
use common_keyring.Filesystem.Mounts.Validation.{Environment, validate_mount}
use common_keyring.Filesystem.Mounts.Accepted.{AcceptedMount, validate_mount-AcceptedMount}
use common_keyring.Filesystem.Directories
use common_keyring.Filesystem.Directories.Prepared.{Prepared, prepare_directories-Prepared}
use common_keyring.Filesystem.Storage.{Storage}
use common_keyring.Filesystem.Keyring

-- What the operating system offers besides the mount table and the calls on directories.
pub record Calls (W : Type 0) : Type 0 where
  pub environment : Environment W
  pub directories : Directories.Host W
  pub open_file_at : ℕ → String → List Flag → ℕ → Action W ℕ
  pub fchmod : ℕ → ℕ → Action W (Unit {0})
  pub read : ℕ → W → (Bytes × Option GoError) × W
  pub write : ℕ → Bytes → W → (ℕ × Option GoError) × W
  pub fsync : ℕ → Action W (Unit {0})
  pub rename_at : ℕ → String → ℕ → String → Action W (Unit {0})
  pub unlink_at : ℕ → String → Action W (Unit {0})
  pub random : ℕ → Action W Bytes

-- `realLinuxSystem`
abbrev pub real_system : {W : Type 0} → Calls W → System W
real_system c = record {
  validate_mount = λ path. validate_mount c.environment (codes path);
  prepare_directories = Directories.prepare_directories c.directories;
  open_directory = Directories.open_directory c.directories;
  open_directory_at = Directories.open_directory_at c.directories;
  open_file_at = c.open_file_at;
  fstat = c.directories.fstat;
  fchmod = c.fchmod;
  read = c.read;
  write = c.write;
  fsync = c.fsync;
  close = c.directories.close;
  rename_at = c.rename_at;
  unlink_at = c.unlink_at;
  random = c.random;
}

module _ {W : Type 0} (c : Calls W) (absolute : String → Action W String) (uid rounds : ℕ)
    (sha256 : Bytes → Bytes) (lock unlock : ℕ → W → W) where
  -- The process on the real system.
  abbrev pub process : Keyring.Host W
  process = record {
    absolute_path = absolute;
    effective_uid = uid;
    system = real_system c;
    sha256 = sha256;
    read_rounds = rounds;
    lock = lock;
    unlock = unlock;
  }

  -- Where the storage of the filesystem opens on the real system, the validation of the root path
  -- went from the first state to one in which the path was on an accepted mount, and the steps of
  -- `Prepared` lead from that state to the one that the run leaves: the root, the directory of the
  -- layout and that of the service are opened or made in this order, each in the one before, found
  -- private to the effective user, and closed.
  pub open_storage-Prepared :
      (root_path service_id : String) (w w' : W) (s : Storage W)
      → Keyring.open_storage process root_path service_id w ≡ (ok s, w')
      → (w1 : W) × AcceptedMount c.environment (codes root_path) w w1
        × Prepared c.directories root_path service_id uid w1 w'
  unfolding Keyring.open_storage
  open_storage-Prepared root_path service_id w w' s h =
      let (_, w1, a, e) = bind-ok _ _ w w' s (relabel-ok _ _ w w' s h) in
      let (_, w2, p, r) = bind-ok _ _ w1 w' s e in
      let ends : w2 ≡ w' = ap (λ p. p.1) r in
      (
        w1,
        validate_mount-AcceptedMount c.environment (codes root_path) w w1 a,
        prepare_directories-Prepared c.directories root_path service_id uid w1 w'
            (p ∙ ap (λ x. (ok tt, x)) ends),
      )
