-- ===== src/Filesystem/Posix/Kernel/Real.antt =====
-- `realLinuxSystem` of internal/backend/fs/storage_linux.go keeps what the storage relies on.
use common_keyring.Base.{ℕ, String, codes}
use common_keyring.Contract.{Bytes}
use common_keyring.Filesystem.Storage.{Storage}
use common_keyring.Filesystem.RealSystem.{Calls, real_system}
use common_keyring.Filesystem.Posix.{View, Files, Posix}
use common_keyring.Filesystem.Posix.Kernel.{Kernel, Inspects}
use common_keyring.Filesystem.Posix.Kernel.Mounted.{validate_mount-Quiet}
use common_keyring.Filesystem.Posix.Kernel.Managed.{
  prepare_directories-Quiet, open_directory-Opens, open_directory_at-Opens, open_directory-inside,
  open_directory_at-inside,
}

module _ {W : Type 0} (c : Calls W) (root_path service_id : String) (uid rounds : ℕ)
    (sha256 : Bytes → Bytes) where
  -- The storage that `openLinuxStorage` makes.
  abbrev pub real_storage : Storage W
  real_storage = record {
    root_path = root_path;
    service_id = service_id;
    effective_uid = uid;
    system = real_system c;
    sha256 = sha256;
    read_rounds = rounds;
  }

  module _ (v : View W) (kernel : Kernel c.directories root_path v)
      (inspects : Inspects c.environment v) (files : Files (real_system c) v) where
    pub real_storage-Posix : Posix real_storage v
    real_storage-Posix = record {
      files = files;
      validate_mount_calm = λ path w. validate_mount-Quiet c.environment v inspects (codes path) w;
      prepare_calm = prepare_directories-Quiet c.directories root_path v kernel;
      open_directory_calm =
          λ path u w. (open_directory-Opens c.directories root_path v kernel path u w).calm;
      open_directory_at_calm =
          λ p name u w. (open_directory_at-Opens c.directories root_path v kernel p name u w).calm;
      opened_root = λ d w w' h. open_directory-inside c.directories root_path v kernel uid d w w' h;
      opened_at = λ p d name place w w' on h.
          open_directory_at-inside c.directories root_path v kernel p uid d name place w w' on h;
    }
