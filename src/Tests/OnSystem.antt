-- ===== src/Tests/OnSystem.antt =====
-- A concrete opening of the storage on `realLinuxSystem`.
use common_keyring.Base.{ℕ, String, none, [], codes, ◌≡◌, refl}
use common_keyring.Base.Bytes.{equal, has_prefix, to_lower}
use common_keyring.Errors.{ok, is, Action}
use common_keyring.Filesystem.Steps.{relabel, ◌>>=◌, finally}
use common_keyring.Filesystem.Paths.{clean, written, relative}
use common_keyring.Filesystem.Mounts.{parse_line}
use common_keyring.Filesystem.Mounts.Validation.{
  validate_mount, parse_mount_info, select_mount, applies, path_within_mount, prefers, is_drvfs,
}
use common_keyring.Filesystem.Directories.{prepare_directories}
use common_keyring.Contract.{Bytes}
use common_keyring.Filesystem.Storage.{Storage}
use common_keyring.Filesystem.Mounts.Accepted.{AcceptedMount}
use common_keyring.Filesystem.Directories.Prepared.{Prepared}
use common_keyring.Filesystem.Keyring.{open_storage}
use common_keyring.Filesystem.RealSystem.{Calls, real_system, process, open_storage-Prepared}
use common_keyring.Tests.MountTable.{host}
use common_keyring.Tests.Platforms

abbrev calls : Calls ℕ
calls = record {
  environment = host;
  directories = Platforms.host 0o040700;
  open_file_at = λ parent name flags mode w. (ok w, w);
  fchmod = λ d mode w. (ok tt, w);
  read = λ d w. (([], none), w);
  write = λ d contents w. ((0, none), w);
  fsync = λ d w. (ok tt, w);
  rename_at = λ from old to new w. (ok tt, w);
  unlink_at = λ d name w. (ok tt, w);
  random = λ n w. (ok [], w);
}

abbrev absolute : String → Action ℕ String
absolute path w = (ok path, w)

abbrev digest : Bytes → Bytes
digest contents = contents

abbrev mutex : ℕ → ℕ → ℕ
mutex n w = w

abbrev opened_storage : Storage ℕ
opened_storage = record {
  root_path = "/secrets";
  service_id = "mail";
  effective_uid = 1000;
  system = real_system calls;
  sha256 = digest;
  read_rounds = 4;
}

opened_run :
    open_storage (process calls absolute 1000 4 digest mutex mutex) "/secrets" "mail" 0
    ≡ (ok opened_storage, 3)
unfolding open_storage relabel ◌>>=◌ finally validate_mount clean equal written is parse_mount_info
    parse_line select_mount applies path_within_mount relative has_prefix prefers is_drvfs to_lower
    prepare_directories
opened_run = refl

open_storage-Prepared_example :
    (w1 : ℕ) × AcceptedMount host (codes "/secrets") 0 w1
    × Prepared (Platforms.host 0o040700) "/secrets" "mail" 1000 w1 3
open_storage-Prepared_example =
    open_storage-Prepared calls absolute 1000 4 digest mutex mutex "/secrets" "mail" 0 3
      opened_storage opened_run
