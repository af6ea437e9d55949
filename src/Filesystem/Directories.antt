-- ===== src/Filesystem/Directories.antt =====
-- internal/backend/fs/directory_linux.go: the managed directories of the filesystem backend.
pub mod Counted
pub mod Prepared
use Prim.Native.Nat.{bit_and}
use common_keyring.Base.{ℕ, String, Bool, true, false, not, ◌||◌, ◌==◌, nat_eq, if◌then◌else◌}
use common_keyring.Errors.{
  GoError, errno, fs_not_exist, fs_exist, fs_permission, eloop, enotdir, permission_denied,
  insecure_fallback, backend_failure, cat, wrap1, wrap2, is, Result, ok, err, Action, Fallible,
}
use common_keyring.Filesystem.Layout.{layout_version}
use common_keyring.Filesystem.Steps.{return, ◌>>=◌, ◌>>◌, relabel, finally}
use common_keyring.Filesystem.System.{Stat}
use common_keyring.Filesystem.Storage.{s_ifmt}

abbrev pub directory_mode : ℕ
directory_mode = 0o700

abbrev pub s_ifdir : ℕ
s_ifdir = 0o040000

-- The calls of the operating system. `open_path` and `open_at` have the flags O_RDONLY, O_CLOEXEC,
-- O_DIRECTORY and O_NOFOLLOW.
pub record Host (W : Type 0) : Type 0 where
  pub mkdir_all : String → ℕ → Action W (Unit {0})
  pub mkdir_at : ℕ → String → ℕ → Action W (Unit {0})
  pub open_path : String → Action W ℕ
  pub open_at : ℕ → String → Action W ℕ
  pub fstat : ℕ → Action W Stat
  pub close : ℕ → Action W (Unit {0})

-- `directoryError`
unfoldable pub directory_error : String → GoError → GoError
directory_error operation e =
    if is e fs_not_exist
    then wrap1 operation e
    else if is e fs_permission
    then wrap2 operation (cat permission_denied) e
    else if is e fs_exist || is e (errno eloop) || is e (errno enotdir)
    then wrap2 operation (cat insecure_fallback) e
    else wrap2 operation (cat backend_failure) e

-- The tests of `validateDirectory` on a status.
unfoldable pub check_directory : ℕ → Stat → Fallible
check_directory effective_uid status =
    if not (bit_and status.mode s_ifmt == s_ifdir)
    then err (wrap1 "managed path is not a directory" (cat insecure_fallback))
    else if not (status.uid == effective_uid)
    then err (wrap1 "directory owner does not match effective user" (cat insecure_fallback))
    else if not (bit_and status.mode 0o077 == 0)
    then err (wrap1 "directory mode grants group or other access" (cat insecure_fallback))
    else ok tt

-- The result of `mkdirat`: a directory that exists is no error.
unfoldable pub made : Fallible → Fallible
unfolding directory_error
made (ok _) = ok tt
made (err e) = if is e fs_exist then ok tt else err (directory_error "create directory" e)

module _ {W : Type 0} (h : Host W) where
  -- `validateDirectory`
  unfoldable pub validate_directory : ℕ → ℕ → Action W (Unit {0})
  unfolding check_directory
  validate_directory directory effective_uid =
      relabel (directory_error "inspect directory") (h.fstat directory) >>= λ status w.
      (check_directory effective_uid status, w)

  unfoldable pub keep_private : ℕ → Fallible → Action W ℕ
  keep_private directory (ok _) w = (ok directory, w)
  keep_private directory (err e) w = (err e, (h.close directory w).1)

  -- The end of `openDirectory` and of `openDirectoryAt`
  unfoldable pub validated : ℕ → ℕ → Action W ℕ
  unfolding validate_directory keep_private
  validated effective_uid directory w =
      let (r, w') = validate_directory directory effective_uid w in keep_private directory r w'

  -- `openDirectory`
  unfoldable pub open_directory : String → ℕ → Action W ℕ
  unfolding validated
  open_directory path effective_uid =
      relabel (directory_error "open directory") (h.open_path path) >>= validated effective_uid

  -- `openDirectoryAt`
  unfoldable pub open_directory_at : ℕ → String → ℕ → Action W ℕ
  unfolding validated
  open_directory_at parent name effective_uid =
      relabel (directory_error "open directory") (h.open_at parent name) >>= validated effective_uid

  unfoldable pub make_directory : ℕ → String → Action W (Unit {0})
  unfolding made
  make_directory parent name w =
      let (r, w') = h.mkdir_at parent name directory_mode w in (made r, w')

  unfoldable pub or_create : ℕ → String → ℕ → Result ℕ → Action W ℕ
  unfolding make_directory open_directory_at
  or_create parent name effective_uid (ok directory) w = (ok directory, w)
  or_create parent name effective_uid (err e) w =
      if is e fs_not_exist
      then (make_directory parent name >> open_directory_at parent name effective_uid) w
      else (err e, w)

  -- `openOrCreateDirectory`
  unfoldable pub open_or_create : ℕ → String → ℕ → Action W ℕ
  unfolding open_directory_at or_create
  open_or_create parent name effective_uid w =
      let (r, w') = open_directory_at parent name effective_uid w in
      or_create parent name effective_uid r w'

  unfoldable pub prepare_service : String → ℕ → ℕ → Action W (Unit {0})
  unfolding open_or_create
  prepare_service service_id effective_uid version =
      relabel (wrap1 "open fallback service") (open_or_create version service_id effective_uid)
      >>= λ service. finally (return tt) (h.close service)

  unfoldable pub prepare_layout : String → ℕ → ℕ → Action W (Unit {0})
  unfolding open_or_create prepare_service
  prepare_layout service_id effective_uid root =
      relabel (wrap1 "open fallback layout") (open_or_create root layout_version effective_uid)
      >>= λ version. finally (prepare_service service_id effective_uid version) (h.close version)

  -- `prepareDirectories`
  unfoldable pub prepare_directories : String → String → ℕ → Action W (Unit {0})
  unfolding open_directory prepare_layout
  prepare_directories root_path service_id effective_uid =
      relabel (directory_error "create fallback root") (h.mkdir_all root_path directory_mode)
      >> (relabel (wrap1 "open fallback root") (open_directory root_path effective_uid) >>= λ root.
          finally (prepare_layout service_id effective_uid root) (h.close root))
