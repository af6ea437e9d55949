-- ===== src/Filesystem/Storage.antt =====
-- internal/backend/fs/storage_linux.go: reading, replacing and deletion of credentials.
pub mod Traces
pub mod Balance
pub mod Descriptors
pub mod Sessions
pub mod Failures
pub mod Abandoned
pub mod Replaced
pub mod Loops
use Prim.Native.Nat.{bit_and, pred}
use common_keyring.Base.{
  ℕ, zero, suc, String, ◌<>◌, Bool, true, false, not, Option, none, some, List, [], ◌∷◌, ◌++◌, ◌==◌,
  nat_eq, length, drop, if◌then◌else◌,
}
use common_keyring.Errors.{
  GoError, Category, cat, leaf, plain, wrap1, fs_not_exist, fs_exist, short_write,
  insecure_fallback, is, Result, Fallible, ok, err, Action,
}
use common_keyring.Contract.{Bytes}
use common_keyring.Filesystem.Steps.{
  return, fail, ◌>>=◌, ◌>>◌, relabel, finally, finally_with, join, error_of, or_error, with_error,
}
use common_keyring.Filesystem.Faults.{operation_error}
use common_keyring.Filesystem.Layout.{layout_version, key_domain, identifier, hex}
use common_keyring.Filesystem.System.{
  System, Stat, Flag, o_rdonly, o_wronly, o_creat, o_excl, o_cloexec, o_nofollow, o_nonblock,
}
use common_keyring.Filesystem.Writing.{write_atomic}

abbrev pub s_ifmt : ℕ
s_ifmt = 0o170000

abbrev pub s_ifreg : ℕ
s_ifreg = 0o100000

-- `linuxStorage`; the random source is part of the system here. `sha256` is the digest, and
-- `read_rounds` bounds the calls of `read` for one credential.
pub record Storage (W : Type 0) : Type 0 where
  pub root_path : String
  pub service_id : String
  pub effective_uid : ℕ
  pub system : System W
  pub sha256 : Bytes → Bytes
  pub read_rounds : ℕ

abbrev pub read_flags : List Flag
read_flags = o_rdonly ∷ o_cloexec ∷ o_nofollow ∷ o_nonblock ∷ []

-- The tests of `validateCredential` on a status.
unfoldable pub check_status : ℕ → Stat → Result (Unit {0})
check_status effective_uid status =
    if not (bit_and status.mode s_ifmt == s_ifreg)
    then err (wrap1 "credential is not a regular file" (cat insecure_fallback))
    else if not (status.uid == effective_uid)
    then err (wrap1 "credential owner does not match effective user" (cat insecure_fallback))
    else if not (bit_and status.mode 0o077 == 0)
    then err (wrap1 "credential mode grants group or other access" (cat insecure_fallback))
    else ok tt

module _ {W : Type 0} (system : System W) where
  -- `io.ReadAll` over `descriptorReader`: a read of nothing without an error is the end.
  unfoldable pub read_all : ℕ → ℕ → Bytes → Action W Bytes
  read_all zero descriptor contents w = (err (plain "too many reads"), w)
  read_all (suc rounds) descriptor contents w =
      let (got, w') = system.read descriptor w in
      let (chunk, e) = got in
      let more = read_all rounds descriptor (contents ++ chunk) w' in
      elim e [
        | some e' ↦ (err e', w')
        | none ↦ if length chunk == 0 then (ok contents, w') else more
      ]

module _ {W : Type 0} (s : Storage W) where
  open s use {system, effective_uid}

  -- `validateCredential`
  unfoldable pub validate_credential : ℕ → Action W (Unit {0})
  validate_credential descriptor = do
    status ← system.fstat descriptor
    λ w. (check_status effective_uid status, w)

  -- The end of `openCredential`, which closes what it refuses.
  unfoldable pub keep_valid : ℕ → Fallible → Action W ℕ
  keep_valid descriptor (ok _) w = (ok descriptor, w)
  keep_valid descriptor (err e) w = (err e, (system.close descriptor w).1)

  -- `openCredential`
  unfoldable pub open_credential : ℕ → String → Action W ℕ
  open_credential directory name = do
    descriptor ← system.open_file_at directory name read_flags 0
    λ w. let (valid, w') = validate_credential descriptor w in keep_valid descriptor valid w'

  -- `openServiceDirectory`
  unfoldable pub open_service_directory : Bool → Action W ℕ
  open_service_directory create = do
    system.validate_mount s.root_path
    if create then system.prepare_directories s.root_path s.service_id effective_uid else return tt
    root ← system.open_directory s.root_path effective_uid
    finally
        (do
          version ← system.open_directory_at root layout_version effective_uid
          finally (system.open_directory_at version s.service_id effective_uid)
              (system.close version))
        (system.close root)

  -- The reading of an opened credential in `get`, both of whose errors count.
  unfoldable pub read_credential : ℕ → Action W Bytes
  read_credential descriptor w =
      let (contents, w1) = read_all system s.read_rounds descriptor [] w in
      let (closed, w2) = system.close descriptor w1 in
      (with_error contents (join (error_of contents) (error_of closed)), w2)

  -- `get`
  unfoldable pub get : String → Action W Bytes
  get key = relabel (operation_error "get credential" true) (do
    directory ← open_service_directory false
    finally
        (do
          descriptor ← open_credential directory (identifier s.sha256 key_domain key)
          read_credential descriptor)
        (system.close directory))

  -- The end of `validateExistingCredential`.
  unfoldable pub close_existing : Result ℕ → Action W (Unit {0})
  close_existing (err e) w = (if is e fs_not_exist then ok tt else err e, w)
  close_existing (ok descriptor) w = system.close descriptor w

  -- `validateExistingCredential`
  unfoldable pub validate_existing : ℕ → String → Action W (Unit {0})
  validate_existing directory name w =
      let (r, w1) = open_credential directory name w in close_existing r w1

  -- `set`
  unfoldable pub set : String → Bytes → Action W (Unit {0})
  set key value = relabel (operation_error "set credential" false) (do
    directory ← open_service_directory true
    finally
        (do
          validate_existing directory (identifier s.sha256 key_domain key)
          write_atomic system directory (identifier s.sha256 key_domain key) value)
        (system.close directory))

  -- `delete`
  unfoldable pub delete : String → Action W (Unit {0})
  delete key = relabel (operation_error "delete credential" true) (do
    directory ← open_service_directory false
    finally
        (do
          descriptor ← open_credential directory (identifier s.sha256 key_domain key)
          system.close descriptor
          system.unlink_at directory (identifier s.sha256 key_domain key)
          system.fsync directory)
        (system.close directory))
