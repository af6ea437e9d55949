-- ===== src/Filesystem/Keyring.antt =====
-- internal/backend/fs/keyring.go: the opening of the filesystem's keyring and its operations, and
-- `openLinuxStorage` of storage_linux.go.
use common_keyring.Base.{
  ℕ, ◌%◌, String, false, ◌++◌, Option, none, some, [], ◌∷◌, ◌==◌, string_eq, codes, if◌then◌else◌,
}
use common_keyring.Errors.{GoError, invalid_argument, cat, wrap1, wrap2, Result, ok, err, Action}
use common_keyring.Contract.{Context, context_error, Bytes, Keyringer}
use common_keyring.Filesystem.Faults.{operation_error}
use common_keyring.Filesystem.Layout.{service_domain, key_domain, identifier}
use common_keyring.Filesystem.Steps.{◌>>◌, return, relabel}
use common_keyring.Filesystem.System.{System}
use common_keyring.Filesystem.Storage
use common_keyring.Filesystem.Storage.{Storage}

abbrev pub mutation_lock_count : ℕ
mutation_lock_count = 64

-- What `Open` is given: the operating system's `filepath.Abs`, effective user, system calls and
-- the digest, and the 64 mutexes of the keyring by their numbers.
pub record Host (W : Type 0) : Type 0 where
  pub absolute_path : String → Action W String
  pub effective_uid : ℕ
  pub system : System W
  pub sha256 : Bytes → Bytes
  pub read_rounds : ℕ
  pub lock : ℕ → W → W
  pub unlock : ℕ → W → W

-- The first byte of a digest; a SHA-256 digest has 32.
abbrev pub first_byte : Bytes → ℕ
first_byte [] = 0
first_byte (b ∷ bs) = b

module _ {W : Type 0} (h : Host W) where
  -- `openLinuxStorage`
  unfoldable pub open_storage : String → String → Action W (Storage W)
  open_storage root_path service_id = relabel (operation_error "initialize filesystem" false) (do
    h.system.validate_mount root_path
    h.system.prepare_directories root_path service_id h.effective_uid
    return (record {
      root_path = root_path;
      service_id = service_id;
      effective_uid = h.effective_uid;
      system = h.system;
      sha256 = h.sha256;
      read_rounds = h.read_rounds;
    }))

  -- `validateOperation`, for the moment at which it is called
  unfoldable pub validate_operation : Context W → String → W → Option GoError
  validate_operation ctx key w = elim (context_error ctx w) [
    | some e ↦ some e
    | none ↦ if key == "" then some (wrap1 "key is empty" (cat invalid_argument)) else none
  ]

  -- `mutationLock`
  unfoldable pub mutation_lock : String → ℕ
  mutation_lock key = first_byte (h.sha256 (key_domain ++ codes key)) % mutation_lock_count

  -- A storage operation behind `validateOperation`.
  unfoldable pub checked : {A : Type 0} → Context W → String → Action W A → Action W A
  checked ctx key act w = elim (validate_operation ctx key w) [ some e ↦ (err e, w) | none ↦ act w ]

  -- A storage operation under the key's mutex, which is unlocked at the end.
  unfoldable pub under_lock : {A : Type 0} → String → Action W A → Action W A
  under_lock key act w =
      let (r, w') = act (h.lock (mutation_lock key) w) in (r, h.unlock (mutation_lock key) w')

  -- `Keyring` with `Get`, `Set` and `Delete`
  unfoldable pub keyring : Storage W → Keyringer W
  keyring s = record {
    get = λ ctx key. checked ctx key (Storage.get s key);
    set = λ ctx key value. checked ctx key (under_lock key (Storage.set s key value));
    delete = λ ctx key. checked ctx key (under_lock key (Storage.delete s key));
  }

  -- `openKeyring` with a root directory and a service that are not empty.
  unfoldable pub open_absolute : Result String → String → Action W (Keyringer W)
  open_absolute (err e) service w =
      (err (wrap2 "resolve root directory" (cat invalid_argument) e), w)
  open_absolute (ok root_dir) service w =
      let (r, w') = open_storage root_dir (identifier h.sha256 service_domain service) w in
      (elim r [ ok s ↦ ok (keyring s) | err e ↦ err e ], w')

  -- `openKeyring`
  unfoldable pub open_keyring : String → String → Action W (Keyringer W)
  unfolding open_absolute keyring checked under_lock validate_operation mutation_lock
  open_keyring root_dir service w =
      if root_dir == ""
      then (err (wrap1 "root directory is empty" (cat invalid_argument)), w)
      else if service == ""
      then (err (wrap1 "service is empty" (cat invalid_argument)), w)
      else let (r, w') = h.absolute_path root_dir w in open_absolute r service w'
