-- ===== src/Tests/Stored.antt =====
-- Uses of what is shown of the files behind internal/backend/fs, on the disk in memory.
use common_keyring.Base.{
  ℕ, String, none, some, List, [], ◌∷◌, ◌==◌, string_eq, eq_iff, arith, true, false, ◌≡◌, refl, ◌⊎◌,
}
use common_keyring.Errors.{ok, is, Action}
use common_keyring.Contract.{Bytes}
use common_keyring.Filesystem.Steps.{relabel, ◌>>=◌, finally}
use common_keyring.Filesystem.Layout.{identifier, key_domain}
use common_keyring.Filesystem.Storage.{
  Storage, get, set, delete, open_service_directory, validate_existing, close_existing,
  open_credential, keep_valid, validate_credential, check_status, read_all, read_credential,
}
use common_keyring.Filesystem.Writing.{
  write_rounds, write_all, write_atomic, create_temporary, create_attempts, try_create, after_open,
  write_temporary, after_fill, after_close, after_rename, fill_temporary, abandon, remove_temporary,
}
use common_keyring.Filesystem.Posix.{Place, Held}
use common_keyring.Filesystem.Posix.Kernel.Stopping.{limited}
use common_keyring.Filesystem.Posix.Kernel.Crash.{interrupted, operations-stopped}
use common_keyring.Filesystem.Posix.Temporary.{Temporary}
use common_keyring.Filesystem.Posix.Folder.{folder}
use common_keyring.Filesystem.Posix.Atomic.{credential, Atomic, set-Atomic}
use common_keyring.Filesystem.Posix.Removal.{Removed, delete-Removed}
use common_keyring.Filesystem.Posix.Refinement.{stored, Apart}
use common_keyring.Contract.Memory.{Call, getting, setting, deleting, Allows, perform_all, call_on}
use common_keyring.Filesystem.Posix.Working.Replacing.{Clean, set-get}
use common_keyring.Filesystem.Layout.Dotted.{is_dotted, identifier-undotted}
use common_keyring.Base.Bytes.{equal, has_prefix, to_lower}
use common_keyring.Filesystem.Paths.{clean, written, relative}
use common_keyring.Filesystem.Mounts.{parse_line}
use common_keyring.Filesystem.Mounts.Validation.{
  validate_mount, parse_mount_info, select_mount, applies, path_within_mount, prefers, is_drvfs,
}
use common_keyring.Filesystem.Directories.{prepare_directories}
use common_keyring.Filesystem.Keyring.{Host, open_storage, keyring, open_keyring}
use common_keyring.Filesystem.RealSystem.{process}
use common_keyring.Filesystem.Posix.Kernel.Locked.{storage_of, opened-Allows}
use common_keyring.Tests.Disk.Mounted.{calls, calls-Files, environment-Inspects, directories-Kernel}
use common_keyring.Tests.Disk.Laws.{put-off}
use common_keyring.Tests.Disk.{Disk, put, on_disk}
use common_keyring.Tests.Disk.Lawful.{storage, storage-Posix, storage-Working}

-- A disk without files, and one with a credential.
abbrev empty : Disk
empty = record { tree = λ q. none; slots = [] }

abbrev old : Disk
old = record { tree = put (credential storage "k") (some (7 ∷ 7 ∷ 7 ∷ [])) empty.tree; slots = [] }

abbrev secret : Bytes
secret = 1 ∷ 2 ∷ 3 ∷ []

replaced_run : (set storage "k" secret old).0 ≡ ok tt
unfolding set relabel ◌>>=◌ open_service_directory finally validate_existing close_existing
    open_credential keep_valid validate_credential check_status write_atomic create_temporary
    create_attempts try_create after_open write_temporary after_fill after_close after_rename
    fill_temporary write_all write_rounds identifier
replaced_run = refl

replaced_value : (get storage "k" (set storage "k" secret old).1).0 ≡ ok secret
unfolding set relabel ◌>>=◌ open_service_directory finally validate_existing close_existing
    open_credential keep_valid validate_credential check_status write_atomic create_temporary
    create_attempts try_create after_open write_temporary after_fill after_close after_rename
    fill_temporary write_all write_rounds get read_credential read_all identifier
replaced_value = refl

set-Atomic_example :
    Atomic on_disk
      (folder storage)
      (identifier storage.sha256 key_domain "k")
      secret
      old
      (set storage "k" secret old).0
      (set storage "k" secret old).1
set-Atomic_example = set-Atomic storage on_disk storage-Posix "k" secret old

delete-Removed_example :
    Removed on_disk
      (credential storage "k")
      old
      (delete storage "k" old).0
      (delete storage "k" old).1
delete-Removed_example = delete-Removed storage on_disk storage-Posix "k" old

-- The storage in a process that is stopped.
abbrev cut : Storage (Disk × ℕ)
cut = interrupted calls "/secrets" "s" 1000 4 (λ contents. contents)

-- A stop in front of the renaming, the 35th call, leaves the old contents, and a stop behind it the
-- new ones.
stopped_before :
    on_disk.holds (set cut "k" secret (old, 34)).1.0 (credential storage "k")
    ≡ some (7 ∷ 7 ∷ 7 ∷ [])
unfolding set relabel ◌>>=◌ open_service_directory finally validate_existing close_existing
    open_credential keep_valid validate_credential check_status write_atomic create_temporary
    create_attempts try_create after_open write_temporary after_fill after_close after_rename
    fill_temporary write_all write_rounds identifier limited abandon remove_temporary validate_mount
    clean equal written is parse_mount_info parse_line select_mount applies path_within_mount
    relative has_prefix prefers is_drvfs to_lower prepare_directories
stopped_before = refl

stopped_behind :
    on_disk.holds (set cut "k" secret (old, 35)).1.0 (credential storage "k") ≡ some secret
unfolding set relabel ◌>>=◌ open_service_directory finally validate_existing close_existing
    open_credential keep_valid validate_credential check_status write_atomic create_temporary
    create_attempts try_create after_open write_temporary after_fill after_close after_rename
    fill_temporary write_all write_rounds identifier limited abandon remove_temporary validate_mount
    clean equal written is parse_mount_info parse_line select_mount applies path_within_mount
    relative has_prefix prefers is_drvfs to_lower prepare_directories
stopped_behind = refl

operations-stopped_example :
    let own = credential cut "k" in
    let w1 = (set cut "k" secret (old, 34)).1.0 in
    let w2 = (delete cut "k" (old, 34)).1.0 in
    (Held on_disk (λ q. Temporary (folder cut) q ⊎ (q ≡ own)) old w1)
    × ((on_disk.holds w1 own ≡ on_disk.holds old own) ⊎ (on_disk.holds w1 own ≡ some secret))
    × (Held on_disk (λ q. q ≡ own) old w2)
    × ((on_disk.holds w2 own ≡ on_disk.holds old own) ⊎ (on_disk.holds w2 own ≡ none))
    × ((q : Place) → on_disk.holds (get cut "k" (old, 34)).1.0 q ≡ on_disk.holds old q)
operations-stopped_example =
    operations-stopped calls "/secrets" "s" 1000 4 (λ contents. contents) on_disk
      (directories-Kernel "/secrets") environment-Inspects calls-Files "k" secret old 34

abbrev sequence : List Call
sequence = setting "k" secret ∷ getting "k" ∷ setting "l" (9 ∷ []) ∷ deleting "k" ∷ getting "l" ∷ []

-- The keys that are used.
data Used : String → Type 0 where
  k_used : Used "k"
  l_used : Used "l"

apart : (a b : String) → (a == b) ≡ false → a ≡ b → ⊥
apart a b h e = let same = (eq_iff a b).1 e in cc

real-Apart : Apart storage Used
unfolding identifier
real-Apart _ _ k_used k_used h = refl
real-Apart _ _ k_used l_used h = absurd (apart _ _ refl h)
real-Apart _ _ l_used k_used h = absurd (apart _ _ refl h)
real-Apart _ _ l_used l_used h = refl

-- The keyring of the filesystem, on the disk under the real system.
abbrev absolute : String → Action Disk String
absolute path w = (ok path, w)

abbrev digest : Bytes → Bytes
digest contents = contents

abbrev mutex : ℕ → Disk → Disk
mutex n w = w

abbrev host : Host Disk
host = process calls absolute 1000 4 digest mutex mutex

abbrev real : Storage Disk
real = storage_of calls absolute 1000 4 digest mutex mutex on_disk "/secrets" "mail"

opened_run :
    open_keyring host "/secrets" "mail" old
    ≡ (ok (keyring host real), (open_keyring host "/secrets" "mail" old).1)
unfolding open_keyring open_storage relabel ◌>>=◌ finally validate_mount clean equal written is
    parse_mount_info parse_line select_mount applies path_within_mount relative has_prefix prefers
    is_drvfs to_lower prepare_directories
opened_run = refl

opened-Allows_example :
    Allows Used
      (stored real on_disk
        (perform_all (call_on (keyring host real) (some (λ w. none))) sequence old).1)
      (stored real on_disk old)
      sequence
      (perform_all (call_on (keyring host real) (some (λ w. none))) sequence old).0
opened-Allows_example =
    opened-Allows calls absolute 1000 4 digest mutex mutex on_disk "/secrets" "/secrets" "mail" old
      (open_keyring host "/secrets" "mail" old).1 (keyring host real) (some (λ w. none)) Used
      sequence old (directories-Kernel "/secrets") environment-Inspects calls-Files
      (record { locked = λ n w q. refl; unlocked = λ n w q. refl }) real-Apart refl opened_run
      (k_used, (k_used, (l_used, (k_used, (l_used, tt)))))

dotted-apart :
    (t name : String) (place : Place)
    → is_dotted t ≡ true
    → is_dotted name ≡ false
    → ◌≡◌ {A = Place} (t ∷ place) (name ∷ place)
    → ⊥
dotted-apart t name place h k e = cc

-- The credential is the only file of the disk.
old-Clean : Clean on_disk (folder storage) old
old-Clean t dot =
    put-off (credential storage "k") (t ∷ folder storage) (some (7 ∷ 7 ∷ 7 ∷ [])) empty.tree
      (dotted-apart t _ (folder storage) dot (identifier-undotted storage.sha256 key_domain "k"))

set-get_example :
    ((set storage "k" secret old).0 ≡ ok tt)
    × ((get storage "k" (set storage "k" secret old).1).0 ≡ ok secret)
set-get_example =
    set-get storage on_disk storage-Posix storage-Working "k" secret old old-Clean (omega arith)
