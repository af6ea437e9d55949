-- ===== src/Tests/Files.antt =====
-- Concrete uses of what is shown of internal/backend/fs.
use common_keyring.Base.{true, ℕ, ◌+◌, none, [], ◌∷◌, length, ◌≡◌, refl, nat_eq}
use common_keyring.Errors.{cat, backend_failure, ok, err}
use common_keyring.Filesystem.System.{System}
use common_keyring.Filesystem.Storage.{
  Storage, get, set, delete, open_service_directory, validate_existing, close_existing,
  open_credential, keep_valid, validate_credential, check_status,
}
use common_keyring.Filesystem.Writing.{
  write_rounds, write_all, write_atomic, create_temporary, create_attempts, try_create, after_open,
  write_temporary, after_fill, after_close, after_rename, fill_temporary,
}
use common_keyring.Filesystem.Storage.Balance.{opens, closes}
use common_keyring.Filesystem.Storage.Failures.{classified, operations-classified}
use common_keyring.Filesystem.Storage.Replaced.{Replaced, set-Replaced}
use common_keyring.Filesystem.Layout.{identifier, key_domain}
use common_keyring.Filesystem.Steps.{relabel, ◌>>=◌, finally}
use common_keyring.Filesystem.Storage.Loops.{Loop, write_all-Loop}
use common_keyring.Filesystem.Storage.Sessions.{observed, operations-opens_closes}

-- A system whose state is its next descriptor; each credential has this mode.
abbrev system : ℕ → System ℕ
system mode = record {
  validate_mount = λ path w. (ok tt, w);
  prepare_directories = λ path service uid w. (ok tt, w);
  open_directory = λ path uid w. (ok w, w + 1);
  open_directory_at = λ parent name uid w. (ok w, w + 1);
  open_file_at = λ parent name flags permissions w. (ok w, w + 1);
  fstat = λ d w. (ok (record { mode = mode; uid = 1000 }), w);
  fchmod = λ d permissions w. (ok tt, w);
  read = λ d w. (([], none), w);
  write = λ d contents w. ((length contents, none), w);
  fsync = λ d w. (ok tt, w);
  close = λ d w. (ok tt, w);
  rename_at = λ from old to new w. (err (cat backend_failure), w);
  unlink_at = λ d name w. (ok tt, w);
  random = λ n w. (ok (1 ∷ 2 ∷ []), w);
}

abbrev storage : ℕ → Storage ℕ
storage mode = record {
  root_path = "/secrets";
  service_id = "s";
  effective_uid = 1000;
  system = system mode;
  sha256 = λ contents. contents;
  read_rounds = 4;
}

abbrev private_file : ℕ
private_file = 0o100600

abbrev shared_file : ℕ
shared_file = 0o100644

-- A credential is descriptor 6 here and the temporary file 7, and a renaming fails.
operations-opens_closes_example :
    (opens 7 (get (observed (storage private_file)) "k" (3, [])).1.1
      ≡ closes 7 (get (observed (storage private_file)) "k" (3, [])).1.1)
    × (opens 7 (set (observed (storage private_file)) "k" (1 ∷ 2 ∷ []) (3, [])).1.1
        ≡ closes 7 (set (observed (storage private_file)) "k" (1 ∷ 2 ∷ []) (3, [])).1.1)
    × (opens 7 (delete (observed (storage private_file)) "k" (3, [])).1.1
        ≡ closes 7 (delete (observed (storage private_file)) "k" (3, [])).1.1)
operations-opens_closes_example =
    operations-opens_closes (storage private_file) "k" (1 ∷ 2 ∷ []) 3 7

operations-classified_example :
    (classified (get (storage shared_file) "k" 3).0 ≡ true)
    × (classified (set (storage shared_file) "k" (1 ∷ []) 3).0 ≡ true)
    × (classified (delete (storage shared_file) "k" 3).0 ≡ true)
operations-classified_example = operations-classified (storage shared_file) "k" (1 ∷ []) 3

-- A system that writes one byte at a time, and counts the calls.
abbrev slow : System ℕ
slow = record (system private_file) { write = λ d contents w. ((1, none), w + 1) }

write_all-Loop_example :
    Loop slow 4
      (1 ∷ 2 ∷ 3 ∷ [])
      0
      (write_all slow 4 (1 ∷ 2 ∷ 3 ∷ []) 0).0
      (write_all slow 4 (1 ∷ 2 ∷ 3 ∷ []) 0).1
write_all-Loop_example = write_all-Loop slow 4 (1 ∷ 2 ∷ 3 ∷ []) 0

-- A system that renames.
abbrev renaming : Storage ℕ
renaming = record (storage private_file) {
  system = record (system private_file) { rename_at = λ from old to new w. (ok tt, w + 1) };
}

replaced_run : set renaming "k" (1 ∷ 2 ∷ []) 3 ≡ (ok tt, 9)
unfolding set relabel ◌>>=◌ open_service_directory finally validate_existing close_existing
    open_credential keep_valid validate_credential check_status write_atomic create_temporary
    create_attempts try_create after_open write_temporary after_fill after_close after_rename
    fill_temporary write_all write_rounds
replaced_run = refl

set-Replaced_example :
    (directory : ℕ) × (before : ℕ) × (after : ℕ) × Replaced renaming.system directory
      (identifier renaming.sha256 key_domain "k")
      (1 ∷ 2 ∷ [])
      before
      after
    × (9 ≡ (renaming.system.close directory after).1)
set-Replaced_example = set-Replaced renaming "k" (1 ∷ 2 ∷ []) 3 9 replaced_run
