-- ===== src/Filesystem/Writing.antt =====
-- `writeAtomic`, `createTemporary` and `writeAll` of internal/backend/fs/storage_linux.go.
use common_keyring.Base.{
  ℕ, zero, suc, String, ◌<>◌, Bool, true, false, Option, none, some, List, [], ◌∷◌, ◌==◌, nat_eq,
  length, drop, if◌then◌else◌,
}
use common_keyring.Errors.{
  GoError, leaf, plain, fs_not_exist, fs_exist, short_write, is, Result, Fallible, ok, err, Action,
}
use common_keyring.Contract.{Bytes}
use common_keyring.Filesystem.Steps.{fail, ◌>>=◌, ◌>>◌, join, error_of, or_error}
use common_keyring.Filesystem.Layout.{hex}
use common_keyring.Filesystem.System.{
  System, Flag, o_wronly, o_creat, o_excl, o_cloexec, o_nofollow,
}

abbrev pub secret_mode : ℕ
secret_mode = 0o600

abbrev pub temporary_random_bytes : ℕ
temporary_random_bytes = 16

abbrev pub temporary_create_attempts : ℕ
temporary_create_attempts = 128

abbrev pub create_flags : List Flag
create_flags = o_wronly ∷ o_creat ∷ o_excl ∷ o_cloexec ∷ o_nofollow ∷ []

-- An error with that of the removal of the temporary file: a file that is gone is none.
unfoldable pub with_removal : Option GoError → Fallible → Option GoError
with_removal result (ok _) = join result none
with_removal result (err e) = if is e fs_not_exist then result else join result (some e)

module _ {W : Type 0} (system : System W) where
  -- The loop of `writeAll`, with a bound on its rounds. A round goes on with the bytes behind those
  -- that it has written.
  unfoldable pub write_rounds : ℕ → ℕ → Bytes → Action W (Unit {0})
  write_rounds rounds descriptor [] w = (ok tt, w)
  write_rounds zero descriptor (c ∷ contents) w = (err (plain "too many writes"), w)
  write_rounds (suc rounds) descriptor (c ∷ contents) w =
      let (did, w') = system.write descriptor (c ∷ contents) w in
      let (written, e) = did in
      let more = write_rounds rounds descriptor (drop written (c ∷ contents)) w' in
      elim e [
        | some e' ↦ (err e', w')
        | none ↦ if written == 0 then (err (leaf short_write), w') else more
      ]

  -- `writeAll`
  unfoldable pub write_all : ℕ → Bytes → Action W (Unit {0})
  write_all descriptor contents = write_rounds (length contents) descriptor contents

  -- What a round of `createTemporary` makes of its `openFileAt`, with the later rounds.
  unfoldable pub after_open : String → Action W (String × ℕ) → Result ℕ → Action W (String × ℕ)
  after_open name again (ok descriptor) w = (ok (name, descriptor), w)
  after_open name again (err e) w = if is e fs_exist then again w else (err e, w)

  -- A round of `createTemporary` with its random bytes.
  unfoldable pub try_create : ℕ → Action W (String × ℕ) → Bytes → Action W (String × ℕ)
  try_create directory again random w =
      let name = ".tmp-" <> hex random in
      let (opened, w') = system.open_file_at directory name create_flags secret_mode w in
      after_open name again opened w'

  -- The loop of `createTemporary`, with the attempts that are left.
  unfoldable pub create_attempts : ℕ → ℕ → Action W (String × ℕ)
  create_attempts zero directory = fail (plain "cannot allocate a unique temporary credential file")
  create_attempts (suc attempts) directory = do
    random ← system.random temporary_random_bytes
    try_create directory (create_attempts attempts directory) random

  -- `createTemporary`
  unfoldable pub create_temporary : ℕ → Action W (String × ℕ)
  create_temporary = create_attempts temporary_create_attempts

  -- The removal of the temporary file in the deferred function of `writeAtomic`.
  unfoldable pub remove_temporary : ℕ → String → Option GoError → W → Option GoError × W
  unfolding with_removal
  remove_temporary directory name result w =
      let (removed, w') = system.unlink_at directory name w in (with_removal result removed, w')

  -- The deferred function of `writeAtomic` for a file that was not renamed, after the error `e`;
  -- the flag says whether the file is still to be closed.
  unfoldable pub abandon : ℕ → String → ℕ → Bool → GoError → Action W (Unit {0})
  abandon directory name descriptor true e w =
      let (closed, w1) = system.close descriptor w in
      let (result, w2) = remove_temporary directory name (join (some e) (error_of closed)) w1 in
      (or_error tt result, w2)
  abandon directory name descriptor false e w =
      let (result, w1) = remove_temporary directory name (some e) w in (or_error tt result, w1)

  -- The steps of `writeAtomic` between the creation and the closing of the temporary file.
  unfoldable pub fill_temporary : ℕ → Bytes → Action W (Unit {0})
  fill_temporary descriptor value = do
    system.fchmod descriptor secret_mode
    write_all descriptor value
    system.fsync descriptor

  -- `writeAtomic` behind `renameAt`; the deferred function does nothing after a renaming.
  unfoldable pub after_rename : ℕ → String → Fallible → Action W (Unit {0})
  after_rename directory temporary_name (err e) = abandon directory temporary_name 0 false e
  after_rename directory temporary_name (ok _) = system.fsync directory

  -- `writeAtomic` behind the closing of the temporary file.
  unfoldable pub after_close : ℕ → String → String → Fallible → Action W (Unit {0})
  after_close directory name temporary_name (err e) w = abandon directory temporary_name 0 false e w
  after_close directory name temporary_name (ok _) w =
      let (renamed, w') = system.rename_at directory temporary_name directory name w in
      after_rename directory temporary_name renamed w'

  -- `writeAtomic` behind the filling of the temporary file.
  unfoldable pub after_fill : ℕ → String → String → ℕ → Fallible → Action W (Unit {0})
  after_fill directory name temporary_name descriptor (err e) w =
      abandon directory temporary_name descriptor true e w
  after_fill directory name temporary_name descriptor (ok _) w =
      let (closed, w') = system.close descriptor w in
      after_close directory name temporary_name closed w'

  -- `writeAtomic` with its temporary file.
  unfoldable pub write_temporary : ℕ → String → Bytes → String × ℕ → Action W (Unit {0})
  write_temporary directory name value (temporary_name, descriptor) w =
      let (filled, w') = fill_temporary descriptor value w in
      after_fill directory name temporary_name descriptor filled w'

  -- `writeAtomic`
  unfoldable pub write_atomic : ℕ → String → Bytes → Action W (Unit {0})
  write_atomic directory name value = do
    created ← create_temporary directory
    write_temporary directory name value created
