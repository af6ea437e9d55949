-- ===== src/Filesystem/Storage/Traces.antt =====
-- A system that notes what the storage does with descriptors and names.
use common_keyring.Base.{ℕ, String, List, ◌∷◌}
use common_keyring.Errors.{Result, ok, err, Action}
use common_keyring.Contract.{Bytes}
use common_keyring.Filesystem.System.{System}

-- Successful opens, syncs and renamings, and every call of close, write and unlink.
pub data Event : Type 0 where
  opened : ℕ → Event
  closed : ℕ → Event
  wrote : ℕ → Bytes → Event
  synced : ℕ → Event
  renamed : String → String → Event
  unlinked : String → Event

-- The newest event stands first.
abbrev pub Traced : Type 0 → Type 0
Traced W = W × List Event

abbrev pub on_ok {ℓ} : {A : Type ℓ} → Result A → (A → Event) → List Event → List Event
on_ok (ok a) f es = f a ∷ es
on_ok (err e) f es = es

module _ {W : Type 0} where
  abbrev pub quiet : {A : Type 0} → (W → A × W) → Traced W → A × Traced W
  quiet m (w, es) = let (r, w') = m w in (r, (w', es))

  abbrev pub noted : {A : Type 0} → (W → A × W) → Event → Traced W → A × Traced W
  noted m event (w, es) = let (r, w') = m w in (r, (w', event ∷ es))

  abbrev pub noted_ok : {A : Type 0} → Action W A → (A → Event) → Action (Traced W) A
  noted_ok m f (w, es) = let (r, w') = m w in (r, (w', on_ok r f es))

  abbrev pub traced : System W → System (Traced W)
  traced s = record {
    validate_mount = λ path. quiet (s.validate_mount path);
    prepare_directories = λ path service uid. quiet (s.prepare_directories path service uid);
    open_directory = λ path uid. noted_ok (s.open_directory path uid) opened;
    open_directory_at = λ parent name uid. noted_ok (s.open_directory_at parent name uid) opened;
    open_file_at =
        λ parent name flags mode. noted_ok (s.open_file_at parent name flags mode) opened;
    fstat = λ d. quiet (s.fstat d);
    fchmod = λ d mode. quiet (s.fchmod d mode);
    read = λ d. quiet (s.read d);
    write = λ d contents. noted (s.write d contents) (wrote d contents);
    fsync = λ d. noted_ok (s.fsync d) (λ _. synced d);
    close = λ d. noted (s.close d) (closed d);
    rename_at = λ from old to new. noted_ok (s.rename_at from old to new) (λ _. renamed old new);
    unlink_at = λ d name. noted (s.unlink_at d name) (unlinked name);
    random = λ n. quiet (s.random n);
  }
