-- ===== src/Filesystem/Storage/Sessions.antt =====
-- The descriptors of `get`, `set` and `delete` of internal/backend/fs/storage_linux.go.
use common_keyring.Base.{ℕ, ◌+◌, String, Bool, true, false, [], nat_eq, ◌≡◌, arith, if◌then◌else◌}
use common_keyring.Errors.{GoError, Fallible, Result, ok, err, Action}
use common_keyring.Contract.{Bytes}
use common_keyring.Filesystem.Steps.{return, continue, ◌>>=◌, ◌>>◌, relabel, finally}
use common_keyring.Filesystem.Layout.{key_domain, identifier, layout_version}
use common_keyring.Filesystem.Storage.{
  Storage, read_all, validate_credential, keep_valid, check_status, read_flags, open_credential,
  open_service_directory, read_credential, get, close_existing, validate_existing, set, delete,
}
use common_keyring.Filesystem.Storage.Traces.{Traced, traced}
use common_keyring.Filesystem.Storage.Balance.{
  opens, closes, one_if, gain, nothing, nothing-gain, Balance, Gains, Frees, Gains-bind,
  Gains-bracket, Gains-use, Gains-relabel, Gains-return, Frees-first, Gains-spend,
}
use common_keyring.Filesystem.Storage.Descriptors.{
  Gains-quiet, Gains-opened, Frees-closed, Gains-synced, Gains-unlinked, read_all-Gains,
  write_atomic-Gains,
}

-- The storage over a system that notes its events.
abbrev pub observed : {W : Type 0} → Storage W → Storage (Traced W)
observed s = record {
  root_path = s.root_path;
  service_id = s.service_id;
  effective_uid = s.effective_uid;
  system = traced s.system;
  sha256 = s.sha256;
  read_rounds = s.read_rounds;
}

module _ {W : Type 0} (s : Storage W) where
  validate_credential-Gains : (d : ℕ) → Gains nothing (validate_credential (observed s) d)
  unfolding validate_credential
  validate_credential-Gains d =
      Gains-bind nothing _ _ (Gains-quiet (s.system.fstat d))
        λ status. Gains-return (λ _. check_status s.effective_uid status)

  keep_valid-at :
      (d : ℕ) (r : Fallible) (t : Traced W) (n : ℕ)
      → opens n (keep_valid (observed s) d r t).1.1 + closes n t.1 + one_if d n
        ≡ closes n (keep_valid (observed s) d r t).1.1
          + opens n t.1
          + gain one_if (keep_valid (observed s) d r t).0 n
  unfolding keep_valid
  keep_valid-at d (ok _) t n = omega arith
  keep_valid-at d (err e) t n = omega (arith, (Frees-closed (s.system.close d) d).at t n)

  open_credential-Gains :
      (directory : ℕ) (name : String) → Gains one_if (open_credential (observed s) directory name)
  unfolding open_credential
  open_credential-Gains directory name =
      Gains-use one_if _ _ (Gains-opened (s.system.open_file_at directory name read_flags 0))
        λ d t n.
          let v = validate_credential (observed s) d t in
          omega (
            arith,
            (validate_credential-Gains d).at t n,
            nothing-gain v.0 n,
            keep_valid-at d v.0 v.1 n,
          )

  open_directory-Gains : (create : Bool) → Gains one_if (open_service_directory (observed s) create)
  unfolding open_service_directory
  open_directory-Gains create =
      Gains-bind one_if _ _ (Gains-quiet (s.system.validate_mount s.root_path)) λ _.
        Gains-bind one_if _ _ (prepare create) λ _.
          Gains-bracket one_if _ _ _
            (Gains-opened (s.system.open_directory s.root_path s.effective_uid))
            (λ root.
              Gains-bracket one_if _ _ _
                (Gains-opened (s.system.open_directory_at root layout_version s.effective_uid))
                (λ version.
                  Gains-opened (s.system.open_directory_at version s.service_id s.effective_uid))
                (λ version. Frees-closed (s.system.close version) version))
            (λ root. Frees-closed (s.system.close root) root)
    where
      prepare :
          (b : Bool)
          → Gains nothing (
              if b
              then (traced s.system).prepare_directories s.root_path s.service_id s.effective_uid
              else return tt)
      prepare true =
          Gains-quiet (s.system.prepare_directories s.root_path s.service_id s.effective_uid)
      prepare false = Gains-return (λ _. ok tt)

  read_credential-Frees : (d : ℕ) → Frees d (read_credential (observed s) d)
  unfolding read_credential
  read_credential-Frees d = record {
    at = λ t n.
        let r = read_all (traced s.system) s.read_rounds d [] t in
        omega (
          arith,
          (read_all-Gains s.system s.read_rounds d []).at t n,
          nothing-gain r.0 n,
          (Frees-closed (s.system.close d) d).at r.1 n,
        );
  }

  close_existing-at :
      (r : Result ℕ) (t t1 : Traced W)
      → Balance (gain one_if r) t t1
      → Balance (λ _. 0) t (close_existing (observed s) r t1).1
  unfolding close_existing
  close_existing-at (err e) t t1 p n = omega (arith, p n)
  close_existing-at (ok d) t t1 p n =
      omega (arith, p n, (Frees-closed (s.system.close d) d).at t1 n)

  validate_existing-Gains :
      (directory : ℕ) (name : String)
      → Gains nothing (validate_existing (observed s) directory name)
  unfolding validate_existing
  validate_existing-Gains directory name = record {
    at = λ t n.
        let r = open_credential (observed s) directory name t in
        omega (
          arith,
          close_existing-at r.0 t r.1 ((open_credential-Gains directory name).at t) n,
          nothing-gain (validate_existing (observed s) directory name t).0 n,
        );
  }

  -- The work of one operation in the directory of the service, which is closed afterwards.
  in_directory-Gains :
      {A : Type 0} (create : Bool) (body : ℕ → Action (Traced W) A) (f : GoError → GoError)
      → ((directory : ℕ) → Gains nothing (body directory))
      → Gains nothing (
          relabel f (
            open_service_directory (observed s) create >>= λ directory.
            finally (body directory) ((traced s.system).close directory)))
  in_directory-Gains create body f x = Gains-relabel f _ (
      Gains-bracket nothing _ _ _ (open_directory-Gains create) x
        (λ directory. Frees-closed (s.system.close directory) directory))

  get-Gains : (key : String) → Gains nothing (get (observed s) key)
  unfolding get
  get-Gains key = in_directory-Gains false _ _ λ directory.
      Gains-spend (λ d. d) _ _ (open_credential-Gains directory _) read_credential-Frees

  set-Gains : (key : String) (value : Bytes) → Gains nothing (set (observed s) key value)
  unfolding set
  set-Gains key value = in_directory-Gains true _ _ λ directory.
      Gains-bind nothing _ _ (validate_existing-Gains directory _)
        λ _. write_atomic-Gains s.system directory _ value

  after-close :
      (r : Fallible) (m : Action (Traced W) (Unit {0}))
      → Gains nothing m
      → Gains nothing (λ t. continue r (λ _. m) t)
  after-close (ok _) m x = x
  after-close (err e) m x = Gains-return (λ _. err e)

  remove-Frees :
      (directory : ℕ) (name : String) (d : ℕ)
      → Frees d (
          (traced s.system).close d
          >> ((traced s.system).unlink_at directory name >> (traced s.system).fsync directory))
  unfolding ◌>>=◌
  remove-Frees directory name d = Frees-first d _ _ (Frees-closed (s.system.close d) d) λ r.
      after-close r _ (
        Gains-bind nothing _ _ (Gains-unlinked (s.system.unlink_at directory name) name)
          λ _. Gains-synced (s.system.fsync directory) directory)

  delete-Gains : (key : String) → Gains nothing (delete (observed s) key)
  unfolding delete
  delete-Gains key = in_directory-Gains false _ _ λ directory.
      Gains-spend (λ d. d) _ _ (open_credential-Gains directory _)
        (remove-Frees directory (identifier s.sha256 key_domain key))

  balanced :
      {A : Type 0} (m : Action (Traced W) A)
      → Gains nothing m
      → (w : W) (n : ℕ) → opens n (m (w, [])).1.1 ≡ closes n (m (w, [])).1.1
  unfolding opens closes
  balanced m x w n = omega (arith, x.at (w, []) n, nothing-gain (m (w, [])).0 n)

  -- Whatever the system answers, each step's failure included, `get`, `set` and `delete` close every
  -- descriptor, that of the temporary file among them, as often as it was opened.
  pub operations-opens_closes :
      (key : String) (value : Bytes) (w : W) (n : ℕ)
      → (opens n (get (observed s) key (w, [])).1.1 ≡ closes n (get (observed s) key (w, [])).1.1)
        × (opens n (set (observed s) key value (w, [])).1.1
            ≡ closes n (set (observed s) key value (w, [])).1.1)
        × (opens n (delete (observed s) key (w, [])).1.1
            ≡ closes n (delete (observed s) key (w, [])).1.1)
  operations-opens_closes key value w n = (
    balanced _ (get-Gains key) w n,
    balanced _ (set-Gains key value) w n,
    balanced _ (delete-Gains key) w n,
  )
