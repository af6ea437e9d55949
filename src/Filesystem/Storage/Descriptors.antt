-- ===== src/Filesystem/Storage/Descriptors.antt =====
-- The descriptors of the steps of internal/backend/fs/storage_linux.go below its operations.
use common_keyring.Base.{
  ℕ, zero, suc, ◌+◌, String, true, false, Option, some, List, [], ◌∷◌, ◌++◌, nat_eq, drop, length,
  ◌≡◌, refl, arith, inl, inr, ◌<>◌, Bool-cases,
}
use common_keyring.Errors.{GoError, Fallible, fs_exist, is, Result, ok, err, Action}
use common_keyring.Contract.{Bytes}
use common_keyring.Filesystem.Steps.{join, error_of}
use common_keyring.Filesystem.Layout.{hex}
use common_keyring.Filesystem.System.{System}
use common_keyring.Filesystem.Storage.{read_all}
use common_keyring.Filesystem.Writing.{
  secret_mode, temporary_random_bytes, temporary_create_attempts, create_flags, after_open,
  try_create, write_rounds, write_all, create_attempts, create_temporary, remove_temporary, abandon,
  fill_temporary, after_rename, after_close, after_fill, write_temporary, write_atomic,
}
use common_keyring.Filesystem.Storage.Traces.{
  Event, opened, closed, synced, renamed, unlinked, Traced, traced, quiet, noted, noted_ok, on_ok,
}
use common_keyring.Filesystem.Storage.Balance.{
  opens, closes, one_if, gain, nothing, nothing-gain, Balance, Gains, Frees, Gains-bind,
  Gains-handle, Frees-handle, Frees-first, Gains-spend,
}

opened-Balance :
    (r : Result ℕ) (es : List Event) (n : ℕ)
    → opens n (on_ok r opened es) + closes n es
      ≡ closes n (on_ok r opened es) + opens n es + gain one_if r n
unfolding opens closes
opened-Balance (ok d) es n = omega arith
opened-Balance (err e) es n = omega arith

other-Balance :
    {A : Type 0} (f : A → Event)
    → ((a : A) (es : List Event) (n : ℕ)
        → (opens n (f a ∷ es) ≡ opens n es) × (closes n (f a ∷ es) ≡ closes n es))
    → (r : Result A) (es : List Event) (n : ℕ)
    → opens n (on_ok r f es) + closes n es ≡ closes n (on_ok r f es) + opens n es + gain nothing r n
other-Balance f h (ok a) es n = omega (arith, (h a es n).0, (h a es n).1)
other-Balance f h (err e) es n = omega arith

-- A temporary file's name and descriptor hold the descriptor.
abbrev held : String × ℕ → ℕ → ℕ
held created = one_if created.1

module _ {W : Type 0} where
  pub Gains-quiet : {A : Type 0} (m : Action W A) → Gains nothing (quiet m)
  Gains-quiet m = record { at = λ s n. omega (arith, nothing-gain (m s.0).0 n) }

  pub Gains-opened : (m : Action W ℕ) → Gains one_if (noted_ok m opened)
  Gains-opened m = record { at = λ s n. opened-Balance (m s.0).0 s.1 n }

  pub Frees-closed : {A : Type 0} (m : Action W A) (d : ℕ) → Frees d (noted m (closed d))
  unfolding opens closes
  Frees-closed m d = record { at = λ s n. omega arith }

  pub Gains-synced : (m : Action W (Unit {0})) (d : ℕ) → Gains nothing (noted_ok m (λ _. synced d))
  unfolding opens closes
  Gains-synced m d = record {
    at = λ s n. other-Balance (λ _. synced d) (λ _ es k. (refl, refl)) (m s.0).0 s.1 n;
  }

  Gains-renamed :
      (m : Action W (Unit {0})) (a b : String) → Gains nothing (noted_ok m (λ _. renamed a b))
  unfolding opens closes
  Gains-renamed m a b = record {
    at = λ s n. other-Balance (λ _. renamed a b) (λ _ es k. (refl, refl)) (m s.0).0 s.1 n;
  }

  pub Gains-unlinked :
      {A : Type 0} (m : Action W A) (name : String) → Gains nothing (noted m (unlinked name))
  unfolding opens closes
  Gains-unlinked m name = record { at = λ s n. omega (arith, nothing-gain (m s.0).0 n) }

  module _ (sys : System W) where
    write_rounds-Gains :
        (rounds d : ℕ) (contents : Bytes)
        → Gains nothing (write_rounds (traced sys) rounds d contents)
    unfolding write_rounds opens closes
    write_rounds-Gains rounds d [] = record { at = λ s n. omega arith }
    write_rounds-Gains zero d (c ∷ cs) = record { at = λ s n. omega arith }
    write_rounds-Gains (suc rounds) d (c ∷ cs) = record {
      at = λ s n.
          let r = (traced sys).write d (c ∷ cs) s in
          ground (arith, (write_rounds-Gains rounds d (drop r.0.0 (c ∷ cs))).at r.1 n);
    }

    write_all-Gains : (d : ℕ) (contents : Bytes) → Gains nothing (write_all (traced sys) d contents)
    unfolding write_all
    write_all-Gains d contents = write_rounds-Gains (length contents) d contents

    fill_temporary-Gains :
        (d : ℕ) (value : Bytes) → Gains nothing (fill_temporary (traced sys) d value)
    unfolding fill_temporary
    fill_temporary-Gains d value =
        Gains-bind nothing _ _ (Gains-quiet (sys.fchmod d secret_mode))
          λ _. Gains-bind nothing _ _ (write_all-Gains d value) λ _. Gains-synced (sys.fsync d) d

    pub read_all-Gains :
        (rounds d : ℕ) (contents : Bytes) → Gains nothing (read_all (traced sys) rounds d contents)
    unfolding read_all opens closes
    read_all-Gains zero d contents = record { at = λ s n. omega arith }
    read_all-Gains (suc rounds) d contents = record {
      at = λ s n.
          let r = (traced sys).read d s in
          ground (arith, (read_all-Gains rounds d (contents ++ r.0.0)).at r.1 n);
    }

    after_open-at :
        (name : String) (again : Action (Traced W) (String × ℕ)) (r : Result ℕ) (s s1 : Traced W)
        → Gains held again
        → Balance (gain one_if r) s s1
        → Balance
            (gain held (after_open (traced sys) name again r s1).0)
            s
            (after_open (traced sys) name again r s1).1
    unfolding after_open
    after_open-at name again (ok d) s s1 x p n = p n
    after_open-at name again (err e) s s1 x p n = elim (Bool-cases (is e fs_exist)) [
      | inl t ↦ rw t (omega (arith, x.at s1 n, p n))
      | inr t ↦ rw t (p n)
    ]

    try_create-Gains :
        (directory : ℕ) (again : Action (Traced W) (String × ℕ)) (random : Bytes)
        → Gains held again
        → Gains held (try_create (traced sys) directory again random)
    unfolding try_create
    try_create-Gains directory again random x = record {
      at = λ s.
          let name = ".tmp-" <> hex random in
          let opener = sys.open_file_at directory name create_flags secret_mode in
          let r = noted_ok opener opened s in
          after_open-at name again r.0 s r.1 x ((Gains-opened opener).at s);
    }

    create_attempts-Gains :
        (attempts directory : ℕ) → Gains held (create_attempts (traced sys) attempts directory)
    unfolding create_attempts
    create_attempts-Gains zero directory = record { at = λ s n. omega arith }
    create_attempts-Gains (suc attempts) directory =
        Gains-bind held _ _ (Gains-quiet (sys.random temporary_random_bytes))
          λ random. try_create-Gains directory _ random (create_attempts-Gains attempts directory)

    remove_temporary-at :
        (directory : ℕ) (name : String) (result : Option GoError) (s : Traced W) (n : ℕ)
        → (opens n (remove_temporary (traced sys) directory name result s).1.1 ≡ opens n s.1)
          × (closes n (remove_temporary (traced sys) directory name result s).1.1 ≡ closes n s.1)
    unfolding remove_temporary opens closes
    remove_temporary-at directory name result s n = ground arith

    -- The deferred function of `writeAtomic` closes the file if it is still open.
    abandon-open :
        (directory : ℕ) (name : String) (d : ℕ) (e : GoError)
        → Frees d (abandon (traced sys) directory name d true e)
    unfolding abandon
    abandon-open directory name d e = record {
      at = λ s n.
          let c = noted (sys.close d) (closed d) s in
          let r = remove_temporary-at directory name (join (some e) (error_of c.0)) c.1 n in
          omega (arith, (Frees-closed (sys.close d) d).at s n, r.0, r.1);
    }

    abandon-closed :
        (directory : ℕ) (name : String) (d : ℕ) (e : GoError)
        → Gains nothing (abandon (traced sys) directory name d false e)
    unfolding abandon
    abandon-closed directory name d e = record {
      at = λ s n.
          let r = remove_temporary-at directory name (some e) s n in
          omega
            (arith, r.0, r.1, nothing-gain (abandon (traced sys) directory name d false e s).0 n);
    }

    after_rename-Gains :
        (directory : ℕ) (temporary_name : String) (r : Fallible)
        → Gains nothing (after_rename (traced sys) directory temporary_name r)
    unfolding after_rename
    after_rename-Gains directory temporary_name (err e) =
        abandon-closed directory temporary_name 0 e
    after_rename-Gains directory temporary_name (ok _) =
        Gains-synced (sys.fsync directory) directory

    after_close-Gains :
        (directory : ℕ) (name temporary_name : String) (r : Fallible)
        → Gains nothing (after_close (traced sys) directory name temporary_name r)
    unfolding after_close
    after_close-Gains directory name temporary_name (err e) =
        abandon-closed directory temporary_name 0 e
    after_close-Gains directory name temporary_name (ok _) =
        Gains-handle nothing _ _
          (Gains-renamed (sys.rename_at directory temporary_name directory name) temporary_name
            name)
          (after_rename-Gains directory temporary_name)

    after_fill-Frees :
        (directory : ℕ) (name temporary_name : String) (d : ℕ) (r : Fallible)
        → Frees d (after_fill (traced sys) directory name temporary_name d r)
    unfolding after_fill
    after_fill-Frees directory name temporary_name d (err e) =
        abandon-open directory temporary_name d e
    after_fill-Frees directory name temporary_name d (ok _) =
        Frees-first d _ _ (Frees-closed (sys.close d) d)
          (after_close-Gains directory name temporary_name)

    write_temporary-Frees :
        (directory : ℕ) (name : String) (value : Bytes) (created : String × ℕ)
        → Frees created.1 (write_temporary (traced sys) directory name value created)
    unfolding write_temporary
    write_temporary-Frees directory name value (temporary_name, d) =
        Frees-handle d _ _ (fill_temporary-Gains d value)
          (after_fill-Frees directory name temporary_name d)

    pub write_atomic-Gains :
        (directory : ℕ) (name : String) (value : Bytes)
        → Gains nothing (write_atomic (traced sys) directory name value)
    unfolding write_atomic create_temporary
    write_atomic-Gains directory name value =
        Gains-spend (λ c. c.1) _ _ (create_attempts-Gains temporary_create_attempts directory)
          (write_temporary-Frees directory name value)
