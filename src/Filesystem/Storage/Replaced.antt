-- ===== src/Filesystem/Storage/Replaced.antt =====
-- What `set` of internal/backend/fs/storage_linux.go has done where it succeeds: the order of its
-- steps on the temporary file.
use mathlib.Core.Path.{subst}
use common_keyring.Base.{
  ℕ, zero, suc, ◌<◌, String, true, false, Option, none, some, [], ◌∷◌, ◌==◌, nat_eq, length, drop,
  if◌then◌else◌, ◌≡◌, refl, sym, ap, pair-eq, arith, Bool-cases, inl, inr,
}
use common_keyring.Errors.{
  GoError, leaf, short_write, fs_exist, is, Result, Fallible, ok, err, Action,
}
use common_keyring.Contract.{Bytes}
use common_keyring.Filesystem.Steps.{◌>>◌, finally}
use common_keyring.Filesystem.Steps.Runs.{bind-ok, relabel-ok}
use common_keyring.Filesystem.Layout.{key_domain, identifier}
use common_keyring.Filesystem.System.{System}
use common_keyring.Filesystem.Writing.{
  secret_mode, create_flags, write_rounds, write_all, after_open, try_create, create_attempts,
  create_temporary, fill_temporary, after_rename, after_close, after_fill, write_temporary,
  write_atomic,
}
use common_keyring.Filesystem.Storage.Abandoned.{abandon-fails}
use common_keyring.Filesystem.Storage.{Storage, set, validate_existing}

module _ {W : Type 0} (system : System W) where
  -- Calls of `write` that write the bytes one after the other, each at least one of them.
  pub data AllWritten (descriptor : ℕ) (w' : W) : Bytes → W → Type 0 where
    nothing : AllWritten descriptor w' [] w'
    part :
        {contents : Bytes} {w w1 : W} {n : ℕ}
        → system.write descriptor contents w ≡ ((n, none), w1)
        → 0 < n
        → AllWritten descriptor w' (drop n contents) w1
        → AllWritten descriptor w' contents w

  -- A credential that was replaced: a new file was filled, flushed and closed before it took the
  -- credential's name, and the directory was flushed at the end.
  pub record Replaced (directory : ℕ) (name : String) (value : Bytes) (w w' : W) : Type 0 where
    pub temporary_name : String
    pub descriptor : ℕ
    pub w0 : W
    pub w1 : W
    pub w2 : W
    pub w3 : W
    pub w4 : W
    pub w5 : W
    pub w6 : W
    pub created :
        system.open_file_at directory temporary_name create_flags secret_mode w0
        ≡ (ok descriptor, w1)
    pub protected : system.fchmod descriptor secret_mode w1 ≡ (ok tt, w2)
    pub written : AllWritten descriptor w3 value w2
    pub flushed : system.fsync descriptor w3 ≡ (ok tt, w4)
    pub closed : system.close descriptor w4 ≡ (ok tt, w5)
    pub renamed : system.rename_at directory temporary_name directory name w5 ≡ (ok tt, w6)
    pub settled : system.fsync directory w6 ≡ (ok tt, w')

  write_rounds-AllWritten :
      (rounds d : ℕ) (contents : Bytes) (w w' : W)
      → write_rounds system rounds d contents w ≡ (ok tt, w')
      → AllWritten d w' contents w
  unfolding write_rounds
  write_rounds-AllWritten rounds d [] w w' h =
      subst (λ v. AllWritten d v [] w) (ap (λ p. p.1) h) nothing
  write_rounds-AllWritten zero d (c ∷ contents) w w' h = cc
  write_rounds-AllWritten (suc rounds) d (c ∷ contents) w w' h =
      after (system.write d (c ∷ contents) w).0.0 (system.write d (c ∷ contents) w).0.1
        (system.write d (c ∷ contents) w).1
        (λ rest v k. write_rounds-AllWritten rounds d rest v w' k) refl h
    where
      after :
          (n : ℕ) (e : Option GoError) (w1 : W)
          → ((rest : Bytes) (v : W)
              → write_rounds system rounds d rest v ≡ (ok tt, w')
              → AllWritten d w' rest v)
          → system.write d (c ∷ contents) w ≡ ((n, e), w1)
          → (elim e [
            | some e' ↦ (err e', w1)
            | none ↦
                if n == 0
                then (err (leaf short_write), w1)
                else write_rounds system rounds d (drop n (c ∷ contents)) w1
          ])
            ≡ (ok tt, w')
          → AllWritten d w' (c ∷ contents) w
      after n (some x) w1 y e k = cc
      after n none w1 y e k = elim (Bool-cases (n == 0)) [
        | inl z ↦ cc (rw z at k)
        | inr z ↦ part e (ground arith) (y (drop n (c ∷ contents)) w1 (rw z at k))
      ]

  after_open-ok :
      (directory : ℕ) (name found : String) (again : Action W (String × ℕ)) (r : Result ℕ)
      (w w1 w' : W) (d : ℕ)
      → system.open_file_at directory name create_flags secret_mode w ≡ (r, w1)
      → ((w : W)
          → again w ≡ (ok (found, d), w')
          → (w0 : W) × (system.open_file_at directory found create_flags secret_mode w0
              ≡ (ok d, w')))
      → after_open system name again r w1 ≡ (ok (found, d), w')
      → (w0 : W) × (system.open_file_at directory found create_flags secret_mode w0 ≡ (ok d, w'))
  unfolding after_open
  after_open-ok directory name found again (ok x) w w1 w' d o y h = (w, cc)
  after_open-ok directory name found again (err e) w w1 w' d o y h =
      elim (Bool-cases (is e fs_exist)) [ inl m ↦ y w1 (rw m at h) | inr m ↦ cc (rw m at h) ]

  create_attempts-ok :
      (attempts directory : ℕ) (found : String) (d : ℕ) (w w' : W)
      → create_attempts system attempts directory w ≡ (ok (found, d), w')
      → (w0 : W) × (system.open_file_at directory found create_flags secret_mode w0 ≡ (ok d, w'))
  unfolding create_attempts try_create
  create_attempts-ok zero directory found d w w' h = cc
  create_attempts-ok (suc attempts) directory found d w w' h =
      let (random, w1, _, k) = bind-ok _ _ w w' (found, d) h in
      after_open-ok directory _ found (create_attempts system attempts directory) _ w1 _ w' d refl
        (λ v e. create_attempts-ok attempts directory found d v w' e) k

  after_rename-ok :
      (directory : ℕ) (temporary_name : String) (r : Fallible) (w w' : W)
      → after_rename system directory temporary_name r w ≡ (ok tt, w')
      → (r ≡ ok tt) × (system.fsync directory w ≡ (ok tt, w'))
  unfolding after_rename
  after_rename-ok directory temporary_name (ok _) w w' h = (refl, h)
  after_rename-ok directory temporary_name (err e) w w' h =
      absurd (abandon-fails system directory temporary_name 0 false e w w' h)

  after_close-ok :
      (directory : ℕ) (name temporary_name : String) (r : Fallible) (w w' : W)
      → after_close system directory name temporary_name r w ≡ (ok tt, w')
      → (r ≡ ok tt)
        × (w1 : W) × (system.rename_at directory temporary_name directory name w ≡ (ok tt, w1))
        × (system.fsync directory w1 ≡ (ok tt, w'))
  unfolding after_close
  after_close-ok directory name temporary_name (ok _) w w' h =
      let renamed = system.rename_at directory temporary_name directory name w in
      let (r, f) = after_rename-ok directory temporary_name renamed.0 renamed.1 w' h in
      (refl, renamed.1, pair-eq _ r refl, f)
  after_close-ok directory name temporary_name (err e) w w' h =
      absurd (abandon-fails system directory temporary_name 0 false e w w' h)

  after_fill-ok :
      (directory : ℕ) (name temporary_name : String) (d : ℕ) (r : Fallible) (w w' : W)
      → after_fill system directory name temporary_name d r w ≡ (ok tt, w')
      → (r ≡ ok tt)
        × (w1 : W) × (w2 : W) × (system.close d w ≡ (ok tt, w1))
        × (system.rename_at directory temporary_name directory name w1 ≡ (ok tt, w2))
        × (system.fsync directory w2 ≡ (ok tt, w'))
  unfolding after_fill
  after_fill-ok directory name temporary_name d (ok _) w w' h =
      let closed = system.close d w in
      let (r, w2, n, f) = after_close-ok directory name temporary_name closed.0 closed.1 w' h in
      (refl, closed.1, w2, pair-eq _ r refl, n, f)
  after_fill-ok directory name temporary_name d (err e) w w' h =
      absurd (abandon-fails system directory temporary_name d true e w w' h)

  -- A successful `writeAtomic` has replaced the credential.
  write_atomic-Replaced :
      (directory : ℕ) (name : String) (value : Bytes) (w w' : W)
      → write_atomic system directory name value w ≡ (ok tt, w')
      → Replaced directory name value w w'
  unfolding write_atomic create_temporary write_temporary fill_temporary write_all
  write_atomic-Replaced directory name value w w' h =
      let ((found, d), w1, c, k) = bind-ok _ _ w w' tt h in
      let (w0, o) = create_attempts-ok 128 directory found d w w1 c in
      let filled = fill_temporary system d value w1 in
      let (r, w5, w6, cl, n, f) = after_fill-ok directory name found d filled.0 filled.1 w' k in
      let (_, w2, m, k1) = bind-ok _ _ w1 filled.1 tt (pair-eq _ r refl) in
      let (_, w3, wr, fl) = bind-ok _ _ w2 filled.1 tt k1 in
      record {
        temporary_name = found;
        descriptor = d;
        w0 = w0;
        w1 = w1;
        w2 = w2;
        w3 = w3;
        w4 = filled.1;
        w5 = w5;
        w6 = w6;
        created = o;
        protected = m;
        written = write_rounds-AllWritten (length value) d value w2 w3 wr;
        flushed = fl;
        closed = cl;
        renamed = n;
        settled = f;
      }

-- Where `set` succeeds, it has filled a new temporary file with the value and flushed and closed it,
-- then renamed it to the name of the key's credential, and flushed the directory, in this order;
-- then it has closed the directory.
pub set-Replaced :
    {W : Type 0} (s : Storage W) (key : String) (value : Bytes) (w w' : W)
    → set s key value w ≡ (ok tt, w')
    → (directory : ℕ) × (before : W) × (after : W) × Replaced s.system directory
        (identifier s.sha256 key_domain key)
        value
        before
        after
      × (w' ≡ (s.system.close directory after).1)
unfolding set finally
set-Replaced s key value w w' h =
    let (directory, w1, o, k) = bind-ok _ _ w w' tt (relabel-ok _ _ w w' tt h) in
    let name = identifier s.sha256 key_domain key in
    let work =
      (validate_existing s directory name >> write_atomic s.system directory name value) w1 in
    let (_, w2, v, e) = bind-ok _ _ w1 work.1 tt (pair-eq _ (ap (λ p. p.0) k) refl) in
    (
      directory,
      w2,
      work.1,
      write_atomic-Replaced s.system directory name value w2 work.1 e,
      sym (ap (λ p. p.1) k),
    )
