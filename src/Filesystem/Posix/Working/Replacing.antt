-- ===== src/Filesystem/Posix/Working/Replacing.antt =====
-- `set` of internal/backend/fs/storage_linux.go completes.
use mathlib.Core.Path.{subst}
use common_keyring.Base.{
  ℕ, zero, suc, ◌<◌, ◌≤◌, String, ◌<>◌, true, false, none, some, [], ◌∷◌, ◌++◌, ◌==◌, nat_eq,
  length, take, drop, arith, ◌≡◌, refl, sym, ◌∙◌, pair-eq,
}
use common_keyring.Errors.{Result, Fallible, ok, err, Action}
use common_keyring.Contract.{Bytes}
use common_keyring.Filesystem.Steps.{◌>>◌, relabel, finally}
use common_keyring.Filesystem.Layout.{hex, key_domain, identifier}
use common_keyring.Filesystem.Layout.Dotted.{is_dotted, temporary-dotted}
use common_keyring.Filesystem.Writing.{
  secret_mode, write_rounds, write_all, after_open, try_create, create_attempts, create_temporary,
  fill_temporary, after_rename, after_close, after_fill, write_temporary, write_atomic,
}
use common_keyring.Filesystem.Storage.{Storage, set, get, open_service_directory, validate_existing}
use common_keyring.Filesystem.Storage.Loops.{drop-shorter}
use common_keyring.Filesystem.Posix.{Place, View, Posix}
use common_keyring.Filesystem.Posix.Folder.{folder, open_service_directory-Opened}
use common_keyring.Filesystem.Posix.Existing.{validate_existing-Near}
use common_keyring.Filesystem.Posix.Temporary.{
  after_write, create_attempts-Created, fill_temporary-Filled,
}
use common_keyring.Filesystem.Posix.Atomic.{replace_in, set-Atomic}
use common_keyring.Filesystem.Posix.Working.{Completes, bind-Completes, Working}
use common_keyring.Filesystem.Posix.Working.Opening.{
  open_service_directory-Completes, validate_existing-Completes,
}
use common_keyring.Filesystem.Posix.Working.Fetching.{on_error-Completes, get-completes}

-- No temporary file is left in a directory.
abbrev pub Clean : {W : Type 0} → View W → Place → W → Type 0
Clean v place w = (t : String) → is_dotted t ≡ true → v.holds w (t ∷ place) ≡ none

positive_test : (n : ℕ) → 0 < n → (n == 0) ≡ false
positive_test n h = ground arith

module _ {W : Type 0} (s : Storage W) (v : View W) (posix : Posix s v) (working : Working s v) where
  after_open-Completes :
      (name : String) (again : Action W (String × ℕ)) (r : Result ℕ) (w : W)
      → Completes r
      → Completes (after_open s.system name again r w).0
  unfolding after_open
  after_open-Completes name again (ok f) w h = ((name, f), refl)
  after_open-Completes name again (err e) w (a, h) = cc

  create_temporary-Completes :
      (d : ℕ) (place : Place) (w : W)
      → v.inside w d place
      → Clean v place w
      → Completes (create_temporary s.system d w).0
  unfolding create_temporary create_attempts try_create
  create_temporary-Completes d place w on clean =
      let calm = posix.files.random_calm 16 w in
      bind-Completes (s.system.random 16) (try_create s.system d (create_attempts s.system 127 d)) w
        (working.random_given 16 w)
        (λ random h.
          let name = ".tmp-" <> hex random in
          after_open-Completes name _ _ _ (
            working.file_created d name place _ (calm.inside d place on)
              (calm.held (name ∷ place) ∙ clean name (temporary-dotted (hex random)))))

  after_write-Completes :
      (f : ℕ) (q : Place) (b contents : Bytes) (c n : ℕ) (again : Bytes → Action W (Unit {0}))
      (w w1 : W)
      → v.filling w f q b
      → s.system.write f (c ∷ contents) w ≡ ((n, none), w1)
      → 0 < n
      → ((b' : Bytes) → v.filling w1 f q b' → Completes (again (drop n (c ∷ contents)) w1).0)
      → Completes (after_write again (c ∷ contents) w1 n none).0
  after_write-Completes f q b contents c n again w w1 filling h some_written next =
      rw (positive_test n some_written) (
        next (b ++ take n (c ∷ contents))
          (posix.files.written f n q b (c ∷ contents) w w1 filling h))

  write_rounds-Completes :
      (rounds f : ℕ) (q : Place) (b contents : Bytes) (w : W)
      → v.filling w f q b
      → length contents ≤ rounds
      → Completes (write_rounds s.system rounds f contents w).0
  unfolding write_rounds
  write_rounds-Completes rounds f q b [] w filling enough = (tt, refl)
  write_rounds-Completes zero f q b (c ∷ contents) w filling enough = ground arith
  write_rounds-Completes (suc rounds) f q b (c ∷ contents) w filling enough =
      let did = s.system.write f (c ∷ contents) w in
      let (n, more, h) = working.written_some f c q b contents w filling in
      let shorter : length (drop n (c ∷ contents)) ≤ rounds =
        let l = drop-shorter n c contents (positive_test n more) in omega (arith, l, enough) in
      subst
        (λ x.
          Completes (after_write (write_rounds s.system rounds f) (c ∷ contents) did.1 x.0 x.1).0)
        (sym h)
        (after_write-Completes f q b contents c n (write_rounds s.system rounds f) w did.1 filling
          (pair-eq _ h refl) more
          (λ b' x. write_rounds-Completes rounds f q b' (drop n (c ∷ contents)) did.1 x shorter))

  fill_temporary-Completes :
      (f : ℕ) (q : Place) (contents : Bytes) (w : W)
      → v.file w f
      → v.filling w f q []
      → Completes (fill_temporary s.system f contents w).0
  unfolding fill_temporary write_all
  fill_temporary-Completes f q contents w file filling =
      let calm = posix.files.fchmod_calm f secret_mode w in
      bind-Completes (s.system.fchmod f secret_mode)
        (λ _. write_all s.system f contents >> s.system.fsync f) w
        (working.mode_changed f secret_mode w file)
        (λ _ h.
          bind-Completes (write_all s.system f contents) (λ _. s.system.fsync f) _
            (write_rounds-Completes (length contents) f q [] contents _
              (calm.filling f q [] filling) (omega arith))
            (λ _ k. working.flushed f _))

  after_rename-Completes :
      (d : ℕ) (t : String) (r : Fallible) (w : W)
      → Completes r
      → Completes (after_rename s.system d t r w).0
  unfolding after_rename
  after_rename-Completes d t (ok _) w h = working.flushed d w
  after_rename-Completes d t (err e) w (a, h) = cc

  after_close-Completes :
      (d : ℕ) (place : Place) (name t : String) (value : Bytes) (r : Fallible) (w : W)
      → v.inside w d place
      → v.holds w (t ∷ place) ≡ some value
      → Completes r
      → Completes (after_close s.system d name t r w).0
  unfolding after_close
  after_close-Completes d place name t value (ok _) w on holds h =
      after_rename-Completes d t _ _ (working.renames d t name place value w on holds)
  after_close-Completes d place name t value (err e) w on holds (a, h) = cc

  after_fill-Completes :
      (d : ℕ) (place : Place) (name t : String) (value : Bytes) (f : ℕ) (r : Fallible) (w : W)
      → v.inside w d place
      → v.file w f
      → (r ≡ ok tt → v.filling w f (t ∷ place) value)
      → Completes r
      → Completes (after_fill s.system d name t f r w).0
  unfolding after_fill
  after_fill-Completes d place name t value f (ok _) w on file done h =
      after_close-Completes d place name t value _ _ (posix.files.close_file f w file d place on)
        (posix.files.close_held f w (t ∷ place)
          ∙ posix.files.filled f (t ∷ place) value w (done refl))
        (working.closes f w)
  after_fill-Completes d place name t value f (err e) w on file done (a, h) = cc

  write_atomic-Completes :
      (d : ℕ) (place : Place) (name : String) (value : Bytes) (w : W)
      → v.inside w d place
      → Clean v place w
      → Completes (write_atomic s.system d name value w).0
  unfolding write_atomic write_temporary create_temporary
  write_atomic-Completes d place name value w on clean =
      let created = create_attempts-Created s v posix d place 128 w on in
      bind-Completes _ (write_temporary s.system d name value) w
        (create_temporary-Completes d place w on clean)
        (λ x h.
          let (_, file, filling) = created.on x.0 x.1 h in
          let filled = fill_temporary-Filled s v posix x.1 (x.0 ∷ place) value _ file filling in
          after_fill-Completes d place name x.0 value x.1 _ _
            (filled.near.inside d place (created.near.inside d place on)) filled.file filled.done
            (fill_temporary-Completes x.1 (x.0 ∷ place) value _ file filling))

  replace_in-Completes :
      (key : String) (value : Bytes) (d : ℕ) (w : W)
      → v.inside w d (folder s)
      → Clean v (folder s) w
      → Completes (replace_in s key value d w).0
  replace_in-Completes key value d w on clean =
      let name = identifier s.sha256 key_domain key in
      let near = validate_existing-Near s v posix d (folder s) name w on in
      bind-Completes (validate_existing s d name) (λ _. write_atomic s.system d name value) w
        (validate_existing-Completes s v posix working d (folder s) name w on)
        (λ _ h.
          write_atomic-Completes d (folder s) name value _ (near.inside d (folder s) on)
            (λ t dot. near.held (t ∷ folder s) (λ x. x) ∙ clean t dot))

  set-Completes :
      (key : String) (value : Bytes) (w : W)
      → Clean v (folder s) w
      → Completes (set s key value w).0
  unfolding set relabel finally
  set-Completes key value w clean =
      let opened = open_service_directory-Opened s v posix true w in
      on_error-Completes _ _ (
        bind-Completes (open_service_directory s true)
          (λ d. finally (replace_in s key value d) (s.system.close d)) w
          (open_service_directory-Completes s v posix working true w)
          (λ d h.
            replace_in-Completes key value d _ (opened.on d h)
              (λ t dot. opened.held (t ∷ folder s) (λ x. x) ∙ clean t dot)))

  -- A `set` succeeds where no temporary file is left in the directory of the storage, and a `get` of
  -- the key returns the value then, if there are more rounds to read it than it has bytes. The calls
  -- of the system behave as documented and do not fail, and the files are private ones of the user.
  pub set-get :
      (key : String) (value : Bytes) (w : W)
      → Clean v (folder s) w
      → length value < s.read_rounds
      → ((set s key value w).0 ≡ ok tt) × ((get s key (set s key value w).1).0 ≡ ok value)
  set-get key value w clean few =
      let (_, h) = set-Completes key value w clean in
      (
        h,
        get-completes s v posix working key value _ ((set-Atomic s v posix key value w).done h) few,
      )
