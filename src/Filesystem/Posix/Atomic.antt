-- ===== src/Filesystem/Posix/Atomic.antt =====
-- `writeAtomic` and `set` of internal/backend/fs/storage_linux.go on the files of the system.
use common_keyring.Base.{
  ℕ, String, true, false, some, [], ◌∷◌, ◌≡◌, refl, ◌∙◌, ap, pair-eq, ◌⊎◌, inl, inr,
}
use common_keyring.Errors.{Fallible, ok, err, Action}
use common_keyring.Contract.{Bytes}
use common_keyring.Filesystem.Steps.{◌>>◌, relabel, finally}
use common_keyring.Filesystem.Steps.Runs.{bind-run, on_error-ok}
use common_keyring.Filesystem.Layout.{key_domain, identifier}
use common_keyring.Filesystem.Layout.Dotted.{is_dotted, identifier-undotted}
use common_keyring.Filesystem.Faults.{operation_error}
use common_keyring.Filesystem.Writing.{
  create_temporary, after_rename, after_close, after_fill, write_temporary, write_atomic,
}
use common_keyring.Filesystem.Storage.Abandoned.{abandon-fails}
use common_keyring.Filesystem.Storage.{Storage, set, validate_existing}
use common_keyring.Filesystem.Posix.{Place, View, Held, Posix}
use common_keyring.Filesystem.Posix.Near.{Near, Held-trans}
use common_keyring.Filesystem.Posix.Folder.{folder, open_service_directory-Opened}
use common_keyring.Filesystem.Posix.Existing.{validate_existing-Near}
use common_keyring.Filesystem.Posix.Temporary.{
  Temporary, create_attempts-Created, fill_temporary-Filled, abandon-Held, abandon-closed_held,
}

-- The credential of a key in a storage
abbrev pub credential : {W : Type 0} → Storage W → String → Place
credential s key = identifier s.sha256 key_domain key ∷ folder s

module _ {W : Type 0} (v : View W) (place : Place) (name : String) (value : Bytes) where
  -- The file `name` of a directory was replaced whole or not at all: it is as it was or holds the
  -- value, which it does behind a success. Other files are as they were, but temporary ones.
  pub record Atomic (w : W) (r : Fallible) (w' : W) : Type 0 where
    pub held : Held v (λ q. Temporary place q ⊎ (q ≡ name ∷ place)) w w'
    pub own :
        (v.holds w' (name ∷ place) ≡ v.holds w (name ∷ place))
        ⊎ (v.holds w' (name ∷ place) ≡ some value)
    pub done : r ≡ ok tt → v.holds w' (name ∷ place) ≡ some value

  pub name-NotTemporary : is_dotted name ≡ false → Temporary place (name ∷ place) → ⊥
  name-NotTemporary plain (t, dot, e) = cc

  -- What failed without a touch of other files than temporary ones.
  failed :
      (w w' : W) (r : Fallible)
      → is_dotted name ≡ false
      → Held v (Temporary place) w w'
      → (r ≡ ok tt → ⊥)
      → Atomic w r w'
  failed w w' r plain held f = record {
    held = λ q n. held q (λ t. n (inl t));
    own = inl (held (name ∷ place) (name-NotTemporary plain));
    done = λ h. absurd (f h);
  }

  -- What is added in front of it.
  before :
      (w w1 w' : W) (r : Fallible)
      → is_dotted name ≡ false
      → Held v (Temporary place) w w1
      → Atomic w1 r w'
      → Atomic w r w'
  before w w1 w' r plain held x = record {
    held = λ q n. x.held q n ∙ held q (λ t. n (inl t));
    own = elim x.own [
      | inl e ↦ inl (e ∙ held (name ∷ place) (name-NotTemporary plain))
      | inr e ↦ inr e
    ];
    done = x.done;
  }

  -- What is added behind it, where a success remains none that was no success.
  after :
      (w w1 w' : W) (r r' : Fallible)
      → ((q : Place) → v.holds w' q ≡ v.holds w1 q)
      → (r' ≡ ok tt → r ≡ ok tt)
      → Atomic w r w1
      → Atomic w r' w'
  after w w1 w' r r' held f x = record {
    held = λ q n. held q ∙ x.held q n;
    own = elim x.own [
      | inl e ↦ inl (held (name ∷ place) ∙ e)
      | inr e ↦ inr (held (name ∷ place) ∙ e)
    ];
    done = λ h. held (name ∷ place) ∙ x.done (f h);
  }

module _ {W : Type 0} (s : Storage W) (v : View W) (posix : Posix s v) (d : ℕ) (place : Place)
    (name : String) (value : Bytes) (plain : is_dotted name ≡ false) where
  module _ (t : String) (dot : is_dotted t ≡ true) where
    after_rename-Atomic :
        (r : Fallible) (w w1 : W)
        → v.inside w d place
        → v.holds w (t ∷ place) ≡ some value
        → s.system.rename_at d t d name w ≡ (r, w1)
        → v.inside w1 d place
        → Held v (λ q. (q ≡ t ∷ place) ⊎ (q ≡ name ∷ place)) w w1
        → Atomic v place name value w
            (after_rename s.system d t r w1).0
            (after_rename s.system d t r w1).1
    unfolding after_rename
    after_rename-Atomic (ok _) w w1 on holds h on1 held =
        let calm = posix.files.fsync_calm d w1 in
        let own = calm.held (name ∷ place) ∙ posix.files.renamed d t name place w w1 on h ∙ holds in
        record {
          held = λ q n.
              calm.held q
              ∙ held q (λ x. elim x [ inl e ↦ n (inl (t, dot, e)) | inr e ↦ n (inr e) ]);
          own = inr own;
          done = λ _. own;
        }
    after_rename-Atomic (err e) w w1 on holds h on1 held =
        failed v place name value w _ _ plain
          (Held-trans v (λ q n. posix.files.rename_failed d t name e w w1 h q)
            (abandon-closed_held s v posix d place t e w1 on1 dot))
          (λ k. abandon-fails s.system d t 0 false e w1 _ (pair-eq _ k refl))

    after_close-Atomic :
        (r : Fallible) (w : W)
        → v.inside w d place
        → v.holds w (t ∷ place) ≡ some value
        → Atomic v place name value w
            (after_close s.system d name t r w).0
            (after_close s.system d name t r w).1
    unfolding after_close
    after_close-Atomic (ok _) w on holds =
        after_rename-Atomic _ w _ on holds refl (posix.files.rename_inside d t name w d place on)
          (posix.files.rename_held d t name place w on)
    after_close-Atomic (err e) w on holds =
        failed v place name value w _ _ plain (abandon-closed_held s v posix d place t e w on dot)
          (λ k. abandon-fails s.system d t 0 false e w _ (pair-eq _ k refl))

    after_fill-Atomic :
        (f : ℕ) (r : Fallible) (w : W)
        → v.inside w d place
        → v.file w f
        → (r ≡ ok tt → v.filling w f (t ∷ place) value)
        → Atomic v place name value w
            (after_fill s.system d name t f r w).0
            (after_fill s.system d name t f r w).1
    unfolding after_fill
    after_fill-Atomic f (ok _) w on file done =
        let closing = s.system.close f w in
        before v place name value w closing.1 _ _ plain (λ q n. posix.files.close_held f w q)
          (after_close-Atomic closing.0 closing.1 (posix.files.close_file f w file d place on) (
            posix.files.close_held f w (t ∷ place)
            ∙ posix.files.filled f (t ∷ place) value w (done refl)))
    after_fill-Atomic f (err e) w on file done =
        failed v place name value w _ _ plain (abandon-Held s v posix d place t f e w on dot file)
          (λ k. abandon-fails s.system d t f true e w _ (pair-eq _ k refl))

  pub write_atomic-Atomic :
      (w : W)
      → v.inside w d place
      → Atomic v place name value w
          (write_atomic s.system d name value w).0
          (write_atomic s.system d name value w).1
  unfolding write_atomic create_temporary write_temporary
  write_atomic-Atomic w on =
      let created = create_attempts-Created s v posix d place 128 w on in
      bind-run (Atomic v place name value w) _ _ w
        (λ e h. failed v place name value w _ _ plain created.near.held (λ k. cc))
        (λ x h. filled _ created.near x.0 x.1 (created.on x.0 x.1 (ap (λ p. p.0) h)))
    where
      filled :
          (w1 : W)
          → Near v (Temporary place) w w1
          → (t : String) (f : ℕ)
          → (is_dotted t ≡ true) × v.file w1 f × v.filling w1 f (t ∷ place) []
          → Atomic v place name value w
              (write_temporary s.system d name value (t, f) w1).0
              (write_temporary s.system d name value (t, f) w1).1
      filled w1 near t f (dot, file, filling) =
          let x = fill_temporary-Filled s v posix f (t ∷ place) value w1 file filling in
          before v place name value w _ _ _ plain
            (Held-trans v near.held (λ q n. x.near.held q (λ e. n (t, dot, e))))
            (after_fill-Atomic t dot f _ _ (x.near.inside d place (near.inside d place on)) x.file
              x.done)

module _ {W : Type 0} (s : Storage W) where
  -- The work of a `set` in the directory of its storage.
  abbrev pub replace_in : String → Bytes → ℕ → Action W (Unit {0})
  replace_in key value d =
      let name = identifier s.sha256 key_domain key in
      validate_existing s d name >> write_atomic s.system d name value

module _ {W : Type 0} (s : Storage W) (v : View W) (posix : Posix s v) where
  replace_in-Atomic :
      (key : String) (value : Bytes) (d : ℕ) (w : W)
      → v.inside w d (folder s)
      → Atomic v
          (folder s)
          (identifier s.sha256 key_domain key)
          value
          w
          (replace_in s key value d w).0
          (replace_in s key value d w).1
  replace_in-Atomic key value d w on =
      let name = identifier s.sha256 key_domain key in
      let plain = identifier-undotted s.sha256 key_domain key in
      let near = validate_existing-Near s v posix d (folder s) name w on in
      bind-run (Atomic v (folder s) name value w) _ _ w
        (λ e h. failed v (folder s) name value w _ _ plain (λ q n. near.held q (λ b. b)) (λ k. cc))
        (λ _ h.
          before v (folder s) name value w _ _ _ plain (λ q n. near.held q (λ b. b))
            (write_atomic-Atomic s v posix d (folder s) name value plain _
              (near.inside d (folder s) on)))

  -- Whatever a `set` returns, the credential of the key is as it was or holds the value, and holds it
  -- where the `set` succeeds; and every other file is as it was, but those in the directory of the
  -- storage of which the name starts with a dot. The calls of the system behave as documented.
  pub set-Atomic :
      (key : String) (value : Bytes) (w : W)
      → Atomic v
          (folder s)
          (identifier s.sha256 key_domain key)
          value
          w
          (set s key value w).0
          (set s key value w).1
  unfolding set relabel finally
  set-Atomic key value w =
      let name = identifier s.sha256 key_domain key in
      let plain = identifier-undotted s.sha256 key_domain key in
      let opened = open_service_directory-Opened s v posix true w in
      after v (folder s) name value w _ _ _ _ (λ q. refl)
        (on_error-ok (operation_error "set credential" false) _ tt)
        (bind-run (Atomic v (folder s) name value w) _
          (λ d. finally (replace_in s key value d) (s.system.close d)) w
          (λ e h.
            failed v (folder s) name value w _ _ plain (λ q n. opened.held q (λ b. b)) (λ k. cc))
          (λ d h.
            after v (folder s) name value w _ _ _ _ (posix.files.close_held d _) (λ k. k)
              (before v (folder s) name value w _ _ _ plain (λ q n. opened.held q (λ b. b))
                (replace_in-Atomic key value d _ (opened.on d (ap (λ p. p.0) h))))))
