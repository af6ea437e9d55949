-- ===== src/Filesystem/Posix/Removal.antt =====
-- `delete` of internal/backend/fs/storage_linux.go on the files of the system.
use common_keyring.Base.{ℕ, String, true, false, none, ◌≡◌, refl, ◌∙◌, ap, ◌⊎◌, inl, inr}
use common_keyring.Errors.{GoError, Fallible, ok, err, Action}
use common_keyring.Filesystem.Steps.{◌>>=◌, ◌>>◌, relabel, finally}
use common_keyring.Filesystem.Steps.Runs.{bind-run, on_error-ok}
use common_keyring.Filesystem.Layout.{key_domain, identifier}
use common_keyring.Filesystem.Faults.{operation_error}
use common_keyring.Filesystem.Storage.{Storage, delete, open_credential}
use common_keyring.Filesystem.Posix.{Place, View, Held, Posix}
use common_keyring.Filesystem.Posix.Folder.{folder, open_service_directory-Opened}
use common_keyring.Filesystem.Posix.Existing.{open_credential-Readable}
use common_keyring.Filesystem.Posix.Atomic.{credential}

module _ {W : Type 0} (v : View W) (own : Place) where
  -- No file but that at `own` was changed, which was removed or is as it was, and removed behind a
  -- success.
  pub record Removed (w : W) (r : Fallible) (w' : W) : Type 0 where
    pub held : Held v (λ q. q ≡ own) w w'
    pub now : (v.holds w' own ≡ v.holds w own) ⊎ (v.holds w' own ≡ none)
    pub done : r ≡ ok tt → v.holds w' own ≡ none

  kept :
      (w w' : W) (e : GoError) → ((q : Place) → v.holds w' q ≡ v.holds w q) → Removed w (err e) w'
  kept w w' e held = record { held = λ q n. held q; now = inl (held own); done = λ h. cc }

  -- What is added in front or behind without a change of a file.
  around :
      (w0 w w1 w' : W) (r r' : Fallible)
      → ((q : Place) → v.holds w q ≡ v.holds w0 q)
      → ((q : Place) → v.holds w' q ≡ v.holds w1 q)
      → (r' ≡ ok tt → r ≡ ok tt)
      → Removed w r w1
      → Removed w0 r' w'
  around w0 w w1 w' r r' front behind f x = record {
    held = λ q n. behind q ∙ x.held q n ∙ front q;
    now = elim x.now [ inl e ↦ inl (behind own ∙ e ∙ front own) | inr e ↦ inr (behind own ∙ e) ];
    done = λ h. behind own ∙ x.done (f h);
  }

module _ {W : Type 0} (s : Storage W) (v : View W) (posix : Posix s v) where
  -- The work of a `delete` in the directory of its storage, behind the opening of the credential.
  abbrev unlink_in : String → ℕ → Action W (Unit {0})
  unlink_in key d = s.system.unlink_at d (identifier s.sha256 key_domain key) >> s.system.fsync d

  unlink_in-Removed :
      (key : String) (d : ℕ) (w : W)
      → v.inside w d (folder s)
      → Removed v (credential s key) w (unlink_in key d w).0 (unlink_in key d w).1
  unlink_in-Removed key d w on =
      let name = identifier s.sha256 key_domain key in
      bind-run (Removed v (credential s key) w) _ _ w
        (λ e h. kept v (credential s key) w _ e (λ q. posix.files.unlink_failed d name e w _ h q))
        (λ _ h.
          let calm = posix.files.fsync_calm d _ in
          let gone =
            calm.held (credential s key) ∙ posix.files.unlinked d name (folder s) w _ on h in
          record {
            held = λ q n. calm.held q ∙ posix.files.unlink_held d name (folder s) w on q n;
            now = inr gone;
            done = λ _. gone;
          })

  abbrev delete_in : String → ℕ → Action W (Unit {0})
  delete_in key d = open_credential s d (identifier s.sha256 key_domain key) >>= λ f.
      s.system.close f >> unlink_in key d

  delete_in-Removed :
      (key : String) (d : ℕ) (w : W)
      → v.inside w d (folder s)
      → Removed v (credential s key) w (delete_in key d w).0 (delete_in key d w).1
  delete_in-Removed key d w on =
      let opened =
        open_credential-Readable s v posix d (folder s) (identifier s.sha256 key_domain key) w on in
      bind-run (Removed v (credential s key) w) _ (λ f. s.system.close f >> unlink_in key d) w
        (λ e h. kept v (credential s key) w _ e (λ q. opened.near.held q (λ b. b)))
        (λ f h.
          let on1 = opened.near.inside d (folder s) on in
          let file = (opened.on f (ap (λ p. p.0) h)).0 in
          around v (credential s key) w _ _ _ _ _ (λ q. opened.near.held q (λ b. b)) (λ q. refl)
            (λ k. k)
            (bind-run (Removed v (credential s key) _) _ _ _
              (λ e k. kept v (credential s key) _ _ e (posix.files.close_held f _))
              (λ _ k.
                around v (credential s key) _ _ _ _ _ _ (posix.files.close_held f _) (λ q. refl)
                  (λ k. k)
                  (unlink_in-Removed key d _ (posix.files.close_file f _ file d (folder s) on1)))))

  -- A `delete` changes no file but the credential of the key, whatever it returns. The credential is
  -- removed or is as it was, and is removed where the `delete` succeeds. The calls of the system
  -- behave as documented.
  pub delete-Removed :
      (key : String) (w : W) → Removed v (credential s key) w (delete s key w).0 (delete s key w).1
  unfolding delete relabel finally
  delete-Removed key w =
      let opened = open_service_directory-Opened s v posix false w in
      around v (credential s key) w w _ _ _ _ (λ q. refl) (λ q. refl)
        (on_error-ok (operation_error "delete credential" true) _ tt)
        (bind-run (Removed v (credential s key) w) _
          (λ d. finally (delete_in key d) (s.system.close d)) w
          (λ e h. kept v (credential s key) w _ e (λ q. opened.held q (λ b. b)))
          (λ d h.
            around v (credential s key) w _ _ _ _ _ (λ q. opened.held q (λ b. b))
              (posix.files.close_held d _) (λ k. k)
              (delete_in-Removed key d _ (opened.on d (ap (λ p. p.0) h)))))
