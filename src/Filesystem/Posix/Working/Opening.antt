-- ===== src/Filesystem/Posix/Working/Opening.antt =====
-- `openServiceDirectory` and `validateExistingCredential` of internal/backend/fs/storage_linux.go
-- complete.
use common_keyring.Base.{
  ℕ, String, Bool, true, false, none, some, [], ◌∷◌, ◌≡◌, refl, pair-eq, Option-cases, inl, inr,
}
use common_keyring.Errors.{Result, ok, err}
use common_keyring.Contract.{Bytes}
use common_keyring.Filesystem.Steps.{◌>>=◌, ◌>>◌, finally}
use common_keyring.Filesystem.Layout.{layout_version}
use common_keyring.Filesystem.Storage.{
  Storage, read_flags, open_service_directory, validate_credential, keep_valid, open_credential,
  close_existing, validate_existing,
}
use common_keyring.Filesystem.Posix.{Place, View, Posix}
use common_keyring.Filesystem.Posix.Folder.{layout_from, service_from, from_root, prepare}
use common_keyring.Filesystem.Posix.Working.{Completes, bind-Completes, Working}

module _ {W : Type 0} (s : Storage W) (v : View W) (posix : Posix s v) (working : Working s v) where
  layout_from-Completes :
      (root : ℕ) (w : W) → v.inside w root [] → Completes (layout_from s root w).0
  unfolding finally
  layout_from-Completes root w on =
      bind-Completes _ (service_from s) w (working.directory_opens root layout_version [] w on)
        (λ version h.
          working.directory_opens version s.service_id (layout_version ∷ []) _
            (posix.opened_at root version layout_version [] w _ on (pair-eq _ h refl)))

  from_root-Completes : (w : W) → Completes (from_root s w).0
  unfolding finally
  from_root-Completes w =
      bind-Completes _ _ w (working.root_opens w)
        (λ root h. layout_from-Completes root _ (posix.opened_root root w _ (pair-eq _ h refl)))

  prepare-Completes : (create : Bool) (w : W) → Completes (prepare s create w).0
  prepare-Completes true w = working.prepared w
  prepare-Completes false w = (tt, refl)

  pub open_service_directory-Completes :
      (create : Bool) (w : W) → Completes (open_service_directory s create w).0
  unfolding open_service_directory
  open_service_directory-Completes create w =
      bind-Completes _ (λ _. prepare s create >> from_root s) w (working.mount_accepted w)
        (λ _ h.
          bind-Completes (prepare s create) (λ _. from_root s) _ (prepare-Completes create _)
            (λ _ k. from_root-Completes _))

  module _ (d : ℕ) (place : Place) (name : String) where
    validate_credential-ok :
        (f : ℕ) (w w1 : W)
        → s.system.open_file_at d name read_flags 0 w ≡ (ok f, w1)
        → (validate_credential s f w1).0 ≡ ok tt
    unfolding validate_credential ◌>>=◌
    validate_credential-ok f w w1 h =
        let (status, k, private) = working.file_private d f name w w1 h in rw k private

    pub open_credential-Completes :
        (b : Bytes) (w : W)
        → v.inside w d place
        → v.holds w (name ∷ place) ≡ some b
        → Completes (open_credential s d name w).0
    unfolding open_credential keep_valid
    open_credential-Completes b w on holds =
        bind-Completes _ _ w (working.file_opens d name place b w on holds)
          (λ f h. (f, rw (validate_credential-ok f w _ (pair-eq _ h refl)) refl))

    -- A missing credential is none that is refused.
    validate_missing :
        (w : W)
        → v.inside w d place
        → v.holds w (name ∷ place) ≡ none
        → Completes (validate_existing s d name w).0
    unfolding validate_existing open_credential close_existing ◌>>=◌
    validate_missing w on holds =
        let (e, h, gone) = working.file_missing d name place w on holds in (tt, rw h (rw gone refl))

    validate_present : (w w1 : W) (r : Result ℕ) → Completes r → Completes (close_existing s r w1).0
    unfolding close_existing
    validate_present w w1 (ok f) h = working.closes f w1
    validate_present w w1 (err e) (a, h) = cc

    pub validate_existing-Completes :
        (w : W) → v.inside w d place → Completes (validate_existing s d name w).0
    unfolding validate_existing
    validate_existing-Completes w on = elim (Option-cases (v.holds w (name ∷ place))) [
      | inl e ↦ validate_missing w on e
      | inr (b, e) ↦ validate_present w _ _ (open_credential-Completes b w on e)
    ]
