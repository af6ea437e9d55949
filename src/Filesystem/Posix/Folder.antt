-- ===== src/Filesystem/Posix/Folder.antt =====
-- `openServiceDirectory` of internal/backend/fs/storage_linux.go on the files of the system.
use common_keyring.Base.{ℕ, Bool, true, false, [], ◌∷◌, ◌≡◌, ◌∙◌, ap, if◌then◌else◌}
use common_keyring.Errors.{GoError, Result, ok, err, Action}
use common_keyring.Filesystem.Steps.{return, ◌>>=◌, ◌>>◌, finally}
use common_keyring.Filesystem.Steps.Runs.{bind-run}
use common_keyring.Filesystem.Layout.{layout_version}
use common_keyring.Filesystem.Storage.{Storage, open_service_directory}
use common_keyring.Filesystem.Posix.{Place, View, Held, Calm, Posix}
use common_keyring.Filesystem.Posix.Near.{Nothing}

-- The directory of a storage
abbrev pub folder : {W : Type 0} → Storage W → Place
folder s = s.service_id ∷ layout_version ∷ []

module _ {W : Type 0} (s : Storage W) where
  -- The steps of `openServiceDirectory` from the inner directories to the outer ones.
  abbrev pub service_from : ℕ → Action W ℕ
  service_from version =
      finally (s.system.open_directory_at version s.service_id s.effective_uid)
        (s.system.close version)

  abbrev pub layout_from : ℕ → Action W ℕ
  layout_from root = s.system.open_directory_at root layout_version s.effective_uid >>= service_from

  abbrev pub from_root : Action W ℕ
  from_root = s.system.open_directory s.root_path s.effective_uid >>= λ root.
      finally (layout_from root) (s.system.close root)

  abbrev pub prepare : Bool → Action W (Unit {0})
  prepare create =
      if create
      then s.system.prepare_directories s.root_path s.service_id s.effective_uid
      else return tt

module _ {W : Type 0} (s : Storage W) (v : View W) (posix : Posix s v) where
  -- No file was changed, and a descriptor that is returned is open on the directory.
  pub record Opened (place : Place) (w : W) (r : Result ℕ) (w' : W) : Type 0 where
    pub held : Held v Nothing w w'
    pub on : (d : ℕ) → r ≡ ok d → v.inside w' d place

  failed : (place : Place) (w w' : W) (e : GoError) → Calm v w w' → Opened place w (err e) w'
  failed place w w' e x = record { held = λ q n. x.held q; on = λ d h. cc }

  after_calm :
      (place : Place) (w w1 w' : W) (r : Result ℕ)
      → Calm v w w1
      → Opened place w1 r w'
      → Opened place w r w'
  after_calm place w w1 w' r x y = record { held = λ q n. y.held q n ∙ x.held q; on = y.on }

  -- The opening of the service's directory in that of the layout, which is closed.
  open_service :
      (root version : ℕ) (w : W)
      → v.inside w root []
      → v.inside w version (layout_version ∷ [])
      → Opened (folder s) w (service_from s version w).0 (service_from s version w).1
        × v.inside (service_from s version w).1 root []
  unfolding finally
  open_service root version w on_root on_version =
      let opening = s.system.open_directory_at version s.service_id s.effective_uid w in
      let calm = posix.open_directory_at_calm version s.service_id s.effective_uid w in
      let version_on = calm.inside version (layout_version ∷ []) on_version in
      (
        record {
          held = λ q n. posix.files.close_held version opening.1 q ∙ calm.held q;
          on = λ d h.
              posix.files.close_directory version d (layout_version ∷ []) (folder s) opening.1
                version_on
                (posix.opened_at version d s.service_id (layout_version ∷ []) w opening.1 on_version
                  (ap (λ r. (r, opening.1)) h))
                (λ e. cc);
        },
        posix.files.close_directory version root (layout_version ∷ []) [] opening.1 version_on
            (calm.inside root [] on_root) (λ e. cc),
      )

  -- The same from the root directory.
  open_layout :
      (root : ℕ) (w : W)
      → v.inside w root []
      → Opened (folder s) w (layout_from s root w).0 (layout_from s root w).1
        × v.inside (layout_from s root w).1 root []
  open_layout root w on_root =
      let calm = posix.open_directory_at_calm root layout_version s.effective_uid w in
      bind-run (λ r w'. Opened (folder s) w r w' × v.inside w' root []) _ _ w
        (λ e h. (failed (folder s) w _ e calm, calm.inside root [] on_root))
        (λ version h.
          let (o, on_root') =
            open_service root version _ (calm.inside root [] on_root)
              (posix.opened_at root version layout_version [] w _ on_root h) in
          (after_calm (folder s) w _ _ _ calm o, on_root'))

  close_root :
      (root : ℕ) (w w' : W) (r : Result ℕ)
      → Opened (folder s) w r w'
      → v.inside w' root []
      → Opened (folder s) w r (s.system.close root w').1
  close_root root w w' r o on_root = record {
    held = λ q n. posix.files.close_held root w' q ∙ o.held q n;
    on = λ d h. posix.files.close_directory root d [] (folder s) w' on_root (o.on d h) (λ e. cc);
  }

  -- Where `openServiceDirectory` ends, no file was changed; a descriptor is on the directory.
  pub open_service_directory-Opened :
      (create : Bool) (w : W)
      → Opened
          (folder s)
          w
          (open_service_directory s create w).0
          (open_service_directory s create w).1
  unfolding open_service_directory finally
  open_service_directory-Opened create w =
      let validated = posix.validate_mount_calm s.root_path w in
      bind-run (Opened (folder s) w) _ _ w (λ e h. failed (folder s) w _ e validated)
        (λ _ h. after_calm (folder s) w _ _ _ validated (prepared create _))
    where
      opened : (w1 : W) → Opened (folder s) w1 (from_root s w1).0 (from_root s w1).1
      opened w1 =
          let calm = posix.open_directory_calm s.root_path s.effective_uid w1 in
          bind-run (Opened (folder s) w1) _ _ w1 (λ e h. failed (folder s) w1 _ e calm)
            (λ root h.
              let (o, on_root) = open_layout root _ (posix.opened_root root w1 _ h) in
              close_root root w1 _ _ (after_calm (folder s) w1 _ _ _ calm o) on_root)

      prepared :
          (b : Bool) (w1 : W)
          → Opened
              (folder s)
              w1
              ((prepare s b >> from_root s) w1).0
              ((prepare s b >> from_root s) w1).1
      prepared true w1 =
          let calm = posix.prepare_calm s.root_path s.service_id s.effective_uid w1 in
          bind-run (Opened (folder s) w1) _ _ w1 (λ e h. failed (folder s) w1 _ e calm)
            (λ _ h. after_calm (folder s) w1 _ _ _ calm (opened _))
      prepared false w1 = bind-run (Opened (folder s) w1) _ _ w1 (λ e h. cc) (λ _ h. opened w1)
