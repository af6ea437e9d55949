-- ===== src/Filesystem/Posix/Kernel/Managed.antt =====
-- The managed directories of internal/backend/fs/directory_linux.go: their preparation and opening
-- change no file, and what is opened is where it is expected.
use mathlib.Core.Path.{subst}
use common_keyring.Base.{ℕ, String, [], ◌∷◌, ◌≡◌, ap, Bool-cases, inl, inr}
use common_keyring.Errors.{fs_not_exist, is, wrap1, Result, Fallible, ok, err, Action, ok-eq}
use common_keyring.Filesystem.Layout.{layout_version}
use common_keyring.Filesystem.Steps.{return, ◌>>=◌, relabel}
use common_keyring.Filesystem.Steps.Runs.{bind-run, bind-ok, relabel-ok}
use common_keyring.Filesystem.Directories.{
  Host, directory_mode, directory_error, check_directory, validate_directory, keep_private,
  validated, open_directory, open_directory_at, make_directory, or_create, open_or_create,
  prepare_service, prepare_layout, prepare_directories,
}
use common_keyring.Filesystem.Posix.{Place, View, Calm}
use common_keyring.Filesystem.Posix.Quiet.{
  Unused, Quiet, Opens, Calm-refl, Calm-trans, Calm-closed, Unused-before, Quiet-bind,
  Quiet-relabel, Quiet-bracket, Opens-relabel, Opens-behind,
}
use common_keyring.Filesystem.Posix.Kernel.{Kernel}

module _ {W : Type 0} (h : Host W) (root_path : String) (v : View W)
    (kernel : Kernel h root_path v) where
  validate_directory-Quiet : (d uid : ℕ) → Quiet v (validate_directory h d uid)
  unfolding validate_directory
  validate_directory-Quiet d uid =
      Quiet-bind v (relabel (directory_error "inspect directory") (h.fstat d))
        (λ status w. (check_directory uid status, w))
        (Quiet-relabel v _ (h.fstat d) (kernel.fstat_quiet d)) (λ status w. Calm-refl v w)

  -- A directory that was just opened and is validated.
  kept :
      (d : ℕ) (r : Fallible) (w w1 : W)
      → Unused v d w
      → Calm v w w1
      → Calm v w (keep_private h d r w1).1
        × ((c : ℕ) → (keep_private h d r w1).0 ≡ ok c → Unused v c w)
  unfolding keep_private
  kept d (ok _) w w1 u x = (x, λ c k. rw (← ok-eq k) u)
  kept d (err e) w w1 u x = (Calm-closed v u x (kernel.close_spares d w1), λ c k. cc)

  validated-Opens :
      (m : Action W ℕ) (uid : ℕ)
      → ((w : W) → Opens v m w)
      → (w : W) → Opens v (m >>= validated h uid) w
  unfolding validated
  validated-Opens m uid x w =
      let both =
        bind-run (λ r w'. Calm v w w' × ((c : ℕ) → r ≡ ok c → Unused v c w)) m (validated h uid) w
          (λ e k. ((x w).calm, λ c j. cc))
          (λ d k.
            kept d (validate_directory h d uid (m w).1).0 w (validate_directory h d uid (m w).1).1
              ((x w).fresh d (ap (λ p. p.0) k))
              (Calm-trans v (x w).calm (validate_directory-Quiet d uid (m w).1))) in
      record { calm = both.0; fresh = both.1 }

  pub open_directory-Opens :
      (path : String) (uid : ℕ) (w : W) → Opens v (open_directory h path uid) w
  unfolding open_directory
  open_directory-Opens path uid =
      validated-Opens (relabel (directory_error "open directory") (h.open_path path)) uid
        (λ w. Opens-relabel v _ (h.open_path path) w (kernel.open_path_opens path w))

  pub open_directory_at-Opens :
      (p : ℕ) (name : String) (uid : ℕ) (w : W) → Opens v (open_directory_at h p name uid) w
  unfolding open_directory_at
  open_directory_at-Opens p name uid =
      validated-Opens (relabel (directory_error "open directory") (h.open_at p name)) uid
        (λ w. Opens-relabel v _ (h.open_at p name) w (kernel.open_at_opens p name w))

  make_directory-Quiet : (p : ℕ) (name : String) → Quiet v (make_directory h p name)
  unfolding make_directory
  make_directory-Quiet p name w = kernel.mkdir_at_quiet p name directory_mode w

  or_create-Opens :
      (p : ℕ) (name : String) (uid : ℕ) (r : Result ℕ) (w w1 : W)
      → Calm v w w1
      → ((d : ℕ) → r ≡ ok d → Unused v d w)
      → Calm v w (or_create h p name uid r w1).1
        × ((d : ℕ) → (or_create h p name uid r w1).0 ≡ ok d → Unused v d w)
  unfolding or_create
  or_create-Opens p name uid (ok d) w w1 x u = (x, u)
  or_create-Opens p name uid (err e) w w1 x u = elim (Bool-cases (is e fs_not_exist)) [
    | inl m ↦
        let y =
          Opens-behind v (make_directory h p name) (λ _. open_directory_at h p name uid)
            (make_directory-Quiet p name) (λ _ w2. open_directory_at-Opens p name uid w2) w1 in
        rw m (Calm-trans v x y.calm, λ d k. Unused-before v x (y.fresh d k))
    | inr m ↦ rw m (x, λ d k. cc)
  ]

  open_or_create-Opens :
      (p : ℕ) (name : String) (uid : ℕ) (w : W) → Opens v (open_or_create h p name uid) w
  unfolding open_or_create
  open_or_create-Opens p name uid w =
      let x = open_directory_at-Opens p name uid w in
      let (calm, fresh) =
        or_create-Opens p name uid (open_directory_at h p name uid w).0 w
          (open_directory_at h p name uid w).1 x.calm x.fresh in
      record { calm = calm; fresh = fresh }

  prepare_service-Quiet :
      (id : String) (uid version : ℕ) → Quiet v (prepare_service h id uid version)
  unfolding prepare_service
  prepare_service-Quiet id uid version =
      Quiet-bracket v (relabel (wrap1 "open fallback service") (open_or_create h version id uid))
        (λ service. return tt) h.close
        (λ w.
          Opens-relabel v _ (open_or_create h version id uid) w
            (open_or_create-Opens version id uid w))
        (λ d w. Calm-refl v w) kernel.close_spares

  prepare_layout-Quiet : (id : String) (uid root : ℕ) → Quiet v (prepare_layout h id uid root)
  unfolding prepare_layout
  prepare_layout-Quiet id uid root =
      Quiet-bracket v
        (relabel (wrap1 "open fallback layout") (open_or_create h root layout_version uid))
        (prepare_service h id uid) h.close
        (λ w.
          Opens-relabel v _ (open_or_create h root layout_version uid) w
            (open_or_create-Opens root layout_version uid w))
        (prepare_service-Quiet id uid) kernel.close_spares

  pub prepare_directories-Quiet :
      (path id : String) (uid : ℕ) → Quiet v (prepare_directories h path id uid)
  unfolding prepare_directories
  prepare_directories-Quiet path id uid =
      Quiet-bind v
        (relabel (directory_error "create fallback root") (h.mkdir_all path directory_mode)) _
        (Quiet-relabel v _ (h.mkdir_all path directory_mode)
          (kernel.mkdir_all_quiet path directory_mode))
        (λ _.
          Quiet-bracket v (relabel (wrap1 "open fallback root") (open_directory h path uid))
            (prepare_layout h id uid) h.close
            (λ w. Opens-relabel v _ (open_directory h path uid) w (open_directory-Opens path uid w))
            (prepare_layout-Quiet id uid) kernel.close_spares)

  -- What is returned behind the validation is the directory that was opened.
  validated-ok : (d c uid : ℕ) (w w' : W) → validated h uid d w ≡ (ok c, w') → (d ≡ c) × Calm v w w'
  unfolding validated
  validated-ok d c uid w w' k =
      after (validate_directory h d uid w).0 (validate_directory h d uid w).1
        (validate_directory-Quiet d uid w) k
    where
      after :
          (r : Fallible) (w1 : W)
          → Calm v w w1
          → keep_private h d r w1 ≡ (ok c, w')
          → (d ≡ c) × Calm v w w'
      after (ok _) w1 x k = (ok-eq (ap (λ p. p.0) k), subst (Calm v w) (ap (λ p. p.1) k) x)
      after (err e) w1 x k = cc

  pub open_directory-inside :
      (uid d : ℕ) (w w' : W) → open_directory h root_path uid w ≡ (ok d, w') → v.inside w' d []
  unfolding open_directory
  open_directory-inside uid d w w' k =
      let (c, w1, o, j) = bind-ok _ (validated h uid) w w' d k in
      let (same, calm) = validated-ok c d uid w1 w' j in
      subst (λ n. v.inside w' n []) same
        (calm.inside c []
          (kernel.root_inside c w w1 (relabel-ok _ (h.open_path root_path) w w1 c o)))

  pub open_directory_at-inside :
      (p uid d : ℕ) (name : String) (place : Place) (w w' : W)
      → v.inside w p place
      → open_directory_at h p name uid w ≡ (ok d, w')
      → v.inside w' d (name ∷ place)
  unfolding open_directory_at
  open_directory_at-inside p uid d name place w w' on k =
      let (c, w1, o, j) = bind-ok _ (validated h uid) w w' d k in
      let (same, calm) = validated-ok c d uid w1 w' j in
      subst (λ n. v.inside w' n (name ∷ place)) same
        (calm.inside c (name ∷ place)
          (kernel.at_inside p c name place w w1 on (relabel-ok _ (h.open_at p name) w w1 c o)))
