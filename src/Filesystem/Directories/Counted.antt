-- ===== src/Filesystem/Directories/Counted.antt =====
-- The descriptors of `prepareDirectories` of internal/backend/fs/directory_linux.go.
use common_keyring.Base.{ℕ, ◌+◌, String, [], nat_eq, ◌≡◌, arith, Bool-cases, inl, inr}
use common_keyring.Errors.{fs_not_exist, is, Result, ok, err, Fallible}
use common_keyring.Filesystem.Steps.{◌>>◌}
use common_keyring.Filesystem.Layout.{layout_version}
use common_keyring.Filesystem.Storage.Traces.{opened, closed, Traced, quiet, noted, noted_ok}
use common_keyring.Filesystem.Storage.Balance.{
  opens, closes, one_if, gain, nothing, nothing-gain, Balance, Gains, Gains-bind, Gains-bracket,
  Gains-use, Gains-relabel, Gains-return, relabel-held,
}
use common_keyring.Filesystem.Storage.Descriptors.{Gains-quiet, Gains-opened, Frees-closed}
use common_keyring.Filesystem.Directories.{
  Host, directory_mode, check_directory, made, validate_directory, keep_private, validated,
  open_directory, open_directory_at, make_directory, or_create, open_or_create, prepare_service,
  prepare_layout, prepare_directories,
}

-- A host that notes the descriptors it opens and closes.
abbrev pub observed : {W : Type 0} → Host W → Host (Traced W)
observed h = record {
  mkdir_all = λ path mode. quiet (h.mkdir_all path mode);
  mkdir_at = λ parent name mode. quiet (h.mkdir_at parent name mode);
  open_path = λ path. noted_ok (h.open_path path) opened;
  open_at = λ parent name. noted_ok (h.open_at parent name) opened;
  fstat = λ d. quiet (h.fstat d);
  close = λ d. noted (h.close d) (closed d);
}

module _ {W : Type 0} (h : Host W) where
  abbrev o : Host (Traced W)
  o = observed h

  validate_directory-Gains : (d uid : ℕ) → Gains nothing (validate_directory o d uid)
  unfolding validate_directory
  validate_directory-Gains d uid =
      Gains-bind nothing _ _ (Gains-relabel _ _ (Gains-quiet (h.fstat d)))
        λ status. Gains-return (λ _. check_directory uid status)

  keep_private-at :
      (d : ℕ) (r : Fallible) (t : Traced W) (n : ℕ)
      → opens n (keep_private o d r t).1.1 + closes n t.1 + one_if d n
        ≡ closes n (keep_private o d r t).1.1 + opens n t.1 + gain one_if (keep_private o d r t).0 n
  unfolding keep_private
  keep_private-at d (ok _) t n = omega arith
  keep_private-at d (err e) t n = omega (arith, (Frees-closed (h.close d) d).at t n)

  validated-at :
      (uid d : ℕ) (t : Traced W) (n : ℕ)
      → opens n (validated o uid d t).1.1 + closes n t.1 + one_if d n
        ≡ closes n (validated o uid d t).1.1 + opens n t.1 + gain one_if (validated o uid d t).0 n
  unfolding validated
  validated-at uid d t n =
      let v = validate_directory o d uid t in
      omega (
        arith,
        (validate_directory-Gains d uid).at t n,
        nothing-gain v.0 n,
        keep_private-at d v.0 v.1 n,
      )

  open_directory-Gains : (path : String) (uid : ℕ) → Gains one_if (open_directory o path uid)
  unfolding open_directory
  open_directory-Gains path uid =
      Gains-use one_if _ _ (relabel-held _ _ (Gains-opened (h.open_path path))) (validated-at uid)

  open_directory_at-Gains :
      (parent : ℕ) (name : String) (uid : ℕ) → Gains one_if (open_directory_at o parent name uid)
  unfolding open_directory_at
  open_directory_at-Gains parent name uid =
      Gains-use one_if _ _ (relabel-held _ _ (Gains-opened (h.open_at parent name)))
        (validated-at uid)

  make_directory-Gains : (parent : ℕ) (name : String) → Gains nothing (make_directory o parent name)
  unfolding make_directory
  make_directory-Gains parent name = record {
    at = λ s n.
        let r = o.mkdir_at parent name directory_mode s in
        omega (
          arith,
          (Gains-quiet (h.mkdir_at parent name directory_mode)).at s n,
          nothing-gain r.0 n,
          nothing-gain (made r.0) n,
        );
  }

  or_create-Balance :
      (parent : ℕ) (name : String) (uid : ℕ) (r : Result ℕ) (s s1 : Traced W)
      → Balance (gain one_if r) s s1
      → Balance
          (gain one_if (or_create o parent name uid r s1).0)
          s
          (or_create o parent name uid r s1).1
  unfolding or_create
  or_create-Balance parent name uid (ok d) s s1 p n = p n
  or_create-Balance parent name uid (err e) s s1 p n = elim (Bool-cases (is e fs_not_exist)) [
    | inl m ↦ rw m (omega (arith, p n, again.at s1 n))
    | inr m ↦ rw m (p n)
  ]
    where
      again : Gains one_if (make_directory o parent name >> open_directory_at o parent name uid)
      again =
          Gains-bind one_if _ _ (make_directory-Gains parent name)
            (λ _. open_directory_at-Gains parent name uid)

  open_or_create-Gains :
      (parent : ℕ) (name : String) (uid : ℕ) → Gains one_if (open_or_create o parent name uid)
  unfolding open_or_create
  open_or_create-Gains parent name uid = record {
    at = λ s.
        let r = open_directory_at o parent name uid s in
        or_create-Balance parent name uid r.0 s r.1
          ((open_directory_at-Gains parent name uid).at s);
  }

  prepare_service-Gains :
      (service_id : String) (uid version : ℕ)
      → Gains nothing (prepare_service o service_id uid version)
  unfolding prepare_service
  prepare_service-Gains service_id uid version =
      Gains-bracket nothing _ _ _ (relabel-held _ _ (open_or_create-Gains version service_id uid))
        (λ service. Gains-return (λ _. ok tt)) (λ service. Frees-closed (h.close service) service)

  prepare_layout-Gains :
      (service_id : String) (uid root : ℕ) → Gains nothing (prepare_layout o service_id uid root)
  unfolding prepare_layout
  prepare_layout-Gains service_id uid root =
      Gains-bracket nothing _ _ _ (relabel-held _ _ (open_or_create-Gains root layout_version uid))
        (prepare_service-Gains service_id uid) (λ version. Frees-closed (h.close version) version)

  prepare-Gains :
      (root_path service_id : String) (uid : ℕ)
      → Gains nothing (prepare_directories o root_path service_id uid)
  unfolding prepare_directories
  prepare-Gains root_path service_id uid =
      Gains-bind nothing _ _
        (Gains-relabel _ _ (Gains-quiet (h.mkdir_all root_path directory_mode)))
        λ _.
          Gains-bracket nothing _ _ _ (relabel-held _ _ (open_directory-Gains root_path uid))
            (prepare_layout-Gains service_id uid) (λ root. Frees-closed (h.close root) root)

  -- Whatever the host answers, `prepareDirectories` closes every descriptor as often as it opens it.
  pub prepare_directories-opens_closes :
      (root_path service_id : String) (uid : ℕ) (w : W) (n : ℕ)
      → opens n (prepare_directories (observed h) root_path service_id uid (w, [])).1.1
        ≡ closes n (prepare_directories (observed h) root_path service_id uid (w, [])).1.1
  unfolding opens closes
  prepare_directories-opens_closes root_path service_id uid w n =
      let r = prepare_directories o root_path service_id uid (w, []) in
      omega (arith, (prepare-Gains root_path service_id uid).at (w, []) n, nothing-gain r.0 n)
