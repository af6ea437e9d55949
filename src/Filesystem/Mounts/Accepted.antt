-- ===== src/Filesystem/Mounts/Accepted.antt =====
-- What `validateMount` of internal/backend/fs/mount_linux.go has found of a path that it accepts.
use mathlib.Core.Path.{subst}
use mathlib.Core.List.{reverse}
use common_keyring.Base.{
  Bool, true, false, Option, List, [], ◌∷◌, ◌≡◌, refl, sym, ap, ◌⊎◌, inl, inr, Bool-cases, pair-eq,
}
use common_keyring.Errors.{GoError, fs_not_exist, is, Result, ok, err, Action, ok-eq, >>=-ok}
use common_keyring.Contract.{Bytes}
use common_keyring.Filesystem.Steps.{on_error}
use common_keyring.Filesystem.Steps.Runs.{on_error-ok}
use common_keyring.Filesystem.Paths.{clean, written}
use common_keyring.Filesystem.Mounts.{Device, Mount, mount_error}
use common_keyring.Filesystem.Mounts.Choice.{
  LastLongest, Choice, chosen, nothing, select_mount-Choice,
}
use common_keyring.Filesystem.Mounts.Validation.{
  Environment, is_drvfs, parse_mount_info, select_mount, resolved, after_stat, nearest_existing,
  nearest_of, nearest_existing_path, permitted, check_table, check_opened, check_mount,
  validate_mount,
}

Choice-ok :
    (path : Bytes) (device : Device) (mounts : List Mount) (r : Result Mount) (m : Mount)
    → Choice path device mounts r
    → r ≡ ok m
    → LastLongest path device mounts m
Choice-ok path device mounts r m (chosen l) h = subst (LastLongest path device mounts) (ok-eq h) l
Choice-ok path device mounts r m (nothing n) h = cc

permitted-ok : (m : Mount) → permitted m ≡ ok tt → is_drvfs m ≡ false
unfolding permitted
permitted-ok m h = elim (Bool-cases (is_drvfs m)) [ inl d ↦ cc (rw d at h) | inr d ↦ d ]

-- The mount of the table on which a path lies, which is not one of DrvFS.
pub record OnPermitted (path : Bytes) (device : Device) (table : Bytes × Option GoError)
    : Type 0 where
  pub mounts : List Mount
  pub mount : Mount
  pub parsed : parse_mount_info table ≡ ok mounts
  pub longest : LastLongest path device mounts mount
  pub not_drvfs : is_drvfs mount ≡ false

check_table-ok :
    (path : Bytes) (device : Device) (table : Bytes × Option GoError)
    → check_table path device table ≡ ok tt
    → OnPermitted path device table
unfolding check_table
check_table-ok path device table h =
    let (mounts, p, k) =
      >>=-ok (on_error (mount_error "parse mount metadata") (parse_mount_info table)) _ h in
    let (m, q, l) =
      >>=-ok
        (on_error (mount_error "identify fallback filesystem") (select_mount mounts path device)) _
        k in
    record {
      mounts = mounts;
      mount = m;
      parsed = on_error-ok _ (parse_mount_info table) mounts p;
      longest =
          Choice-ok path device mounts _ m (select_mount-Choice path device mounts)
            (on_error-ok _ (select_mount mounts path device) m q);
      not_drvfs = permitted-ok m l;
    }

module _ {W : Type 0} (env : Environment W) where
  -- The innermost existing one of a path and its parents, by the parts of the path: nothing exists
  -- at those before it, and `path` is it with its symbolic links resolved.
  pub data Nearest (rooted : Bool) (path : Bytes) (device : Device) (w' : W)
      : List Bytes → W → Type 0 where
    here :
        {inner : List Bytes} {w w1 : W}
        → env.stat (written rooted (reverse inner)) w ≡ (ok device, w1)
        → env.evaluate_symlinks (written rooted (reverse inner)) w1 ≡ (ok path, w')
        → Nearest rooted path device w' inner w
    above :
        {name : Bytes} {inner : List Bytes} {w w1 : W} {e : GoError}
        → env.stat (written rooted (reverse (name ∷ inner))) w ≡ (err e, w1)
        → is e fs_not_exist ≡ true
        → Nearest rooted path device w' inner w1
        → Nearest rooted path device w' (name ∷ inner) w

  resolved-ok :
      (d device : Device) (r : Result Bytes) (path : Bytes)
      → resolved d r ≡ ok (path, device)
      → (r ≡ ok path) × (d ≡ device)
  unfolding resolved
  resolved-ok d device (ok p) path h = (cc, cc)
  resolved-ok d device (err e) path h = cc

  after_stat-ok :
      (at : Bytes) (missing : GoError → Action W (Bytes × Device)) (status : Result Device) (w : W)
      (path : Bytes) (device : Device) (w' : W)
      → after_stat env at missing status w ≡ (ok (path, device), w')
      → ((status ≡ ok device) × (env.evaluate_symlinks at w ≡ (ok path, w')))
        ⊎ ((e : GoError) × (status ≡ err e)
            × (is e fs_not_exist ≡ true)
            × (missing e w ≡ (ok (path, device), w')))
  unfolding after_stat
  after_stat-ok at missing (ok d) w path device w' h =
      let (t, s) = resolved-ok d device (env.evaluate_symlinks at w).0 path (ap (λ p. p.0) h) in
      inl (ap ok s, pair-eq _ t (ap (λ p. p.1) h))
  after_stat-ok at missing (err e) w path device w' h = elim (Bool-cases (is e fs_not_exist)) [
    | inl m ↦ inr (e, refl, m, rw m at h)
    | inr m ↦ cc (rw m at h)
  ]

  nearest_existing-Nearest :
      (rooted : Bool) (inner : List Bytes) (w : W) (path : Bytes) (device : Device) (w' : W)
      → nearest_existing env rooted inner w ≡ (ok (path, device), w')
      → Nearest rooted path device w' inner w
  unfolding nearest_existing
  nearest_existing-Nearest rooted [] w path device w' h =
      elim (after_stat-ok (written rooted []) _ (env.stat (written rooted []) w).0 _ path device w'
        h) [ inl (s, e) ↦ here (pair-eq _ s refl) e | inr (e, s, m, k) ↦ cc ]
  nearest_existing-Nearest rooted (name ∷ inner) w path device w' h =
      let at = written rooted (reverse (name ∷ inner)) in
      elim (after_stat-ok at _ (env.stat at w).0 (env.stat at w).1 path device w' h) [
        | inl (s, e) ↦ here (pair-eq _ s refl) e
        | inr (e, s, m, k) ↦
            above (pair-eq _ s refl) m (nearest_existing-Nearest rooted inner _ path device w' k)
      ]

  -- What was found of a root path that was accepted.
  pub record AcceptedMount (root_path : Bytes) (w w' : W) : Type 0 where
    pub path : Bytes
    pub existing : Bytes
    pub device : Device
    pub table : Bytes × Option GoError
    pub started : W
    pub reached : W
    pub opened : W
    pub absolute : env.absolute root_path w ≡ (ok path, started)
    pub nearest : Nearest (clean path).rooted existing device reached (clean path).inner started
    pub read : env.mount_info reached ≡ (ok table, opened)
    pub closed : w' ≡ env.close_mount_info opened
    pub on : OnPermitted existing device table

  nearest_of-ok :
      (r : Result Bytes) (w w' : W) (existing : Bytes) (device : Device)
      → nearest_of env r w ≡ (ok (existing, device), w')
      → (path : Bytes) × (r ≡ ok path)
        × Nearest (clean path).rooted existing device w' (clean path).inner w
  unfolding nearest_of
  nearest_of-ok (err e) w w' existing device h = cc
  nearest_of-ok (ok path) w w' existing device h = (
    path,
    refl,
    nearest_existing-Nearest (clean path).rooted (clean path).inner w existing device w' h,
  )

  check_opened-ok :
      (path : Bytes) (device : Device) (r : Result (Bytes × Option GoError)) (w w' : W)
      → check_opened env path device r w ≡ (ok tt, w')
      → (table : Bytes × Option GoError) × (r ≡ ok table)
        × OnPermitted path device table
        × (w' ≡ env.close_mount_info w)
  unfolding check_opened
  check_opened-ok path device (err e) w w' h = cc
  check_opened-ok path device (ok table) w w' h =
      (table, refl, check_table-ok path device table (ap (λ p. p.0) h), sym (ap (λ p. p.1) h))

  check_mount-ok :
      (r : Result (Bytes × Device)) (w w' : W)
      → check_mount env r w ≡ (ok tt, w')
      → (existing : Bytes) × (device : Device) × (table : Bytes × Option GoError) × (r
          ≡ ok (existing, device))
        × ((env.mount_info w).0 ≡ ok table)
        × OnPermitted existing device table
        × (w' ≡ env.close_mount_info (env.mount_info w).1)
  unfolding check_mount
  check_mount-ok (err e) w w' h = cc
  check_mount-ok (ok (existing, device)) w w' h =
      let (table, t, on, c) =
        check_opened-ok existing device (env.mount_info w).0 (env.mount_info w).1 w' h in
      (existing, device, table, refl, t, on, c)

  -- For a root path that `validateMount` accepts, the innermost existing parent of the path lies, by
  -- the parsed mount table, on a mount that is not one of DrvFS: of the mounts on its device that
  -- contain it, the last of those with the longest point. The table was closed.
  pub validate_mount-AcceptedMount :
      (root_path : Bytes) (w w' : W)
      → validate_mount env root_path w ≡ (ok tt, w')
      → AcceptedMount root_path w w'
  unfolding validate_mount nearest_existing_path
  validate_mount-AcceptedMount root_path w w' h =
      let found = nearest_existing_path env root_path w in
      let (existing, device, table, r, t, on, c) = check_mount-ok found.0 found.1 w' h in
      let (path, a, n) =
        nearest_of-ok (env.absolute root_path w).0 (env.absolute root_path w).1 found.1 existing
          device (pair-eq _ r refl) in
      record {
        path = path;
        existing = existing;
        device = device;
        table = table;
        started = (env.absolute root_path w).1;
        reached = found.1;
        opened = (env.mount_info found.1).1;
        absolute = pair-eq _ a refl;
        nearest = n;
        read = pair-eq _ t refl;
        closed = c;
        on = on;
      }
