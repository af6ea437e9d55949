-- ===== src/Filesystem/Posix/Kernel/Mounted.antt =====
-- `validateMount` of internal/backend/fs/mount_linux.go changes no file.
use mathlib.Core.List.{reverse}
use common_keyring.Base.{Bool, Option, List, [], ◌∷◌, Bool-cases, inl, inr}
use common_keyring.Errors.{GoError, fs_not_exist, is, Result, ok, err, Action}
use common_keyring.Contract.{Bytes}
use common_keyring.Filesystem.Paths.{clean, written}
use common_keyring.Filesystem.Mounts.{Device, mount_error}
use common_keyring.Filesystem.Mounts.Validation.{
  Environment, after_stat, nearest_existing, nearest_of, nearest_existing_path, check_opened,
  check_mount, validate_mount,
}
use common_keyring.Filesystem.Posix.{View}
use common_keyring.Filesystem.Posix.Quiet.{Quiet, Calm-refl, Calm-trans}
use common_keyring.Filesystem.Posix.Kernel.{Inspects}

module _ {W : Type 0} (env : Environment W) (v : View W) (inspects : Inspects env v) where
  after_stat-Quiet :
      (path : Bytes) (missing : GoError → Action W (Bytes × Device)) (r : Result Device)
      → ((e : GoError) → Quiet v (missing e))
      → Quiet v (after_stat env path missing r)
  unfolding after_stat
  after_stat-Quiet path missing (ok device) x w = inspects.evaluate_symlinks_quiet path w
  after_stat-Quiet path missing (err e) x w = elim (Bool-cases (is e fs_not_exist)) [
    | inl m ↦ rw m (x e w)
    | inr m ↦ rw m (Calm-refl v w)
  ]

  nearest_existing-Quiet :
      (rooted : Bool) (inner : List Bytes) → Quiet v (nearest_existing env rooted inner)
  unfolding nearest_existing
  nearest_existing-Quiet rooted [] w = Calm-trans v (inspects.stat_quiet (written rooted []) w) (
      after_stat-Quiet (written rooted [])
        (λ e w1. (err (mount_error "locate existing fallback parent" e), w1))
        (env.stat (written rooted []) w).0 (λ e w1. Calm-refl v w1) _)
  nearest_existing-Quiet rooted (name ∷ inner) w =
      let path = written rooted (reverse (name ∷ inner)) in
      Calm-trans v (inspects.stat_quiet path w) (
        after_stat-Quiet path (λ e w1. nearest_existing env rooted inner w1) (env.stat path w).0
          (λ e w1. nearest_existing-Quiet rooted inner w1) _)

  nearest_of-Quiet : (r : Result Bytes) → Quiet v (nearest_of env r)
  unfolding nearest_of
  nearest_of-Quiet (err e) w = Calm-refl v w
  nearest_of-Quiet (ok path) w = nearest_existing-Quiet (clean path).rooted (clean path).inner w

  check_opened-Quiet :
      (path : Bytes) (device : Device) (r : Result (Bytes × Option GoError))
      → Quiet v (check_opened env path device r)
  unfolding check_opened
  check_opened-Quiet path device (err e) w = Calm-refl v w
  check_opened-Quiet path device (ok table) w = inspects.close_mount_info_calm w

  check_mount-Quiet : (r : Result (Bytes × Device)) → Quiet v (check_mount env r)
  unfolding check_mount
  check_mount-Quiet (err e) w = Calm-refl v w
  check_mount-Quiet (ok (path, device)) w =
      Calm-trans v (inspects.mount_info_quiet w)
        (check_opened-Quiet path device (env.mount_info w).0 (env.mount_info w).1)

  pub validate_mount-Quiet : (root_path : Bytes) → Quiet v (validate_mount env root_path)
  unfolding validate_mount nearest_existing_path
  validate_mount-Quiet root_path w =
      let path = env.absolute root_path w in
      let existing = nearest_of env path.0 path.1 in
      Calm-trans v (inspects.absolute_quiet root_path w)
        (Calm-trans v (nearest_of-Quiet path.0 path.1) (check_mount-Quiet existing.0 existing.1))
