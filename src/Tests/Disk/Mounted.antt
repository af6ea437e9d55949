-- ===== src/Tests/Disk/Mounted.antt =====
-- The disk in memory under `realLinuxSystem`, and the documented behaviour of its calls.
use mathlib.Core.Path.{subst}
use common_keyring.Base.{
  ℕ, String, Bool, true, false, none, List, [], ◌∷◌, ◌≡◌, refl, sym, ◌∙◌, codes, length,
}
use common_keyring.Base.Bytes.{equal}
use common_keyring.Errors.{leaf, fs_not_exist, ok, err, ok-eq, Result}
use common_keyring.Contract.{Bytes}
use common_keyring.Filesystem.System.{Stat}
use common_keyring.Filesystem.Directories.{Host}
use common_keyring.Filesystem.Mounts.Validation.{Environment}
use common_keyring.Filesystem.Mounts.{Device}
use common_keyring.Filesystem.RealSystem.{Calls, real_system}
use common_keyring.Filesystem.Posix.{Place, Files}
use common_keyring.Filesystem.Posix.Quiet.{Unused}
use common_keyring.Filesystem.Posix.Kernel.{Kernel, Inspects}
use common_keyring.Tests.Disk.{
  Slot, closed, directory, writer, reader, Disk, slot, opened, open_inner, disk, on_disk, is_file,
}
use common_keyring.Tests.Disk.Laws.{same-Calm, opened-Calm, open_inner-Calm, new-slot}
use common_keyring.Tests.Disk.Lawful.{disk_over-Files}

-- Directories and files are private to the user.
abbrev status_of : Slot → Stat
status_of (directory p) = record { mode = 0o040700; uid = 1000 }
status_of _ = record { mode = 0o100600; uid = 1000 }

abbrev found : Bool → Result Device
found true = ok (record { major = 8; minor = 1 })
found false = err (leaf fs_not_exist)

-- Just the root directory exists, on a mount of ext4.
abbrev pub environment : Environment Disk
environment = record {
  absolute = λ path w. (ok path, w);
  stat = λ path w. (found (equal path (codes "/")), w);
  evaluate_symlinks = λ path w. (ok path, w);
  mount_info = λ w. (ok (codes "1 0 8:1 / / rw - ext4 /dev/sda1 rw", none), w);
  close_mount_info = λ w. w;
}

abbrev pub directories : Host Disk
directories = record {
  mkdir_all = λ _ _ w. (ok tt, w);
  mkdir_at = λ _ _ _ w. (ok tt, w);
  open_path = λ _ w. (ok (length w.slots), opened w (directory []));
  open_at = λ p name w. open_inner (slot w.slots p) name w;
  fstat = λ d w. (ok (status_of (slot w.slots d)), w);
  close = λ _ w. (ok tt, w);
}

abbrev pub calls : Calls Disk
calls = record {
  environment = environment;
  directories = directories;
  open_file_at = disk.open_file_at;
  fchmod = disk.fchmod;
  read = disk.read;
  write = disk.write;
  fsync = disk.fsync;
  rename_at = disk.rename_at;
  unlink_at = disk.unlink_at;
  random = disk.random;
}

pub calls-Files : Files (real_system calls) on_disk
calls-Files =
    disk_over-Files (real_system calls).validate_mount (real_system calls).prepare_directories
      (real_system calls).open_directory (real_system calls).open_directory_at
      (λ d w. status_of (slot w.slots d))

pub environment-Inspects : Inspects environment on_disk
environment-Inspects = record {
  absolute_quiet = λ path w. same-Calm w;
  stat_quiet = λ path w. same-Calm w;
  evaluate_symlinks_quiet = λ path w. same-Calm w;
  mount_info_quiet = λ w. same-Calm w;
  close_mount_info_calm = λ w. same-Calm w;
}

slot-end : (ts : List Slot) → slot ts (length ts) ≡ closed
slot-end [] = refl
slot-end (t ∷ ts) = slot-end ts

-- The next descriptor is new.
new-Unused : (w : Disk) (d : ℕ) → length w.slots ≡ d → Unused on_disk d w
new-Unused w d e =
    let end = subst (λ n. slot w.slots n ≡ closed) e (slot-end w.slots) in
    record {
      no_directory = λ p h. closed-directory (sym end ∙ h);
      no_file = λ h. closed-file (rw end at h);
      no_filling = λ q b h. closed-writer (sym end ∙ h.0);
      no_reading = λ b h. closed-reader (sym end ∙ h);
    }
  where
    closed-directory : {p : Place} → closed ≡ directory p → ⊥
    closed-directory h = cc

    closed-file : is_file closed ≡ true → ⊥
    closed-file h = cc

    closed-writer : {q : Place} {b : Bytes} → closed ≡ writer q b → ⊥
    closed-writer h = cc

    closed-reader : {b : Bytes} → closed ≡ reader b → ⊥
    closed-reader h = cc

open_inner-fresh :
    (t : Slot) (name : String) (w : Disk) (d : ℕ)
    → (open_inner t name w).0 ≡ ok d
    → Unused on_disk d w
open_inner-fresh (directory p) name w d h = new-Unused w d (ok-eq h)
open_inner-fresh closed name w d h = cc
open_inner-fresh (writer q b) name w d h = cc
open_inner-fresh (reader b) name w d h = cc

pub directories-Kernel : (root_path : String) → Kernel directories root_path on_disk
directories-Kernel root_path = record {
  mkdir_all_quiet = λ path mode w. same-Calm w;
  mkdir_at_quiet = λ p name mode w. same-Calm w;
  open_path_opens =
      λ path w. record { calm = opened-Calm w _; fresh = λ d h. new-Unused w d (ok-eq h) };
  open_at_opens = λ p name w. record {
    calm = open_inner-Calm (slot w.slots p) name w;
    fresh = open_inner-fresh (slot w.slots p) name w;
  };
  fstat_quiet = λ d w. same-Calm w;
  close_spares = λ d w. record {
    held = λ q. refl;
    inside = λ c p n h. h;
    file = λ c n h. h;
    filling = λ c q b n h. h;
    reading = λ c b n h. h;
  };
  root_inside = λ d w w' h. new-slot w w' _ d h;
  at_inside = λ p d name place w w' on h. new-slot w w' _ d (rw on at h);
}
