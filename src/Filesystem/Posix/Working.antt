-- ===== src/Filesystem/Posix/Working.antt =====
-- What internal/backend/fs relies on to succeed: a system of which no call fails on the files that
-- it is given, where each file that exists is a private one of the effective user.
pub mod Opening
pub mod Replacing
pub mod Fetching
use common_keyring.Base.{ℕ, ◌<◌, String, true, Option, none, some, List, [], ◌∷◌, ◌≡◌, refl}
use common_keyring.Errors.{GoError, fs_not_exist, is, Result, ok, err, Action}
use common_keyring.Contract.{Bytes}
use common_keyring.Filesystem.Steps.{continue, ◌>>=◌}
use common_keyring.Filesystem.System.{Stat}
use common_keyring.Filesystem.Writing.{create_flags, secret_mode}
use common_keyring.Filesystem.Storage.{Storage, read_flags, check_status}
use common_keyring.Filesystem.Posix.{Place, View}

-- A success
abbrev pub Completes : {A : Type 0} → Result A → Type 0
Completes {A} r = (a : A) × (r ≡ ok a)

module _ {W A B : Type 0} where
  continue-Completes :
      (r : Result A) (f : A → Action W B) (w1 : W)
      → Completes r
      → ((a : A) → r ≡ ok a → Completes (f a w1).0)
      → Completes (continue r f w1).0
  continue-Completes (ok a) f w1 x y = y a refl
  continue-Completes (err e) f w1 (a, h) y = cc

  pub bind-Completes :
      (m : Action W A) (f : A → Action W B) (w : W)
      → Completes (m w).0
      → ((a : A) → (m w).0 ≡ ok a → Completes (f a (m w).1).0)
      → Completes ((m >>= f) w).0
  unfolding ◌>>=◌
  bind-Completes m f w x y = continue-Completes (m w).0 f (m w).1 x y

pub record Working {W : Type 0} (s : Storage W) (v : View W) : Type 0 where
  pub mount_accepted : (w : W) → Completes (s.system.validate_mount s.root_path w).0
  pub prepared :
      (w : W)
      → Completes (s.system.prepare_directories s.root_path s.service_id s.effective_uid w).0
  pub root_opens : (w : W) → Completes (s.system.open_directory s.root_path s.effective_uid w).0
  pub directory_opens :
      (p : ℕ) (name : String) (place : Place) (w : W)
      → v.inside w p place
      → Completes (s.system.open_directory_at p name s.effective_uid w).0
  pub file_opens :
      (d : ℕ) (name : String) (place : Place) (b : Bytes) (w : W)
      → v.inside w d place
      → v.holds w (name ∷ place) ≡ some b
      → Completes (s.system.open_file_at d name read_flags 0 w).0
  pub file_missing :
      (d : ℕ) (name : String) (place : Place) (w : W)
      → v.inside w d place
      → v.holds w (name ∷ place) ≡ none
      → (e : GoError) × ((s.system.open_file_at d name read_flags 0 w).0 ≡ err e)
        × (is e fs_not_exist ≡ true)
  pub file_private :
      (d f : ℕ) (name : String) (w w1 : W)
      → s.system.open_file_at d name read_flags 0 w ≡ (ok f, w1)
      → (status : Stat) × ((s.system.fstat f w1).0 ≡ ok status)
        × (check_status s.effective_uid status ≡ ok tt)
  pub file_created :
      (d : ℕ) (name : String) (place : Place) (w : W)
      → v.inside w d place
      → v.holds w (name ∷ place) ≡ none
      → Completes (s.system.open_file_at d name create_flags secret_mode w).0
  pub mode_changed : (f mode : ℕ) (w : W) → v.file w f → Completes (s.system.fchmod f mode w).0
  pub written_some :
      (f c : ℕ) (q : Place) (b contents : Bytes) (w : W)
      → v.filling w f q b
      → (n : ℕ) × (0 < n) × ((s.system.write f (c ∷ contents) w).0 ≡ (n, none))
  pub read_some :
      (f : ℕ) (b : Bytes) (w : W)
      → v.reading w f b
      → (chunk : Bytes) × ((s.system.read f w).0 ≡ (chunk, none))
  pub flushed : (f : ℕ) (w : W) → Completes (s.system.fsync f w).0
  pub closes : (f : ℕ) (w : W) → Completes (s.system.close f w).0
  pub renames :
      (d : ℕ) (from to : String) (place : Place) (b : Bytes) (w : W)
      → v.inside w d place
      → v.holds w (from ∷ place) ≡ some b
      → Completes (s.system.rename_at d from d to w).0
  pub random_given : (n : ℕ) (w : W) → Completes (s.system.random n w).0
