-- ===== src/Filesystem/Posix.antt =====
-- What internal/backend/fs relies on of the files of the operating system, as laws of a `System`: a
-- tree of files below the root directory of a storage, and what each descriptor is open on.
pub mod Near
pub mod Folder
pub mod Existing
pub mod Temporary
pub mod Atomic
pub mod Reading
pub mod Removal
pub mod Refinement
pub mod Working
pub mod Quiet
pub mod Kernel
use Prim.Native.Nat.{bit_and}
use common_keyring.Base.{
  ℕ, String, true, Option, none, some, List, [], ◌∷◌, ◌++◌, ◌==◌, nat_eq, length, take, ◌≡◌, ◌⊎◌,
}
use common_keyring.Errors.{GoError, ok, err}
use common_keyring.Contract.{Bytes}
use common_keyring.Filesystem.System.{System, Stat}
use common_keyring.Filesystem.Writing.{create_flags, secret_mode}
use common_keyring.Filesystem.Storage.{Storage, read_flags, s_ifmt, s_ifreg}

-- The names from a file or directory up to, but without, the root directory.
abbrev pub Place : Type 0
Place = List String

-- What the host knows: the contents of the regular files, and the state of the descriptors. One can
-- be open on a directory, on a file that is being filled with contents so far, or on a file of
-- which contents are left to read.
pub record View (W : Type 0) : Type 1 where
  pub holds : W → Place → Option Bytes
  pub inside : W → ℕ → Place → Type 0
  pub file : W → ℕ → Type 0
  pub filling : W → ℕ → Place → Bytes → Type 0
  pub reading : W → ℕ → Bytes → Type 0

module _ {W : Type 0} (v : View W) where
  -- All files but those that are touched are as they were.
  abbrev pub Held : (Place → Type 0) → W → W → Type 0
  Held touched w w' = (q : Place) → (touched q → ⊥) → v.holds w' q ≡ v.holds w q

  abbrev pub Inside : W → W → Type 0
  Inside w w' = (d : ℕ) (p : Place) → v.inside w d p → v.inside w' d p

  -- A call that changes no file and no state of an open descriptor.
  pub record Calm (w w' : W) : Type 0 where
    pub held : (q : Place) → v.holds w' q ≡ v.holds w q
    pub inside : Inside w w'
    pub file : (f : ℕ) → v.file w f → v.file w' f
    pub filling : (f : ℕ) (q : Place) (b : Bytes) → v.filling w f q b → v.filling w' f q b
    pub reading : (f : ℕ) (b : Bytes) → v.reading w f b → v.reading w' f b

-- The documented behaviour of the calls on files, whatever errors they return. A call that opens
-- leaves the other descriptors alone.
pub record Files {W : Type 0} (system : System W) (v : View W) : Type 0 where
  pub open_read_calm :
      (d : ℕ) (name : String) (w : W) → Calm v w (system.open_file_at d name read_flags 0 w).1
  pub fstat_calm : (f : ℕ) (w : W) → Calm v w (system.fstat f w).1
  pub fchmod_calm : (f mode : ℕ) (w : W) → Calm v w (system.fchmod f mode w).1
  pub fsync_calm : (f : ℕ) (w : W) → Calm v w (system.fsync f w).1
  pub random_calm : (n : ℕ) (w : W) → Calm v w (system.random n w).1
  -- Opening files for reading: a regular one has contents, all of which can be read.
  pub opened_file :
      (d f : ℕ) (name : String) (w w' : W)
      → system.open_file_at d name read_flags 0 w ≡ (ok f, w')
      → v.file w' f
  pub opened_regular :
      (d f : ℕ) (name : String) (place : Place) (status : Stat) (w w1 w2 : W)
      → v.inside w d place
      → system.open_file_at d name read_flags 0 w ≡ (ok f, w1)
      → system.fstat f w1 ≡ (ok status, w2)
      → (bit_and status.mode s_ifmt == s_ifreg) ≡ true
      → (b : Bytes) × (v.holds w (name ∷ place) ≡ some b) × v.reading w2 f b
  pub read_part :
      (f : ℕ) (b chunk : Bytes) (w w' : W)
      → v.reading w f b
      → system.read f w ≡ ((chunk, none), w')
      → (rest : Bytes) × (b ≡ chunk ++ rest)
        × v.reading w' f rest
        × ((length chunk == 0) ≡ true → rest ≡ [])
  pub read_held : (f : ℕ) (w : W) (q : Place) → v.holds (system.read f w).1 q ≡ v.holds w q
  -- Creating a file, of which the name is new, and filling it
  pub created :
      (d f : ℕ) (name : String) (place : Place) (w w' : W)
      → v.inside w d place
      → system.open_file_at d name create_flags secret_mode w ≡ (ok f, w')
      → v.file w' f × v.filling w' f (name ∷ place) []
  pub create_held :
      (d : ℕ) (name : String) (place : Place) (w : W)
      → v.inside w d place
      → Held v (λ q. q ≡ name ∷ place) w (system.open_file_at d name create_flags secret_mode w).1
  pub create_inside :
      (d : ℕ) (name : String) (w : W)
      → Inside v w (system.open_file_at d name create_flags secret_mode w).1
  pub written :
      (f n : ℕ) (q : Place) (b c : Bytes) (w w' : W)
      → v.filling w f q b
      → system.write f c w ≡ ((n, none), w')
      → v.filling w' f q (b ++ take n c)
  pub write_held :
      (f : ℕ) (q : Place) (b c : Bytes) (w : W)
      → v.filling w f q b
      → Held v (λ r. r ≡ q) w (system.write f c w).1
  pub write_inside : (f : ℕ) (c : Bytes) (w : W) → Inside v w (system.write f c w).1
  pub write_file : (f : ℕ) (c : Bytes) (w : W) → v.file w f → v.file (system.write f c w).1 f
  pub filled : (f : ℕ) (q : Place) (b : Bytes) (w : W) → v.filling w f q b → v.holds w q ≡ some b
  -- Closing a descriptor, which leaves those on other places open
  pub close_held : (f : ℕ) (w : W) (q : Place) → v.holds (system.close f w).1 q ≡ v.holds w q
  pub close_file : (f : ℕ) (w : W) → v.file w f → Inside v w (system.close f w).1
  pub close_directory :
      (f d : ℕ) (p q : Place) (w : W)
      → v.inside w f p
      → v.inside w d q
      → (p ≡ q → ⊥)
      → v.inside (system.close f w).1 d q
  -- Renaming within a directory, and removing from it
  pub renamed :
      (d : ℕ) (from to : String) (place : Place) (w w' : W)
      → v.inside w d place
      → system.rename_at d from d to w ≡ (ok tt, w')
      → v.holds w' (to ∷ place) ≡ v.holds w (from ∷ place)
  pub rename_held :
      (d : ℕ) (from to : String) (place : Place) (w : W)
      → v.inside w d place
      → Held v (λ q. (q ≡ from ∷ place) ⊎ (q ≡ to ∷ place)) w (system.rename_at d from d to w).1
  pub rename_failed :
      (d : ℕ) (from to : String) (e : GoError) (w w' : W)
      → system.rename_at d from d to w ≡ (err e, w')
      → (q : Place) → v.holds w' q ≡ v.holds w q
  pub rename_inside :
      (d : ℕ) (from to : String) (w : W) → Inside v w (system.rename_at d from d to w).1
  pub unlinked :
      (d : ℕ) (name : String) (place : Place) (w w' : W)
      → v.inside w d place
      → system.unlink_at d name w ≡ (ok tt, w')
      → v.holds w' (name ∷ place) ≡ none
  pub unlink_held :
      (d : ℕ) (name : String) (place : Place) (w : W)
      → v.inside w d place
      → Held v (λ q. q ≡ name ∷ place) w (system.unlink_at d name w).1
  pub unlink_failed :
      (d : ℕ) (name : String) (e : GoError) (w w' : W)
      → system.unlink_at d name w ≡ (err e, w')
      → (q : Place) → v.holds w' q ≡ v.holds w q

-- What the storage relies on: the calls on files behave as documented, those that check or prepare
-- directories change no file, and a directory that is opened is where it is expected.
pub record Posix {W : Type 0} (s : Storage W) (v : View W) : Type 0 where
  pub files : Files s.system v
  pub validate_mount_calm : (path : String) (w : W) → Calm v w (s.system.validate_mount path w).1
  pub prepare_calm :
      (path id : String) (uid : ℕ) (w : W) → Calm v w (s.system.prepare_directories path id uid w).1
  pub open_directory_calm :
      (path : String) (uid : ℕ) (w : W) → Calm v w (s.system.open_directory path uid w).1
  pub open_directory_at_calm :
      (p : ℕ) (name : String) (uid : ℕ) (w : W)
      → Calm v w (s.system.open_directory_at p name uid w).1
  -- Opening directories
  pub opened_root :
      (d : ℕ) (w w' : W)
      → s.system.open_directory s.root_path s.effective_uid w ≡ (ok d, w')
      → v.inside w' d []
  pub opened_at :
      (p d : ℕ) (name : String) (place : Place) (w w' : W)
      → v.inside w p place
      → s.system.open_directory_at p name s.effective_uid w ≡ (ok d, w')
      → v.inside w' d (name ∷ place)
