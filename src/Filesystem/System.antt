-- ===== src/Filesystem/System.antt =====
-- The interface `linuxSystem` of internal/backend/fs/storage_linux.go.
use common_keyring.Base.{ℕ, String, Option, List}
use common_keyring.Errors.{GoError, Action}
use common_keyring.Contract.{Bytes}

-- The flags that the storage passes to `openat`.
pub data Flag : Type 0 where
  o_rdonly o_wronly o_creat o_excl o_cloexec o_nofollow o_nonblock : Flag

-- The fields of `unix.Stat_t` that the storage reads.
pub record Stat : Type 0 where
  pub mode : ℕ
  pub uid : ℕ

-- Descriptors are numbers. `read` and `write` return a count and an error together, here the bytes
-- that were read and the number of bytes that were written. `random` is `io.ReadFull` of the
-- random source.
pub record System (W : Type 0) : Type 0 where
  pub validate_mount : String → Action W (Unit {0})
  pub prepare_directories : String → String → ℕ → Action W (Unit {0})
  pub open_directory : String → ℕ → Action W ℕ
  pub open_directory_at : ℕ → String → ℕ → Action W ℕ
  pub open_file_at : ℕ → String → List Flag → ℕ → Action W ℕ
  pub fstat : ℕ → Action W Stat
  pub fchmod : ℕ → ℕ → Action W (Unit {0})
  pub read : ℕ → W → (Bytes × Option GoError) × W
  pub write : ℕ → Bytes → W → (ℕ × Option GoError) × W
  pub fsync : ℕ → Action W (Unit {0})
  pub close : ℕ → Action W (Unit {0})
  pub rename_at : ℕ → String → ℕ → String → Action W (Unit {0})
  pub unlink_at : ℕ → String → Action W (Unit {0})
  pub random : ℕ → Action W Bytes
