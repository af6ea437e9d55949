-- ===== src/LimitedBuffer.antt =====
-- internal/iox/buffer.go: a writer with a limit on what it keeps.
pub mod Retained
use common_keyring.Base.{
  ℕ, ◌-◌, Bool, true, false, Option, none, some, List, [], ◌++◌, length, take, leb, ltb,
  if◌then◌else◌,
}
use common_keyring.Contract.{Bytes}

-- `limit` is an int that `NewLimitedBuffer` checks, so it is a natural number here; its panic on
-- a negative limit is not modelled.
pub record LimitedBuffer : Type 0 where
  pub buffer : Bytes
  pub limit : ℕ
  pub overflow : Bool

-- `NewLimitedBuffer`
unfoldable pub new_buffer : ℕ → LimitedBuffer
new_buffer limit = record { buffer = []; limit = limit; overflow = false }

-- `Write`, with the length that it reports. The buffer never exceeds its limit, so `remaining`
-- is not negative where `-` stops at 0.
unfoldable pub write : LimitedBuffer → Bytes → LimitedBuffer × ℕ
write b contents =
    let written = length contents in
    let remaining = b.limit - length b.buffer in
    if leb (length contents) remaining
    then (record b { buffer = b.buffer ++ contents }, written)
    else (
      record b {
        buffer = if ltb 0 remaining then b.buffer ++ take remaining contents else b.buffer;
        overflow = true;
      },
      written,
    )

-- The buffer after a child process has written these chunks.
unfoldable pub write_all : LimitedBuffer → List Bytes → LimitedBuffer
unfolding write
write_all b [] = b
write_all b (List.◌∷◌ chunk rest) = write_all (write b chunk).0 rest
