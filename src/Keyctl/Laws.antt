-- ===== src/Keyctl/Laws.antt =====
-- What internal/backend/keyctl/keyring_linux.go relies on of the keys in the kernel.
use common_keyring.Base.{ℕ, ◌≤◌, String, Option, none, some, length, take, ◌≡◌, ◌≢◌}
use common_keyring.Errors.{GoError, ok, err}
use common_keyring.Contract.{Bytes}
use common_keyring.Keyctl.{Kernel}

-- What the keys of a session hold, by their descriptions, and the ids of the keys.
pub record Keys (W : Type 0) : Type 1 where
  pub holds : W → String → Option Bytes
  pub key_at : W → ℕ → String → Type 0

-- A call that changes no key.
pub record Still {W : Type 0} (v : Keys W) (w w' : W) : Type 0 where
  pub held : (n : String) → v.holds w' n ≡ v.holds w n
  pub kept : (id : ℕ) (n : String) → v.key_at w id n → v.key_at w' id n

-- The documented behaviour of the kernel on the keys of a session, whatever errors it returns. The
-- keys are linked to the keyring of the session alone.
pub record KeyLaws {W : Type 0} (k : Kernel W) (v : Keys W) (session : ℕ) : Type 0 where
  pub search_still : (n : String) (w : W) → Still v w (k.search_key session n w).1
  pub searched :
      (n : String) (id : ℕ) (w w' : W) → k.search_key session n w ≡ (ok id, w') → v.key_at w' id n
  pub size_still : (id : ℕ) (w : W) → Still v w (k.size id w).1
  pub buffer_still : (id size : ℕ) (w : W) → Still v w (k.buffer id size w).1
  -- The length of the payload, which is in the buffer if that is long enough
  pub buffered :
      (id size count : ℕ) (n : String) (value : Bytes) (w w' : W)
      → v.key_at w id n
      → k.buffer id size w ≡ (ok (value, count), w')
      → (payload : Bytes) × (v.holds w n ≡ some payload)
        × (count ≡ length payload)
        × (length payload ≤ size → take count value ≡ payload)
  pub added :
      (n : String) (value : Bytes) (id : ℕ) (w w' : W)
      → k.add_key n value session w ≡ (ok id, w')
      → v.holds w' n ≡ some value
  pub add_failed :
      (n : String) (value : Bytes) (e : GoError) (w w' : W)
      → k.add_key n value session w ≡ (err e, w')
      → v.holds w' n ≡ v.holds w n
  pub add_held :
      (n : String) (value : Bytes) (w : W) (q : String)
      → q ≢ n
      → v.holds (k.add_key n value session w).1 q ≡ v.holds w q
  pub unlinked :
      (id r : ℕ) (n : String) (w w' : W)
      → v.key_at w id n
      → k.unlink id session w ≡ (ok r, w')
      → v.holds w' n ≡ none
  pub unlink_failed :
      (id : ℕ) (n : String) (e : GoError) (w w' : W)
      → v.key_at w id n
      → k.unlink id session w ≡ (err e, w')
      → v.holds w' n ≡ v.holds w n
  pub unlink_held :
      (id : ℕ) (n : String) (w : W) (q : String)
      → v.key_at w id n
      → q ≢ n
      → v.holds (k.unlink id session w).1 q ≡ v.holds w q
