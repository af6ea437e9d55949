-- ===== src/Keyctl/Payload.antt =====
-- What `readKeyContents` returns of a key.
use common_keyring.Base.{ℕ, suc, ◌≤◌, length, take, leb, ◌≡◌, ap, ◌∙◌, true, arith}
use common_keyring.Errors.{ok}
use common_keyring.Contract.{Bytes}
use common_keyring.Filesystem.Steps.{continue, ◌>>=◌}
use common_keyring.Keyctl.{Kernel, read_sized, read_key_contents}

-- The kernel answers every read of this key with the length of this payload, and fills a buffer
-- that is long enough with it, as KEYCTL_READ is documented to do.
pub record HoldsPayload {W : Type 0} (k : Kernel W) (key : ℕ) (payload : Bytes) (w : W)
    : Type 0 where
  pub sized : k.size key w ≡ (ok (length payload), w)
  pub filled :
      (n : ℕ)
      → length payload ≤ n
      → (value : Bytes) × (k.buffer key n w ≡ (ok (value, length payload), w))
        × (take (length payload) value ≡ payload)

leb_refl : (n : ℕ) → leb n n ≡ true
leb_refl n = ground arith

module _ {W : Type 0} (k : Kernel W) where
  -- A round with a buffer that is long enough.
  read_sized-once :
      (rounds size key count : ℕ) (value : Bytes) (w w' : W)
      → k.buffer key size w ≡ (ok (value, count), w')
      → leb count size ≡ true
      → read_sized k (suc rounds) size key w ≡ (ok (take count value), w')
  unfolding read_sized
  read_sized-once rounds size key count value w w' b l = ground arith

  -- For a key with a payload, `readKeyContents` returns the whole payload, and one round of its loop
  -- is enough.
  pub read_key_contents-payload :
      (key : ℕ) (payload : Bytes) (w : W) (rounds : ℕ)
      → k.read_rounds ≡ suc rounds
      → HoldsPayload k key payload w
      → read_key_contents k key w ≡ (ok payload, w)
  unfolding read_key_contents ◌>>=◌
  read_key_contents-payload key payload w rounds r h =
      let n = length payload in
      let (value, b, t) = h.filled n (omega arith) in
      ap (λ p. continue p.0 (λ size. read_sized k k.read_rounds size key) p.1) h.sized
      ∙ ap (λ m. read_sized k m n key w) r
      ∙ read_sized-once rounds n key n value w w b (leb_refl n)
      ∙ ap (λ v. (ok v, w)) t
