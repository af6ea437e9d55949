-- ===== src/Darwin/Stored.antt =====
-- What `Get` of internal/backend/darwin/client.go returns of a value that `Set` stored.
use mathlib.Core.List.{reverse, reverse-cons, reverse-append, reverse-reverse}
use common_keyring.Base.{ℕ, false, none, [], ◌∷◌, ◌++◌, drop, ◌≡◌, refl, ap, ◌∙◌}
use common_keyring.Base.Bytes.{IsSolid, IsSolid-append, is_space, has_prefix, trim_left, trim_space}
use common_keyring.Errors.{Result, ok}
use common_keyring.Contract.{Context, context_error, Bytes}
use common_keyring.Filesystem.Steps.{on_error}
use common_keyring.Darwin.{
  Security, base64_prefix, decode_error, decode_value, read_output, find_arguments, find, checked,
  unless, get, stored,
}

trim_left-first : (c : ℕ) (text : Bytes) → is_space c ≡ false → trim_left (c ∷ text) ≡ c ∷ text
unfolding trim_left
trim_left-first c text s = rw s refl

trim_left-solid : (text : Bytes) → IsSolid text → trim_left text ≡ text
unfolding trim_left
trim_left-solid [] h = refl
trim_left-solid (c ∷ text) (s, h) = rw s refl

reverse-IsSolid : (text : Bytes) → IsSolid text → IsSolid (reverse text)
reverse-IsSolid [] h = tt
reverse-IsSolid (c ∷ text) (s, h) =
    rw (reverse-cons c text)
      (IsSolid-append (reverse text) (c ∷ []) (reverse-IsSolid text h) (s, tt))

-- A text without white space that ends with a newline.
trim_space-newline :
    (c : ℕ) (text : Bytes) → IsSolid (c ∷ text) → trim_space (c ∷ text ++ b'\n' ∷ []) ≡ c ∷ text
unfolding trim_space trim_left is_space
trim_space-newline c text (s, h) =
    ap (λ t. reverse (trim_left (reverse t))) (trim_left-first c (text ++ b'\n' ∷ []) s)
    ∙ ap (λ t. reverse (trim_left t)) (reverse-append (c ∷ text) (b'\n' ∷ []))
    ∙ ap reverse (trim_left-solid (reverse (c ∷ text)) (reverse-IsSolid (c ∷ text) (s, h)))
    ∙ reverse-reverse (c ∷ text)

module _ {W : Type 0} (security : Security W) where
  stored-IsSolid :
      (value : Bytes) → IsSolid (security.encode_base64 value) → IsSolid (stored security value)
  unfolding is_space
  stored-IsSolid value h = IsSolid-append base64_prefix (security.encode_base64 value) solid h
    where
      solid : IsSolid base64_prefix
      solid = (
        refl,
        (
          refl,
          (
            refl,
            (
              refl,
              (
                refl,
                (
                  refl,
                  (
                    refl,
                    (
                      refl,
                      (
                        refl,
                        (refl, (refl, (refl, (refl, (refl, (refl, (refl, (refl, (refl, tt))))))))),
                      ),
                    ),
                  ),
                ),
              ),
            ),
          ),
        ),
      )

  decode_value-stored :
      (value : Bytes)
      → security.decode_base64 (security.encode_base64 value) ≡ ok value
      → decode_value security (stored security value) ≡ ok value
  unfolding decode_value has_prefix
  decode_value-stored value h = ap (on_error decode_error) h

  checked-none :
      {A : Type 0} (ctx : Context W) (m : W → Result A × W) (w : W)
      → context_error ctx w ≡ none
      → checked ctx m w ≡ m w
  unfolding checked
  checked-none ctx m w h = ap (λ e. unless e m w) h

  -- If the tool prints the value that `Set` stores, followed by a newline, `Get` returns the secret,
  -- as long as the context has no error, and base64 yields no white space and is decoded back.
  pub get-stored :
      (ctx : Context W) (service key value : Bytes) (w w' : W)
      → context_error ctx w ≡ none
      → IsSolid (security.encode_base64 value)
      → security.decode_base64 (security.encode_base64 value) ≡ ok value
      → security.execute_command ctx none (find_arguments service key) w
        ≡ ((stored security value ++ b'\n' ∷ [], none), w')
      → get security ctx service key w ≡ (ok value, w')
  unfolding get find read_output
  get-stored ctx service key value w w' live solid decoded run =
      let trimmed =
        trim_space-newline b'g' (drop 1 base64_prefix ++ security.encode_base64 value)
          (stored-IsSolid value solid) in
      checked-none ctx (find security ctx service key) w live
      ∙ ap (λ p. (read_output security ctx p.0 p.1, p.1)) run
      ∙ ap (λ t. (decode_value security t, w')) trimmed
      ∙ ap (λ r. (r, w')) (decode_value-stored value decoded)
