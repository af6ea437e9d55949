-- ===== src/Contract.antt =====
-- internal/contract: the keyring interface, and the check of a context. The description of a
-- backend, the selection error and what a keyring promises are children. contract.go and types.go of the root package pass
-- these names on.
pub mod Info
pub mod SelectionErrors
pub mod Memory
use common_keyring.Base.{String, Option, none, some, List, ℕ, if◌then◌else◌}
use common_keyring.Errors.{
  GoError, category, deadline_exceeded, invalid_argument, timeout, cat, wrap1, wrap2, is, Action,
}

-- A context is nil, or has an error that depends on the moment at which it is asked for.
abbrev pub Context {ℓ} : Type ℓ → Type ℓ
Context W = Option (W → Option GoError)

-- The value that `ctx.Err()` returned, in the portable error model.
unfoldable pub portable_context : Option GoError → Option GoError
portable_context none = none
portable_context (some e) =
    if is e deadline_exceeded then some (wrap2 "" (cat timeout) e) else some e

-- `ContextError`
unfoldable pub context_error {ℓ} : {W : Type ℓ} → Context W → W → Option GoError
unfolding portable_context
context_error none w = some (wrap1 "context is nil" (cat invalid_argument))
context_error (some ctx) w = portable_context (ctx w)

-- A secret is a list of bytes.
abbrev pub Bytes : Type 0
Bytes = List ℕ

-- `Keyringer`
pub record Keyringer {ℓ} (W : Type ℓ) : Type ℓ where
  pub get : Context W → String → Action W Bytes
  pub set : Context W → String → Bytes → Action W (Unit {0})
  pub delete : Context W → String → Action W (Unit {0})
