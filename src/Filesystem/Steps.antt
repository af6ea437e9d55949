-- ===== src/Filesystem/Steps.antt =====
-- Sequences of actions that stop at the first error, and Go's `defer`.
pub mod Runs
use common_keyring.Base.{Option, none, some}
use common_keyring.Errors.{GoError, cons, nil, wrap, Result, ok, err, Action}

-- a result with its error replaced
abbrev pub on_error : {A : Type 0} → (GoError → GoError) → Result A → Result A
on_error f (ok a) = ok a
on_error f (err e) = err (f e)

module _ {W : Type 0} where
  abbrev pub return : {A : Type 0} → A → Action W A
  return a w = (ok a, w)

  abbrev pub fail : {A : Type 0} → GoError → Action W A
  fail e w = (err e, w)

  abbrev pub continue : {A B : Type 0} → Result A → (A → Action W B) → Action W B
  continue (ok a) f w = f a w
  continue (err e) f w = (err e, w)

  infixl 5 ◌>>=◌ ◌>>◌
  unfoldable pub ◌>>=◌ : {A B : Type 0} → Action W A → (A → Action W B) → Action W B
  ◌>>=◌ m f w = let (r, w') = m w in continue r f w'

  abbrev pub ◌>>◌ : {A B : Type 0} → Action W A → Action W B → Action W B
  m >> n = m >>= λ _. n

  unfoldable pub relabel : {A : Type 0} → (GoError → GoError) → Action W A → Action W A
  relabel f m w = let (r, w') = m w in (on_error f r, w')

  -- `defer f()` before `m`, where the result of `f` is dropped.
  unfoldable pub finally : {A B : Type 0} → Action W A → Action W B → Action W A
  finally m f w = let (r, w') = m w in (r, (f w').1)

  -- `defer` of a function that sees the result and may change it.
  unfoldable pub finally_with : {A : Type 0} → Action W A → (Result A → Action W A) → Action W A
  finally_with m f w = let (r, w') = m w in f r w'

-- `errors.Join` of two errors that may be nil.
abbrev pub join : Option GoError → Option GoError → Option GoError
join none none = none
join (some d) none = some (wrap "" (cons d nil))
join none (some e) = some (wrap "" (cons e nil))
join (some d) (some e) = some (wrap "" (cons d (cons e nil)))

abbrev pub error_of {ℓ} : {A : Type ℓ} → Result A → Option GoError
error_of (ok a) = none
error_of (err e) = some e

abbrev pub or_error {ℓ} : {A : Type ℓ} → A → Option GoError → Result A
or_error a none = ok a
or_error a (some e) = err e

-- A result that an error replaces.
abbrev pub with_error {ℓ} : {A : Type ℓ} → Result A → Option GoError → Result A
with_error r none = r
with_error r (some e) = err e
