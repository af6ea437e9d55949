-- ===== src/Filesystem/Storage/Failures.antt =====
-- The errors that the credential operations of the filesystem return.
use common_keyring.Base.{String, Bool, true, false, ◌||◌, ◌≡◌, refl, arith}
use common_keyring.Errors.{GoError, category, not_found, is, same, Result, ok, err}
use common_keyring.Contract.{Bytes}
use common_keyring.Filesystem.Faults.{is_portable, operation_error}
use common_keyring.Filesystem.Steps.{relabel, on_error}
use common_keyring.Filesystem.Storage.{Storage, get, set, delete}

-- An error of the portable model: a missing credential, or another category of the backend.
abbrev pub is_classified : GoError → Bool
is_classified e = is e (category not_found) || is_portable e

operation_error-classified :
    (operation : String) (b : Bool) (e : GoError)
    → is_classified (operation_error operation b e) ≡ true
unfolding operation_error is_portable is same
operation_error-classified operation b e = ground arith

-- A result that is a value or such an error.
abbrev pub classified : {A : Type 0} → Result A → Bool
classified (ok a) = true
classified (err e) = is_classified e

on_error-classified :
    {A : Type 0} (operation : String) (b : Bool) (r : Result A)
    → classified (on_error (operation_error operation b) r) ≡ true
on_error-classified operation b (ok a) = refl
on_error-classified operation b (err e) = operation_error-classified operation b e

-- An error that `get`, `set` or `delete` returns is that of a missing credential or matches one of
-- the other portable categories of the backend, whatever the system's errors are.
pub operations-classified :
    {W : Type 0} (s : Storage W) (key : String) (value : Bytes) (w : W)
    → (classified (get s key w).0 ≡ true)
      × (classified (set s key value w).0 ≡ true)
      × (classified (delete s key w).0 ≡ true)
unfolding get set delete relabel
operations-classified s key value w = (
  on_error-classified "get credential" true _,
  on_error-classified "set credential" false _,
  on_error-classified "delete credential" true _,
)
