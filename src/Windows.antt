-- ===== src/Windows.antt =====
-- internal/backend/windows: the client of the Windows Credential Manager (client.go), and its native
-- operations (native_windows.go, native_other.go). A text is its bytes.
pub mod Written
use common_keyring.Base.{
  ℕ, ◌+◌, ◌*◌, String, Bool, true, false, not, ◌||◌, Option, none, some, List, [], ◌∷◌, ◌++◌, any,
  length, leb, ltb, ◌==◌, nat_eq, if◌then◌else◌,
}
use common_keyring.Errors.{
  GoError, Category, category, errno, not_found, invalid_argument, value_too_large,
  backend_unavailable, permission_denied, unsupported, backend_failure, cat, wrap1, wrap2, is,
  Result, ok, err, Fallible, Action, ◌>>=◌, ◌>>◌, refuse,
}
use common_keyring.Contract.{Context, context_error, Bytes}
use common_keyring.Filesystem.Steps.{on_error}

abbrev pub max_credential_blob_bytes : ℕ
max_credential_blob_bytes = 5 * 512

abbrev pub max_generic_target_units : ℕ
max_generic_target_units = 32767

abbrev pub max_username_units : ℕ
max_username_units = 513

-- The error numbers of Windows that the client of its API returns.
abbrev pub error_access_denied : ℕ
error_access_denied = 5

abbrev pub error_invalid_parameter : ℕ
error_invalid_parameter = 87

abbrev pub error_not_found : ℕ
error_not_found = 1168

abbrev pub error_no_such_logon_session : ℕ
error_no_such_logon_session = 1312

abbrev pub error_bad_username : ℕ
error_bad_username = 2202

-- The package variables, `utf8.ValidString`, and the runes of a text.
pub record Manager (W : Type 0) : Type 0 where
  pub read_credential : Bytes → Action W Bytes
  pub write_credential : Bytes → Bytes → Bytes → Action W (Unit {0})
  pub delete_credential : Bytes → Action W (Unit {0})
  pub is_valid : Bytes → Bool
  pub runes : Bytes → List ℕ

-- The categories that `operationError` leaves as they are.
abbrev pub kept_categories : List Category
kept_categories =
    not_found ∷ invalid_argument ∷ value_too_large ∷ backend_unavailable ∷ permission_denied
    ∷ unsupported ∷ []

-- `operationError` of an error that is not nil
unfoldable pub operation_error : String → GoError → GoError
operation_error operation e =
    if any (λ c. is e (category c)) kept_categories
    then wrap1 operation e
    else wrap2 operation (cat backend_failure) e

-- The length of `utf16.Encode`: a rune beyond the basic plane takes two units.
unfoldable pub units : List ℕ → ℕ
units [] = 0
units (r ∷ rs) = (if leb 0x10000 r then 2 else 1) + units rs

-- `strings.IndexByte(text, 0) >= 0`
abbrev pub has_nul : Bytes → Bool
has_nul text = any (λ c. c == 0) text

abbrev pub is_empty : Bytes → Bool
is_empty [] = true
is_empty (c ∷ text) = false

abbrev pub invalid : String → GoError
invalid text = wrap1 text (cat invalid_argument)

abbrev pub target_name : Bytes → Bytes → Bytes
target_name service key = service ++ b':' ∷ key

-- A native operation on a target
unfoldable pub operate : {W A : Type 0} → String → (Bytes → Action W A) → Result Bytes → Action W A
unfolding operation_error
operate operation native (err e) w = (err e, w)
operate operation native (ok target) w =
    let (r, w') = native target w in (on_error (operation_error operation) r, w')

-- The check of the value in `Set`
unfoldable pub bounded : Bytes → Result Bytes → Result Bytes
bounded value r = do
  target ← r
  refuse (ltb max_credential_blob_bytes (length value))
      (wrap1 "Windows credential blob is too long" (cat value_too_large))
  ok target

module _ {W : Type 0} (manager : Manager W) where
  -- `utf16Units`
  unfoldable pub utf16_units : Bytes → ℕ
  unfolding units
  utf16_units value = units (manager.runes value)

  -- `validatedTarget`
  unfoldable pub validated_target : Bytes → Bytes → Result Bytes
  unfolding utf16_units
  validated_target service key = do
    refuse (is_empty service) (invalid "service is empty")
    refuse (is_empty key) (invalid "key is empty")
    refuse (has_nul service || has_nul key) (invalid "service or key contains NUL")
    refuse (not (manager.is_valid service) || not (manager.is_valid key))
        (invalid "service or key is not valid UTF-8")
    refuse (ltb max_username_units (utf16_units key))
        (invalid "Windows credential username is too long")
    refuse (ltb max_generic_target_units (utf16_units (target_name service key)))
        (invalid "Windows credential target is too long")
    ok (target_name service key)

  -- The checks before a native operation.
  unfoldable pub checked_target : Context W → Bytes → Bytes → W → Result Bytes
  unfolding validated_target
  checked_target ctx service key w = elim (context_error ctx w) [
    | some e ↦ err e
    | none ↦ validated_target service key
  ]

  -- `Get`
  unfoldable pub get : Context W → Bytes → Bytes → Action W Bytes
  unfolding checked_target operate
  get ctx service key w =
      operate "get credential" manager.read_credential (checked_target ctx service key w) w

  -- `Set`
  unfoldable pub set : Context W → Bytes → Bytes → Bytes → Action W (Unit {0})
  unfolding checked_target bounded operate
  set ctx service key value w =
      operate "set credential" (λ target. manager.write_credential target key value)
        (bounded value (checked_target ctx service key w)) w

  -- `Delete`
  unfoldable pub delete : Context W → Bytes → Bytes → Action W (Unit {0})
  unfolding checked_target operate
  delete ctx service key w =
      operate "delete credential" manager.delete_credential (checked_target ctx service key w) w

-- `windowsError` of an error that is not nil
unfoldable pub windows_error : GoError → GoError
windows_error e =
    if is e (errno error_not_found)
    then wrap2 "" (cat not_found) e
    else if is e (errno error_invalid_parameter) || is e (errno error_bad_username)
    then wrap2 "" (cat invalid_argument) e
    else if is e (errno error_access_denied)
    then wrap2 "" (cat permission_denied) e
    else if is e (errno error_no_such_logon_session)
    then wrap2 "" (cat backend_unavailable) e
    else e

-- `wincred.Credential`
pub record Credential : Type 0 where
  pub target : Bytes
  pub username : Bytes
  pub blob : Bytes

-- The client of the API of Windows.
pub record Wincred (W : Type 0) : Type 0 where
  pub get_generic_credential : Bytes → Action W Credential
  pub write : Credential → Action W (Unit {0})
  pub delete_generic : Bytes → Action W (Unit {0})

module _ {W : Type 0} (api : Wincred W) where
  -- `nativeReadCredential`
  unfoldable pub native_read : Bytes → Action W Bytes
  unfolding windows_error
  native_read target w =
      let (r, w') = api.get_generic_credential target w in
      (on_error windows_error r >>= λ c. ok c.blob, w')

  -- `nativeWriteCredential`
  unfoldable pub native_write : Bytes → Bytes → Bytes → Action W (Unit {0})
  unfolding windows_error
  native_write target username value w =
      let (r, w') = api.write (record { target = target; username = username; blob = value }) w in
      (on_error windows_error r, w')

  -- `nativeDeleteCredential`
  unfoldable pub native_delete : Bytes → Action W (Unit {0})
  unfolding windows_error
  native_delete target w =
      let (r, w') = api.delete_generic target w in (on_error windows_error r, w')

-- The native operations of other systems.
unfoldable pub unsupported_operation : {W A : Type 0} → Action W A
unsupported_operation w = (err (cat unsupported), w)
