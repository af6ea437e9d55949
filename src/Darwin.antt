-- ===== src/Darwin.antt =====
-- internal/backend/darwin: the client of the keychain of macOS (client.go) and its errors
-- (errors.go). A text is its bytes.
pub mod Stored
use common_keyring.Base.{
  ℕ, String, Bool, true, false, ◌||◌, Option, none, some, List, [], ◌∷◌, ◌++◌, codes, length, drop,
  ltb, if◌then◌else◌,
}
use common_keyring.Base.Bytes.{has_prefix, contains, trim_space}
use common_keyring.Errors.{
  GoError, Category, fs_not_exist, exec_not_found, not_found, backend_unavailable, value_too_large,
  backend_failure, cat, wrap1, wrap2, is, Result, ok, err, Fallible, Action,
}
use common_keyring.Contract.{Context, context_error, Bytes}
use common_keyring.Filesystem.Steps.{on_error}

abbrev pub legacy_encoding_prefix : Bytes
legacy_encoding_prefix = codes "go-keyring-encoded:"

abbrev pub base64_prefix : Bytes
base64_prefix = codes "go-keyring-base64:"

abbrev pub command_limit : ℕ
command_limit = 4096

-- `executeCommand` with its standard input, if any, and its arguments: the output and the error.
-- `quote` is `shellescape.Quote`; the other fields are the encodings of the standard library.
pub record Security (W : Type 0) : Type 0 where
  pub execute_command : Context W → Option Bytes → List Bytes → W → (Bytes × Option GoError) × W
  pub quote : Bytes → Bytes
  pub encode_base64 : Bytes → Bytes
  pub decode_base64 : Bytes → Result Bytes
  pub decode_hex : Bytes → Result Bytes

abbrev pub decode_error : GoError → GoError
decode_error e = wrap2 "decode Keychain credential" (cat backend_failure) e

-- The category that `keychainError` chooses by the output and the error.
unfoldable pub keychain_category : Bytes → GoError → Category
keychain_category output e =
    if is e exec_not_found || is e fs_not_exist
    then backend_unavailable
    else if contains (codes "could not be found") output
    then not_found
    else backend_failure

abbrev pub context_or : Option GoError → GoError → GoError
context_or (some c) e = c
context_or none e = e

abbrev pub unless : {W A : Type 0} → Option GoError → Action W A → Action W A
unless none m w = m w
unless (some e) m w = (err e, w)

module _ {W : Type 0} where
  -- `keychainError` of an error that is not nil
  unfoldable pub keychain_error : Context W → String → Bytes → GoError → W → GoError
  unfolding keychain_category
  keychain_error ctx operation output e w =
      context_or (context_error ctx w) (wrap2 operation (cat (keychain_category output e)) e)

  -- `keychainError`
  unfoldable pub keychain_result : Context W → String → Bytes × Option GoError → W → Fallible
  unfolding keychain_error
  keychain_result ctx operation (output, none) w = ok tt
  keychain_result ctx operation (output, some e) w = err (keychain_error ctx operation output e w)

  -- The check of the context that each operation begins with.
  unfoldable pub checked : {A : Type 0} → Context W → Action W A → Action W A
  checked ctx m w = unless (context_error ctx w) m w

abbrev pub find_arguments : Bytes → Bytes → List Bytes
find_arguments service key =
    codes "find-generic-password" ∷ codes "-s" ∷ service ∷ codes "-wa" ∷ key ∷ []

module _ {W : Type 0} (security : Security W) where
  -- `decodeValue`
  unfoldable pub decode_value : Bytes → Result Bytes
  decode_value value =
      if has_prefix legacy_encoding_prefix value
      then on_error decode_error (security.decode_hex (drop (length legacy_encoding_prefix) value))
      else if has_prefix base64_prefix value
      then on_error decode_error (security.decode_base64 (drop (length base64_prefix) value))
      else ok value

  -- The end of `Get`
  unfoldable pub read_output : Context W → Bytes × Option GoError → W → Result Bytes
  unfolding decode_value keychain_error
  read_output ctx (output, none) w = decode_value (trim_space output)
  read_output ctx (output, some e) w = err (keychain_error ctx "get credential" output e w)

  unfoldable pub find : Context W → Bytes → Bytes → Action W Bytes
  unfolding read_output
  find ctx service key w =
      let (output, w') = security.execute_command ctx none (find_arguments service key) w in
      (read_output ctx output w', w')

  -- `Get`
  unfoldable pub get : Context W → Bytes → Bytes → Action W Bytes
  unfolding checked find
  get ctx service key = checked ctx (find ctx service key)

  -- The value as `Set` stores it.
  abbrev pub stored : Bytes → Bytes
  stored value = base64_prefix ++ security.encode_base64 value

  unfoldable pub command : Bytes → Bytes → Bytes → Bytes
  command service key value =
      codes "add-generic-password -U -s "
      ++ security.quote service
      ++ codes " -a "
      ++ security.quote key
      ++ codes " -w "
      ++ security.quote (stored value)
      ++ b'\n' ∷ []

  unfoldable pub add : Context W → Bytes → Action W (Unit {0})
  unfolding keychain_result
  add ctx input w =
      let (output, w') = security.execute_command ctx (some input) (codes "-i" ∷ []) w in
      (keychain_result ctx "set credential" output w', w')

  unfoldable pub add_bounded : Context W → Bytes → Action W (Unit {0})
  unfolding add
  add_bounded ctx input w =
      if ltb command_limit (length input)
      then (err (wrap1 "macOS security command is too long" (cat value_too_large)), w)
      else add ctx input w

  -- `Set`
  unfoldable pub set : Context W → Bytes → Bytes → Bytes → Action W (Unit {0})
  unfolding checked add_bounded command
  set ctx service key value = checked ctx (add_bounded ctx (command service key value))

  unfoldable pub delete_item : Context W → Bytes → Bytes → Action W (Unit {0})
  unfolding keychain_result
  delete_item ctx service key w =
      let arguments =
        codes "delete-generic-password" ∷ codes "-s" ∷ service ∷ codes "-a" ∷ key ∷ [] in
      let (output, w') = security.execute_command ctx none arguments w in
      (keychain_result ctx "delete credential" output w', w')

  -- `Delete`
  unfoldable pub delete : Context W → Bytes → Bytes → Action W (Unit {0})
  unfolding checked delete_item
  delete ctx service key = checked ctx (delete_item ctx service key)
