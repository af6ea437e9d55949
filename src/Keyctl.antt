-- ===== src/Keyctl.antt =====
-- internal/backend/keyctl/keyring_linux.go: the keyring of the user session in the kernel.
pub mod Payload
pub mod Laws
pub mod Stored
pub mod Refinement
pub mod Categories
use common_keyring.Base.{
  ℕ, zero, suc, String, ◌<>◌, Bool, ◌||◌, Option, none, some, List, [], ◌∷◌, ◌++◌, codes, length,
  take, ltb, leb, if◌then◌else◌,
}
use common_keyring.Errors.{
  GoError, Category, errno, fs_permission, enokey, ekeyexpired, ekeyrevoked, eperm, enosys, enodev,
  not_found, permission_denied, backend_unavailable, backend_failure, value_too_large, plain, wrap1,
  wrap2, cat, is, Result, ok, err, Action,
}
use common_keyring.Contract.{Context, context_error, Bytes, Keyringer}
use common_keyring.Filesystem.Layout.{hex}
use common_keyring.Filesystem.Steps.{return, ◌>>=◌, ◌>>◌, relabel}

abbrev pub user_key_payload_limit : ℕ
user_key_payload_limit = 32767

-- The package variables that call the kernel. Key and keyring ids are numbers. `buffer` is
-- KEYCTL_READ with a buffer of this size: the buffer afterwards and the count. `sha256` is the
-- digest, and `read_rounds` bounds the calls of KEYCTL_READ for one value.
pub record Kernel (W : Type 0) : Type 0 where
  pub get_keyring_id : Action W ℕ
  pub search_key : ℕ → String → Action W ℕ
  pub add_key : String → Bytes → ℕ → Action W ℕ
  pub size : ℕ → Action W ℕ
  pub buffer : ℕ → ℕ → Action W (Bytes × ℕ)
  pub unlink : ℕ → ℕ → Action W ℕ
  pub sha256 : Bytes → Bytes
  pub read_rounds : ℕ

-- The category that `probeError` chooses.
unfoldable pub probe_category : GoError → Category
probe_category e =
    if is e fs_permission || is e (errno eperm)
    then permission_denied
    else if is e (errno enokey) || is e (errno enosys) || is e (errno enodev)
    then backend_unavailable
    else backend_failure

-- `probeError`
unfoldable pub probe_error : GoError → GoError
unfolding probe_category
probe_error e = wrap2 "probe kernel keyring" (cat (probe_category e)) e

-- The category that `operationError` chooses.
unfoldable pub operation_category : GoError → Category
operation_category e =
    if is e (errno enokey) || is e (errno ekeyexpired) || is e (errno ekeyrevoked)
    then not_found
    else if is e fs_permission || is e (errno eperm)
    then permission_denied
    else if is e (errno enosys) || is e (errno enodev)
    then backend_unavailable
    else backend_failure

-- `operationError` of an error that is not nil
unfoldable pub operation_error : String → GoError → GoError
unfolding operation_category
operation_error operation e = wrap2 operation (cat (operation_category e)) e

module _ {W : Type 0} (k : Kernel W) where
  -- `keyName`
  unfoldable pub key_name : String → String → String
  key_name service key =
      "keyring:v1:"
      <> hex (
          k.sha256 (
            codes "common.queueb.org/keyring:kernel:v1"
            ++ 0 ∷ codes "service"
            ++ 0 ∷ codes service
            ++ 0 ∷ codes "key"
            ++ 0 ∷ codes key))

  -- The loop of `readKeyContents`, with a buffer of this size.
  unfoldable pub read_sized : ℕ → ℕ → ℕ → Action W Bytes
  read_sized zero size key w = (err (plain "too many reads"), w)
  read_sized (suc rounds) size key w =
      let (r, w') = k.buffer key size w in
      elim r [
        | err e ↦ (err e, w')
        | ok (value, count) ↦
            let more = read_sized rounds count key w' in
            if leb count size then (ok (take count value), w') else more
      ]

  -- `readKeyContents`
  unfoldable pub read_key_contents : ℕ → Action W Bytes
  read_key_contents key = do size ← k.size key; read_sized k.read_rounds size key

  -- The check of the context before an operation.
  unfoldable pub with_context : {A : Type 0} → Context W → Action W A → Action W A
  with_context ctx act w = elim (context_error ctx w) [ some e ↦ (err e, w) | none ↦ act w ]

  -- `get` under its error
  unfoldable pub find : ℕ → String → String → Action W ℕ
  find session service key =
      relabel (operation_error "find credential") (k.search_key session (key_name service key))

  -- `Get`
  unfoldable pub get : ℕ → String → Context W → String → Action W Bytes
  get session service ctx key = with_context ctx (do
    credential ← find session service key
    relabel (operation_error "get credential") (read_key_contents credential))

  -- `Set` of a value within the limit
  unfoldable pub add : ℕ → String → String → Bytes → Action W (Unit {0})
  add session service key value =
      relabel (operation_error "set credential")
        (do k.add_key (key_name service key) value session; return tt)

  -- `Set`
  unfoldable pub set : ℕ → String → Context W → String → Bytes → Action W (Unit {0})
  set session service ctx key value = with_context ctx (
      if ltb user_key_payload_limit (length value)
      then (λ w. (err (wrap1 "kernel key payload exceeds bytes" (cat value_too_large)), w))
      else add session service key value)

  -- `Delete`
  unfoldable pub delete : ℕ → String → Context W → String → Action W (Unit {0})
  delete session service ctx key = with_context ctx (do
    credential ← find session service key
    relabel (operation_error "delete credential") (do k.unlink credential session; return tt))

  -- `Open`, with the methods of `Keyring`
  unfoldable pub open_session : String → Action W (Keyringer W)
  open_session service = do
    session ← relabel probe_error k.get_keyring_id
    return (record {
      get = get session service;
      set = set session service;
      delete = delete session service;
    })
