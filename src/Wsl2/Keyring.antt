-- ===== src/Wsl2/Keyring.antt =====
-- secure/wsl2/keyring.go: the keyring over the helper, its discovery and its portable errors.
pub mod Portable
pub mod Values
pub mod Probed
use common_keyring.Base.{
  ℕ, String, Bool, true, false, ◌||◌, not, Option, none, some, List, [], ◌==◌, string_eq, codes,
  length, ltb, if◌then◌else◌,
}
use common_keyring.Base.Bytes.{lower, trim_space, contains}
use common_keyring.Errors.{
  GoError, Category, category, canceled, deadline_exceeded, exec_not_found, bridge, leaf, plain,
  wrap1, wrap2, cat, not_found, invalid_argument, value_too_large, backend_unavailable,
  permission_denied, timeout, unsupported, backend_failure, not_wsl2, unsupported_protocol,
  unsupported_operation, bad_argument, missing, access_denied, unavailable, failure, timed_out,
  too_large, is, Result, ok, err, Action,
}
use common_keyring.Contract.{Context, context_error, Bytes, Keyringer}
use common_keyring.Wsl2.Reports.{helper_not_found}
use common_keyring.Wsl2.Protocol.{
  operation_probe, operation_get, operation_set, operation_delete, max_secret_bytes, Request, Reply,
  Codec, fault, has_nul, new_request_id,
}
use common_keyring.Wsl2.Client.{Client, RunEnd, run, invoke}

-- The `switch` of `portableError`.
unfoldable pub portable_category : GoError → Category
portable_category e =
    if is e deadline_exceeded || is e (bridge timed_out)
    then timeout
    else if is e (bridge missing)
    then not_found
    else if is e (bridge bad_argument)
    then invalid_argument
    else if is e (bridge too_large)
    then value_too_large
    else if is e (bridge unavailable)
    then backend_unavailable
    else if is e (bridge access_denied)
    then permission_denied
    else if is e (bridge unsupported_protocol)
        || is e (bridge unsupported_operation)
        || is e (bridge not_wsl2)
    then unsupported
    else backend_failure

-- `portableError` of an error that is not nil
unfoldable pub portable_error : GoError → GoError
unfolding portable_category
portable_error e = if is e canceled then e else wrap2 "" (cat (portable_category e)) e

-- `isKernelRelease`
unfoldable pub is_kernel_release : Bytes → Bool
is_kernel_release release =
    let normalized = lower (trim_space release) in
    contains (codes "microsoft-standard-wsl2") normalized || contains (codes "wsl2") normalized

-- What a method makes of the results of `invoke`. A nil reply, which the code would dereference,
-- is an error of its own.
unfoldable pub use_result : {A : Type 0} → (Reply → Result A) → Result (Option Reply) → Result A
unfolding portable_error
use_result use_reply (err e) = err (portable_error e)
use_result use_reply (ok none) = err (plain "nil dereference")
use_result use_reply (ok (some reply)) = use_reply reply

-- The end of `Delete`.
unfoldable pub was_deleted : Option Bool → Result (Unit {0})
unfolding portable_error
was_deleted (some true) = ok tt
was_deleted _ = err (portable_error (leaf (bridge missing)))

-- Seconds
abbrev pub default_timeout : ℕ
default_timeout = 15

-- What `New` finds on the system: the kernel's release, the helper's path, the run of a command, the
-- random source, and what the standard library does of JSON, base64 and contexts.
pub record System (W : Type 0) : Type 0 where
  pub read_kernel_release : Action W Bytes
  pub look_path : Action W String
  pub command : Context W → String → Bytes → W → (List Bytes × RunEnd) × W
  pub random : ℕ → Action W Bytes
  pub encode : Request → Result Bytes
  pub codec : Codec
  pub with_timeout : Context W → ℕ → W → (W → Option GoError)

-- The client that `New` makes of a helper.
abbrev pub new_client : {W : Type 0} → System W → String → String → Client W
new_client s service helper_path = record {
  service = service;
  helper_path = helper_path;
  timeout = default_timeout;
  run = run s.command;
  request_id = new_request_id s.random;
  encode = s.encode;
  codec = s.codec;
  with_timeout = s.with_timeout;
}

-- The error of a helper that was not found.
unfoldable pub look_path_error : GoError → GoError
look_path_error e =
    if is e exec_not_found
    then wrap2 "find keyring-winbridge.exe" helper_not_found e
    else wrap2 "find keyring-winbridge.exe" (leaf (bridge failure)) e

module _ {W : Type 0} where
  -- `isWSL2` over `readKernelRelease`
  unfoldable pub is_wsl2 : Action W Bytes → W → Bool × W
  unfolding is_kernel_release
  is_wsl2 read_kernel_release w =
      let (r, w') = read_kernel_release w in
      (elim r [ err _ ↦ false | ok release ↦ is_kernel_release release ], w')

  -- `invoke` under `portableError`, for what the operation makes of the reply.
  unfoldable pub portable_invoke :
      {A : Type 0}
      → Client W
      → (Reply → Result A)
      → Context W
      → String
      → String
      → Option String
      → Action W A
  unfolding use_result
  portable_invoke k use_reply ctx operation account secret w =
      let (r, w') = invoke k ctx operation account secret w in (use_result use_reply r, w')

  -- `Get`
  unfoldable pub get : Client W → Context W → String → Action W Bytes
  unfolding portable_invoke
  get k ctx username = portable_invoke k (λ reply. ok reply.secret) ctx operation_get username none

  -- `Set`
  unfoldable pub set : Client W → Context W → String → Bytes → Action W (Unit {0})
  unfolding portable_invoke
  set k ctx username password w =
      if ltb max_secret_bytes (length password)
      then (err (portable_error (fault "secret exceeds bytes" too_large)), w)
      else portable_invoke k (λ _. ok tt) ctx operation_set username
          (some (k.codec.encode_to_string password)) w

  -- `Delete`
  unfoldable pub delete : Client W → Context W → String → Action W (Unit {0})
  unfolding portable_invoke was_deleted
  delete k ctx username =
      portable_invoke k (λ reply. was_deleted reply.deleted) ctx operation_delete username none

  -- `Keyring` as a `Keyringer`
  unfoldable pub keyringer : Client W → Keyringer W
  unfolding get set delete
  keyringer k = record { get = get k; set = set k; delete = delete k }

  -- `probe`
  unfoldable pub probe : Client W → Context W → Action W (Unit {0})
  probe k ctx w =
      let (r, w') = invoke k ctx operation_probe "" none w in
      (elim r [ err e ↦ err e | ok _ ↦ ok tt ], w')

  -- The end of `New`, with a helper at this path.
  unfoldable pub probe_helper : System W → Context W → String → String → Action W (Keyringer W)
  unfolding probe keyringer
  probe_helper s ctx service helper_path w =
      let k = new_client s service helper_path in
      let (r, w') = probe k ctx w in
      (
        elim r [
          | err e ↦ err (portable_error (wrap1 "probe keyring-winbridge.exe" e))
          | ok _ ↦ ok (keyringer k)
        ],
        w',
      )

  unfoldable pub find_helper : System W → Context W → String → Action W (Keyringer W)
  unfolding look_path_error probe_helper
  find_helper s ctx service w =
      let (r, w') = s.look_path w in
      elim r [
        | err e ↦ (err (portable_error (look_path_error e)), w')
        | ok helper_path ↦ probe_helper s ctx service helper_path w'
      ]

  unfoldable pub check_kernel : System W → Context W → String → Action W (Keyringer W)
  unfolding is_wsl2 find_helper
  check_kernel s ctx service w =
      let (here, w') = is_wsl2 s.read_kernel_release w in
      if here
      then find_helper s ctx service w'
      else (err (portable_error (leaf (bridge not_wsl2))), w')

  -- `New`
  unfoldable pub new_keyring : System W → Context W → String → Action W (Keyringer W)
  unfolding check_kernel
  new_keyring s ctx service w = elim (context_error ctx w) [
    | some e ↦ (err e, w)
    | none ↦
        if service == ""
        then (err (portable_error (fault "service is empty" bad_argument)), w)
        else if has_nul service
        then (err (portable_error (fault "service contains a NUL character" bad_argument)), w)
        else check_kernel s ctx service w
  ]
