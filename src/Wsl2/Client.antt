-- ===== src/Wsl2/Client.antt =====
-- secure/wsl2/client.go and process.go: one request to the helper and its response.
pub mod Outcomes
use common_keyring.Base.{
  ℕ, String, Bool, true, false, ◌||◌, not, Option, none, some, List, [], ◌∷◌, ◌++◌, ◌==◌, nat_eq,
  string_eq, length, ltb, if◌then◌else◌,
}
use common_keyring.Errors.{
  GoError, Sentinel, canceled, bridge, leaf, wrap1, wrap2, internal, protocol, too_large, timed_out,
  failure, unavailable, is, Result, ok, err, Action, ◌>>=◌, ◌>>◌, refuse,
}
use common_keyring.Contract.{Context, context_error, Bytes}
use common_keyring.LimitedBuffer.{LimitedBuffer, new_buffer, write_all}
use common_keyring.Wsl2.Reports
use common_keyring.Wsl2.Reports.{ProtocolError}
use common_keyring.Wsl2.Protocol.{
  protocol_id, operation_probe, max_message_bytes, Request, Reply, Response, Codec, fault,
  validate_request, decode_response,
}

-- `exitCode` is -1 where no exit code is known; `none` stands for it.
pub record ProcessResult : Type 0 where
  pub output : Bytes
  pub exit_code : Option ℕ
  pub failed : Option GoError

-- How `command.Run` ended: with success, with an `ExitError`, whose exit code may be -1, or
-- otherwise.
pub data RunEnd : Type 0 where
  succeeded : RunEnd
  exited : Option ℕ → RunEnd
  broken : GoError → RunEnd

-- What `run` of process.go makes of the chunks that the command wrote to its standard output.
unfoldable pub process_result : List Bytes → RunEnd → ProcessResult
process_result chunks ended =
    let output = write_all (new_buffer max_message_bytes) chunks in
    if output.overflow
    then record {
      output = [];
      exit_code = none;
      failed = some (fault "response exceeds bytes" protocol);
    }
    else elim ended [
      | succeeded ↦ record { output = output.buffer; exit_code = some 0; failed = none }
      | exited code ↦ record { output = output.buffer; exit_code = code; failed = none }
      | broken e ↦ record { output = output.buffer; exit_code = none; failed = some e }
    ]

-- `run` of process.go, over the run of a command with its context, its path and its input.
unfoldable pub run :
    {W : Type 0}
    → (Context W → String → Bytes → W → (List Bytes × RunEnd) × W)
    → Context W
    → String
    → Bytes
    → W
    → ProcessResult × W
unfolding process_result
run command ctx helper_path input w =
    let (did, w') = command ctx helper_path input w in (process_result did.0 did.1, w')

-- `Keyring`; its function fields, which are never nil in the program, and the standard library's
-- `context.WithTimeout` for the world.
pub record Client (W : Type 0) : Type 0 where
  pub service : String
  pub helper_path : String
  pub timeout : ℕ
  pub run : Context W → String → Bytes → W → ProcessResult × W
  pub request_id : Action W String
  pub encode : Request → Result Bytes
  pub codec : Codec
  pub with_timeout : Context W → ℕ → W → (W → Option GoError)

-- `isCode(code)` for a known exit code
abbrev pub exits_with : Option ℕ → ℕ → Bool
exits_with none n = false
exits_with (some code) n = code == n

-- What `invoke` makes of the helper's process and of a response.
unfoldable pub conclude : ProcessResult → Response → Result (Option Reply)
conclude process response =
    if response.succeeded
    then if exits_with process.exit_code 0
      then ok response.result
      else err (fault "helper returned success with exit code" protocol)
    else if exits_with process.exit_code 1
    then elim response.error [
      | none ↦ err (fault "no error" internal)
      | some e ↦ err (Reports.as_error e)
    ]
    else err (fault "helper returned an operation error with exit code" protocol)

-- The error of a process that did not run to its end.
unfoldable pub process_error : String → GoError → GoError
process_error operation e =
    if is e (bridge protocol)
    then e
    else if operation == operation_probe
    then wrap2 "run keyring-winbridge" (leaf (bridge failure)) e
    else wrap2 "run keyring-winbridge" (leaf (bridge unavailable)) e

-- The reply of a process that ended by itself, with the error of running it, if any.
unfoldable pub read_reply : Codec → Request → ProcessResult → Option GoError → Result (Option Reply)
unfolding process_error conclude
read_reply codec request process (some e) = err (process_error request.operation e)
read_reply codec request process none = do
  response ← decode_response codec process.output request
  conclude process response

-- The part of `invoke` behind the end of the process, for the context's error at that moment.
unfoldable pub receive : Codec → Request → ProcessResult → Option GoError → Result (Option Reply)
unfolding read_reply
receive codec request process (some e) =
    if is e canceled then err e else err (wrap2 "run keyring-winbridge" (leaf (bridge timed_out)) e)
receive codec request process none = read_reply codec request process process.failed

-- The encoded request with its final newline.
unfoldable pub end_line : Result Bytes → Result Bytes
end_line (err e) = err (wrap2 "encode request" (leaf (bridge internal)) e)
end_line (ok encoded) = do
  let input = encoded ++ 10 ∷ []
  refuse (ltb max_message_bytes (length input)) (fault "request exceeds bytes" too_large)
  ok input

module _ {W : Type 0} (k : Client W) where
  -- The request that `invoke` builds.
  unfoldable pub build_request : String → String → String → Option String → Request
  build_request request_id operation account secret = record {
    protocol = protocol_id;
    request_id = request_id;
    operation = operation;
    service = if operation == operation_probe then "" else k.service;
    account = if operation == operation_probe then "" else account;
    secret_b64 = secret;
  }

  -- The validated and encoded request with its final newline.
  unfoldable pub encode_line : Request → Result Bytes
  unfolding end_line
  encode_line request = do validate_request request; end_line (k.encode request)

  -- `invoke` behind the encoding: the helper runs under a timeout.
  unfoldable pub exchange : Context W → Request → Bytes → Action W (Option Reply)
  unfolding receive
  exchange parent request input w =
      let ctx = k.with_timeout parent k.timeout w in
      let (process, w') = k.run (some ctx) k.helper_path input w in
      (receive k.codec request process (ctx w'), w')

  unfoldable pub send : Context W → Request → Action W (Option Reply)
  unfolding encode_line exchange
  send parent request w = elim (encode_line request) [
    | err e ↦ (err e, w)
    | ok input ↦ exchange parent request input w
  ]

  -- The request id, which must not be empty.
  unfoldable pub new_id : Action W String
  new_id w =
      let (r, w') = k.request_id w in
      (
        elim r [
          | err e ↦ err (wrap2 "generate request id" (leaf (bridge internal)) e)
          | ok id ↦ if id == "" then err (fault "request id is empty" internal) else ok id
        ],
        w',
      )

  -- The checks of the client itself in `invoke`.
  unfoldable pub configured : Result (Unit {0})
  configured = do
    refuse (k.helper_path == "") (fault "client is not configured" internal)
    refuse (k.timeout == 0) (fault "timeout is not configured" internal)

  -- `invoke` behind the making of the id.
  unfoldable pub request_with :
      Context W → String → String → Option String → Result String → Action W (Option Reply)
  unfolding build_request send
  request_with parent operation account secret (err e) w = (err e, w)
  request_with parent operation account secret (ok request_id) w =
      send parent (build_request request_id operation account secret) w

  -- `invoke` once the client is known to be configured.
  unfoldable pub request_reply :
      Context W → String → String → Option String → Action W (Option Reply)
  unfolding new_id request_with
  request_reply parent operation account secret w =
      let (id, w') = new_id w in request_with parent operation account secret id w'

  -- `invoke`
  unfoldable pub invoke : Context W → String → String → Option String → Action W (Option Reply)
  unfolding configured request_reply
  invoke parent operation account secret w = elim (context_error parent w) [
    | some e ↦ (err e, w)
    | none ↦ elim configured [
      | err e ↦ (err e, w)
      | ok _ ↦ request_reply parent operation account secret w
    ]
  ]
