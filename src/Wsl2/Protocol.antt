-- ===== src/Wsl2/Protocol.antt =====
-- secure/wsl2/protocol.go: requests, responses and their validation.
pub mod Responses
use common_keyring.Base.{
  ℕ, ◌*◌, ◌^◌, String, Bool, true, false, ◌&&◌, ◌||◌, not, Option, none, some, List, [], ◌∷◌, ◌==◌,
  nat_eq, string_eq, any, codes, length, ltb, if◌then◌else◌,
}
use common_keyring.Errors.{
  GoError, Bridge, bridge, leaf, wrap1, wrap2, bad_argument, internal, protocol, Result, ok, err,
  Fallible, Action, ◌>>=◌, ◌>>◌, refuse,
}
use common_keyring.Contract.{Bytes}
use common_keyring.Filesystem.Layout.{hex}
use common_keyring.Filesystem.Steps.{relabel}
use common_keyring.Wsl2.Reports.{ProtocolError, sentinel_for_code, code_unsupported_protocol}

abbrev pub protocol_id : String
protocol_id = "keyring-winbridge/v1alpha1"

abbrev pub backend_name : String
backend_name = "windows-credential-manager"

abbrev pub operation_probe : String
operation_probe = "probe"

abbrev pub operation_get : String
operation_get = "get"

abbrev pub operation_set : String
operation_set = "set"

abbrev pub operation_delete : String
operation_delete = "delete"

abbrev pub max_message_bytes : ℕ
max_message_bytes = 2 ^ 20

abbrev pub max_secret_bytes : ℕ
max_secret_bytes = 5 * 512

-- The size of the array in `newRequestID`
abbrev pub request_id_bytes : ℕ
request_id_bytes = 16

pub record Request : Type 0 where
  pub protocol : String
  pub request_id : String
  pub operation : String
  pub service : String
  pub account : String
  pub secret_b64 : Option String

-- `result`; `SupportedProtocols` may be nil, and `secret` is filled by the validation.
pub record Reply : Type 0 where
  pub helper_version : String
  pub supported_protocols : Option (List String)
  pub backend : String
  pub secret_b64 : Option String
  pub deleted : Option Bool
  pub secret : Bytes

pub record Response : Type 0 where
  pub protocol : String
  pub request_id : String
  pub succeeded : Bool
  pub result : Option Reply
  pub error : Option ProtocolError

-- encoding/json and the strict standard encoding of encoding/base64, as the source calls them.
pub record Codec : Type 0 where
  pub unmarshal : Bytes → Result Response
  pub decode_string : String → Result Bytes
  pub encode_to_string : Bytes → String

-- `newRequestID` over `io.ReadFull` of the random source.
unfoldable pub new_request_id : {W : Type 0} → (ℕ → Action W Bytes) → Action W String
unfolding hex relabel
new_request_id random w =
    let (r, w') = relabel (wrap1 "generate request id") (random request_id_bytes) w in
    (r >>= λ value. ok (hex value), w')

-- `strings.IndexByte(s, 0) >= 0`
unfoldable pub has_nul : String → Bool
has_nul s = any (λ c. c == 0) (codes s)

abbrev pub is_some {ℓ} : {A : Type ℓ} → Option A → Bool
is_some none = false
is_some (some a) = true

-- `fmt.Errorf("%w: text", sentinel)` over a sentinel of this package
abbrev pub fault : String → Bridge → GoError
fault text b = wrap1 text (leaf (bridge b))

-- The `switch` of `validateRequest`.
unfoldable pub validate_fields : Request → Fallible
validate_fields r =
    if r.operation == operation_probe
    then refuse (not (r.service == "") || not (r.account == "") || is_some r.secret_b64)
        (fault "probe contains credential fields" internal)
    else if r.operation == operation_get || r.operation == operation_delete
    then refuse (is_some r.secret_b64) (fault "request contains a secret" internal)
    else if r.operation == operation_set
    then refuse (not (is_some r.secret_b64)) (fault "set request secret is missing" internal)
    else err (fault "unsupported operation" internal)

-- `validateRequest`
unfoldable pub validate_request : Request → Fallible
unfolding validate_fields
validate_request r = do
  refuse (r.service == "" && not (r.operation == operation_probe))
      (fault "service is empty" bad_argument)
  refuse (has_nul r.service) (fault "service contains a NUL character" bad_argument)
  refuse (r.account == "" && not (r.operation == operation_probe))
      (fault "account is empty" bad_argument)
  refuse (has_nul r.account) (fault "account contains a NUL character" bad_argument)
  validate_fields r

-- `result.SupportedProtocols` where a nil slice has no items
abbrev pub items_of {ℓ} : {A : Type ℓ} → Option (List A) → List A
items_of none = []
items_of (some l) = l

unfoldable pub has_probe_fields : Reply → Bool
has_probe_fields r =
    not (r.helper_version == "") || is_some r.supported_protocols || not (r.backend == "")

module _ (c : Codec) where
  -- The case of a `get` in `validateResult` after the test of the fields.
  unfoldable pub decode_secret : Reply → Option String → Result Reply
  decode_secret r none = err (fault "invalid get result" protocol)
  decode_secret r (some encoded) = elim (c.decode_string encoded) [
    | err e ↦ err (wrap2 "invalid secret encoding" (leaf (bridge protocol)) e)
    | ok secret ↦
        if ltb max_secret_bytes (length secret)
        then err (fault "response secret exceeds bytes" protocol)
        else ok (record r { secret = secret })
  ]

  -- `validateResult`, which returns the result with its secret.
  unfoldable pub validate_result : String → Reply → Result Reply
  unfolding decode_secret has_probe_fields
  validate_result operation r =
      if operation == operation_probe
      then (do
        refuse
            (r.helper_version == ""
              || not (r.backend == backend_name)
              || not (any (λ p. p == protocol_id) (items_of r.supported_protocols))
              || is_some r.secret_b64
              || is_some r.deleted)
            (fault "invalid probe result" protocol)
        ok r)
      else if operation == operation_get
      then if not (is_some r.secret_b64) || is_some r.deleted || has_probe_fields r
        then err (fault "invalid get result" protocol)
        else decode_secret r r.secret_b64
      else if operation == operation_set
      then (do
        refuse (is_some r.secret_b64 || is_some r.deleted || has_probe_fields r)
            (fault "invalid set result" protocol)
        ok r)
      else if operation == operation_delete
      then (do
        refuse (not (is_some r.deleted) || is_some r.secret_b64 || has_probe_fields r)
            (fault "invalid delete result" protocol)
        ok r)
      else err (fault "unsupported response operation" internal)

-- `validErrorCode`
unfoldable pub valid_error_code : String → Bool
valid_error_code code = is_some (sentinel_for_code code)

-- `validateProtocolError`
unfoldable pub validate_protocol_error : ProtocolError → Fallible
unfolding valid_error_code
validate_protocol_error e = do
  refuse (e.code == "" || e.message == "") (fault "invalid operation error" protocol)
  refuse (not (valid_error_code e.code)) (fault "unknown error code" protocol)
  if e.code == code_unsupported_protocol
      then refuse (length e.supported_protocols == 0)
          (fault "unsupported protocol response has no supported protocols" protocol)
      else refuse (not (length e.supported_protocols == 0))
          (fault "unexpected supported protocols in operation error" protocol)

module _ (c : Codec) where
  -- The part of `decodeResponse` for a successful response.
  unfoldable pub accept_success :
      Response → String → Option Reply → Option ProtocolError → Result Response
  unfolding validate_result
  accept_success response operation (some r) none = do
    r' ← validate_result c operation r
    ok (record response { result = some r' })
  accept_success response operation _ _ = err (fault "invalid successful response" protocol)

  -- The part of `decodeResponse` for a failed response.
  unfoldable pub accept_failure : Response → Option Reply → Option ProtocolError → Result Response
  unfolding validate_protocol_error
  accept_failure response none (some e) = do validate_protocol_error e; ok response
  accept_failure response _ _ = err (fault "invalid failed response" protocol)

  -- What `decodeResponse` makes of the result of json.Unmarshal.
  unfoldable pub accept_response : Request → Response → Result Response
  unfolding accept_success accept_failure
  accept_response request response = do
    refuse (not (response.protocol == request.protocol))
        (fault "response protocol does not match request" protocol)
    refuse (not (response.request_id == request.request_id))
        (fault "response request id does not match request" protocol)
    if response.succeeded
        then accept_success response request.operation response.result response.error
        else accept_failure response response.result response.error

  -- `decodeResponse` behind the decoding of the output.
  unfoldable pub decoded : Request → Result Response → Result Response
  unfolding accept_response
  decoded request (err e) = err (wrap2 "decode response" (leaf (bridge protocol)) e)
  decoded request (ok response) = accept_response request response

  -- `decodeResponse`
  unfoldable pub decode_response : Bytes → Request → Result Response
  unfolding decoded
  decode_response output request = do
    refuse (length output == 0) (fault "empty response" protocol)
    refuse (ltb max_message_bytes (length output)) (fault "response exceeds bytes" protocol)
    decoded request (c.unmarshal output)
