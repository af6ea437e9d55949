-- ===== src/Wsl2/Reports.antt =====
-- secure/wsl2/errors.go: the helper's error codes and the errors that they stand for.
use common_keyring.Base.{
  String, ◌<>◌, Bool, Option, none, some, List, ◌==◌, string_eq, if◌then◌else◌,
}
use common_keyring.Errors.{
  GoError, Sentinel, bridge, leaf, plain, wrap1, invalid_request, unsupported_protocol,
  unsupported_operation, bad_argument, missing, access_denied, unavailable, failure, timed_out,
  internal,
}

-- The codes of protocol.go
abbrev pub code_invalid_request : String
code_invalid_request = "invalid_request"

abbrev pub code_unsupported_protocol : String
code_unsupported_protocol = "unsupported_protocol"

abbrev pub code_unsupported_operation : String
code_unsupported_operation = "unsupported_operation"

abbrev pub code_invalid_argument : String
code_invalid_argument = "invalid_argument"

abbrev pub code_not_found : String
code_not_found = "not_found"

abbrev pub code_access_denied : String
code_access_denied = "access_denied"

abbrev pub code_backend_unavailable : String
code_backend_unavailable = "backend_unavailable"

abbrev pub code_backend_failure : String
code_backend_failure = "backend_failure"

abbrev pub code_timeout : String
code_timeout = "timeout"

abbrev pub code_internal : String
code_internal = "internal"

-- `ErrHelperNotFound`, which unwraps to `ErrBackendUnavailable`
abbrev pub helper_not_found : GoError
helper_not_found = wrap1 "keyring-winbridge executable not found" (leaf (bridge unavailable))

-- `ProtocolError`
pub record ProtocolError : Type 0 where
  pub code : String
  pub message : String
  pub retryable : Bool
  pub supported_protocols : List String

-- `sentinelForCode`
unfoldable pub sentinel_for_code : String → Option Sentinel
sentinel_for_code code =
    if code == code_invalid_request
    then some (bridge invalid_request)
    else if code == code_unsupported_protocol
    then some (bridge unsupported_protocol)
    else if code == code_unsupported_operation
    then some (bridge unsupported_operation)
    else if code == code_invalid_argument
    then some (bridge bad_argument)
    else if code == code_not_found
    then some (bridge missing)
    else if code == code_access_denied
    then some (bridge access_denied)
    else if code == code_backend_unavailable
    then some (bridge unavailable)
    else if code == code_backend_failure
    then some (bridge failure)
    else if code == code_timeout
    then some (bridge timed_out)
    else if code == code_internal
    then some (bridge internal)
    else none

-- `Error`
unfoldable pub text : ProtocolError → String
text e = if e.message == "" then e.code else e.code <> ": " <> e.message

-- `Unwrap`
unfoldable pub unwrap : ProtocolError → Option Sentinel
unfolding sentinel_for_code
unwrap e = sentinel_for_code e.code

-- The report as an error value, as `errors.Is` sees it.
abbrev pub report_error : String → Option Sentinel → GoError
report_error text none = plain text
report_error text (some s) = wrap1 text (leaf s)

unfoldable pub as_error : ProtocolError → GoError
unfolding unwrap text
as_error e = report_error (text e) (unwrap e)
