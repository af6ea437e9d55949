-- ===== src/Contract/Info.antt =====
-- internal/contract/info.go: the description of a selected backend.
use common_keyring.Base.{String, Bool, Option, List}
use common_keyring.Errors.{GoError}

-- `Backend`, `Persistence`, `Host` and `Interaction` are string types with named constants.
abbrev pub Backend : Type 0
Backend = String

abbrev pub backend_custom : String
backend_custom = "custom"

abbrev pub backend_secret_service : String
backend_secret_service = "secret-service"

abbrev pub backend_kernel_keyring : String
backend_kernel_keyring = "kernel-keyring"

abbrev pub backend_filesystem : String
backend_filesystem = "filesystem"

abbrev pub backend_keychain : String
backend_keychain = "keychain"

abbrev pub backend_windows_credential_manager : String
backend_windows_credential_manager = "windows-credential-manager"

abbrev pub persistence_unknown : String
persistence_unknown = "unknown"

abbrev pub persistence_session : String
persistence_session = "session"

abbrev pub persistence_persistent : String
persistence_persistent = "persistent"

abbrev pub host_unknown : String
host_unknown = "unknown"

abbrev pub host_current : String
host_current = "current"

abbrev pub host_windows : String
host_windows = "windows"

abbrev pub interaction_unknown : String
interaction_unknown = "unknown"

abbrev pub interaction_none : String
interaction_none = "none"

abbrev pub interaction_possible : String
interaction_possible = "possible"

pub record Rejection : Type 0 where
  pub backend : Backend
  pub err : Option GoError

pub record Info : Type 0 where
  pub backend : Backend
  pub persistence : String
  pub host : String
  pub interaction : String
  pub fallback : Bool
  pub rejected : List Rejection
