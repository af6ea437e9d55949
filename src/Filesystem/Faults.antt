-- ===== src/Filesystem/Faults.antt =====
-- `operationError` of internal/backend/fs/storage_linux.go.
use common_keyring.Base.{String, Bool, ◌&&◌, ◌||◌, if◌then◌else◌}
use common_keyring.Errors.{
  GoError, category, errno, fs_not_exist, fs_permission, cat, wrap1, wrap2, is, eloop, enotdir,
  eisdir, not_found, permission_denied, insecure_fallback, invalid_argument, backend_unavailable,
  unsupported, backend_failure,
}

-- The errors that already have one of the categories of the backend.
unfoldable pub is_portable : GoError → Bool
is_portable e =
    is e (category invalid_argument)
    || is e (category insecure_fallback)
    || is e (category permission_denied)
    || is e (category backend_unavailable)
    || is e (category unsupported)
    || is e (category backend_failure)

-- The symbolic link and file type errors.
unfoldable pub is_unsafe_path : GoError → Bool
is_unsafe_path e = is e (errno eloop) || is e (errno enotdir) || is e (errno eisdir)

-- `operationError` of an error that is not nil
unfoldable pub operation_error : String → Bool → GoError → GoError
unfolding is_portable is_unsafe_path
operation_error operation missing_is_not_found e =
    if missing_is_not_found && is e fs_not_exist
    then wrap2 operation (cat not_found) e
    else if is e fs_permission
    then wrap2 operation (cat permission_denied) e
    else if is_unsafe_path e
    then wrap2 operation (cat insecure_fallback) e
    else if is_portable e
    then wrap1 operation e
    else wrap2 operation (cat backend_failure) e
