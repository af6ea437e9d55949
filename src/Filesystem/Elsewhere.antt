-- ===== src/Filesystem/Elsewhere.antt =====
-- internal/backend/fs/keyring_unsupported.go: the storage of other systems.
use common_keyring.Base.{String}
use common_keyring.Errors.{insecure_fallback, unsupported, cat, wrap2, err, Action}
use common_keyring.Filesystem.Storage.{Storage}

-- `openStorage`
unfoldable pub open_storage : {W : Type 0} → String → String → Action W (Storage W)
open_storage root_path service_id w = (
  err (
      wrap2 "required filesystem security checks are not implemented on this platform"
        (cat insecure_fallback) (cat unsupported)),
  w,
)
