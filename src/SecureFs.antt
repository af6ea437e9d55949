-- ===== src/SecureFs.antt =====
-- secure/fs/keyring.go: the keyring that hands each operation on to that of internal/backend/fs.
use common_keyring.Base.{String}
use common_keyring.Errors.{Result, ok, err, Action}
use common_keyring.Contract.{Keyringer}
use common_keyring.Filesystem.Keyring.{Host, open_keyring}

-- `Keyring` with its methods
abbrev pub delegate : {W : Type 0} → Keyringer W → Keyringer W
delegate backend = record {
  get = λ ctx key. backend.get ctx key;
  set = λ ctx key value. backend.set ctx key value;
  delete = λ ctx key. backend.delete ctx key;
}

abbrev pub delegated : {W : Type 0} → Result (Keyringer W) → Result (Keyringer W)
delegated (ok backend) = ok (delegate backend)
delegated (err e) = err e

-- `Open`
unfoldable pub open_root : {W : Type 0} → Host W → String → String → Action W (Keyringer W)
open_root h root_dir service w =
    let (r, w') = open_keyring h root_dir service w in (delegated r, w')
