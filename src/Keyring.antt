-- ===== src/Keyring.antt =====
-- keyring.go, types.go and keyring_*.go: options, the native keyring, and `Open`.
pub mod Overlay
pub mod Opening
use mathlib.Core.List.{foldl}
use common_keyring.Base.{
  String, Bool, true, false, Option, none, some, List, [], ◌∷◌, ◌++◌, ◌==◌, string_eq, ◌&&◌,
  if◌then◌else◌,
}
use common_keyring.Errors.{
  GoError, invalid_argument, unsupported, cat, wrap1, Result, ok, err, Action,
}
use common_keyring.Contract.{Context, context_error, Keyringer, Bytes}
use common_keyring.Contract.Info.{
  Backend, Info, backend_custom, backend_secret_service, backend_filesystem, backend_keychain,
  backend_windows_credential_manager, persistence_unknown, persistence_persistent, host_unknown,
  host_current, interaction_unknown, interaction_none, interaction_possible,
}
use common_keyring.Contract.SelectionErrors.{SelectionError}
use common_keyring.Selection.{
  Opener, Registry, Selection, selected, failed, is_cons, select_backend,
}

-- What the build for one platform supplies: the variables of its keyring_*.go, the package
-- `native`, and `Open` of internal/backend/fs.
pub record Platform (W : Type 0) : Type 0 where
  pub native_info : Info
  pub native_supported : Bool
  pub probe_native : Context W → Action W (Unit {0})
  pub native_get : Context W → String → String → Action W Bytes
  pub native_set : Context W → String → String → Bytes → Action W (Unit {0})
  pub native_delete : Context W → String → String → Action W (Unit {0})
  pub open_filesystem : String → String → Action W (Keyringer W)

abbrev pub info_of : Backend → String → String → String → Info
info_of b persistence host interaction = record {
  backend = b;
  persistence = persistence;
  host = host;
  interaction = interaction;
  fallback = false;
  rejected = [];
}

-- `nativeBackendInfo` of the four builds
abbrev pub unix_info : Info
unix_info = info_of backend_secret_service persistence_persistent host_current interaction_possible

abbrev pub darwin_info : Info
darwin_info = info_of backend_keychain persistence_persistent host_current interaction_possible

abbrev pub windows_info : Info
windows_info =
    info_of backend_windows_credential_manager persistence_persistent host_current interaction_none

abbrev pub fallback_build_info : Info
fallback_build_info = info_of backend_custom persistence_unknown host_current interaction_unknown

-- `customInfo`
abbrev pub custom_info : Info
custom_info = info_of backend_custom persistence_unknown host_unknown interaction_unknown

-- `probeNativeBackend` of the darwin and windows builds, and of the build without a native store
unfoldable pub probe_present : {W : Type 0} → Context W → Action W (Unit {0})
probe_present ctx w = (ok tt, w)

unfoldable pub probe_absent : {W : Type 0} → Context W → Action W (Unit {0})
probe_absent ctx w = (err (wrap1 "native credential backend" (cat unsupported)), w)

-- The filesystem's description, before a selection marks rejections in it.
abbrev pub filesystem_info : Info
filesystem_info =
    record (info_of backend_filesystem persistence_persistent host_current interaction_none) {
      fallback = true;
    }

-- `Option`
pub record Options (W : Type 0) : Type 0 where
  pub service : String
  pub keyringer : Option (Keyringer W)
  pub fallback_dir : String
  pub backends : List Backend

-- What the two packages' `Open` return: a keyring with its description, or an error, which is
-- one of `SelectBackend` or an earlier one.
pub data Opened (W : Type 0) : Type 0 where
  opened : Keyringer W → Info → Opened W
  refused : GoError → Opened W
  unselected : SelectionError → Opened W

unfoldable pub from_selection : {W : Type 0} → Selection (Keyringer W) × W → Opened W × W
from_selection (selected k info, w) = (opened k info, w)
from_selection (failed e, w) = (unselected e, w)

module _ {W : Type 0} where
  abbrev pub no_options : Options W
  no_options = record { service = ""; keyringer = none; fallback_dir = ""; backends = [] }

  -- The body of the loop of `mergeOptions`.
  unfoldable pub overlay : Options W → Options W → Options W
  overlay merged o = record {
    service = if o.service == "" then merged.service else o.service;
    keyringer = elim o.keyringer [ none ↦ merged.keyringer | some k ↦ some k ];
    fallback_dir = if o.fallback_dir == "" then merged.fallback_dir else o.fallback_dir;
    backends = if is_cons o.backends then o.backends else merged.backends;
  }

  -- `mergeOptions`; a nil option, at which the loop panics, is not an input of the model.
  unfoldable pub merge_options : List (Options W) → Options W
  unfolding overlay
  merge_options = foldl overlay no_options

-- `Open` after the options are merged, with the order and the map that it makes from them.
unfoldable pub open_with :
    {W : Type 0}
    → Context W
    → Options W
    → List Backend
    → Registry W (Keyringer W)
    → W
    → Opened W × W
unfolding from_selection
open_with ctx o order entries w = elim o.keyringer [
  | some k ↦ (opened k custom_info, w)
  | none ↦
      if o.service == ""
      then (refused (wrap1 "service is empty" (cat invalid_argument)), w)
      else from_selection (select_backend ctx order entries w)
]

module _ {W : Type 0} (p : Platform W) where
  -- `Keyring` with its methods
  unfoldable pub native_keyring : String → Keyringer W
  native_keyring service = record {
    get = λ ctx key. p.native_get ctx service key;
    set = λ ctx key contents. p.native_set ctx service key contents;
    delete = λ ctx key. p.native_delete ctx service key;
  }

  -- The order that `Open` uses when the options give none.
  unfoldable pub default_order : Options W → List Backend
  default_order o =
      (if p.native_supported then p.native_info.backend ∷ [] else [])
      ++ (if o.fallback_dir == "" then [] else backend_filesystem ∷ [])

  unfoldable pub order_of : Options W → List Backend
  unfolding default_order
  order_of o = if is_cons o.backends then o.backends else default_order o

  -- The opener of the filesystem backend.
  unfoldable pub open_fallback : Options W → Opener W (Keyringer W)
  open_fallback o ctx w =
      if o.fallback_dir == ""
      then (err (wrap1 "filesystem fallback directory is empty" (cat invalid_argument)), w)
      else let (result, w') = p.open_filesystem o.fallback_dir o.service w in
        (elim result [ ok k ↦ ok (k, filesystem_info) | err e ↦ err e ], w')

  -- The opener of the native backend.
  unfoldable pub open_native : Options W → Opener W (Keyringer W)
  unfolding native_keyring
  open_native o ctx w =
      let (result, w') = p.probe_native ctx w in
      (elim result [ ok _ ↦ ok (native_keyring o.service, p.native_info) | err e ↦ err e ], w')

  -- The map `registry` of `Open`; the native entry is assigned last.
  unfoldable pub registry : Options W → Registry W (Keyringer W)
  unfolding open_fallback open_native
  registry o b =
      if p.native_supported && (b == p.native_info.backend)
      then some (open_native o)
      else if b == backend_filesystem
      then some (open_fallback o)
      else none

  unfoldable pub open_merged : Context W → Options W → W → Opened W × W
  unfolding open_with order_of registry
  open_merged ctx o = open_with ctx o (order_of o) (registry o)

  -- `Open`
  unfoldable pub open_keyring : Context W → List (Options W) → W → Opened W × W
  unfolding open_merged merge_options
  open_keyring ctx options w = elim (context_error ctx w) [
    | some e ↦ (refused e, w)
    | none ↦ open_merged ctx (merge_options options) w
  ]
