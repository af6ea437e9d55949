-- ===== src/Secure.antt =====
-- secure/keyring.go, keyring_linux.go and info_*.go: the selection among the secure stores.
-- `Opened`, `info_of` and `custom_info` are shared with the root package.
pub mod Overlay
pub mod Opening
pub mod Fallback
use mathlib.Core.List.{foldl}
use common_keyring.Base.{
  String, Bool, true, false, Option, none, some, List, [], ◌∷◌, ◌++◌, ◌==◌, string_eq, ◌&&◌,
  if◌then◌else◌,
}
use common_keyring.Errors.{GoError, invalid_argument, cat, wrap1, Result, ok, err, Action}
use common_keyring.Contract.{Context, context_error, Keyringer, Bytes}
use common_keyring.Contract.Info.{
  Backend, Info, backend_secret_service, backend_kernel_keyring, backend_windows_credential_manager,
  persistence_session, persistence_persistent, host_current, host_windows, interaction_none,
  interaction_possible,
}
use common_keyring.Selection.{
  Opener, Registry, Selection, selected, failed, is_cons, select_backend,
}
use common_keyring.Keyring.{
  Opened, opened, refused, unselected, from_selection, info_of, custom_info,
}

-- `Option`
pub record Options (W : Type 0) : Type 0 where
  pub service : String
  pub keyringer : Option (Keyringer W)
  pub backends : List Backend

-- The `Get` method of the interface `initializer`, which `init` chooses for the build.
abbrev pub Getter : Type 0 → Type 0
Getter W = Context W → Options W → W → Opened W × W

-- The operations of the package `native`.
pub record Native (W : Type 0) : Type 0 where
  pub get : Context W → String → String → Action W Bytes
  pub set : Context W → String → String → Bytes → Action W (Unit {0})
  pub delete : Context W → String → String → Action W (Unit {0})

-- `NewKeyring` and the methods of `Keyring`
unfoldable pub native_keyring : {W : Type 0} → Native W → String → Keyringer W
native_keyring n service = record {
  get = λ ctx username. n.get ctx service username;
  set = λ ctx username password. n.set ctx service username password;
  delete = λ ctx username. n.delete ctx service username;
}

-- `nativeBackendInfo` and `nativeBackendSupported` of one build
pub record Build : Type 0 where
  pub native_info : Info
  pub native_supported : Bool

unfoldable pub default_order : {W : Type 0} → Build → Options W → List Backend
default_order build o =
    if is_cons o.backends
    then o.backends
    else if build.native_supported
    then build.native_info.backend ∷ []
    else []

unfoldable pub open_default : {W : Type 0} → Native W → Build → String → Opener W (Keyringer W)
unfolding native_keyring
open_default n build service ctx w = (ok (native_keyring n service, build.native_info), w)

unfoldable pub default_registry :
    {W : Type 0} → Native W → Build → String → Registry W (Keyringer W)
unfolding open_default
default_registry n build service b =
    if build.native_supported && (b == build.native_info.backend)
    then some (open_default n build service)
    else none

-- `defaultGetter`, of the builds other than linux
unfoldable pub default_getter : {W : Type 0} → Native W → Build → Getter W
unfolding default_order default_registry from_selection
default_getter n build ctx o w =
    from_selection
      (select_backend ctx (default_order build o) (default_registry n build o.service) w)

-- What keyring_linux.go calls: `dbus.Probe`, `Open` of the kernel keyring, `wsl2.IsWSL2` and
-- `wsl2.New`.
pub record Linux (W : Type 0) : Type 0 where
  pub native : Native W
  pub probe_secret_service : Context W → Action W (Unit {0})
  pub open_kernel_keyring : String → Action W (Keyringer W)
  pub initialize_wsl2 : Context W → String → Action W (Keyringer W)
  pub is_wsl2 : W → Bool × W

abbrev pub wsl2_info : Info
wsl2_info =
    info_of backend_windows_credential_manager persistence_persistent host_windows interaction_none

abbrev pub secret_service_info : Info
secret_service_info =
    info_of backend_secret_service persistence_persistent host_current interaction_possible

abbrev pub kernel_info : Info
kernel_info = info_of backend_kernel_keyring persistence_session host_current interaction_none

-- An opened keyring with its description, or the error of opening it.
unfoldable pub described :
    {W : Type 0} → Info → Result (Keyringer W) × W → Result (Keyringer W × Info) × W
described info (ok k, w) = (ok (k, info), w)
described info (err e, w) = (err e, w)

module _ {W : Type 0} (l : Linux W) where
  unfoldable pub open_wsl2 : String → Opener W (Keyringer W)
  unfolding described
  open_wsl2 service ctx w = described wsl2_info (l.initialize_wsl2 ctx service w)

  unfoldable pub open_secret_service : String → Opener W (Keyringer W)
  unfolding native_keyring
  open_secret_service service ctx w =
      let (result, w') = l.probe_secret_service ctx w in
      (
        elim result [
          | ok _ ↦ ok (native_keyring l.native service, secret_service_info)
          | err e ↦ err e
        ],
        w',
      )

  unfoldable pub open_kernel : String → Opener W (Keyringer W)
  unfolding described
  open_kernel service ctx w = described kernel_info (l.open_kernel_keyring service w)

  -- The map `registry` of `linuxGetter`.
  unfoldable pub linux_registry : String → Registry W (Keyringer W)
  unfolding open_wsl2 open_secret_service open_kernel
  linux_registry service b =
      if b == backend_windows_credential_manager
      then some (open_wsl2 service)
      else if b == backend_secret_service
      then some (open_secret_service service)
      else if b == backend_kernel_keyring
      then some (open_kernel service)
      else none

  -- The order of `linuxGetter` when the options give none; it asks first whether this is WSL2.
  unfoldable pub linux_order : Options W → W → List Backend × W
  linux_order o w =
      if is_cons o.backends
      then (o.backends, w)
      else let (wsl2, w') = l.is_wsl2 w in
        (
          (if wsl2 then backend_windows_credential_manager ∷ [] else [])
              ++ backend_secret_service ∷ backend_kernel_keyring ∷ [],
          w',
        )

  -- `linuxGetter`
  unfoldable pub linux_getter : Getter W
  unfolding linux_order linux_registry from_selection
  linux_getter ctx o w =
      let (order, w') = linux_order o w in
      from_selection (select_backend ctx order (linux_registry o.service) w')

module _ {W : Type 0} where
  abbrev pub no_options : Options W
  no_options = record { service = ""; keyringer = none; backends = [] }

  -- The body of the loop of `mergeOptions`.
  unfoldable pub overlay : Options W → Options W → Options W
  overlay merged o = record {
    service = if o.service == "" then merged.service else o.service;
    keyringer = elim o.keyringer [ none ↦ merged.keyringer | some k ↦ some k ];
    backends = if is_cons o.backends then o.backends else merged.backends;
  }

  -- `mergeOptions`
  unfoldable pub merge_options : List (Options W) → Options W
  unfolding overlay
  merge_options = foldl overlay no_options

  -- `Open` after the options are merged.
  unfoldable pub open_merged : Getter W → Context W → Options W → W → Opened W × W
  open_merged getter ctx o w = elim o.keyringer [
    | some k ↦ (opened k custom_info, w)
    | none ↦
        if o.service == ""
        then (refused (wrap1 "service is empty" (cat invalid_argument)), w)
        else getter ctx o w
  ]

  -- `Open`
  unfoldable pub open_keyring : Getter W → Context W → List (Options W) → W → Opened W × W
  unfolding open_merged merge_options
  open_keyring getter ctx options w = elim (context_error ctx w) [
    | some e ↦ (refused e, w)
    | none ↦ open_merged getter ctx (merge_options options) w
  ]
