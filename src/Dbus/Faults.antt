-- ===== src/Dbus/Faults.antt =====
-- internal/backend/dbus/errors.go: the errors of the Secret Service in the portable model.
use common_keyring.Base.{
  String, Bool, ◌||◌, Option, none, some, List, [], ◌∷◌, any, ◌==◌, string_eq, if◌then◌else◌,
}
use common_keyring.Errors.{
  GoError, Errors, leaf, plain, bus, wrap, nil, cons, Category, category, not_found,
  invalid_argument, value_too_large, backend_unavailable, backend_locked, interaction_required,
  permission_denied, timeout, unsupported, backend_failure, cat, wrap1, wrap2, is, Action,
}
use common_keyring.Contract.{portable_context}
use common_keyring.Filesystem.Steps.{on_error}
use common_keyring.Dbus.{Bus}

-- The name of the first `godbus.Error`, as `errors.AsType` finds it.
abbrev pub first_name : Option String → Option String → Option String
first_name (some name) other = some name
first_name none other = other

unfoldable mutual
  pub as_bus : GoError → Option String
  as_bus (leaf s) = none
  as_bus (plain text) = none
  as_bus (bus name) = some name
  as_bus (wrap text es) = as_bus_any es

  pub as_bus_any : Errors → Option String
  as_bus_any nil = none
  as_bus_any (cons e es) = first_name (as_bus e) (as_bus_any es)

-- The switch of `backendError`.
unfoldable pub name_category : String → Category
name_category name =
    if name == "org.freedesktop.DBus.Error.ServiceUnknown"
      || name == "org.freedesktop.DBus.Error.NameHasNoOwner"
    then backend_unavailable
    else if name == "org.freedesktop.DBus.Error.AccessDenied"
        || name == "org.freedesktop.DBus.Error.AuthFailed"
    then permission_denied
    else if name == "org.freedesktop.DBus.Error.NoReply"
        || name == "org.freedesktop.DBus.Error.Timeout"
    then timeout
    else if name == "org.freedesktop.Secret.Error.IsLocked"
    then backend_locked
    else if name == "org.freedesktop.Secret.Error.NoSuchObject"
    then not_found
    else if name == "org.freedesktop.DBus.Error.InteractiveAuthorizationRequired"
    then interaction_required
    else if name == "org.freedesktop.DBus.Error.LimitsExceeded"
    then value_too_large
    else backend_failure

unfoldable pub bus_category : Option String → Category
unfolding name_category
bus_category none = backend_failure
bus_category (some name) = name_category name

-- The categories that `backendError` leaves as they are.
abbrev pub kept_categories : List Category
kept_categories =
    not_found ∷ invalid_argument ∷ value_too_large ∷ backend_unavailable ∷ backend_locked
    ∷ interaction_required ∷ permission_denied ∷ timeout ∷ unsupported ∷ backend_failure ∷ []

unfoldable pub is_kept : GoError → Bool
is_kept e = any (λ c. is e (category c)) kept_categories

-- `backendError` behind the check of the context.
unfoldable pub categorised : String → GoError → GoError
unfolding is_kept as_bus bus_category
categorised operation e =
    if is_kept e then wrap1 operation e else wrap2 operation (cat (bus_category (as_bus e))) e

abbrev pub context_or : Option GoError → GoError → GoError
context_or (some c) e = c
context_or none e = e

abbrev pub nil_context : GoError
nil_context = wrap1 "context is nil" (cat invalid_argument)

module _ {W K : Type 0} (b : Bus W K) where
  -- `contextError`
  unfoldable pub context_error : Option K → W → Option GoError
  unfolding portable_context
  context_error none w = some nil_context
  context_error (some k) w = portable_context (b.context_err k w)

  -- `backendError` with a context that is not nil
  unfoldable pub backend_error : K → String → GoError → W → GoError
  unfolding context_error categorised
  backend_error k operation e w = context_or (context_error (some k) w) (categorised operation e)

  -- A call on the bus whose error goes through `backendError`.
  unfoldable pub calling : {A : Type 0} → K → String → Action W A → Action W A
  unfolding backend_error
  calling k operation m w =
      let (r, w') = m w in (on_error (λ e. backend_error k operation e w') r, w')
