-- ===== src/Tests/Selecting.antt =====
-- Concrete uses of what is shown of internal/selection, internal/contract and the root package.
use common_keyring.Base.{
  ℕ, ◌+◌, true, none, some, List, [], ◌∷◌, ◌==◌, string_eq, any, ◌||◌, ◌≡◌, ◌↔◌, refl,
  if◌then◌else◌,
}
use common_keyring.Errors.{category, backend_unavailable, unsupported, timeout, cat, is, ok, err}
use common_keyring.Contract.{Context, context_error, Keyringer}
use common_keyring.Contract.Info.{Backend, Info, Rejection, backend_secret_service}
use common_keyring.Contract.SelectionErrors.{SelectionError, as_error, option_is, is-as_error}
use common_keyring.Selection.{Registry, selected, not_registered, reject, select_backend}
use common_keyring.Selection.Outcome.{Outcome, select_backend-Outcome}
use common_keyring.Selection.Rejections.{RejectedBefore, rejected-before}
use common_keyring.Keyring.{
  Platform, Options, filesystem_info, custom_info, unix_info, no_options, merge_options,
  open_keyring,
}
use common_keyring.Keyring.Opening.{open_keyring-no_fallback}

abbrev pub calm : Context ℕ
calm = some (λ w. none)

abbrev pub store : Keyringer ℕ
store = record {
  get = λ ctx key w. (ok (1 ∷ 2 ∷ []), w);
  set = λ ctx key contents w. (ok tt, w + 1);
  delete = λ ctx key w. (ok tt, w + 1);
}

abbrev entries : Registry ℕ ℕ
entries b =
    if b == "second"
    then some (λ ctx w. (ok (7, custom_info), w + 1))
    else if b == "first"
    then some (λ ctx w. (err (cat backend_unavailable), w + 1))
    else none

abbrev wanted : List Backend
wanted = "none" ∷ "first" ∷ "second" ∷ "third" ∷ []

abbrev passed : List Rejection
passed = reject "none" not_registered ∷ reject "first" (cat backend_unavailable) ∷ []

abbrev chosen_info : Info
chosen_info = record custom_info { fallback = true; rejected = passed }

selects : select_backend calm wanted entries 0 ≡ (selected 7 chosen_info, 2)
unfolding select_backend context_error is
selects = refl

select_backend-Outcome_example :
    (select_backend calm wanted entries 0 ≡ (selected 7 chosen_info, 2))
    ↔ Outcome calm entries [] wanted 0 (selected 7 chosen_info) 2
select_backend-Outcome_example =
    select_backend-Outcome calm entries wanted 0 (selected 7 chosen_info) 2

rejected-before_example : RejectedBefore calm entries wanted 0 7 chosen_info 2
rejected-before_example = rejected-before calm entries wanted 0 2 7 chosen_info selects

abbrev refusal : SelectionError
refusal = record { rejected = passed; cause = some (cat timeout) }

is-as_error_example : is (as_error refusal) (category unsupported) ≡ (
    option_is refusal.cause (category unsupported)
    || any (λ r. option_is r.err (category unsupported)) refusal.rejected)
is-as_error_example = is-as_error refusal (category unsupported)

-- A platform whose native store cannot be reached.
abbrev platform : Platform ℕ
platform = record {
  native_info = unix_info;
  native_supported = true;
  probe_native = λ ctx w. (err (cat backend_unavailable), w + 1);
  native_get = λ ctx service key w. (ok [], w);
  native_set = λ ctx service key contents w. (ok tt, w);
  native_delete = λ ctx service key w. (ok tt, w);
  open_filesystem = λ dir service w. (ok store, w + 10);
}

abbrev named : Options ℕ
named = record no_options { service = "app" }

abbrev allowed : Options ℕ
allowed = record no_options { fallback_dir = "/secrets" }

abbrev fallen : Info
fallen = record filesystem_info {
  rejected = reject backend_secret_service (cat backend_unavailable) ∷ [];
}

no_directory : (merge_options (named ∷ [])).fallback_dir ≡ ""
unfolding merge_options
no_directory = refl

open_keyring-no_fallback_example :
    open_keyring
      (record platform { open_filesystem = λ dir service w. (err (cat timeout), 99) })
      calm
      (named ∷ [])
      0
    ≡ open_keyring platform calm (named ∷ []) 0
open_keyring-no_fallback_example =
    open_keyring-no_fallback platform (λ dir service w. (err (cat timeout), 99)) calm (named ∷ []) 0
      no_directory
