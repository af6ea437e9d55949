-- ===== src/Secure/Overlay.antt =====
-- `mergeOptions` of the package secure.
use mathlib.Core.Option.{get_or}
use common_keyring.Base.{none, List, [], map, ◌≡◌, refl, arith}
use common_keyring.Selection.{is_cons}
use common_keyring.Keyring.Overlay.{last_such, is_set, is_given, foldl-field}
use common_keyring.Secure.{Options, no_options, overlay, merge_options}

-- Each field of the merged options is the last non-empty service, the last non-nil keyringer and
-- the last non-empty backend order among the options, or the zero value where none sets it.
pub merge_options-last_set :
    {W : Type 0} (os : List (Options W))
    → ((merge_options os).service ≡ get_or (last_such is_set (map (λ o. o.service) os)) "")
      × ((merge_options os).keyringer
          ≡ get_or (last_such is_given (map (λ o. o.keyringer) os)) none)
      × ((merge_options os).backends ≡ get_or (last_such is_cons (map (λ o. o.backends) os)) [])
unfolding merge_options
merge_options-last_set {W} os = (
  foldl-field (λ o. o.service) is_set overlay (λ m o. ground arith) no_options os,
  foldl-field (λ o. o.keyringer) is_given overlay (λ m o. ground arith) no_options os,
  foldl-field (λ o. o.backends) is_cons overlay (λ m o. refl) no_options os,
)
