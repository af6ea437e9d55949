-- ===== src/Keyring/Overlay.antt =====
-- `mergeOptions` of types.go.
use mathlib.Core.Option.{or_else, get_or}
use mathlib.Core.List.{foldl}
use common_keyring.Base.{
  String, Bool, true, false, not, Option, none, some, List, [], ◌∷◌, ◌==◌, string_eq, map, ◌≡◌,
  refl, sym, ◌∙◌, arith, if◌then◌else◌,
}
use common_keyring.Selection.{is_cons}
use common_keyring.Keyring.{Options, no_options, overlay, merge_options}

-- The last item of a list that a test accepts.
pub last_such {ℓ} : {A : Type ℓ} → (A → Bool) → List A → Option A
last_such p [] = none
last_such p (x ∷ xs) = or_else (last_such p xs) (if p x then some x else none)

abbrev pub is_set : String → Bool
is_set s = not (s == "")

abbrev pub is_given {ℓ} : {A : Type ℓ} → Option A → Bool
is_given none = false
is_given (some a) = true

last_such-cons {ℓ} :
    {A : Type ℓ} (p : A → Bool) (x : A) (xs : List A) (d : A)
    → get_or (last_such p (x ∷ xs)) d ≡ get_or (last_such p xs) (if p x then x else d)
unfolding last_such or_else
last_such-cons p x xs d = ground arith

-- A fold whose step overwrites a field by every value that the test accepts.
pub foldl-field {ℓ κ} :
    {A : Type ℓ} {B : Type κ} (field : A → B) (p : B → Bool) (step : A → A → A)
    → ((m o : A) → field (step m o) ≡ (if p (field o) then field o else field m))
    → (m : A) (os : List A)
    → field (foldl step m os) ≡ get_or (last_such p (map field os)) (field m)
unfolding last_such
foldl-field field p step h m [] = refl
foldl-field field p step h m (o ∷ os) =
    foldl-field field p step h (step m o) os
    ∙ rw h (sym (last_such-cons p (field o) (map field os) (field m)))

-- Each field of the merged options is the last non-empty service, the last non-nil keyringer, the
-- last non-empty fallback directory and the last non-empty backend order among the options, or
-- the zero value where no option sets it.
merge_options-last :
    {W : Type 0} (os : List (Options W))
    → ((merge_options os).service ≡ get_or (last_such is_set (map (λ o. o.service) os)) "")
      × ((merge_options os).keyringer
          ≡ get_or (last_such is_given (map (λ o. o.keyringer) os)) none)
      × ((merge_options os).fallback_dir
          ≡ get_or (last_such is_set (map (λ o. o.fallback_dir) os)) "")
      × ((merge_options os).backends ≡ get_or (last_such is_cons (map (λ o. o.backends) os)) [])
unfolding merge_options
merge_options-last {W} os = (
  foldl-field (λ o. o.service) is_set overlay (λ m o. ground arith) no_options os,
  foldl-field (λ o. o.keyringer) is_given overlay (λ m o. ground arith) no_options os,
  foldl-field (λ o. o.fallback_dir) is_set overlay (λ m o. ground arith) no_options os,
  foldl-field (λ o. o.backends) is_cons overlay (λ m o. refl) no_options os,
)
