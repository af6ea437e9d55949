-- ===== src/Selection.antt =====
-- internal/selection/selection.go: the selection of a backend. `K` is the type of the keyrings
-- that the openers return, and `W` the world that the openers and the context read and change.
pub mod Outcome
pub mod Winner
pub mod Rejections
use common_keyring.Base.{
  String, Bool, ◌||◌, not, Option, none, some, List, [], ◌∷◌, ◌++◌, if◌then◌else◌,
}
use common_keyring.Errors.{
  GoError, category, backend_unavailable, unsupported, cat, wrap1, is, Result, ok, err, Action,
}
use common_keyring.Contract.{Context, context_error}
use common_keyring.Contract.Info.{Backend, Info, Rejection}
use common_keyring.Contract.SelectionErrors.{SelectionError}

-- `BackendOpener`
abbrev pub Opener {ℓ} : Type ℓ → Type ℓ → Type ℓ
Opener W K = Context W → Action W (K × Info)

-- A map from backends to openers.
abbrev pub Registry {ℓ} : Type ℓ → Type ℓ → Type ℓ
Registry W K = Backend → Option (Opener W K)

-- The results of `SelectBackend`.
pub data Selection {ℓ} (K : Type ℓ) : Type ℓ where
  selected : K → Info → Selection K
  failed : SelectionError → Selection K

-- `selectionError`
unfoldable pub selection_error : List Rejection → GoError → SelectionError
selection_error rejected cause = record { rejected = rejected; cause = some cause }

-- The test that lets the loop go on after an opener's error.
unfoldable pub permits_fallback : GoError → Bool
permits_fallback e = is e (category backend_unavailable) || is e (category unsupported)

abbrev pub reject : Backend → GoError → Rejection
reject b e = record { backend = b; err = some e }

-- The error of a backend that the registry lacks.
abbrev pub not_registered : GoError
not_registered = wrap1 "backend" (cat unsupported)

-- `len(rejected) != 0`
abbrev pub is_cons {ℓ} : {A : Type ℓ} → List A → Bool
is_cons [] = Bool.false
is_cons (x ∷ xs) = Bool.true

-- The description that is returned with the opened keyring.
unfoldable pub accept : Info → List Rejection → Info
accept info rejected = record info {
  fallback = info.fallback || is_cons rejected;
  rejected = rejected;
}

module _ {ℓ} {W K : Type ℓ} (ctx : Context W) (registry : Registry W K) where
  -- The loop of `SelectBackend`, with the rejections so far.
  unfoldable pub select_loop : List Rejection → List Backend → W → Selection K × W
  unfolding selection_error permits_fallback accept
  select_loop rejected [] w = (failed (selection_error rejected (cat backend_unavailable)), w)
  select_loop rejected (b ∷ order) w = elim (context_error ctx w) [
    | some e ↦ (failed (selection_error rejected e), w)
    | none ↦ elim (registry b) [
      | none ↦ select_loop (rejected ++ reject b not_registered ∷ []) order w
      | some open_backend ↦
          let (result, w') = open_backend ctx w in
          elim result [
            | ok (k, info) ↦ (selected k (accept info rejected), w')
            | err e ↦
                let rejected' = rejected ++ reject b e ∷ [] in
                let rest = select_loop rejected' order w' in
                if permits_fallback e then rest else (failed (selection_error rejected' e), w')
          ]
    ]
  ]

-- `SelectBackend`
unfoldable pub select_backend {ℓ} :
    {W K : Type ℓ} → Context W → List Backend → Registry W K → W → Selection K × W
unfolding select_loop
select_backend ctx order registry w = select_loop ctx registry [] order w
