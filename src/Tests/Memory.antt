-- ===== src/Tests/Memory.antt =====
-- Concrete uses of what is shown of secure/fake.
use common_keyring.Base.{String, none, some, [], ◌∷◌, ◌==◌, string_eq, if◌then◌else◌, ◌≡◌, refl}
use common_keyring.Errors.{backend_unavailable, not_found, cat, ok, err}
use common_keyring.Contract.{Context, context_error}
use common_keyring.Fake.{
  Fake, found, same_entry, init, operate, with_errors, entry_of, remove, get, set, delete,
}
use common_keyring.Fake.Stored.{stored, gone_of, operations-stored}

abbrev context : Context Fake
context = some (λ k. none)

-- A keyring that holds the secret of "me".
abbrev filled : Fake
filled = record {
  failure = none;
  service = "";
  storage = some (λ e.
      if same_entry e (record { service = "fake"; username = "me" }) then some (1 ∷ []) else none);
}

abbrev failing : Fake
failing = record filled { failure = some (cat backend_unavailable) }

abbrev me : String
me = "me"

abbrev you : String
you = "you"

no_error : context_error context filled ≡ none
unfolding context_error
no_error = refl

operations-stored_example :
    ((get context "me" filled).0 ≡ found (stored filled "me"))
    × (stored (get context "me" filled).1 "you" ≡ stored filled "you")
    × ((set context "me" (2 ∷ []) filled).0 ≡ ok tt)
    × (stored (set context "me" (2 ∷ []) filled).1 "you"
        ≡ (if you == me then some (2 ∷ []) else stored filled "you"))
    × ((delete context "me" filled).0 ≡ gone_of (stored filled "me"))
    × (stored (delete context "me" filled).1 "you"
        ≡ (if you == me then none else stored filled "you"))
operations-stored_example = operations-stored context filled "me" "you" (2 ∷ []) no_error refl

set_fails : (set context "me" (2 ∷ []) failing).0 ≡ err (cat backend_unavailable)
unfolding set operate with_errors context_error
set_fails = refl

delete_misses : (delete context "you" filled).0 ≡ err (cat not_found)
unfolding delete operate with_errors context_error init entry_of remove
delete_misses = refl
