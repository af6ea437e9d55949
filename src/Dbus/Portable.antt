-- ===== src/Dbus/Portable.antt =====
-- The errors of internal/backend/dbus/errors.go in the portable model, and what selection makes of
-- them.
use common_keyring.Base.{
  String, Bool, true, false, Option, none, some, ◌≡◌, refl, arith, Bool-cases, ◌⊎◌, inl, inr,
}
use common_keyring.Errors.{
  GoError, Sentinel, Category, insecure_fallback, cat, wrap1, wrap2, is, same,
}
use common_keyring.Dbus.{Bus}
use common_keyring.Dbus.Faults.{
  is_kept, name_category, bus_category, as_bus, categorised, context_or, backend_error,
  context_error,
}

-- The categories that the name of an error of the bus stands for.
abbrev is_listed : Category → Bool
is_listed insecure_fallback = false
is_listed c = true

is_listed-kept :
    (c : Category) (text : String) (e : GoError)
    → is_listed c ≡ true
    → is_kept (wrap2 text (cat c) e) ≡ true
unfolding is_kept is same
is_listed-kept c text e h = ground arith

name_category-listed : (name : String) → is_listed (name_category name) ≡ true
unfolding name_category
name_category-listed name = ground arith

bus_category-listed : (name : Option String) → is_listed (bus_category name) ≡ true
unfolding bus_category
bus_category-listed none = refl
bus_category-listed (some name) = name_category-listed name

wrap1-kept : (text : String) (e : GoError) → is_kept e ≡ true → is_kept (wrap1 text e) ≡ true
unfolding is_kept is
wrap1-kept text e h = ground arith

-- An error matches a category of the backend and all that another one matched.
pub record IsPortable (e e' : GoError) : Type 0 where
  pub classified : is_kept e' ≡ true
  pub kept : (t : Sentinel) → is e t ≡ true → is e' t ≡ true

categorised-IsPortable : (operation : String) (e : GoError) → IsPortable e (categorised operation e)
unfolding categorised is
categorised-IsPortable operation e = elim (Bool-cases (is_kept e)) [
  | inl k ↦ rw k (record { classified = wrap1-kept operation e k; kept = λ t h. ground arith })
  | inr k ↦ rw k (record {
    classified = is_listed-kept _ operation e (bus_category-listed (as_bus e));
    kept = λ t h. ground arith;
  })
]

context_or-cases :
    (c : Option GoError) (operation : String) (e : GoError)
    → (c ≡ some (context_or c (categorised operation e)))
      ⊎ ((c ≡ none) × IsPortable e (context_or c (categorised operation e)))
context_or-cases none operation e = inr (refl, categorised-IsPortable operation e)
context_or-cases (some d) operation e = inl refl

-- What `backendError` returns is the error of the context, if that has one, and otherwise an error
-- that matches one of the ten categories of the backend and all that the error of the bus matched.
pub backend_error-IsPortable :
    {W K : Type 0} (b : Bus W K) (k : K) (operation : String) (e : GoError) (w : W)
    → (context_error b (some k) w ≡ some (backend_error b k operation e w))
      ⊎ ((context_error b (some k) w ≡ none) × IsPortable e (backend_error b k operation e w))
unfolding backend_error
backend_error-IsPortable b k operation e w =
    context_or-cases (context_error b (some k) w) operation e
