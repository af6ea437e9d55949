-- ===== src/Errors/Matching.antt =====
-- `errors.Is` with an arbitrary error as its target, and laws of `errors.Is`.
use mathlib.Core.Path.{ap₂, subst}
use common_keyring.Base.{
  String, Bool, true, false, ◌||◌, ◌&&◌, ◌≡◌, refl, sym, ap, ◌<◌, ◌≤◌, ◌==◌, string_eq, arith,
  eq_iff, inl, inr, and-true, or-true, or-true_left, or-true_right,
}
use common_keyring.Errors.{
  Category, Bridge, canceled, Sentinel, GoError, cat, wrap2, leaf, plain, bus, wrap, Errors, nil,
  cons, same, errno_is, is, is_any, category_code, bridge_code, category, bridge, errno,
  fs_not_exist, fs_exist, fs_permission,
}

-- Go compares two wrapped errors by their addresses, and the model by their contents.
unfoldable mutual
  pub equal_errors : GoError → GoError → Bool
  equal_errors (leaf s) (leaf t) = same s t
  equal_errors (plain a) (plain b) = a == b
  equal_errors (bus a) (bus b) = a == b
  equal_errors (wrap a es) (wrap b fs) = a == b && equal_lists es fs
  equal_errors d e = false

  pub equal_lists : Errors → Errors → Bool
  equal_lists nil nil = true
  equal_lists (cons d ds) (cons e es) = equal_errors d e && equal_lists ds es
  equal_lists ds es = false

-- The comparison that `errors.Is` makes at one node of the tree.
unfoldable pub meets : GoError → GoError → Bool
unfolding equal_errors
meets (leaf s) (leaf t) = same s t || errno_is s t
meets d e = equal_errors d e

-- `errors.Is(err, target)`
unfoldable mutual
  unfolding meets

  pub matches : GoError → GoError → Bool
  matches (leaf s) t = meets (leaf s) t
  matches (plain a) t = meets (plain a) t
  matches (bus a) t = meets (bus a) t
  matches (wrap a es) t = meets (wrap a es) t || matches_any es t

  pub matches_any : Errors → GoError → Bool
  matches_any nil t = false
  matches_any (cons e es) t = matches e t || matches_any es t

category_code-injective : (c d : Category) → category_code c ≡ category_code d → c ≡ d
unfolding category_code
category_code-injective c d h = ground arith

bridge_code-injective : (c d : Bridge) → bridge_code c ≡ bridge_code d → c ≡ d
unfolding bridge_code
bridge_code-injective c d h = ground arith

code-below : (c : Category) → category_code c < 20
unfolding category_code
code-below c = ground arith

bridge_code-range : (b : Bridge) → (20 ≤ bridge_code b) × (bridge_code b < 40)
unfolding bridge_code
bridge_code-range b = ground arith

-- A sentinel of the helper is none of the contract and no cancellation.
pub same-bridge_category : (b : Bridge) (c : Category) → same (bridge b) (category c) ≡ false
unfolding same
same-bridge_category b c = ground (arith, code-below c, bridge_code-range b)

pub same-bridge_canceled : (b : Bridge) → same (bridge b) canceled ≡ false
unfolding same
same-bridge_canceled b = ground (arith, bridge_code-range b)

same-eq : (s t : Sentinel) → same s t ≡ true → s ≡ t
unfolding same
same-eq (category c) (category d) h = cc (category_code-injective c d (ground arith))
same-eq (bridge b) (bridge c) h = cc (bridge_code-injective b c (ground arith))
same-eq (category c) (bridge d) h = ground (arith, code-below c, bridge_code-range d)
same-eq (bridge d) (category c) h = ground (arith, code-below c, bridge_code-range d)
same-eq (category c) _ h = ground (arith, code-below c)
same-eq (bridge b) _ h = ground (arith, bridge_code-range b)
same-eq s (category c) h = ground (arith, code-below c)
same-eq s (bridge b) h = ground (arith, bridge_code-range b)
same-eq s t h = ground arith

mutual
  unfolding equal_errors

  equal_errors-eq : (d e : GoError) → equal_errors d e ≡ true → d ≡ e
  equal_errors-eq (leaf s) (leaf t) h = ap leaf (same-eq s t h)
  equal_errors-eq (plain a) (plain b) h = ap plain ((eq_iff a b).0 h)
  equal_errors-eq (bus a) (bus b) h = ap bus ((eq_iff a b).0 h)
  equal_errors-eq (wrap a es) (wrap b fs) h =
      let (p, q) = and-true (a == b) (equal_lists es fs) h in
      ap₂ wrap ((eq_iff a b).0 p) (equal_lists-eq es fs q)
  equal_errors-eq _ _ h = cc

  equal_lists-eq : (ds es : Errors) → equal_lists ds es ≡ true → ds ≡ es
  equal_lists-eq nil nil h = refl
  equal_lists-eq (cons d ds) (cons e es) h =
      let (p, q) = and-true (equal_errors d e) (equal_lists ds es) h in
      ap₂ cons (equal_errors-eq d e p) (equal_lists-eq ds es q)
  equal_lists-eq _ _ h = cc

-- The file error that an error number stands for is a plain sentinel.
errno_is-fs : (s t u : Sentinel) → errno_is s t ≡ true → errno_is t u ≡ false
unfolding errno_is
errno_is-fs (errno n) fs_permission u h = refl
errno_is-fs (errno n) fs_exist u h = refl
errno_is-fs (errno n) fs_not_exist u h = refl
errno_is-fs _ _ u h = cc

sentinel-is :
    (s t u : Sentinel)
    → (same s t || errno_is s t) ≡ true
    → (same t u || errno_is t u) ≡ true
    → (same s u || errno_is s u) ≡ true
sentinel-is s t u h k = elim (or-true _ _ h) [
  | inl e ↦ rw (same-eq s t e) k
  | inr i ↦ elim (or-true _ _ k) [
    | inl e ↦ rw (← same-eq t u e) (or-true_right _ _ i)
    | inr j ↦ cc (errno_is-fs s t u i)
  ]
]

meets-is : (d t : GoError) (u : Sentinel) → meets d t ≡ true → is t u ≡ true → is d u ≡ true
unfolding meets is
meets-is (leaf s) (leaf t) u h k = sentinel-is s t u h k
meets-is (leaf s) t u h k = subst (λ e. is e u ≡ true) (sym (equal_errors-eq (leaf s) t h)) k
meets-is d t u h k = subst (λ e. is e u ≡ true) (sym (equal_errors-eq d t h)) k

mutual
  unfolding matches is

  matches-is_lem :
      (e t : GoError) (u : Sentinel) → matches e t ≡ true → is t u ≡ true → is e u ≡ true
  matches-is_lem (wrap a es) t u h k = elim (or-true _ _ h) [
    | inl m ↦ meets-is (wrap a es) t u m k
    | inr m ↦ matches_any-is_any es t u m k
  ]
  matches-is_lem (leaf s) t u h k = meets-is (leaf s) t u h k
  matches-is_lem (plain s) t u h k = meets-is (plain s) t u h k
  matches-is_lem (bus s) t u h k = meets-is (bus s) t u h k

  matches_any-is_any :
      (es : Errors) (t : GoError) (u : Sentinel)
      → matches_any es t ≡ true
      → is t u ≡ true
      → is_any es u ≡ true
  matches_any-is_any nil t u h k = h
  matches_any-is_any (cons e es) t u h k = elim (or-true _ _ h) [
    | inl m ↦ or-true_left _ _ (matches-is_lem e t u m k)
    | inr m ↦ or-true_right _ _ (matches_any-is_any es t u m k)
  ]

-- What matches an error matches whatever that error matches.
pub is-matches : (e t : GoError) (u : Sentinel) → matches e t ≡ true → is t u ≡ true → is e u ≡ true
is-matches e t u h k = matches-is_lem e t u h k

pub is-wrap2 :
    (text : String) (d e : GoError) (t : Sentinel) → is (wrap2 text d e) t ≡ (is d t || is e t)
unfolding is
is-wrap2 text d e t = ground arith

pub is-cat : (c : Category) (t : Sentinel) → is (cat c) t ≡ same (category c) t
unfolding is errno_is
is-cat c t = ground arith
