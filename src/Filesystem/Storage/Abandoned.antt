-- ===== src/Filesystem/Storage/Abandoned.antt =====
-- A `writeAtomic` of internal/backend/fs/storage_linux.go that is abandoned ends with an error.
use common_keyring.Base.{
  ℕ, String, Bool, true, false, Option, none, some, nat_eq, ◌≡◌, refl, sym, ap, ◌∙◌, Bool-cases,
  inl, inr,
}
use common_keyring.Errors.{GoError, wrap, cons, nil, fs_not_exist, is, Fallible, ok, err}
use common_keyring.Filesystem.Steps.{join, error_of, or_error}
use common_keyring.Filesystem.System.{System}
use common_keyring.Filesystem.Writing.{remove_temporary, with_removal, abandon}

err-ok : {x : GoError} {a : Unit {0}} → err x ≡ ok a → ⊥
err-ok h = cc

with_removal-some :
    (e : GoError) (r : Fallible) → (x : GoError) × (with_removal (some e) r ≡ some x)
unfolding with_removal
with_removal-some e (ok _) = (_, refl)
with_removal-some e (err f) = elim (Bool-cases (is f fs_not_exist)) [
  | inl m ↦ (e, rw m refl)
  | inr m ↦ (wrap "" (cons e (cons f nil)), rw m refl)
]

-- What is left of an error when the temporary file is removed is an error.
removal-fails :
    (e : GoError) (r : Fallible) → or_error (tt {0}) (with_removal (some e) r) ≡ ok tt → ⊥
removal-fails e r h = let (x, s) = with_removal-some e r in err-ok (sym (ap (or_error tt) s) ∙ h)

join-some : (e : GoError) (o : Option GoError) → (x : GoError) × (join (some e) o ≡ some x)
join-some e none = (_, refl)
join-some e (some d) = (_, refl)

module _ {W : Type 0} (system : System W) where
  pub abandon-fails :
      (directory : ℕ) (name : String) (d : ℕ) (b : Bool) (e : GoError) (w w' : W)
      → abandon system directory name d b e w ≡ (ok tt, w')
      → ⊥
  unfolding abandon remove_temporary
  abandon-fails directory name d false e w w' h =
      removal-fails e (system.unlink_at directory name w).0 (ap (λ p. p.0) h)
  abandon-fails directory name d true e w w' h =
      let closed = system.close d w in
      let removed = (system.unlink_at directory name closed.1).0 in
      let (x, s) = join-some e (error_of closed.0) in
      removal-fails x removed
        (ap (λ o. or_error tt (with_removal o removed)) (sym s) ∙ ap (λ p. p.0) h)
