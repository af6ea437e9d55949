-- ===== src/Filesystem/Steps/Runs.antt =====
-- What is known of the parts of an action that succeeds.
use common_keyring.Base.{◌≡◌, refl, sym, ap, pair-eq}
use common_keyring.Errors.{GoError, Result, ok, err, Action}
use common_keyring.Filesystem.Steps.{continue, ◌>>=◌, on_error, relabel, finally}

pub on_error-ok :
    {A : Type 0} (f : GoError → GoError) (r : Result A) (a : A) → on_error f r ≡ ok a → r ≡ ok a
on_error-ok f (ok b) a h = h
on_error-ok f (err e) a h = cc

module _ {W A : Type 0} where
  pub bind-ok :
      {B : Type 0} (m : Action W A) (f : A → Action W B) (w w' : W) (b : B)
      → (m >>= f) w ≡ (ok b, w')
      → (a : A) × (w1 : W) × (m w ≡ (ok a, w1)) × (f a w1 ≡ (ok b, w'))
  unfolding ◌>>=◌
  bind-ok m f w w' b h = after (m w).0 (m w).1 refl h
    where
      after :
          (r : Result A) (w1 : W)
          → m w ≡ (r, w1)
          → continue r f w1 ≡ (ok b, w')
          → (a : A) × (w2 : W) × (m w ≡ (ok a, w2)) × (f a w2 ≡ (ok b, w'))
      after (ok a) w1 e k = (a, w1, e, k)
      after (err d) w1 e k = cc

  pub relabel-ok :
      (f : GoError → GoError) (m : Action W A) (w w' : W) (a : A)
      → relabel f m w ≡ (ok a, w')
      → m w ≡ (ok a, w')
  unfolding relabel
  relabel-ok f m w w' a h = pair-eq _ (on_error-ok f (m w).0 a (ap (λ p. p.0) h)) (ap (λ p. p.1) h)

  pub finally-ok :
      {B : Type 0} (m : Action W A) (f : Action W B) (w w' : W) (a : A)
      → finally m f w ≡ (ok a, w')
      → (m w ≡ (ok a, (m w).1)) × (w' ≡ (f (m w).1).1)
  unfolding finally
  finally-ok m f w w' a h = (pair-eq _ (ap (λ p. p.0) h) refl, sym (ap (λ p. p.1) h))

module _ {W A B : Type 0} (Q : Result B → W → Type 0) where
  continue-run :
      (r : Result A) (f : A → Action W B) (w1 : W)
      → ((e : GoError) → r ≡ err e → Q (err e) w1)
      → ((a : A) → r ≡ ok a → Q (f a w1).0 (f a w1).1)
      → Q (continue r f w1).0 (continue r f w1).1
  continue-run (ok a) f w1 x y = y a refl
  continue-run (err e) f w1 x y = x e refl

  -- What holds behind a chain of two steps, by the result of the first.
  pub bind-run :
      (m : Action W A) (f : A → Action W B) (w : W)
      → ((e : GoError) → m w ≡ (err e, (m w).1) → Q (err e) (m w).1)
      → ((a : A) → m w ≡ (ok a, (m w).1) → Q (f a (m w).1).0 (f a (m w).1).1)
      → Q ((m >>= f) w).0 ((m >>= f) w).1
  unfolding ◌>>=◌
  bind-run m f w x y =
      continue-run (m w).0 f (m w).1 (λ e h. x e (pair-eq _ h refl)) (λ a h. y a (pair-eq _ h refl))
