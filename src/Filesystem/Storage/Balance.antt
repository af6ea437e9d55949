-- ===== src/Filesystem/Storage/Balance.antt =====
-- The descriptors that an action opens and closes, counted in its trace: one rule for each way to
-- build an action.
use common_keyring.Base.{ℕ, ◌+◌, List, [], ◌∷◌, ◌==◌, nat_eq, ◌≡◌, refl, arith, if◌then◌else◌}
use common_keyring.Errors.{GoError, Result, ok, err, Action}
use common_keyring.Filesystem.Steps.{continue, ◌>>=◌, relabel, finally, on_error}
use common_keyring.Filesystem.Storage.Traces.{Event, opened, closed, Traced}

abbrev pub one_if : ℕ → ℕ → ℕ
one_if d n = if d == n then 1 else 0

-- How often a descriptor was opened, and closed.
unfoldable pub opens : ℕ → List Event → ℕ
opens n [] = 0
opens n (opened d ∷ es) = one_if d n + opens n es
opens n (_ ∷ es) = opens n es

unfoldable pub closes : ℕ → List Event → ℕ
closes n [] = 0
closes n (closed d ∷ es) = one_if d n + closes n es
closes n (_ ∷ es) = closes n es

-- What a result holds of a descriptor, given what a value holds.
abbrev pub gain {ℓ} : {A : Type ℓ} → (A → ℕ → ℕ) → Result A → ℕ → ℕ
gain g (ok a) n = g a n
gain g (err e) n = 0

abbrev pub nothing {ℓ} : {A : Type ℓ} → A → ℕ → ℕ
nothing a n = 0

pub nothing-gain : {A : Type 0} (r : Result A) (n : ℕ) → gain nothing r n ≡ 0
nothing-gain (ok a) n = refl
nothing-gain (err e) n = refl

relabel-gain :
    {A : Type 0} (f : GoError → GoError) (r : Result A) (n : ℕ)
    → gain nothing (on_error f r) n ≡ gain nothing r n
relabel-gain f (ok a) n = refl
relabel-gain f (err e) n = refl

on_error-held :
    (f : GoError → GoError) (r : Result ℕ) (n : ℕ) → gain one_if (on_error f r) n ≡ gain one_if r n
on_error-held f (ok d) n = refl
on_error-held f (err e) n = refl

module _ {W : Type 0} where
  -- Between two traces, the opened descriptors less the closed ones are `held`.
  abbrev pub Balance : (ℕ → ℕ) → Traced W → Traced W → Type 0
  Balance held s s' = (n : ℕ) → opens n s'.1 + closes n s.1 ≡ closes n s'.1 + opens n s.1 + held n

  pub record Gains {A : Type 0} (g : A → ℕ → ℕ) (m : Action (Traced W) A) : Type 0 where
    pub at : (s : Traced W) → Balance (gain g (m s).0) s (m s).1

  -- The action closes this descriptor and touches no other.
  pub record Frees {A : Type 0} (d : ℕ) (m : Action (Traced W) A) : Type 0 where
    pub at :
        (s : Traced W) (n : ℕ)
        → opens n (m s).1.1 + closes n s.1 + one_if d n ≡ closes n (m s).1.1 + opens n s.1

  module _ {A B : Type 0} (h : B → ℕ → ℕ) where
    continue-Balance :
        (r : Result A) (f : A → Action (Traced W) B) (s s1 : Traced W)
        → ((a : A) → Gains h (f a))
        → Balance (λ _. 0) s s1
        → Balance (gain h (continue r f s1).0) s (continue r f s1).1
    continue-Balance (ok a) f s s1 y p n = omega (arith, p n, (y a).at s1 n)
    continue-Balance (err e) f s s1 y p n = omega (arith, p n)

  pub Gains-bind :
      {A B : Type 0} (h : B → ℕ → ℕ) (m : Action (Traced W) A) (f : A → Action (Traced W) B)
      → Gains nothing m
      → ((a : A) → Gains h (f a))
      → Gains h (m >>= f)
  unfolding ◌>>=◌
  Gains-bind h m f x y = record {
    at = λ s.
        continue-Balance h (m s).0 f s (m s).1 y
          (λ n. omega (arith, x.at s n, nothing-gain (m s).0 n));
  }

  bracket-Balance :
      {B : Type 0} (h : B → ℕ → ℕ) (r : Result ℕ) (body : ℕ → Action (Traced W) B)
      (close : ℕ → Action (Traced W) (Unit {0})) (s s1 : Traced W)
      → ((d : ℕ) → Gains h (body d))
      → ((d : ℕ) → Frees d (close d))
      → Balance (gain one_if r) s s1
      → Balance
          (gain h (continue r (λ d. finally (body d) (close d)) s1).0)
          s
          (continue r (λ d. finally (body d) (close d)) s1).1
  unfolding finally
  bracket-Balance h (ok d) body close s s1 y z p n =
      omega (arith, p n, (y d).at s1 n, (z d).at (body d s1).1 n)
  bracket-Balance h (err e) body close s s1 y z p n = omega (arith, p n)

  -- Opening, working and closing by `defer`.
  pub Gains-bracket :
      {B : Type 0} (h : B → ℕ → ℕ) (m : Action (Traced W) ℕ) (body : ℕ → Action (Traced W) B)
      (close : ℕ → Action (Traced W) (Unit {0}))
      → Gains one_if m
      → ((d : ℕ) → Gains h (body d))
      → ((d : ℕ) → Frees d (close d))
      → Gains h (m >>= λ d. finally (body d) (close d))
  unfolding ◌>>=◌
  Gains-bracket h m body close x y z = record {
    at = λ s. bracket-Balance h (m s).0 body close s (m s).1 y z (x.at s);
  }

  use-Balance :
      {B : Type 0} (h : B → ℕ → ℕ) (r : Result ℕ) (body : ℕ → Action (Traced W) B) (s s1 : Traced W)
      → ((d : ℕ) (t : Traced W) (n : ℕ)
          → opens n (body d t).1.1 + closes n t.1 + one_if d n
            ≡ closes n (body d t).1.1 + opens n t.1 + gain h (body d t).0 n)
      → Balance (gain one_if r) s s1
      → Balance (gain h (continue r body s1).0) s (continue r body s1).1
  use-Balance h (ok d) body s s1 y p n = omega (arith, p n, y d s1 n)
  use-Balance h (err e) body s s1 y p n = omega (arith, p n)

  -- Opening and handing the descriptor to an action that disposes of it or hands it on.
  pub Gains-use :
      {B : Type 0} (h : B → ℕ → ℕ) (m : Action (Traced W) ℕ) (body : ℕ → Action (Traced W) B)
      → Gains one_if m
      → ((d : ℕ) (t : Traced W) (n : ℕ)
          → opens n (body d t).1.1 + closes n t.1 + one_if d n
            ≡ closes n (body d t).1.1 + opens n t.1 + gain h (body d t).0 n)
      → Gains h (m >>= body)
  unfolding ◌>>=◌
  Gains-use h m body x y = record { at = λ s. use-Balance h (m s).0 body s (m s).1 y (x.at s) }

  pub Gains-relabel :
      {A : Type 0} (f : GoError → GoError) (m : Action (Traced W) A)
      → Gains nothing m
      → Gains nothing (relabel f m)
  unfolding relabel
  Gains-relabel f m x = record { at = λ s n. omega (arith, x.at s n, relabel-gain f (m s).0 n) }

  pub Gains-return : {A : Type 0} (f : Traced W → Result A) → Gains nothing (λ s. (f s, s))
  Gains-return f = record { at = λ s n. omega (arith, nothing-gain (f s) n) }

  -- An action whose result, error or not, the next one is given.
  pub Gains-handle :
      {A B : Type 0} (h : B → ℕ → ℕ) (m : Action (Traced W) A) (f : Result A → Action (Traced W) B)
      → Gains nothing m
      → ((r : Result A) → Gains h (f r))
      → Gains h (λ s. f (m s).0 (m s).1)
  Gains-handle h m f x y = record {
    at = λ s n. omega (arith, x.at s n, nothing-gain (m s).0 n, (y (m s).0).at (m s).1 n);
  }

  pub Frees-handle :
      {A B : Type 0} (d : ℕ) (m : Action (Traced W) A) (f : Result A → Action (Traced W) B)
      → Gains nothing m
      → ((r : Result A) → Frees d (f r))
      → Frees d (λ s. f (m s).0 (m s).1)
  Frees-handle d m f x y = record {
    at = λ s n. omega (arith, x.at s n, nothing-gain (m s).0 n, (y (m s).0).at (m s).1 n);
  }

  pub Frees-first :
      {A B : Type 0} (d : ℕ) (m : Action (Traced W) A) (f : Result A → Action (Traced W) B)
      → Frees d m
      → ((r : Result A) → Gains nothing (f r))
      → Frees d (λ s. f (m s).0 (m s).1)
  Frees-first d m f x y = record {
    at = λ s n.
        omega (arith, x.at s n, (y (m s).0).at (m s).1 n, nothing-gain (f (m s).0 (m s).1).0 n);
  }

  spend-Balance :
      {A B : Type 0} (slot : A → ℕ) (r : Result A) (f : A → Action (Traced W) B) (s s1 : Traced W)
      → ((a : A) → Frees (slot a) (f a))
      → Balance (gain (λ a. one_if (slot a)) r) s s1
      → Balance (gain nothing (continue r f s1).0) s (continue r f s1).1
  spend-Balance slot (ok a) f s s1 y p n =
      omega (arith, p n, (y a).at s1 n, nothing-gain (f a s1).0 n)
  spend-Balance slot (err e) f s s1 y p n = omega (arith, p n)

  -- Opening a descriptor and handing it to an action that closes it.
  pub Gains-spend :
      {A B : Type 0} (slot : A → ℕ) (m : Action (Traced W) A) (f : A → Action (Traced W) B)
      → Gains (λ a. one_if (slot a)) m
      → ((a : A) → Frees (slot a) (f a))
      → Gains nothing (m >>= f)
  unfolding ◌>>=◌
  Gains-spend slot m f x y = record { at = λ s. spend-Balance slot (m s).0 f s (m s).1 y (x.at s) }

  pub relabel-held :
      (f : GoError → GoError) (m : Action (Traced W) ℕ)
      → Gains one_if m
      → Gains one_if (relabel f m)
  unfolding relabel
  relabel-held f m x = record { at = λ s n. omega (arith, x.at s n, on_error-held f (m s).0 n) }
