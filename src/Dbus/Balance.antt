-- ===== src/Dbus/Balance.antt =====
-- What an action acquires and releases, counted in its trace: one rule for each way to build one.
use common_keyring.Base.{
  ℕ, ◌+◌, Bool, false, Option, none, List, [], ◌∷◌, ◌==◌, nat_eq, string_eq, ◌≡◌, refl, arith,
  if◌then◌else◌,
}
use common_keyring.Errors.{GoError, Result, ok, err, Action}
use common_keyring.Filesystem.Steps.{continue, ◌>>=◌, finally, finally_with, error_of}
use common_keyring.Dbus.Client.{is_ended}
use common_keyring.Dbus.Traces.{
  Resource, of_connection, of_channel, of_session, of_match, Event, acquired, released, Traced,
  taking, giving, quiet, on_ok,
}

unfoldable pub same_resource : Resource → Resource → Bool
same_resource (of_connection c) (of_connection d) = c == d
same_resource (of_channel c) (of_channel d) = c == d
same_resource (of_session s) (of_session t) = s == t
same_resource (of_match s) (of_match t) = s == t
same_resource r q = false

abbrev pub one_if : Resource → Resource → ℕ
one_if r q = if same_resource r q then 1 else 0

-- How often a resource was acquired, and released.
unfoldable pub acquires : Resource → List Event → ℕ
acquires r [] = 0
acquires r (acquired q ∷ es) = one_if r q + acquires r es
acquires r (released q ∷ es) = acquires r es

unfoldable pub releases : Resource → List Event → ℕ
releases r [] = 0
releases r (acquired q ∷ es) = releases r es
releases r (released q ∷ es) = one_if r q + releases r es

-- A session need not be closed behind an error of the context.
unfoldable pub excused : Resource → Option GoError → Bool
unfolding is_ended
excused (of_session s) e = is_ended e
excused r e = false

abbrev pub gain : {A : Type 0} → (A → Resource) → Result A → Resource → ℕ
gain f (ok a) r = one_if r (f a)
gain f (err e) r = 0

pub excused-none : (r : Resource) → excused r none ≡ false
unfolding excused is_ended
excused-none (of_connection c) = refl
excused-none (of_channel c) = refl
excused-none (of_session s) = refl
excused-none (of_match s) = refl

on_ok-gain :
    {A : Type 0} (f : A → Resource) (x : Result A) (r : Resource) (es : List Event)
    → acquires r (on_ok x f es) + releases r es
      ≡ releases r (on_ok x f es) + acquires r es + gain f x r
unfolding acquires releases
on_ok-gain f (ok a) r es = omega arith
on_ok-gain f (err e) r es = omega arith

module _ {W : Type 0} where
  -- From one trace to the other, the resource is acquired `m` times more, and released `n` times
  -- more, than it is released and acquired.
  abbrev pub Balance : Resource → ℕ → ℕ → Traced W → Traced W → Type 0
  Balance r m n s s' = acquires r s'.1 + releases r s.1 + n ≡ releases r s'.1 + acquires r s.1 + m

  pub record Exact {A : Type 0} (m : Traced W → A × Traced W) : Type 0 where
    pub at : (r : Resource) (s : Traced W) → Balance r 0 0 s (m s).1

  pub record Takes {A : Type 0} (f : A → Resource) (m : Action (Traced W) A) : Type 0 where
    pub at : (r : Resource) (s : Traced W) → Balance r (gain f (m s).0 r) 0 s (m s).1

  pub record Gives {A : Type 0} (q : Resource) (m : Traced W → A × Traced W) : Type 0 where
    pub at : (r : Resource) (s : Traced W) → Balance r 0 (one_if r q) s (m s).1

  -- The action releases what it acquires, except for a session behind an error of the context.
  pub record Keeps {A : Type 0} (m : Action (Traced W) A) : Type 0 where
    pub at :
        (r : Resource) (s : Traced W)
        → excused r (error_of (m s).0) ≡ false
        → Balance r 0 0 s (m s).1

  -- The same of one that also releases a resource.
  pub record Returns {A : Type 0} (q : Resource) (m : Action (Traced W) A) : Type 0 where
    pub at :
        (r : Resource) (s : Traced W)
        → excused r (error_of (m s).0) ≡ false
        → Balance r 0 (one_if r q) s (m s).1

  -- A deferred function that releases a resource.
  pub record Closes {A : Type 0} (q : Resource) (f : Result A → Action (Traced W) A) : Type 0 where
    pub at :
        (r : Resource) (x : Result A) (s : Traced W)
        → excused r (error_of (f x s).0) ≡ false
        → (excused r (error_of x) ≡ false) × Balance r 0 (one_if r q) s (f x s).1

  pub quiet-Exact : {A : Type 0} (m : W → A × W) → Exact (quiet m)
  quiet-Exact m = record { at = λ r s. omega arith }

  pub giving-Gives : {A : Type 0} (q : Resource) (m : W → A × W) → Gives q (giving q m)
  unfolding acquires releases
  giving-Gives q m = record { at = λ r s. omega arith }

  pub taking-Takes : {A : Type 0} (f : A → Resource) (m : Action W A) → Takes f (taking f m)
  taking-Takes f m = record { at = λ r s. omega (arith, on_ok-gain f (m s.0).0 r s.1) }

  pub Exact-Keeps : {A : Type 0} (m : Action (Traced W) A) → Exact m → Keeps m
  Exact-Keeps m x = record { at = λ r s h. x.at r s }

  continue-Balance :
      {A B : Type 0} (x : Result A) (f : A → Action (Traced W) B) (r : Resource) (s s1 : Traced W)
      → ((a : A) → Keeps (f a))
      → (excused r (error_of x) ≡ false → Balance r 0 0 s s1)
      → excused r (error_of (continue x f s1).0) ≡ false
      → Balance r 0 0 s (continue x f s1).1
  continue-Balance (ok a) f r s s1 y p h = omega (arith, p (excused-none r), (y a).at r s1 h)
  continue-Balance (err e) f r s s1 y p h = p h

  pub Keeps-bind :
      {A B : Type 0} (m : Action (Traced W) A) (f : A → Action (Traced W) B)
      → Keeps m
      → ((a : A) → Keeps (f a))
      → Keeps (m >>= f)
  unfolding ◌>>=◌
  Keeps-bind m f x y = record {
    at = λ r s h. continue-Balance (m s).0 f r s (m s).1 y (x.at r s) h;
  }

  bracket-Balance :
      {A B : Type 0} (g : A → Resource) (x : Result A) (f : A → Action (Traced W) B) (r : Resource)
      (s s1 : Traced W)
      → ((a : A) → Returns (g a) (f a))
      → Balance r (gain g x r) 0 s s1
      → excused r (error_of (continue x f s1).0) ≡ false
      → Balance r 0 0 s (continue x f s1).1
  bracket-Balance g (ok a) f r s s1 y p h = omega (arith, p, (y a).at r s1 h)
  bracket-Balance g (err e) f r s s1 y p h = p

  -- What is acquired is released by what follows.
  pub Keeps-bracket :
      {A B : Type 0} (g : A → Resource) (m : Action (Traced W) A) (f : A → Action (Traced W) B)
      → Takes g m
      → ((a : A) → Returns (g a) (f a))
      → Keeps (m >>= f)
  unfolding ◌>>=◌
  Keeps-bracket g m f x y = record {
    at = λ r s h. bracket-Balance g (m s).0 f r s (m s).1 y (x.at r s) h;
  }

  pub finally_with-Returns :
      {A : Type 0} (q : Resource) (m : Action (Traced W) A) (f : Result A → Action (Traced W) A)
      → Keeps m
      → Closes q f
      → Returns q (finally_with m f)
  unfolding finally_with
  finally_with-Returns q m f x y = record {
    at = λ r s h. let (e, p) = y.at r (m s).0 (m s).1 h in omega (arith, x.at r s e, p);
  }

  pub finally-Returns :
      {A B : Type 0} (q : Resource) (m : Action (Traced W) A) (f : Action (Traced W) B)
      → Keeps m
      → Gives q f
      → Returns q (finally m f)
  unfolding finally
  finally-Returns q m f x y = record { at = λ r s h. omega (arith, x.at r s h, y.at r (m s).1) }

  pub Gives-Returns :
      {A : Type 0} (q : Resource) (m : Action (Traced W) A) → Gives q m → Returns q m
  Gives-Returns q m x = record { at = λ r s h. x.at r s }
