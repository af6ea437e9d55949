-- ===== src/Filesystem/Posix/Quiet.antt =====
-- Actions that change no file and no descriptor that was open before them, whatever they open and
-- close themselves.
use mathlib.Core.Path.{subst}
use common_keyring.Base.{ℕ, ◌≡◌, refl, ◌∙◌, ap}
use common_keyring.Contract.{Bytes}
use common_keyring.Errors.{GoError, ok, Action}
use common_keyring.Filesystem.Steps.{◌>>=◌, relabel, finally}
use common_keyring.Filesystem.Steps.Runs.{bind-run, on_error-ok}
use common_keyring.Filesystem.Posix.{Place, View, Calm}

module _ {W : Type 0} (v : View W) where
  -- A descriptor that nothing is open on.
  pub record Unused (d : ℕ) (w : W) : Type 0 where
    pub no_directory : (p : Place) → v.inside w d p → ⊥
    pub no_file : v.file w d → ⊥
    pub no_filling : (q : Place) (b : Bytes) → v.filling w d q b → ⊥
    pub no_reading : (b : Bytes) → v.reading w d b → ⊥

  -- What holds of a call that closes a descriptor: the files and the other descriptors are as they
  -- were.
  pub record Spared (d : ℕ) (w w' : W) : Type 0 where
    pub held : (q : Place) → v.holds w' q ≡ v.holds w q
    pub inside : (c : ℕ) (p : Place) → (c ≡ d → ⊥) → v.inside w c p → v.inside w' c p
    pub file : (c : ℕ) → (c ≡ d → ⊥) → v.file w c → v.file w' c
    pub filling :
        (c : ℕ) (q : Place) (b : Bytes) → (c ≡ d → ⊥) → v.filling w c q b → v.filling w' c q b
    pub reading : (c : ℕ) (b : Bytes) → (c ≡ d → ⊥) → v.reading w c b → v.reading w' c b

  pub Calm-refl : (w : W) → Calm v w w
  Calm-refl w = record {
    held = λ q. refl;
    inside = λ d p h. h;
    file = λ f h. h;
    filling = λ f q b h. h;
    reading = λ f b h. h;
  }

  pub Calm-trans : {w w1 w2 : W} → Calm v w w1 → Calm v w1 w2 → Calm v w w2
  Calm-trans x y = record {
    held = λ q. y.held q ∙ x.held q;
    inside = λ d p h. y.inside d p (x.inside d p h);
    file = λ f h. y.file f (x.file f h);
    filling = λ f q b h. y.filling f q b (x.filling f q b h);
    reading = λ f b h. y.reading f b (x.reading f b h);
  }

  pub Unused-before : {d : ℕ} {w w1 : W} → Calm v w w1 → Unused d w1 → Unused d w
  Unused-before x u = record {
    no_directory = λ p h. u.no_directory p (x.inside _ p h);
    no_file = λ h. u.no_file (x.file _ h);
    no_filling = λ q b h. u.no_filling q b (x.filling _ q b h);
    no_reading = λ b h. u.no_reading b (x.reading _ b h);
  }

  -- A descriptor is closed that was opened since.
  pub Calm-closed : {d : ℕ} {w w1 w2 : W} → Unused d w → Calm v w w1 → Spared d w1 w2 → Calm v w w2
  Calm-closed {d} {w} u x y = record {
    held = λ q. y.held q ∙ x.held q;
    inside = λ c p h.
        y.inside c p (λ e. u.no_directory p (subst (λ n. v.inside w n p) e h)) (x.inside c p h);
    file = λ c h. y.file c (λ e. u.no_file (subst (v.file w) e h)) (x.file c h);
    filling = λ c q b h.
        y.filling c q b (λ e. u.no_filling q b (subst (λ n. v.filling w n q b) e h))
          (x.filling c q b h);
    reading = λ c b h.
        y.reading c b (λ e. u.no_reading b (subst (λ n. v.reading w n b) e h)) (x.reading c b h);
  }

  abbrev pub Quiet : {A : Type 0} → Action W A → Type 0
  Quiet m = (w : W) → Calm v w (m w).1

  -- An action that opens a descriptor.
  pub record Opens (m : Action W ℕ) (w : W) : Type 0 where
    pub calm : Calm v w (m w).1
    pub fresh : (d : ℕ) → (m w).0 ≡ ok d → Unused d w

  pub Quiet-bind :
      {A B : Type 0} (m : Action W A) (f : A → Action W B)
      → Quiet m
      → ((a : A) → Quiet (f a))
      → Quiet (m >>= f)
  Quiet-bind m f x y w =
      bind-run (λ r w'. Calm v w w') m f w (λ e h. x w) (λ a h. Calm-trans (x w) (y a (m w).1))

  pub Quiet-relabel :
      {A : Type 0} (f : GoError → GoError) (m : Action W A) → Quiet m → Quiet (relabel f m)
  unfolding relabel
  Quiet-relabel f m x w = x w

  pub Opens-relabel :
      (f : GoError → GoError) (m : Action W ℕ) (w : W) → Opens m w → Opens (relabel f m) w
  unfolding relabel
  Opens-relabel f m w x = record { calm = x.calm; fresh = λ d h. x.fresh d (on_error-ok f _ d h) }

  -- What opens behind an action that changes nothing.
  pub Opens-behind :
      {A : Type 0} (m : Action W A) (f : A → Action W ℕ)
      → Quiet m
      → ((a : A) (w : W) → Opens (f a) w)
      → (w : W) → Opens (m >>= f) w
  Opens-behind m f x y w = record {
    calm = Quiet-bind m f x (λ a w1. (y a w1).calm) w;
    fresh =
        bind-run (λ r w'. (d : ℕ) → r ≡ ok d → Unused d w) m f w (λ e h d k. cc)
          (λ a h d k. Unused-before (x w) ((y a (m w).1).fresh d k));
  }

  -- A descriptor that is opened, used and closed.
  pub Quiet-bracket :
      {A B : Type 0} (m : Action W ℕ) (f : ℕ → Action W A) (close : ℕ → Action W B)
      → ((w : W) → Opens m w)
      → ((d : ℕ) → Quiet (f d))
      → ((d : ℕ) (w : W) → Spared d w (close d w).1)
      → Quiet (m >>= λ d. finally (f d) (close d))
  unfolding finally
  Quiet-bracket m f close x y spared w =
      bind-run (λ r w'. Calm v w w') m (λ d. finally (f d) (close d)) w (λ e h. (x w).calm)
        (λ d h.
          Calm-closed ((x w).fresh d (ap (λ p. p.0) h)) (Calm-trans (x w).calm (y d (m w).1))
            (spared d (f d (m w).1).1))
