-- ===== src/Filesystem/Posix/Near.antt =====
-- States between which all files but some are the same, and calls that only open descriptors.
use common_keyring.Base.{refl, ◌∙◌}
use common_keyring.Filesystem.Posix.{Place, View, Held, Inside, Calm}

abbrev pub Nothing : Place → Type 0
Nothing q = ⊥

module _ {W : Type 0} (v : View W) where
  -- Held files, and the directories that were open are so still.
  pub record Near (touched : Place → Type 0) (w w' : W) : Type 0 where
    pub held : Held v touched w w'
    pub inside : Inside v w w'

  pub Near-refl : (touched : Place → Type 0) (w : W) → Near touched w w
  Near-refl touched w = record { held = λ q n. refl; inside = λ d p h. h }

  pub Near-trans :
      {touched : Place → Type 0} {w w1 w2 : W}
      → Near touched w w1
      → Near touched w1 w2
      → Near touched w w2
  Near-trans x y = record {
    held = λ q n. y.held q n ∙ x.held q n;
    inside = λ d p h. y.inside d p (x.inside d p h);
  }

  pub Calm-Near : (touched : Place → Type 0) {w w' : W} → Calm v w w' → Near touched w w'
  Calm-Near touched x = record { held = λ q n. x.held q; inside = x.inside }

  pub Held-trans :
      {touched : Place → Type 0} {w w1 w2 : W}
      → Held v touched w w1
      → Held v touched w1 w2
      → Held v touched w w2
  Held-trans x y q n = y q n ∙ x q n
