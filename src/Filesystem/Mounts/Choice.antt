-- ===== src/Filesystem/Mounts/Choice.antt =====
-- The mount that `selectMount` of internal/backend/fs/mount_linux.go returns.
use common_keyring.Base.{
  ℕ, ◌≤◌, ◌<◌, Bool, true, false, ◌&&◌, Option, none, some, List, [], ◌∷◌, ◌++◌, length, leb,
  if◌then◌else◌, ◌≡◌, refl, ap, ◌∙◌, inl, inr, arith, Bool-cases, append-nil, append_assoc,
}
use common_keyring.Errors.{GoError, Result, ok, err}
use common_keyring.Contract.{Bytes}
use common_keyring.Filesystem.Mounts.{Device, Mount}
use common_keyring.Filesystem.Mounts.Validation.{
  applies, prefers, select_from, select_mount, or_not_found,
}

-- Every mount of a list that applies satisfies a predicate on the length of its point.
abbrev pub AllApplying : Bytes → Device → (ℕ → Type 0) → List Mount → Type 0
AllApplying path device P [] = Unit
AllApplying path device P (m ∷ rest) =
    (applies path device m ≡ true → P (length m.point)) × AllApplying path device P rest

-- The mount applies, no earlier one that applies has a longer point, and every later one that
-- applies has a shorter point.
pub record LastLongest (path : Bytes) (device : Device) (mounts : List Mount) (m : Mount)
    : Type 0 where
  pub before : List Mount
  pub after : List Mount
  pub at : mounts ≡ before ++ m ∷ after
  pub within : applies path device m ≡ true
  pub earlier : AllApplying path device (λ n. n ≤ length m.point) before
  pub later : AllApplying path device (λ n. n < length m.point) after

-- The results of `selectMount` that these mounts allow.
pub data Choice (path : Bytes) (device : Device) (mounts : List Mount) : Result Mount → Type 0 where
  chosen : {m : Mount} → LastLongest path device mounts m → Choice path device mounts (ok m)
  nothing :
      {e : GoError} → AllApplying path device (λ n. ⊥) mounts → Choice path device mounts (err e)

module _ (path : Bytes) (device : Device) where
  AllApplying-mono :
      (P Q : ℕ → Type 0) (ms : List Mount)
      → ((n : ℕ) → P n → Q n)
      → AllApplying path device P ms
      → AllApplying path device Q ms
  AllApplying-mono P Q [] f h = tt
  AllApplying-mono P Q (m ∷ ms) f h =
      (λ a. f (length m.point) (h.0 a), AllApplying-mono P Q ms f h.1)

  AllApplying-append :
      (P : ℕ → Type 0) (ms ns : List Mount)
      → AllApplying path device P ms
      → AllApplying path device P ns
      → AllApplying path device P (ms ++ ns)
  AllApplying-append P [] ns h k = k
  AllApplying-append P (m ∷ ms) ns h k = (h.0, AllApplying-append P ms ns h.1 k)

  absurd_test : {b : Bool} → b ≡ true → b ≡ false → ⊥
  absurd_test h k = cc

  -- What the loop knows of the mounts that it has seen.
  abbrev Best : List Mount → Option Mount → Type 0
  Best seen none = AllApplying path device (λ n. ⊥) seen
  Best seen (some m) = LastLongest path device seen m

  -- The mount that was selected stays so.
  kept :
      (seen : List Mount) (m c : Mount)
      → LastLongest path device seen m
      → (applies path device c ≡ true → length c.point < length m.point)
      → LastLongest path device (seen ++ c ∷ []) m
  kept seen m c l h = record {
    before = l.before;
    after = l.after ++ c ∷ [];
    at = ap (λ ms. ms ++ c ∷ []) l.at ∙ append_assoc l.before (m ∷ l.after) (c ∷ []);
    within = l.within;
    earlier = l.earlier;
    later = AllApplying-append (λ n. n < length m.point) l.after (c ∷ []) l.later (h, tt);
  }

  -- The candidate is selected.
  replaced :
      (seen : List Mount) (c : Mount)
      → applies path device c ≡ true
      → AllApplying path device (λ n. n ≤ length c.point) seen
      → LastLongest path device (seen ++ c ∷ []) c
  replaced seen c a h = record {
    before = seen;
    after = [];
    at = refl;
    within = a;
    earlier = h;
    later = tt;
  }

  bounded :
      (seen : List Mount) (m c : Mount)
      → LastLongest path device seen m
      → length m.point ≤ length c.point
      → AllApplying path device (λ n. n ≤ length c.point) seen
  bounded seen m c l h = rw l.at (
      AllApplying-append (λ n. n ≤ length c.point) l.before (m ∷ l.after)
        (AllApplying-mono (λ n. n ≤ length m.point) (λ n. n ≤ length c.point) l.before
          (λ n p. omega arith) l.earlier)
        (
          λ a. h,
          AllApplying-mono (λ n. n < length m.point) (λ n. n ≤ length c.point) l.after
              (λ n p. omega arith) l.later,
        ))

  step-Best :
      (seen : List Mount) (selected : Option Mount) (c : Mount)
      → Best seen selected
      → Best
          (seen ++ c ∷ [])
          (if applies path device c && prefers selected c then some c else selected)
  unfolding prefers
  step-Best seen none c h = elim (Bool-cases (applies path device c)) [
    | inl a ↦ rw a (
        replaced seen c a
          (AllApplying-mono (λ n. ⊥) (λ n. n ≤ length c.point) seen (λ n p. absurd p) h))
    | inr a ↦ rw a (AllApplying-append (λ n. ⊥) seen (c ∷ []) h (λ t. absurd_test t a, tt))
  ]
  step-Best seen (some m) c l = elim (Bool-cases (applies path device c)) [
    | inr a ↦ rw a (kept seen m c l (λ t. absurd (absurd_test t a)))
    | inl a ↦ elim (Bool-cases (leb (length m.point) (length c.point))) [
      | inl b ↦ rw (a, b) (replaced seen c a (bounded seen m c l (ground arith)))
      | inr b ↦ rw (a, b) (kept seen m c l (λ t. ground arith))
    ]
  ]

  select_from-Best :
      (rest seen : List Mount) (selected : Option Mount)
      → Best seen selected
      → Best (seen ++ rest) (select_from path device selected rest)
  unfolding select_from
  select_from-Best [] seen selected h = rw append-nil h
  select_from-Best (c ∷ rest) seen selected h =
      rw (← append_assoc seen (c ∷ []) rest)
        (select_from-Best rest (seen ++ c ∷ []) _ (step-Best seen selected c h))

  Best-Choice :
      (mounts : List Mount) (selected : Option Mount)
      → Best mounts selected
      → Choice path device mounts (or_not_found selected)
  Best-Choice mounts none h = nothing h
  Best-Choice mounts (some m) h = chosen h

  -- `selectMount` returns, of the mounts on the device whose point contains the path, the last of
  -- those with the longest point, and an error if there is no such mount.
  pub select_mount-Choice :
      (mounts : List Mount) → Choice path device mounts (select_mount mounts path device)
  unfolding select_mount
  select_mount-Choice mounts = Best-Choice mounts _ (select_from-Best mounts [] none tt)
