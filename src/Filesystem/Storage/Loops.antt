-- ===== src/Filesystem/Storage/Loops.antt =====
-- The loops of internal/backend/fs/storage_linux.go.
use common_keyring.Base.{
  ℕ, zero, suc, ◌≤◌, false, Option, none, some, Bool-cases, inl, inr, List, [], ◌∷◌, ◌==◌, nat_eq,
  length, drop, arith, ◌≡◌, refl, ◌∙◌, ap, ◌<◌, if◌then◌else◌,
}
use common_keyring.Errors.{GoError, leaf, short_write, Fallible, ok, err}
use common_keyring.Contract.{Bytes}
use common_keyring.Filesystem.System.{System}
use common_keyring.Filesystem.Writing.{write_rounds, write_all}

length-drop : {A : Type 0} (n : ℕ) (l : List A) → length (drop n l) ≤ length l
length-drop zero l = omega arith
length-drop (suc n) [] = omega arith
length-drop (suc n) (x ∷ l) = omega (arith, length-drop n l)

pub drop-shorter :
    {A : Type 0} (n : ℕ) (x : A) (l : List A)
    → (n == 0) ≡ false
    → length (drop n (x ∷ l)) ≤ length l
drop-shorter zero x l h = cc
drop-shorter (suc n) x l h = length-drop n l

module _ {W : Type 0} (system : System W) where
  -- The loop of `writeAll` without a bound on its rounds: what it returns for the bytes that are
  -- left, and the state that it leaves.
  pub data Loop (d : ℕ) : Bytes → W → Fallible → W → Type 0 where
    finished : (w : W) → Loop d [] w (ok tt) w
    failed :
        (c : ℕ) (contents : Bytes) (w w1 : W) (n : ℕ) (e : GoError)
        → system.write d (c ∷ contents) w ≡ ((n, some e), w1)
        → Loop d (c ∷ contents) w (err e) w1
    stuck :
        (c : ℕ) (contents : Bytes) (w w1 : W)
        → system.write d (c ∷ contents) w ≡ ((0, none), w1)
        → Loop d (c ∷ contents) w (err (leaf short_write)) w1
    further :
        (c : ℕ) (contents : Bytes) (w w1 w' : W) (n : ℕ) (r : Fallible)
        → system.write d (c ∷ contents) w ≡ ((n, none), w1)
        → 0 < n
        → Loop d (drop n (c ∷ contents)) w1 r w'
        → Loop d (c ∷ contents) w r w'

  -- What a round returns, with the later rounds.
  abbrev round : ℕ → Option GoError → W → Fallible × W → Fallible × W
  round n e w1 later = elim e [
    | some e' ↦ (err e', w1)
    | none ↦ if n == 0 then (err (leaf short_write), w1) else later
  ]

  round-Loop :
      (d c : ℕ) (cs : Bytes) (w w1 : W) (n : ℕ) (e : Option GoError) (later : Fallible × W)
      → system.write d (c ∷ cs) w ≡ ((n, e), w1)
      → ((n == 0) ≡ false → Loop d (drop n (c ∷ cs)) w1 later.0 later.1)
      → Loop d (c ∷ cs) w (round n e w1 later).0 (round n e w1 later).1
  round-Loop d c cs w w1 n (some e) later k next = failed c cs w w1 n e k
  round-Loop d c cs w w1 n none later k next = elim (Bool-cases (n == 0)) [
    | inl z ↦
        let unwritten : n ≡ 0 = ground arith in
        rw z (stuck c cs w w1 (k ∙ ap (λ m. ((m, none), w1)) unwritten))
    | inr z ↦ rw z (further c cs w w1 _ n _ k (ground arith) (next z))
  ]

  write_rounds-Loop :
      (rounds d : ℕ) (contents : Bytes) (w : W)
      → length contents ≤ rounds
      → Loop d contents w
          (write_rounds system rounds d contents w).0
          (write_rounds system rounds d contents w).1
  unfolding write_rounds
  write_rounds-Loop rounds d [] w h = finished w
  write_rounds-Loop zero d (c ∷ cs) w h = ground (arith, h)
  write_rounds-Loop (suc rounds) d (c ∷ cs) w h =
      let r = system.write d (c ∷ cs) w in
      round-Loop d c cs w r.1 r.0.0 r.0.1 _ refl λ z.
        let shorter = drop-shorter r.0.0 c cs z in
        write_rounds-Loop rounds d (drop r.0.0 (c ∷ cs)) r.1 (omega (arith, h, shorter))

  -- Whatever its calls of `write` return, the loop of `writeAll` ends: `writeAll` returns what the
  -- loop without a bound on its rounds returns, and leaves the state that this leaves. That loop
  -- writes the bytes that are left until there are none, goes on behind those that were written,
  -- and stops at the error of a `write`, or with a short write where nothing was written.
  pub write_all-Loop :
      (d : ℕ) (contents : Bytes) (w : W)
      → Loop d contents w (write_all system d contents w).0 (write_all system d contents w).1
  unfolding write_all
  write_all-Loop d contents w = write_rounds-Loop (length contents) d contents w (omega arith)
