-- ===== src/Selection/Outcome.antt =====
-- The runs of `SelectBackend`, told without its loop.
use mathlib.Core.Path.{subst}
use common_keyring.Base.{
  true, false, ◌≡◌, ◌↔◌, refl, ap, ◌∙◌, none, some, List, [], ◌∷◌, ◌++◌, append-nil, append_assoc,
  inl, inr, Bool-cases, Option-cases, arith, if◌then◌else◌,
}
use common_keyring.Errors.{GoError, backend_unavailable, cat, Result, ok, err}
use common_keyring.Contract.{Context, context_error}
use common_keyring.Contract.Info.{Backend, Info, Rejection}
use common_keyring.Selection.{
  Opener, Registry, Selection, selected, failed, selection_error, permits_fallback, reject,
  not_registered, accept, select_loop, select_backend,
}

module _ {ℓ} {W K : Type ℓ} (ctx : Context W) (registry : Registry W K) where
  -- Trying the backend at this moment rejects it in a way that permits the next.
  pub data Rejects (b : Backend) (w : W) (r : Rejection) (w' : W) : Type ℓ where
    missing :
        context_error ctx w ≡ none
        → registry b ≡ none
        → r ≡ reject b not_registered
        → w' ≡ w
        → Rejects b w r w'
    refused :
        (f : Opener W K) (e : GoError)
        → context_error ctx w ≡ none
        → registry b ≡ some f
        → f ctx w ≡ (err e, w')
        → permits_fallback e ≡ true
        → r ≡ reject b e
        → Rejects b w r w'

  -- All these backends were tried in order and rejected, each in a way that permits the next.
  pub data Tried : List Backend → W → List Rejection → W → Type ℓ where
    start : (w : W) → Tried [] w [] w
    next :
        (b : Backend) (before : List Backend) (w w1 w' : W) (r : Rejection) (rs : List Rejection)
        → Rejects b w r w1
        → Tried before w1 rs w'
        → Tried (b ∷ before) w (r ∷ rs) w'

  -- The ways in which a selection over an order can end, with `acc` rejected beforehand.
  pub data Outcome (acc : List Rejection) (order : List Backend) (w : W) (result : Selection K)
      (w' : W) : Type ℓ where
    exhausted :
        (rs : List Rejection)
        → Tried order w rs w'
        → result ≡ failed (selection_error (acc ++ rs) (cat backend_unavailable))
        → Outcome acc order w result w'
    interrupted :
        (before after : List Backend) (b : Backend) (rs : List Rejection) (e : GoError)
        → order ≡ before ++ b ∷ after
        → Tried before w rs w'
        → context_error ctx w' ≡ some e
        → result ≡ failed (selection_error (acc ++ rs) e)
        → Outcome acc order w result w'
    terminal :
        (before after : List Backend) (b : Backend) (rs : List Rejection) (w1 : W) (f : Opener W K)
        (e : GoError)
        → order ≡ before ++ b ∷ after
        → Tried before w rs w1
        → context_error ctx w1 ≡ none
        → registry b ≡ some f
        → f ctx w1 ≡ (err e, w')
        → permits_fallback e ≡ false
        → result ≡ failed (selection_error (acc ++ rs ++ reject b e ∷ []) e)
        → Outcome acc order w result w'
    chosen :
        (before after : List Backend) (b : Backend) (rs : List Rejection) (w1 : W) (f : Opener W K)
        (k : K) (info : Info)
        → order ≡ before ++ b ∷ after
        → Tried before w rs w1
        → context_error ctx w1 ≡ none
        → registry b ≡ some f
        → f ctx w1 ≡ (ok (k, info), w')
        → result ≡ selected k (accept info (acc ++ rs))
        → Outcome acc order w result w'

  -- A rejected backend in front of a selection.
  Outcome-cons :
      (acc : List Rejection) (b : Backend) (order : List Backend) (w w1 : W) (r : Rejection)
      {s : Selection K} {w' : W}
      → Rejects b w r w1
      → Outcome (acc ++ r ∷ []) order w1 s w'
      → Outcome acc (b ∷ order) w s w'
  Outcome-cons acc b order w w1 r c (exhausted rs t p) =
      exhausted _ (next b _ _ _ _ r _ c t) (p ∙ rw append_assoc)
  Outcome-cons acc b order w w1 r c (interrupted bs cs d rs e o t x p) =
      interrupted (b ∷ bs) cs d _ e (ap (λ l. b ∷ l) o) (next b _ _ _ _ r _ c t) x
        (p ∙ rw append_assoc)
  Outcome-cons acc b order w w1 r c (terminal bs cs d rs w2 f e o t n g x y p) =
      terminal (b ∷ bs) cs d _ w2 f e (ap (λ l. b ∷ l) o) (next b _ _ _ _ r _ c t) n g x y
        (p ∙ simp append_assoc)
  Outcome-cons acc b order w w1 r c (chosen bs cs d rs w2 f k i o t n g x p) =
      chosen (b ∷ bs) cs d _ w2 f k i (ap (λ l. b ∷ l) o) (next b _ _ _ _ r _ c t) n g x
        (p ∙ rw append_assoc)

  -- The result of the loop once the backend's opener has returned.
  select_loop-err :
      (acc : List Rejection) (b : Backend) (order : List Backend) (w w1 : W) (f : Opener W K)
      (e : GoError)
      → context_error ctx w ≡ none
      → registry b ≡ some f
      → f ctx w ≡ (err e, w1)
      → select_loop ctx registry acc (b ∷ order) w ≡ (
          if permits_fallback e
          then select_loop ctx registry (acc ++ reject b e ∷ []) order w1
          else (failed (selection_error (acc ++ reject b e ∷ []) e), w1))
  unfolding select_loop
  select_loop-err acc b order w w1 f e n g x = ground arith

  select_loop-nil :
      (acc : List Rejection) (w : W)
      → select_loop ctx registry acc [] w
        ≡ (failed (selection_error acc (cat backend_unavailable)), w)
  unfolding select_loop
  select_loop-nil acc w = refl

  select_loop-missing :
      (acc : List Rejection) (b : Backend) (order : List Backend) (w : W)
      → context_error ctx w ≡ none
      → registry b ≡ none
      → select_loop ctx registry acc (b ∷ order) w
        ≡ select_loop ctx registry (acc ++ reject b not_registered ∷ []) order w
  unfolding select_loop
  select_loop-missing acc b order w n g = ground arith

  select_loop-interrupted :
      (acc : List Rejection) (b : Backend) (order : List Backend) (w : W) (e : GoError)
      → context_error ctx w ≡ some e
      → select_loop ctx registry acc (b ∷ order) w ≡ (failed (selection_error acc e), w)
  unfolding select_loop
  select_loop-interrupted acc b order w e p = ground arith

  select_loop-ok :
      (acc : List Rejection) (b : Backend) (order : List Backend) (w w1 : W) (f : Opener W K)
      (k : K) (info : Info)
      → context_error ctx w ≡ none
      → registry b ≡ some f
      → f ctx w ≡ (ok (k, info), w1)
      → select_loop ctx registry acc (b ∷ order) w ≡ (selected k (accept info acc), w1)
  unfolding select_loop
  select_loop-ok acc b order w w1 f k info n g x = ground arith

  Rejects-loop :
      (acc : List Rejection) (b : Backend) (order : List Backend) (w w1 : W) (r : Rejection)
      → Rejects b w r w1
      → select_loop ctx registry acc (b ∷ order) w
        ≡ select_loop ctx registry (acc ++ r ∷ []) order w1
  Rejects-loop acc b order w w1 r (missing n g p q) =
      rw (p, q) (select_loop-missing acc b order w n g)
  Rejects-loop acc b order w w1 r (refused f e n g x y p) =
      select_loop-err acc b order w w1 f e n g x ∙ rw (y, p)

  -- What the loop computes at a state, as an outcome of its two results.
  abbrev Reaches : List Rejection → List Backend → W → Selection K × W → Type ℓ
  Reaches acc order w p = Outcome acc order w p.0 p.1

  Outcome-opened :
      (acc : List Rejection) (b : Backend) (order : List Backend) (w w1 : W) (f : Opener W K)
      (result : Result (K × Info))
      → context_error ctx w ≡ none
      → registry b ≡ some f
      → f ctx w ≡ (result, w1)
      → ((r : Rejection)
          → Reaches (acc ++ r ∷ []) order w1 (select_loop ctx registry (acc ++ r ∷ []) order w1))
      → Reaches acc (b ∷ order) w (select_loop ctx registry acc (b ∷ order) w)
  Outcome-opened acc b order w w1 f (ok (k, info)) n g x more =
      rw (select_loop-ok acc b order w w1 f k info n g x)
        (chosen [] order b [] w f k info refl (start w) n g x (rw append-nil))
  Outcome-opened acc b order w w1 f (err e) n g x more =
      rw (select_loop-err acc b order w w1 f e n g x) (elim (Bool-cases (permits_fallback e)) [
        | inl y ↦
            rw y (Outcome-cons acc b order w w1 (reject b e) (refused f e n g x y refl) (more _))
        | inr y ↦ rw y (terminal [] order b [] w f e refl (start w) n g x y (simp append-nil))
      ])

  select_loop-Outcome :
      (acc : List Rejection) (order : List Backend) (w : W)
      → Reaches acc order w (select_loop ctx registry acc order w)
  unfolding select_loop
  select_loop-Outcome acc [] w = exhausted [] (start w) (rw append-nil)
  select_loop-Outcome acc (b ∷ order) w = elim (Option-cases (context_error ctx w)) [
    | inr (e, p) ↦
        rw (select_loop-interrupted acc b order w e p)
          (interrupted [] order b [] e refl (start w) p (rw append-nil))
    | inl n ↦ elim (Option-cases (registry b)) [
      | inl g ↦ rw (select_loop-missing acc b order w n g) (
          Outcome-cons acc b order w w (reject b not_registered) (missing n g refl refl)
            (select_loop-Outcome (acc ++ reject b not_registered ∷ []) order w))
      | inr (f, g) ↦
          Outcome-opened acc b order w (f ctx w).1 f (f ctx w).0 n g refl
            (λ r. select_loop-Outcome (acc ++ r ∷ []) order (f ctx w).1)
    ]
  ]

  Tried-loop :
      (acc : List Rejection) {before : List Backend} (rest : List Backend) {w w1 : W}
      {rs : List Rejection}
      → Tried before w rs w1
      → select_loop ctx registry acc (before ++ rest) w
        ≡ select_loop ctx registry (acc ++ rs) rest w1
  Tried-loop acc rest (start w) = rw append-nil
  Tried-loop acc rest (next b before w w1 w' r rs c t) =
      Rejects-loop acc b (before ++ rest) w w1 r c
      ∙ Tried-loop (acc ++ r ∷ []) rest t
      ∙ rw append_assoc

  Outcome-loop :
      (acc : List Rejection) (order : List Backend) (w : W) (s : Selection K) (w' : W)
      → Outcome acc order w s w'
      → select_loop ctx registry acc order w ≡ (s, w')
  Outcome-loop acc order w s w' (exhausted rs t p) =
      subst (λ l. select_loop ctx registry acc l w ≡ (s, w')) (append-nil order)
        (Tried-loop acc [] t ∙ select_loop-nil (acc ++ rs) w' ∙ rw p)
  Outcome-loop acc order w s w' (interrupted bs cs d rs e o t x p) =
      rw (o, p) (Tried-loop acc (d ∷ cs) t ∙ select_loop-interrupted (acc ++ rs) d cs w' e x)
  Outcome-loop acc order w s w' (terminal bs cs d rs w1 f e o t n g x y p) =
      rw (o, p)
        (Tried-loop acc (d ∷ cs) t
          ∙ select_loop-err (acc ++ rs) d cs w1 w' f e n g x
          ∙ rw y (rw append_assoc))
  Outcome-loop acc order w s w' (chosen bs cs d rs w1 f k i o t n g x p) =
      rw (o, p) (Tried-loop acc (d ∷ cs) t ∙ select_loop-ok (acc ++ rs) d cs w1 w' f k i n g x)

  -- `SelectBackend` ends with a result and in a state exactly when that is an outcome of its
  -- order: it tries the backends one after the other, records each rejection in order, goes on
  -- only past an unregistered, unavailable or unsupported one, and returns the first keyring
  -- that opens, the context's error, the first other error, or "unavailable" after the last.
  pub select_backend-Outcome :
      (order : List Backend) (w : W) (s : Selection K) (w' : W)
      → (select_backend ctx order registry w ≡ (s, w')) ↔ Outcome [] order w s w'
  unfolding select_backend
  select_backend-Outcome order w s w' = (
    λ e. subst (λ p. Outcome [] order w p.0 p.1) e (select_loop-Outcome [] order w),
    Outcome-loop [] order w s w',
  )
