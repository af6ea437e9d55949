-- ===== src/Selection/Winner.antt =====
-- How `SelectBackend` comes to the keyring that it returns.
use common_keyring.Base.{◌≡◌, ◌∙◌, some, List, [], ◌∷◌, ◌++◌}
use common_keyring.Errors.{ok}
use common_keyring.Contract.{Context}
use common_keyring.Contract.Info.{Backend, Info, Rejection}
use common_keyring.Selection.{Opener, Registry, selected, accept, select_backend}
use common_keyring.Selection.Outcome.{
  Tried, Outcome, exhausted, interrupted, terminal, chosen, select_backend-Outcome,
}

module _ {ℓ} {W K : Type ℓ} (ctx : Context W) (registry : Registry W K) where
  -- How a selection came to a keyring.
  pub record Chosen (order : List Backend) (w : W) (k : K) (info : Info) (w' : W) : Type ℓ where
    pub before : List Backend
    pub after : List Backend
    pub backend : Backend
    pub rejected : List Rejection
    pub reached : W
    pub opener : Opener W K
    pub base : Info
    pub at : order ≡ before ++ backend ∷ after
    pub tried : Tried ctx registry before w rejected reached
    pub entry : registry backend ≡ some opener
    pub opens : opener ctx reached ≡ (ok (k, base), w')
    pub described : info ≡ accept base rejected

  pub selected-Chosen :
      (order : List Backend) (w : W) (k : K) (info : Info) (w' : W)
      → select_backend ctx order registry w ≡ (selected k info, w')
      → Chosen order w k info w'
  selected-Chosen order w k info w' h =
      inverted ((select_backend-Outcome ctx registry order w _ w').0 h)
    where
      inverted : Outcome ctx registry [] order w (selected k info) w' → Chosen order w k info w'
      inverted (exhausted rs t p) = cc
      inverted (interrupted bs cs d rs e o t x p) = cc
      inverted (terminal bs cs d rs w1 f e o t n g x y p) = cc
      inverted (chosen bs cs d rs w1 f k' i o t n g x p) = record {
        before = bs;
        after = cs;
        backend = d;
        rejected = rs;
        reached = w1;
        opener = f;
        base = i;
        at = o;
        tried = t;
        entry = g;
        opens = x ∙ cc;
        described = cc;
      }
