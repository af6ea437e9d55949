-- ===== src/Selection/Rejections.antt =====
-- What the list of rejections says about a selection.
use mathlib.Core.Path.{ap₂}
use common_keyring.Base.{
  true, ◌≡◌, refl, sym, ap, ◌∙◌, Option, none, some, List, [], ◌∷◌, ◌++◌, map, ◌||◌,
}
use common_keyring.Errors.{GoError, is, ok}
use common_keyring.Contract.{Context}
use common_keyring.Contract.Info.{Backend, Info, Rejection}
use common_keyring.Selection.{
  Opener, Registry, selected, permits_fallback, not_registered, accept, is_cons, select_backend,
}
use common_keyring.Selection.Outcome.{Rejects, missing, refused, Tried, start, next}
use common_keyring.Selection.Winner.{Chosen, selected-Chosen}

-- The rejection has an error, which lets the selection go on.
abbrev pub Permits : Option GoError → Type 0
Permits none = ⊥
Permits (some e) = permits_fallback e ≡ true

abbrev pub AllPermit : List Rejection → Type 0
AllPermit [] = Unit
AllPermit (r ∷ rs) = Permits r.err × AllPermit rs

-- Fields of an accepted description.
pub rejected-accept : (base : Info) (rs : List Rejection) → (accept base rs).rejected ≡ rs
unfolding accept
rejected-accept base rs = refl

pub backend-accept : (base : Info) (rs : List Rejection) → (accept base rs).backend ≡ base.backend
unfolding accept
backend-accept base rs = refl

pub fallback-accept :
    (base : Info) (rs : List Rejection) → (accept base rs).fallback ≡ (base.fallback || is_cons rs)
unfolding accept
fallback-accept base rs = refl

-- A description that was accepted is given by the opener's and its own rejections.
pub accept_self :
    (info base : Info) (rs : List Rejection)
    → info ≡ accept base rs
    → info ≡ accept base info.rejected
accept_self info base rs h =
    h ∙ ap (accept base) (sym (ap (λ i. i.rejected) h ∙ rejected-accept base rs))

not_registered-permits : permits_fallback not_registered ≡ true
unfolding permits_fallback is
not_registered-permits = refl

module _ {ℓ} {W K : Type ℓ} (ctx : Context W) (registry : Registry W K) where
  Rejects-fields :
      {b : Backend} {w w' : W} {r : Rejection}
      → Rejects ctx registry b w r w'
      → (r.backend ≡ b) × Permits r.err
  Rejects-fields (missing n g p q) = rw p (refl, not_registered-permits)
  Rejects-fields (refused f e n g x y p) = rw p (refl, y)

  pub Tried-rejected :
      {before : List Backend} {w w' : W} {rs : List Rejection}
      → Tried ctx registry before w rs w'
      → (map (λ r. r.backend) rs ≡ before) × AllPermit rs
  Tried-rejected (start w) = (refl, tt)
  Tried-rejected (next b before w w1 w' r rs c t) =
      let (be, permits) = Rejects-fields c in
      let (bes, all) = Tried-rejected t in (ap₂ ◌∷◌ be bes, (permits, all))

  -- The candidates, split at the one that opened, and the rejections, which are those of the
  -- candidates before it, in order.
  pub record RejectedBefore (order : List Backend) (w : W) (k : K) (info : Info) (w' : W)
      : Type ℓ where
    pub chosen_backend : Backend
    pub after : List Backend
    pub reached : W
    pub opener : Opener W K
    pub base : Info
    pub at : order ≡ map (λ r. r.backend) info.rejected ++ chosen_backend ∷ after
    pub tried : Tried ctx registry (map (λ r. r.backend) info.rejected) w info.rejected reached
    pub permit : AllPermit info.rejected
    pub entry : registry chosen_backend ≡ some opener
    pub opens : opener ctx reached ≡ (ok (k, base), w')
    pub marked : info.fallback ≡ (base.fallback || is_cons info.rejected)

  -- When `SelectBackend` returns a keyring, the rejections in its description name, in order, just
  -- the candidates before the backend whose opener then returned this keyring: each of them was
  -- tried and rejected, from the state that the one before left, with the error in its rejection,
  -- which permits the next candidate. The description is marked as a fallback exactly if the
  -- opener's was or there are rejections.
  pub rejected-before :
      (order : List Backend) (w w' : W) (k : K) (info : Info)
      → select_backend ctx order registry w ≡ (selected k info, w')
      → RejectedBefore order w k info w'
  rejected-before order w w' k info h =
      let c : Chosen ctx registry order w k info w' =
        selected-Chosen ctx registry order w k info w' h in
      let (names, all) = Tried-rejected c.tried in
      let e : info.rejected ≡ c.rejected =
        ap (λ i. i.rejected) c.described ∙ rejected-accept c.base c.rejected in
      record {
        chosen_backend = c.backend;
        after = c.after;
        reached = c.reached;
        opener = c.opener;
        base = c.base;
        at = rw (e, names) c.at;
        tried = rw (e, names) c.tried;
        permit = rw e all;
        entry = c.entry;
        opens = c.opens;
        marked =
            ap (λ i. i.fallback) c.described
            ∙ fallback-accept c.base c.rejected
            ∙ ap (λ rs. c.base.fallback || is_cons rs) (sym e);
      }
