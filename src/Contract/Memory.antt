-- ===== src/Contract/Memory.antt =====
-- What a keyring of internal/contract/interfaces.go promises to be, a map from keys to secrets whose
-- calls may fail, and how calls in a row are followed.
use common_keyring.Base.{
  String, false, Option, none, some, List, [], ◌∷◌, ◌==◌, string_eq, ◌≡◌, refl, sym, ◌∙◌, ap, ◌⊎◌,
  inl, inr, if◌then◌else◌, Bool-cases, eq_iff,
}
use common_keyring.Errors.{GoError, Result, Fallible, ok, err}
use common_keyring.Contract.{Context, Bytes, Keyringer}

abbrev pub Memory : Type 0
Memory = String → Option Bytes

abbrev update : Memory → String → Option Bytes → Memory
update m key secret k = if k == key then secret else m k

pub data Call : Type 0 where
  getting : String → Call
  setting : String → Bytes → Call
  deleting : String → Call

abbrev pub key_of : Call → String
key_of (getting key) = key
key_of (setting key value) = key
key_of (deleting key) = key

-- What a call answers: an error, a secret or nothing but success.
abbrev pub Reply : Type 0
Reply = Result (Option Bytes)

module _ (used : String → Type 0) where
  abbrev Same : Memory → Memory → Type 0
  Same m m' = (k : String) → used k → m' k ≡ m k

  -- The calls of a map that may fail. One that fails has no effect, or its whole effect.
  pub data Allowed (m m' : Memory) : Call → Reply → Type 0 where
    failed : {c : Call} {e : GoError} → Same m m' → Allowed m m' c (err e)
    got :
        {key : String} {value : Bytes}
        → m key ≡ some value
        → Same m m'
        → Allowed m m' (getting key) (ok (some value))
    set_done :
        {key : String} {value : Bytes}
        → Same (update m key (some value)) m'
        → Allowed m m' (setting key value) (ok none)
    set_late :
        {key : String} {value : Bytes} {e : GoError}
        → Same (update m key (some value)) m'
        → Allowed m m' (setting key value) (err e)
    deleted : {key : String} → Same (update m key none) m' → Allowed m m' (deleting key) (ok none)
    deleted_late :
        {key : String} {e : GoError}
        → Same (update m key none) m'
        → Allowed m m' (deleting key) (err e)

  -- Calls in a row, with their answers.
  pub data Allows (m' : Memory) : Memory → List Call → List Reply → Type 0 where
    nothing : Allows m' m' [] []
    next :
        {m m1 : Memory} {c : Call} {r : Reply} {cs : List Call} {rs : List Reply}
        → Allowed m m1 c r
        → Allows m' m1 cs rs
        → Allows m' m (c ∷ cs) (r ∷ rs)

  abbrev pub AllUsed : List Call → Type 0
  AllUsed [] = Unit
  AllUsed (c ∷ cs) = used (key_of c) × AllUsed cs

abbrev pub reply : {A : Type 0} → (A → Option Bytes) → Result A → Reply
reply f (ok a) = ok (f a)
reply f (err e) = err e

update-at :
    (m : Memory) (key k : String) (secret : Option Bytes) → k ≡ key → update m key secret k ≡ secret
update-at m key k secret h = rw ((eq_iff k key).1 h) refl

update-off :
    (m : Memory) (key k : String) (secret : Option Bytes)
    → (k == key) ≡ false
    → update m key secret k ≡ m k
update-off m key k secret h = rw h refl

update-same :
    (m m' : Memory) (key k : String) (secret : Option Bytes)
    → ((k : String) → m' k ≡ m k)
    → update m' key secret k ≡ update m key secret k
update-same m m' key k secret h = elim (Bool-cases (k == key)) [
  | inl e ↦ rw e refl
  | inr e ↦ rw e (h k)
]

-- What is done to the map in front of a call and behind it is nothing.
pub Allowed-around :
    {used : String → Type 0} {m0 m m1 m' : Memory} {c : Call} {r : Reply}
    → ((k : String) → m k ≡ m0 k)
    → ((k : String) → m' k ≡ m1 k)
    → Allowed used m m1 c r
    → Allowed used m0 m' c r
Allowed-around f g (failed x) = failed (λ k u. g k ∙ x k u ∙ f k)
Allowed-around f g (got {key = key} h x) = got (sym (f key) ∙ h) (λ k u. g k ∙ x k u ∙ f k)
Allowed-around f g (set_done x) = set_done (λ k u. g k ∙ x k u ∙ update-same _ _ _ k _ f)
Allowed-around f g (set_late x) = set_late (λ k u. g k ∙ x k u ∙ update-same _ _ _ k _ f)
Allowed-around f g (deleted x) = deleted (λ k u. g k ∙ x k u ∙ update-same _ _ _ k _ f)
Allowed-around f g (deleted_late x) = deleted_late (λ k u. g k ∙ x k u ∙ update-same _ _ _ k _ f)

module _ (used : String → Type 0) (m m' : Memory) (key : String) where
  module _ (off : (k : String) → used k → (k == key) ≡ false → m' k ≡ m k) where
    Same-kept : m' key ≡ m key → Same used m m'
    Same-kept h k u = elim (Bool-cases (k == key)) [
      | inl e ↦ rw ((eq_iff k key).0 e) h
      | inr e ↦ off k u e
    ]

    Same-updated : (secret : Option Bytes) → m' key ≡ secret → Same used (update m key secret) m'
    Same-updated secret h k u = elim (Bool-cases (k == key)) [
      | inl e ↦
          let same = (eq_iff k key).0 e in ap m' same ∙ h ∙ sym (update-at m key k secret same)
      | inr e ↦ off k u e ∙ sym (update-off m key k secret e)
    ]

    pub set-Allowed :
        (value : Bytes) (r : Fallible)
        → (m' key ≡ m key) ⊎ (m' key ≡ some value)
        → (r ≡ ok tt → m' key ≡ some value)
        → Allowed used m m' (setting key value) (reply (λ _. none) r)
    set-Allowed value (ok _) own done = set_done (Same-updated (some value) (done refl))
    set-Allowed value (err e) (inl h) done = failed (Same-kept h)
    set-Allowed value (err e) (inr h) done = set_late (Same-updated (some value) h)

    pub delete-Allowed :
        (r : Fallible)
        → (m' key ≡ m key) ⊎ (m' key ≡ none)
        → (r ≡ ok tt → m' key ≡ none)
        → Allowed used m m' (deleting key) (reply (λ _. none) r)
    delete-Allowed (ok _) own done = deleted (Same-updated none (done refl))
    delete-Allowed (err e) (inl h) done = failed (Same-kept h)
    delete-Allowed (err e) (inr h) done = deleted_late (Same-updated none h)

  pub get-Allowed :
      (r : Result Bytes)
      → ((k : String) → m' k ≡ m k)
      → ((value : Bytes) → r ≡ ok value → m key ≡ some value)
      → Allowed used m m' (getting key) (reply some r)
  get-Allowed (ok value) held done = got (done value refl) (λ k u. held k)
  get-Allowed (err e) held done = failed (λ k u. held k)

module _ {W : Type 0} where
  -- Calls in a row
  abbrev pub perform_all : (Call → W → Reply × W) → List Call → W → List Reply × W
  perform_all act [] w = ([], w)
  perform_all act (c ∷ cs) w =
      let (r, w1) = act c w in let (rs, w') = perform_all act cs w1 in (r ∷ rs, w')

  pub perform_all-each :
      (used : String → Type 0) (m : W → Memory) (act : Call → W → Reply × W)
      → ((c : Call) (w : W) → used (key_of c) → Allowed used (m w) (m (act c w).1) c (act c w).0)
      → (cs : List Call) (w : W) → AllUsed used cs
      → Allows used (m (perform_all act cs w).1) (m w) cs (perform_all act cs w).0
  perform_all-each used m act each [] w us = nothing
  perform_all-each used m act each (c ∷ cs) w (u, us) =
      next (each c w u) (perform_all-each used m act each cs (act c w).1 us)

-- A call on a keyring
abbrev pub call_on : {W : Type 0} → Keyringer W → Context W → Call → W → Reply × W
call_on k ctx (getting key) w = let (r, w') = k.get ctx key w in (reply some r, w')
call_on k ctx (setting key value) w =
    let (r, w') = k.set ctx key value w in (reply (λ _. none) r, w')
call_on k ctx (deleting key) w = let (r, w') = k.delete ctx key w in (reply (λ _. none) r, w')

-- A call that is refused before it does anything.
pub refused-Allowed :
    {W A : Type 0} (used : String → Type 0) (stored : W → Memory) (f : A → Option Bytes) (c : Call)
    (o : Option GoError) (m : Result A × W) (w : W)
    → Allowed used (stored w) (stored m.1) c (reply f m.0)
    → let x : Result A × W = elim o [ some e ↦ (err e, w) | none ↦ m ] in
      Allowed used (stored w) (stored x.1) c (reply f x.0)
refused-Allowed used stored f c (some e) m w x = failed (λ k u. refl)
refused-Allowed used stored f c none m w x = x
