-- ===== src/Fake/Stored.antt =====
-- The keyring in memory as a map from usernames to secrets.
use mathlib.Core.Path.{ap₂}
use common_keyring.Base.{
  String, true, Option, none, some, ◌==◌, string_eq, if◌then◌else◌, Bool-cases, inl, inr, ◌≡◌, refl,
  sym, ap, ◌∙◌, eq_iff,
}
use common_keyring.Errors.{GoError, not_found, cat, Result, ok, err}
use common_keyring.Contract.{Context, context_error, Bytes}
use common_keyring.Fake.{
  Fake, contents_of, init, entry_of, assign, operate, with_errors, found, get, set, remove, delete,
}

-- The secret of a username in the keyring's service.
unfoldable pub stored : Fake → String → Option Bytes
unfolding init entry_of
stored k username = contents_of k.storage (entry_of (init k) username)

abbrev named : String → String
named service = if service == "" then "fake" else service

named_again : (service : String) → named (named service) ≡ named service
named_again service = elim (Bool-cases (service == "")) [
  | inl t ↦ rw t refl
  | inr t ↦ rw (t, t) refl
]

text_is_itself : (s : String) → (s == s) ≡ true
text_is_itself s = (eq_iff s s).1 refl

stored-init : (k : Fake) (other : String) → stored (init k) other ≡ stored k other
unfolding stored init entry_of
stored-init k other =
    ap (λ s. contents_of k.storage (record { service = s; username = other }))
      (named_again k.service)

got_entry :
    (k : Fake) (username : String)
    → contents_of (init k).storage (entry_of (init k) username) ≡ stored k username
unfolding stored init
got_entry k username = refl

stored-assign :
    (k : Fake) (username other : String) (value : Option Bytes)
    → stored (assign (entry_of (init k) username) value (init k)) other
      ≡ (if other == username then value else stored k other)
unfolding stored init entry_of assign
stored-assign k username other value =
    rw (named_again k.service, text_is_itself (named k.service)) refl

stored-remove :
    (k : Fake) (username other : String)
    → (o : Option Bytes) → stored k username ≡ o
    → stored (remove username o (init k)).1 other
      ≡ (if other == username then none else stored k other)
unfolding remove
stored-remove k username other (some value) h = stored-assign k username other none
stored-remove k username other none h =
    stored-init k other ∙ elim (Bool-cases (other == username)) [
      | inl t ↦ rw t (ap (stored k) ((eq_iff other username).0 t) ∙ h)
      | inr t ↦ rw t refl
    ]

-- What a deletion returns for the secret that there was.
abbrev pub gone_of : Option Bytes → Result (Unit {0})
gone_of none = err (cat not_found)
gone_of (some value) = ok tt

remove-gone :
    (k : Fake) (username : String) (o : Option Bytes)
    → stored k username ≡ o
    → (remove username o (init k)).0 ≡ gone_of (stored k username)
unfolding remove
remove-gone k username none h = ap gone_of (sym h)
remove-gone k username (some value) h = ap gone_of (sym h)

operate-calm :
    {A : Type 0} (ctx : Context Fake) (act : Fake → Result A × Fake) (k : Fake)
    → context_error ctx k ≡ none
    → k.failure ≡ none
    → operate ctx act k ≡ act (init k)
unfolding operate
operate-calm ctx act k h f = ap₂ (λ c d. with_errors c d act k) h f

-- What each operation returns, and what it leaves of every username's secret, when neither its
-- context nor the keyring has an error.
pub operations-stored :
    (ctx : Context Fake) (k : Fake) (username other : String) (value : Bytes)
    → context_error ctx k ≡ none
    → k.failure ≡ none
    → ((get ctx username k).0 ≡ found (stored k username))
      × (stored (get ctx username k).1 other ≡ stored k other)
      × ((set ctx username value k).0 ≡ ok tt)
      × (stored (set ctx username value k).1 other
          ≡ (if other == username then some value else stored k other))
      × ((delete ctx username k).0 ≡ gone_of (stored k username))
      × (stored (delete ctx username k).1 other
          ≡ (if other == username then none else stored k other))
unfolding get set delete
operations-stored ctx k username other value h f =
    let got =
      operate-calm ctx (λ k. (found (contents_of k.storage (entry_of k username)), k)) k h f in
    let did = operate-calm ctx (λ k. (ok tt, assign (entry_of k username) (some value) k)) k h f in
    let gone =
      operate-calm ctx (λ k. remove username (contents_of k.storage (entry_of k username)) k) k h
        f in
    (
      ap (λ p. p.0) got ∙ ap found (got_entry k username),
      ap (λ p. stored p.1 other) got ∙ stored-init k other,
      ap (λ p. p.0) did,
      ap (λ p. stored p.1 other) did ∙ stored-assign k username other (some value),
      ap (λ p. p.0) gone ∙ remove-gone k username _ (sym (got_entry k username)),
      ap (λ p. stored p.1 other) gone
          ∙ stored-remove k username other _ (sym (got_entry k username)),
    )

failed-with :
    (c d : Option GoError) (act : Fake → Result (Unit {0}) × Fake) (k : Fake) (other : String)
    (e : GoError)
    → ((act (init k)).0 ≡ err e → stored (act (init k)).1 other ≡ stored k other)
    → (with_errors c d act k).0 ≡ err e
    → stored (with_errors c d act k).1 other ≡ stored k other
unfolding with_errors
failed-with (some x) d act k other e keeps h = refl
failed-with none (some x) act k other e keeps h = stored-init k other
failed-with none none act k other e keeps h = keeps h

remove-failed :
    (k : Fake) (username other : String) (o : Option Bytes) (e : GoError)
    → (remove username o (init k)).0 ≡ err e
    → stored (remove username o (init k)).1 other ≡ stored k other
unfolding remove
remove-failed k username other none e h = stored-init k other
remove-failed k username other (some value) e h = cc

-- A `Set` that returns an error changes no username's secret.
set-failed_stored :
    (ctx : Context Fake) (k : Fake) (username other : String) (value : Bytes) (e : GoError)
    → (set ctx username value k).0 ≡ err e
    → stored (set ctx username value k).1 other ≡ stored k other
unfolding set operate
set-failed_stored ctx k username other value e h =
    failed-with (context_error ctx k) k.failure _ k other e (λ g. cc) h

-- A `Delete` that returns an error changes no username's secret.
delete-failed_stored :
    (ctx : Context Fake) (k : Fake) (username other : String) (e : GoError)
    → (delete ctx username k).0 ≡ err e
    → stored (delete ctx username k).1 other ≡ stored k other
unfolding delete operate
delete-failed_stored ctx k username other e h =
    failed-with (context_error ctx k) k.failure _ k other e (remove-failed k username other _ e) h
