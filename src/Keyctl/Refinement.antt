-- ===== src/Keyctl/Refinement.antt =====
-- The keyring of internal/backend/keyctl/keyring_linux.go as a map from keys to secrets.
use mathlib.Core.Path.{subst}
use common_keyring.Base.{
  ℕ, String, Bool, true, false, Option, none, some, List, ◌==◌, string_eq, length, ltb,
  if◌then◌else◌, ◌≡◌, ◌≢◌, refl, sym, ◌∙◌, ap, eq_iff,
}
use common_keyring.Errors.{Fallible, ok, err, ok-eq, wrap1, cat, value_too_large}
use common_keyring.Contract.{Context, context_error, Bytes, Keyringer}
use common_keyring.Contract.Memory.{
  Memory, Call, getting, setting, deleting, key_of, reply, Allowed, get-Allowed, set-Allowed,
  delete-Allowed, refused-Allowed, AllUsed, Allows, perform_all, perform_all-each, call_on,
}
use common_keyring.Filesystem.Steps.Runs.{bind-ok, relabel-ok}
use common_keyring.Keyctl.{
  Kernel, user_key_payload_limit, key_name, with_context, get, add, set, delete, open_session,
}
use common_keyring.Keyctl.Laws.{Keys, KeyLaws}
use common_keyring.Keyctl.Stored.{get-Read, Changed, add-Changed, delete-Changed, unchanged}

module _ {W : Type 0} (k : Kernel W) (v : Keys W) (service : String) where
  -- What the keys of a service hold
  abbrev pub stored : W → Memory
  stored w key = v.holds w (key_name k service key)

  -- Keys that have different descriptions.
  abbrev pub Apart : (String → Type 0) → Type 0
  Apart used =
      (a b : String) → used a → used b → key_name k service a ≡ key_name k service b → a ≡ b

  -- The keyring of a session
  abbrev ring : ℕ → Keyringer W
  ring session = record {
    get = get k session service;
    set = set k session service;
    delete = delete k session service;
  }

  module _ (session : ℕ) (laws : KeyLaws k v session) (used : String → Type 0)
      (apart : Apart used) where
    name-apart :
        (a key : String)
        → used a
        → used key
        → (a == key) ≡ false
        → key_name k service a ≢ key_name k service key
    name-apart a key x y h e = let same = (eq_iff a key).1 (apart a key x y e) in cc

    module _ (key : String) (w w' : W) (u : used key) where
      Changed-off :
          (secret : Option Bytes) (r : Fallible)
          → Changed k v session laws (key_name k service key) secret w r w'
          → (a : String) → used a
          → (a == key) ≡ false
          → stored w' a ≡ stored w a
      Changed-off secret r x a y e = x.off _ (name-apart a key y u e)

      set_done-Allowed :
          (value : Bytes) (r : Fallible)
          → Changed k v session laws (key_name k service key) (some value) w r w'
          → Allowed used (stored w) (stored w') (setting key value) (reply (λ _. none) r)
      set_done-Allowed value r x =
          set-Allowed used (stored w) (stored w') key (Changed-off (some value) r x) value r x.own
            x.done

      deleted-Allowed :
          (r : Fallible)
          → Changed k v session laws (key_name k service key) none w r w'
          → Allowed used (stored w) (stored w') (deleting key) (reply (λ _. none) r)
      deleted-Allowed r x =
          delete-Allowed used (stored w) (stored w') key (Changed-off none r x) r x.own x.done

    within-Changed :
        (key : String) (value : Bytes) (w : W) (large : Bool)
        → let x =
            (if large
                then (λ w.
                    (err (wrap1 "kernel key payload exceeds bytes" (cat value_too_large)), w))
                else add k session service key value)
              w in
          Changed k v session laws (key_name k service key) (some value) w x.0 x.1
    within-Changed key value w true =
        unchanged k v session laws (key_name k service key) (some value) w w _ (λ q. refl)
    within-Changed key value w false = add-Changed k v session laws service key value w

    call_on-Allowed :
        (ctx : Context W) (c : Call) (w : W)
        → used (key_of c)
        → Allowed used
            (stored w)
            (stored (call_on (ring session) ctx c w).1)
            c
            (call_on (ring session) ctx c w).0
    unfolding get set delete with_context
    call_on-Allowed ctx (getting key) w u =
        let x = get-Read k v session laws service key w in
        refused-Allowed used stored some (getting key) (context_error ctx w) _ w
          (get-Allowed used _ _ key _ (λ a. x.held (key_name k service a)) x.done)
    call_on-Allowed ctx (setting key value) w u =
        refused-Allowed used stored (λ _. none) (setting key value) (context_error ctx w) _ w
          (set_done-Allowed key w _ u value _
            (within-Changed key value w (ltb user_key_payload_limit (length value))))
    call_on-Allowed ctx (deleting key) w u =
        refused-Allowed used stored (λ _. none) (deleting key) (context_error ctx w) _ w
          (deleted-Allowed key w _ u _ (delete-Changed k v session laws service key w))

  open_session-ok :
      (session : ℕ) (w w' : W) (n : Keyringer W)
      → (k.get_keyring_id w).0 ≡ ok session
      → open_session k service w ≡ (ok n, w')
      → ring session ≡ n
  unfolding open_session
  open_session-ok session w w' n s h =
      let (id, w1, e, j) = bind-ok _ _ w w' n h in
      ap ring (ok-eq (sym s ∙ ap (λ p. p.0) (relabel-ok _ k.get_keyring_id w w1 id e)))
      ∙ ok-eq (ap (λ p. p.0) j)

  -- The kernel keyring refines a map from keys to secrets: calls in a row on a keyring that was
  -- opened, in whatever contexts and states of the kernel, answer as those of the map may, and leave
  -- what the map then holds. A call of the map that fails has no effect, or its whole effect. The
  -- kernel behaves as documented on the keys of the session, and no two of the keys that are used
  -- have a description in common.
  pub open_session-Allows :
      (session : ℕ) (n : Keyringer W) (ctx : Context W) (used : String → Type 0) (cs : List Call)
      (w0 w1 w : W)
      → KeyLaws k v session
      → Apart used
      → (k.get_keyring_id w0).0 ≡ ok session
      → open_session k service w0 ≡ (ok n, w1)
      → AllUsed used cs
      → Allows used
          (stored (perform_all (call_on n ctx) cs w).1)
          (stored w)
          cs
          (perform_all (call_on n ctx) cs w).0
  open_session-Allows session n ctx used cs w0 w1 w laws apart s o us =
      perform_all-each used stored (call_on n ctx)
        (subst
          (λ n.
            (c : Call) (w : W)
            → used (key_of c)
            → Allowed used (stored w) (stored (call_on n ctx c w).1) c (call_on n ctx c w).0)
          (open_session-ok session w0 w1 n s o) (call_on-Allowed session laws used apart ctx))
        cs w us
