-- ===== src/Dbus/Keeping.antt =====
-- The steps of the operations of internal/backend/dbus keep the balance of what they acquire.
use common_keyring.Base.{
  ℕ, ◌+◌, String, true, false, Option, none, some, ◌==◌, string_eq, ◌≡◌, refl, arith, Bool-cases,
  inl, inr,
}
use common_keyring.Errors.{GoError, is, Result, ok, err, Action, Fallible}
use common_keyring.Filesystem.Steps.{return, error_of, on_error}
use common_keyring.Dbus.{Bus, cleanup_timeout, default_collection_path}
use common_keyring.Dbus.Faults.{calling, context_error}
use common_keyring.Dbus.Client.{
  is_ended, joined, checked, await, unsubscribe, show, subscribe, listen, handle_prompt, unlock,
  find, open_session, end_session, close_session, close, connect, connected, with_context,
  in_session,
}
use common_keyring.Dbus.Probe.{first_error, close_probe}
use common_keyring.Dbus.Traces.{
  Resource, of_connection, of_channel, of_session, of_match, Traced, traced, taking, giving, quiet,
}
use common_keyring.Dbus.Balance.{
  same_resource, acquires, releases, excused, excused-none, Exact, Takes, Gives, Keeps, Closes,
  gain, one_if, quiet-Exact, giving-Gives, taking-Takes, Exact-Keeps, Keeps-bind, Keeps-bracket,
  finally_with-Returns, finally-Returns,
}

joined-is_ended :
    {A : Type 0} (x : Result A) (status : Fallible)
    → is_ended (error_of (joined x status)) ≡ false
    → is_ended (error_of x) ≡ false
unfolding is_ended is
joined-is_ended (ok a) status h = refl
joined-is_ended (err e) (ok _) h = h
joined-is_ended (err e) (err d) h = ground arith

joined-excused :
    {A : Type 0} (r : Resource) (x : Result A) (status : Fallible)
    → excused r (error_of (joined x status)) ≡ false
    → excused r (error_of x) ≡ false
unfolding excused
joined-excused (of_connection c) x status h = refl
joined-excused (of_channel c) x status h = refl
joined-excused (of_session s) x status h = joined-is_ended x status h
joined-excused (of_match s) x status h = refl

first_error-excused :
    (r : Resource) (x status : Fallible)
    → excused r (error_of (first_error x status)) ≡ false
    → excused r (error_of x) ≡ false
first_error-excused r (ok _) status h = excused-none r
first_error-excused r (err e) status h = h

on_error-gain :
    {A : Type 0} (f : A → Resource) (g : GoError → GoError) (x : Result A) (r : Resource)
    → gain f (on_error g x) r ≡ gain f x r
on_error-gain f g (ok a) r = refl
on_error-gain f g (err e) r = refl

module _ {W K : Type 0} (b : Bus W K) where
  abbrev pub t : Bus (Traced W) K
  t = traced b

  calling-Exact :
      {A : Type 0} (k : K) (operation : String) (m : Action (Traced W) A)
      → Exact m
      → Exact (calling t k operation m)
  unfolding calling
  calling-Exact k operation m x = record { at = λ r s. x.at r s }

  pub calling-Keeps :
      {A : Type 0} (k : K) (operation : String) (m : W → Result A × W)
      → Keeps (calling t k operation (quiet m))
  calling-Keeps k operation m = Exact-Keeps _ (calling-Exact k operation _ (quiet-Exact m))

  pub calling-Takes :
      {A : Type 0} (f : A → Resource) (k : K) (operation : String) (m : Action W A)
      → Takes f (calling t k operation (taking f m))
  unfolding calling
  calling-Takes f k operation m = record {
    at = λ r s. omega (arith, (taking-Takes f m).at r s, on_error-gain f _ (taking f m s).0 r);
  }

  pub calling-Gives :
      {A : Type 0} (q : Resource) (k : K) (operation : String) (m : Action W A)
      → Gives q (calling t k operation (giving q m))
  unfolding calling
  calling-Gives q k operation m = record { at = λ r s. (giving-Gives q m).at r s }

  await-Keeps : (k : K) (c : ℕ) → Keeps (await t k c)
  unfolding await
  await-Keeps k c = record { at = λ r s h. omega arith }

  unsubscribe-Gives : (c : ℕ) (prompt : String) → Gives (of_match prompt) (unsubscribe t c prompt)
  unfolding unsubscribe
  unsubscribe-Gives c prompt = record {
    at = λ r s.
        (giving-Gives (of_match prompt)
            (b.remove_match (t.with_timeout none cleanup_timeout s) c prompt)).at
          r s;
  }

  show-Keeps : (k : K) (c : ℕ) (prompt : String) → Keeps (show t k c prompt)
  unfolding show
  show-Keeps k c prompt =
      Keeps-bind _ _ (calling-Keeps k "show prompt" (b.show_prompt k c prompt))
        (λ _. await-Keeps k c)

  subscribe-Keeps : (k : K) (c : ℕ) (prompt : String) → Keeps (subscribe t k c prompt)
  unfolding subscribe
  subscribe-Keeps k c prompt =
      Keeps-bracket (λ _. of_match prompt) _ _
        (calling-Takes (λ _. of_match prompt) k "subscribe to prompt" (b.add_match k c prompt))
        (λ _.
          finally-Returns (of_match prompt) _ _ (show-Keeps k c prompt)
            (unsubscribe-Gives c prompt))

  listen-Keeps : (k : K) (c : ℕ) (prompt : String) → Keeps (listen t k c prompt)
  unfolding listen acquires releases
  listen-Keeps k c prompt = record {
    at = λ r s h. omega (arith, (subscribe-Keeps k c prompt).at r (t.signal c s) h);
  }

  pub return-Keeps : {A : Type 0} (a : A) → Keeps (return {W = Traced W} a)
  return-Keeps a = record { at = λ r s h. omega arith }

  pub handle_prompt-Keeps : (k : K) (c : ℕ) (prompt : String) → Keeps (handle_prompt t k c prompt)
  unfolding handle_prompt
  handle_prompt-Keeps k c prompt = elim (Bool-cases (prompt == "/")) [
    | inl e ↦ rw e (return-Keeps tt)
    | inr e ↦ rw e (listen-Keeps k c prompt)
  ]

  pub unlock-Keeps : (k : K) (c : ℕ) (object : String) → Keeps (unlock t k c object)
  unfolding unlock
  unlock-Keeps k c object =
      Keeps-bind _ _ (calling-Keeps k "unlock credential store object" (b.unlock k c object))
        (handle_prompt-Keeps k c)

  pub find-Keeps : (k : K) (c : ℕ) (service key : String) → Keeps (find t k c service key)
  unfolding find
  find-Keeps k c service key =
      Keeps-bind _ _
        (calling-Keeps k "find credential" (b.search_items k c default_collection_path key service))
        (λ items. record { at = λ r s h. omega arith })

  end_session-Closes :
      {A : Type 0} (c : ℕ) (session : String)
      → Closes {A = A} (of_session session) (end_session t c session)
  unfolding end_session
  end_session-Closes c session = record {
    at = λ r x s h. (
      joined-excused r x _ h,
      (calling-Gives (of_session session) (t.with_timeout none cleanup_timeout s)
            "close operation session"
            (b.close_session (t.with_timeout none cleanup_timeout s) c session)).at
          r s,
    );
  }

  -- A session that stays open behind an error of the context is excused.
  left_open :
      (r : Resource) (session : String) (e : Option GoError)
      → is_ended e ≡ true
      → excused r e ≡ false
      → one_if r (of_session session) ≡ 0
  unfolding excused same_resource
  left_open (of_connection c) session e h x = refl
  left_open (of_channel c) session e h x = refl
  left_open (of_session s) session e h x = cc
  left_open (of_match s) session e h x = refl

  close_session-Closes :
      {A : Type 0} (c : ℕ) (session : String)
      → Closes {A = A} (of_session session) (close_session t c session)
  unfolding close_session
  close_session-Closes c session = record {
    at = λ r x s. elim (Bool-cases (is_ended (error_of x))) [
      | inl e ↦ rw e (λ h. (h, omega (arith, left_open r session (error_of x) e h)))
      | inr e ↦ rw e ((end_session-Closes c session).at r x s)
    ];
  }

  close-Closes : {A : Type 0} (c : ℕ) → Closes {A = A} (of_connection c) (close t c)
  unfolding close
  close-Closes c = record {
    at = λ r x s h. (joined-excused r x _ h, (giving-Gives (of_connection c) (b.close c)).at r s);
  }

  pub close_probe-Closes : (c : ℕ) → Closes (of_connection c) (close_probe t c)
  unfolding close_probe
  close_probe-Closes c = record {
    at = λ r x s h.
        (first_error-excused r x _ h, (giving-Gives (of_connection c) (b.close c)).at r s);
  }

  pub connected-Keeps :
      {A : Type 0} (k : K) (body : ℕ → Action (Traced W) A)
      → ((c : ℕ) → Keeps (body c))
      → Keeps (connected t k body)
  unfolding connected connect
  connected-Keeps k body x =
      Keeps-bracket of_connection _ _
        (calling-Takes of_connection k "connect to session bus" (b.connect k))
        (λ c. finally_with-Returns (of_connection c) _ _ (x c) (close-Closes c))

  pub in_session-Keeps :
      {A : Type 0} (k : K) (c : ℕ) (body : String → Action (Traced W) A)
      → ((session : String) → Keeps (body session))
      → Keeps (in_session t k c body)
  unfolding in_session open_session
  in_session-Keeps k c body x =
      Keeps-bracket of_session _ _
        (calling-Takes of_session k "open operation session" (b.open_session k c))
        (λ session.
          finally_with-Returns (of_session session) _ _ (x session)
            (close_session-Closes c session))

  checked-Keeps :
      {A : Type 0} (e : Option GoError) (m : Action (Traced W) A) (r : Resource) (s : Traced W)
      → Keeps m
      → excused r (error_of (checked e m s).0) ≡ false
      → acquires r (checked e m s).1.1 + releases r s.1
        ≡ releases r (checked e m s).1.1 + acquires r s.1
  checked-Keeps none m r s x h = omega (arith, x.at r s h)
  checked-Keeps (some e) m r s x h = omega arith

  pub with_context-Keeps :
      {A : Type 0} (ctx : Option K) (body : K → Action (Traced W) A)
      → ((k : K) → Keeps (body k))
      → Keeps (with_context t ctx body)
  unfolding with_context
  with_context-Keeps none body x = record { at = λ r s h. omega arith }
  with_context-Keeps (some k) body x = record {
    at = λ r s h. omega (arith, checked-Keeps (context_error t (some k) s) (body k) r s (x k) h);
  }
