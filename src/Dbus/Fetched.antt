-- ===== src/Dbus/Fetched.antt =====
-- What `get` of internal/backend/dbus/client.go has done where it returns a value.
use common_keyring.Base.{
  ℕ, String, Option, none, some, List, [], ◌∷◌, ◌≡◌, refl, sym, ap, ◌∙◌, pair-eq, Bool-cases, inl,
  inr,
}
use common_keyring.Errors.{GoError, Result, ok, err, Action, Fallible, ok-eq}
use common_keyring.Contract.{Bytes}
use common_keyring.Filesystem.Steps.{finally_with}
use common_keyring.Filesystem.Steps.Runs.{on_error-ok, bind-ok}
use common_keyring.Dbus.{Bus, SecretValue, cleanup_timeout, default_collection_path}
use common_keyring.Dbus.Faults.{calling, context_error}
use common_keyring.Dbus.Client.{
  is_ended, joined, checked, first_item, unlock, find, open_session, end_session, close_session,
  close, connect, connected, with_context, in_session, get_value, get_in, get,
}

joined-ok :
    {A : Type 0} (x : Result A) (status : Fallible) (a : A)
    → joined x status ≡ ok a
    → (x ≡ ok a) × (status ≡ ok tt)
joined-ok (ok b) (ok _) a h = (h, refl)
joined-ok (ok b) (err e) a h = cc
joined-ok (err d) (ok _) a h = cc
joined-ok (err d) (err e) a h = cc

first_item-ok :
    (items : List String) (item : String)
    → first_item items ≡ ok item
    → (others : List String) × (items ≡ item ∷ others)
first_item-ok [] item h = cc
first_item-ok (first ∷ others) item h = (others, ap (λ i. i ∷ others) (ok-eq h))

checked-ok :
    {W A : Type 0} (e : Option GoError) (m : Action W A) (w w' : W) (a : A)
    → checked e m w ≡ (ok a, w')
    → (e ≡ none) × (m w ≡ (ok a, w'))
checked-ok none m w w' a h = (refl, h)
checked-ok (some e) m w w' a h = cc

module _ {W K : Type 0} (b : Bus W K) where
  calling-ok :
      {A : Type 0} (k : K) (operation : String) (m : Action W A) (w w' : W) (a : A)
      → calling b k operation m w ≡ (ok a, w')
      → m w ≡ (ok a, w')
  unfolding calling
  calling-ok k operation m w w' a h =
      pair-eq _ (on_error-ok _ (m w).0 a (ap (λ p. p.0) h)) (ap (λ p. p.1) h)

  close-ok :
      {A : Type 0} (c : ℕ) (x : Result A) (w w' : W) (a : A)
      → close b c x w ≡ (ok a, w')
      → (x ≡ ok a) × (b.close c w ≡ (ok tt, w'))
  unfolding close
  close-ok c x w w' a h =
      let (e, s) = joined-ok x _ a (ap (λ p. p.0) h) in
      (e, pair-eq _ (on_error-ok _ (b.close c w).0 tt s) (ap (λ p. p.1) h))

  end_session-ok :
      {A : Type 0} (c : ℕ) (session : String) (x : Result A) (w w' : W) (a : A)
      → end_session b c session x w ≡ (ok a, w')
      → (x ≡ ok a)
        × (b.close_session (b.with_timeout none cleanup_timeout w) c session w ≡ (ok tt, w'))
  unfolding end_session
  end_session-ok c session x w w' a h =
      let cleanup = b.with_timeout none cleanup_timeout w in
      let (e, s) = joined-ok x _ a (ap (λ p. p.0) h) in
      (
        e,
        calling-ok cleanup "close operation session" (b.close_session cleanup c session) w w' tt
            (pair-eq _ s (ap (λ p. p.1) h)),
      )

  close_session-ok :
      {A : Type 0} (c : ℕ) (session : String) (x : Result A) (w w' : W) (a : A)
      → close_session b c session x w ≡ (ok a, w')
      → (x ≡ ok a)
        × (b.close_session (b.with_timeout none cleanup_timeout w) c session w ≡ (ok tt, w'))
  unfolding close_session is_ended
  close_session-ok c session (ok y) w w' a h = end_session-ok c session (ok y) w w' a h
  close_session-ok c session (err e) w w' a h = elim (Bool-cases (is_ended (some e))) [
    | inl i ↦ cc (rw i at h)
    | inr i ↦ cc (end_session-ok c session (err e) w w' a (rw i at h)).0
  ]

  -- The run of a get: the collection is unlocked, the item is the first that the search for the two
  -- attributes finds, it is unlocked, and its secret is read in a session; then the session and the
  -- connection are closed.
  pub record Fetched (ctx : Option K) (service key : String) (value : Bytes) (w w' : W)
      : Type 0 where
    pub k : K
    pub context : ctx ≡ some k
    pub live : context_error b (some k) w ≡ none
    pub c : ℕ
    pub item : String
    pub others : List String
    pub session : String
    pub secret : SecretValue
    pub w1 : W
    pub w2 : W
    pub w3 : W
    pub w4 : W
    pub w5 : W
    pub w6 : W
    pub w7 : W
    pub connected_bus : b.connect k w ≡ (ok c, w1)
    pub unlocked : unlock b k c default_collection_path w1 ≡ (ok tt, w2)
    pub searched :
        b.search_items k c default_collection_path key service w2 ≡ (ok (item ∷ others), w3)
    pub unlocked_item : unlock b k c item w3 ≡ (ok tt, w4)
    pub opened : b.open_session k c w4 ≡ (ok session, w5)
    pub read : b.get_secret k c item session w5 ≡ (ok secret, w6)
    pub returned : value ≡ secret.value
    pub ended : b.close_session (b.with_timeout none cleanup_timeout w6) c session w6 ≡ (ok tt, w7)
    pub disconnected : b.close c w7 ≡ (ok tt, w')

  find-ok :
      (k : K) (c : ℕ) (service key : String) (w w' : W) (item : String)
      → find b k c service key w ≡ (ok item, w')
      → (others : List String) × (b.search_items k c default_collection_path key service w
          ≡ (ok (item ∷ others), w'))
  unfolding find
  find-ok k c service key w w' item h =
      let (items, w1, s, e) = bind-ok _ _ w w' item h in
      let (others, f) = first_item-ok items item (ap (λ p. p.0) e) in
      (
        others,
        calling-ok k "find credential" _ w w1 items s ∙ pair-eq _ (ap ok f) (ap (λ p. p.1) e),
      )

  get_value-ok :
      (k : K) (c : ℕ) (item session : String) (value : Bytes) (w w' : W)
      → get_value b k c item session w ≡ (ok value, w')
      → (secret : SecretValue) × (b.get_secret k c item session w ≡ (ok secret, w'))
        × (value ≡ secret.value)
  unfolding get_value
  get_value-ok k c item session value w w' h =
      let (secret, w1, r, e) = bind-ok _ _ w w' value h in
      (
        secret,
        calling-ok k "get credential" (b.get_secret k c item session) w w1 secret r
            ∙ pair-eq _ refl (ap (λ p. p.1) e),
        sym (ok-eq (ap (λ p. p.0) e)),
      )

  with_context-ok :
      {A : Type 0} (ctx : Option K) (body : K → Action W A) (w w' : W) (a : A)
      → with_context b ctx body w ≡ (ok a, w')
      → (k : K) × (ctx ≡ some k) × (context_error b (some k) w ≡ none) × (body k w ≡ (ok a, w'))
  unfolding with_context
  with_context-ok none body w w' a h = cc
  with_context-ok (some k) body w w' a h =
      let (e, r) = checked-ok _ (body k) w w' a h in (k, refl, e, r)

  -- A value that `get` returns is the secret of the first item of the default collection that has
  -- the service and the key for its attributes, read after the collection and the item were
  -- unlocked, in a session and on a connection that were then closed without an error.
  pub get-Fetched :
      (ctx : Option K) (service key : String) (value : Bytes) (w w' : W)
      → get b ctx service key w ≡ (ok value, w')
      → Fetched ctx service key value w w'
  unfolding get connected connect get_in in_session open_session finally_with
  get-Fetched ctx service key value w w' h =
      let (k, e, live, r) = with_context-ok ctx _ w w' value h in
      let (c, w1, co, r1) = bind-ok _ _ w w' value r in
      let inner = get_in b k service key c w1 in
      let (r2, dis) = close-ok c inner.0 inner.1 w' value r1 in
      let (_, w2, un, r3) = bind-ok _ _ w1 inner.1 value (pair-eq _ r2 refl) in
      let (item, w3, fi, r4) = bind-ok _ _ w2 inner.1 value r3 in
      let (others, se) = find-ok k c service key w2 w3 item fi in
      let (_, w4, ui, r5) = bind-ok _ _ w3 inner.1 value r4 in
      let (session, w5, op, r6) = bind-ok _ _ w4 inner.1 value r5 in
      let read_run = get_value b k c item session w5 in
      let (r7, en) = close_session-ok c session read_run.0 read_run.1 inner.1 value r6 in
      let (secret, re, ret) =
        get_value-ok k c item session value w5 read_run.1 (pair-eq _ r7 refl) in
      record {
        k = k;
        context = e;
        live = live;
        c = c;
        item = item;
        others = others;
        session = session;
        secret = secret;
        w1 = w1;
        w2 = w2;
        w3 = w3;
        w4 = w4;
        w5 = w5;
        w6 = read_run.1;
        w7 = inner.1;
        connected_bus = calling-ok k "connect to session bus" (b.connect k) w w1 c co;
        unlocked = un;
        searched = se;
        unlocked_item = ui;
        opened = calling-ok k "open operation session" (b.open_session k c) w4 w5 session op;
        read = re;
        returned = ret;
        ended = en;
        disconnected = dis;
      }
