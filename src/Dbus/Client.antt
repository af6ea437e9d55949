-- ===== src/Dbus/Client.antt =====
-- internal/backend/dbus/client.go: the operations on the default collection. After the first check
-- of the context it is not nil.
use common_keyring.Base.{
  ℕ, String, ◌<>◌, Bool, true, false, not, ◌||◌, Option, none, some, List, [], ◌∷◌, length, ltb,
  ◌==◌, string_eq, if◌then◌else◌,
}
use common_keyring.Errors.{
  GoError, canceled, deadline_exceeded, not_found, backend_failure, interaction_required, cat,
  wrap1, wrap2, is, Result, ok, err, Action, Fallible,
}
use common_keyring.Contract.{Bytes}
use common_keyring.Filesystem.Steps.{
  return, ◌>>=◌, ◌>>◌, finally, finally_with, on_error, join, error_of, or_error, with_error,
}
use common_keyring.Dbus.{
  Bus, SecretValue, BodyValue, boolean, another, Signal, Wake, done, closed, received,
  default_collection_path, completed_member, item_label_prefix, cleanup_timeout,
}
use common_keyring.Dbus.Faults.{nil_context, context_error, calling}

-- The body of a completion of a prompt: whether it was dismissed.
abbrev pub dismissal : List BodyValue → Fallible
dismissal [] = err (wrap1 "invalid prompt completion" (cat backend_failure))
dismissal (another ∷ rest) = err (wrap1 "invalid prompt completion" (cat backend_failure))
dismissal (boolean true ∷ rest) =
    err (wrap1 "Secret Service prompt was dismissed" (cat interaction_required))
dismissal (boolean false ∷ rest) = ok tt

-- The signal that `handlePrompt` receives.
unfoldable pub completion : Signal → Fallible
completion s =
    if not (s.name == completed_member) || ltb (length s.body) 2
    then err (wrap1 "invalid prompt completion" (cat backend_failure))
    else dismissal s.body

-- `errors.Join` of a result with the error of a deferred call.
abbrev pub joined : {A : Type 0} → Result A → Fallible → Result A
joined r (ok _) = r
joined r (err e) = with_error r (join (error_of r) (some e))

-- The test of `closeSession` on the result so far.
unfoldable pub is_ended : Option GoError → Bool
is_ended none = false
is_ended (some e) = is e canceled || is e deadline_exceeded

-- `find` on the items that were found
abbrev pub first_item : List String → Result String
first_item [] = err (wrap1 "find credential" (cat not_found))
first_item (item ∷ items) = ok item

abbrev pub checked : {W A : Type 0} → Option GoError → Action W A → Action W A
checked none m w = m w
checked (some e) m w = (err e, w)

-- The value that `set` sends.
abbrev pub sent : String → Bytes → SecretValue
sent session value = record {
  session = session;
  parameters = [];
  value = value;
  content_type = "application/octet-stream";
}

module _ {W K : Type 0} (b : Bus W K) where
  -- `promptChannelError`
  unfoldable pub prompt_channel_error : K → W → GoError
  unfolding context_error
  prompt_channel_error k w = elim (context_error b (some k) w) [
    | some e ↦ e
    | none ↦ wrap1 "prompt signal channel closed" (cat backend_failure)
  ]

  -- The cases of `select` in `handlePrompt`; each one returns.
  unfoldable pub woken : K → Wake → W → Fallible
  unfolding context_error prompt_channel_error completion
  woken k done w = or_error tt (context_error b (some k) w)
  woken k closed w = err (prompt_channel_error k w)
  woken k (received s) w = completion s

  unfoldable pub await : K → ℕ → Action W (Unit {0})
  unfolding woken
  await k c w = let (wake, w') = b.wait k c w in (woken k wake w', w')

  -- The deferred removal of the match rule, under a context of its own.
  unfoldable pub unsubscribe : ℕ → String → Action W (Unit {0})
  unsubscribe c prompt w = b.remove_match (b.with_timeout none cleanup_timeout w) c prompt w

  -- `handlePrompt` behind the subscription
  unfoldable pub show : K → ℕ → String → Action W (Unit {0})
  unfolding await
  show k c prompt = calling b k "show prompt" (b.show_prompt k c prompt) >> await k c

  unfoldable pub subscribe : K → ℕ → String → Action W (Unit {0})
  unfolding show unsubscribe
  subscribe k c prompt =
      calling b k "subscribe to prompt" (b.add_match k c prompt)
      >> finally (show k c prompt) (unsubscribe c prompt)

  -- `handlePrompt` between the registration of the channel and its removal
  unfoldable pub listen : K → ℕ → String → Action W (Unit {0})
  unfolding subscribe
  listen k c prompt w =
      let (r, w') = subscribe k c prompt (b.signal c w) in (r, b.remove_signal c w')

  -- `handlePrompt`
  unfoldable pub handle_prompt : K → ℕ → String → Action W (Unit {0})
  unfolding listen
  handle_prompt k c prompt = if prompt == "/" then return tt else listen k c prompt

  -- `unlock`
  unfoldable pub unlock : K → ℕ → String → Action W (Unit {0})
  unfolding handle_prompt
  unlock k c object =
      calling b k "unlock credential store object" (b.unlock k c object) >>= handle_prompt k c

  -- `find`
  unfoldable pub find : K → ℕ → String → String → Action W String
  find k c service key =
      calling b k "find credential" (b.search_items k c default_collection_path key service)
      >>= λ items w. (first_item items, w)

  -- `openSession`
  unfoldable pub open_session : K → ℕ → Action W String
  open_session k c = calling b k "open operation session" (b.open_session k c)

  -- `closeSession` for a result that is not that of a context
  unfoldable pub end_session : {A : Type 0} → ℕ → String → Result A → Action W A
  end_session c session r w =
      let cleanup = b.with_timeout none cleanup_timeout w in
      let (status, w') =
        calling b cleanup "close operation session" (b.close_session cleanup c session) w in
      (joined r status, w')

  -- `closeSession`
  unfoldable pub close_session : {A : Type 0} → ℕ → String → Result A → Action W A
  unfolding is_ended end_session
  close_session c session r w = if is_ended (error_of r) then (r, w) else end_session c session r w

  -- `close`
  unfoldable pub close : {A : Type 0} → ℕ → Result A → Action W A
  close c r w =
      let (status, w') = b.close c w in
      (joined r (on_error (wrap2 "close session bus" (cat backend_failure)) status), w')

  -- `connect`
  unfoldable pub connect : K → Action W ℕ
  connect k = calling b k "connect to session bus" (b.connect k)

  -- An operation between `connect` and the deferred `close`.
  unfoldable pub connected : {A : Type 0} → K → (ℕ → Action W A) → Action W A
  unfolding connect close
  connected k body = connect k >>= λ c. finally_with (body c) (close c)

  -- The check of the context that `connect` begins with: a nil context ends the operation.
  unfoldable pub with_context : {A : Type 0} → Option K → (K → Action W A) → Action W A
  unfolding context_error
  with_context none body w = (err nil_context, w)
  with_context (some k) body w = checked (context_error b (some k) w) (body k) w

  unfoldable pub in_session : {A : Type 0} → K → ℕ → (String → Action W A) → Action W A
  unfolding open_session close_session
  in_session k c body =
      open_session k c >>= λ session. finally_with (body session) (close_session c session)

  unfoldable pub get_value : K → ℕ → String → String → Action W Bytes
  get_value k c item session =
      calling b k "get credential" (b.get_secret k c item session) >>= λ secret. return secret.value

  unfoldable pub get_in : K → String → String → ℕ → Action W Bytes
  unfolding unlock find in_session get_value
  get_in k service key c =
      unlock k c default_collection_path
      >> (find k c service key >>= λ item. unlock k c item >> in_session k c (get_value k c item))

  -- `get`
  unfoldable pub get : Option K → String → String → Action W Bytes
  unfolding with_context connected get_in
  get ctx service key = with_context ctx (λ k. connected k (get_in k service key))

  unfoldable pub create : K → ℕ → String → String → Bytes → String → Action W (Unit {0})
  unfolding unlock handle_prompt
  create k c service key value session =
      unlock k c default_collection_path
      >> (calling b k "set credential" (
            b.create_item k c default_collection_path (item_label_prefix <> ": " <> key) key service
              (sent session value))
          >>= λ paths. handle_prompt k c paths.1)

  unfoldable pub set_in : K → String → String → Bytes → ℕ → Action W (Unit {0})
  unfolding in_session create
  set_in k service key value c = in_session k c (create k c service key value)

  -- `set`
  unfoldable pub set : Option K → String → String → Bytes → Action W (Unit {0})
  unfolding with_context connected set_in
  set ctx service key value = with_context ctx (λ k. connected k (set_in k service key value))

  unfoldable pub remove_in : K → String → String → ℕ → Action W (Unit {0})
  unfolding unlock find handle_prompt
  remove_in k service key c =
      unlock k c default_collection_path
      >> (find k c service key >>= λ item.
          unlock k c item
          >> (calling b k "delete credential" (b.delete_item k c item) >>= handle_prompt k c))

  -- `remove`
  unfoldable pub remove : Option K → String → String → Action W (Unit {0})
  unfolding with_context connected remove_in
  remove ctx service key = with_context ctx (λ k. connected k (remove_in k service key))
