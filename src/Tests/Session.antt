-- ===== src/Tests/Session.antt =====
-- Concrete uses of what is shown of internal/backend/keyctl.
use common_keyring.Filesystem.Layout.{hex}
use common_keyring.Base.{
  ◌≤◌, ℕ, zero, suc, ◌+◌, nat_eq, String, true, false, Option, none, some, List, [], ◌∷◌, ◌==◌,
  string_eq, length, drop, take, leb, if◌then◌else◌, ◌≡◌, ◌≢◌, refl, sym, ◌∙◌, ap, inl, inr,
  Bool-cases, eq_iff, arith,
}
use common_keyring.Errors.{ok, err, Action, leaf, errno, enokey, eperm, ok-eq}
use common_keyring.Contract.{Bytes, Keyringer}
use common_keyring.Filesystem.Steps.{◌>>=◌, relabel}
use common_keyring.Keyctl.{Kernel, read_key_contents, key_name, open_session, get, set, delete}
use common_keyring.Keyctl.Laws.{Keys, Still, KeyLaws}
use common_keyring.Keyctl.Refinement.{stored, Apart, open_session-Allows}
use common_keyring.Contract.Memory.{Call, getting, setting, deleting, Allows, perform_all, call_on}
use common_keyring.Keyctl.Payload.{HoldsPayload, read_key_contents-payload}

abbrev secret : Bytes
secret = 1 ∷ 2 ∷ []

-- A kernel in which each key has this secret; a buffer has a byte more than is used.
abbrev kernel : Kernel ℕ
kernel = record {
  get_keyring_id = λ w. (ok 1, w);
  search_key = λ session name w. (ok 7, w);
  add_key = λ name value session w. (ok 7, w + 1);
  size = λ key w. (ok 2, w);
  buffer = λ key n w. (ok (1 ∷ 2 ∷ 0 ∷ [], 2), w);
  unlink = λ key session w. (ok 0, w + 1);
  sha256 = λ contents. contents;
  read_rounds = 3;
}

holds : HoldsPayload kernel 7 secret 0
holds = record { sized = refl; filled = λ n l. (1 ∷ 2 ∷ 0 ∷ [], refl, refl) }

read_key_contents-payload_example : read_key_contents kernel 7 0 ≡ (ok secret, 0)
read_key_contents-payload_example = read_key_contents-payload kernel 7 secret 0 2 refl holds

-- A session as a map from descriptions to payloads, with two keys that can be found.
abbrev Session : Type 0
Session = String → Option Bytes

abbrev put : String → Option Bytes → Session → Session
put n b w q = if q == n then b else w q

abbrev description : ℕ → String
description zero = "keyring:v1:6b"
description (suc id) = "keyring:v1:6c"

abbrev find_in : Option Bytes → String → Action Session ℕ
find_in none n w = (err (leaf (errno enokey)), w)
find_in (some b) n w =
    if n == description 0
    then (ok 0, w)
    else if n == description 1
    then (ok 1, w)
    else (err (leaf (errno eperm)), w)

abbrev size_of : Option Bytes → Action Session ℕ
size_of none w = (err (leaf (errno enokey)), w)
size_of (some b) w = (ok (length b), w)

abbrev payload_of : Option Bytes → ℕ → Action Session (Bytes × ℕ)
payload_of none size w = (err (leaf (errno enokey)), w)
payload_of (some b) size w = (ok (if leb (length b) size then b else [], length b), w)

-- The digest is the key.
abbrev keys : Kernel Session
keys = record {
  get_keyring_id = λ w. (ok 5, w);
  search_key = λ session n w. find_in (w n) n w;
  add_key = λ n value session w. (ok 0, put n (some value) w);
  size = λ id w. size_of (w (description id)) w;
  buffer = λ id size w. payload_of (w (description id)) size w;
  unlink = λ id session w. (ok 0, put (description id) none w);
  sha256 = drop 52;
  read_rounds = 3;
}

abbrev in_session : Keys Session
in_session = record { holds = λ w. w; key_at = λ w id n. description id ≡ n }

put-same : (n : String) (b : Option Bytes) (w : Session) → put n b w n ≡ b
put-same n b w = rw ((eq_iff n n).1 refl) refl

put-other : (n q : String) (b : Option Bytes) (w : Session) → q ≢ n → put n b w q ≡ w q
put-other n q b w d = elim (Bool-cases (q == n)) [
  | inl e ↦ absurd (d ((eq_iff q n).0 e))
  | inr e ↦ rw e refl
]

same-Still : (w w' : Session) → w' ≡ w → Still in_session w w'
same-Still w w' e = record { held = λ n. ap (λ u. u n) e; kept = λ id n h. h }

find_in-same : (o : Option Bytes) (n : String) (w : Session) → (find_in o n w).1 ≡ w
find_in-same none n w = refl
find_in-same (some b) n w = ground arith

find_in-found :
    (o : Option Bytes) (n : String) (id : ℕ) (w w' : Session)
    → find_in o n w ≡ (ok id, w')
    → description id ≡ n
find_in-found none n id w w' h = cc
find_in-found (some b) n id w w' h = elim (Bool-cases (n == description 0)) [
  | inl e ↦
      let first : ok 0 ≡ ok id = ap (λ p. p.0) (rw e at h) in
      rw (← ok-eq first) (sym ((eq_iff n (description 0)).0 e))
  | inr m ↦ elim (Bool-cases (n == description 1)) [
    | inl e ↦
        let second : ok 1 ≡ ok id = ap (λ p. p.0) (rw (m, e) at h) in
        rw (← ok-eq second) (sym ((eq_iff n (description 1)).0 e))
    | inr e ↦ cc (rw (m, e) at h)
  ]
]

size_of-same : (o : Option Bytes) (w : Session) → (size_of o w).1 ≡ w
size_of-same none w = refl
size_of-same (some b) w = refl

payload_of-same : (o : Option Bytes) (size : ℕ) (w : Session) → (payload_of o size w).1 ≡ w
payload_of-same none size w = refl
payload_of-same (some b) size w = refl

take-all : (b : Bytes) → take (length b) b ≡ b
take-all [] = refl
take-all (c ∷ b) = ap (λ t. c ∷ t) (take-all b)

fits : (m n : ℕ) → m ≤ n → leb m n ≡ true
fits m n l = ground arith

payload_of-filled :
    (o : Option Bytes) (size count : ℕ) (value : Bytes) (w w' : Session)
    → payload_of o size w ≡ (ok (value, count), w')
    → (payload : Bytes) × (o ≡ some payload)
      × (count ≡ length payload)
      × (length payload ≤ size → take count value ≡ payload)
payload_of-filled none size count value w w' h = cc
payload_of-filled (some b) size count value w w' h =
    let filled : ok (if leb (length b) size then b else [], length b) ≡ ok (value, count) =
      ap (λ p. p.0) h in
    let both = ok-eq filled in
    let counted = ap (λ p. p.1) both in
    (
      b,
      refl,
      sym counted,
      λ l. rw (← counted, ← ap (λ p. p.0) both) (rw (fits (length b) size l) (take-all b)),
    )

keys-KeyLaws : KeyLaws keys in_session 5
keys-KeyLaws = record {
  search_still = λ n w. same-Still w _ (find_in-same (w n) n w);
  searched = λ n id w w' h. find_in-found (w n) n id w w' h;
  size_still = λ id w. same-Still w _ (size_of-same (w (description id)) w);
  buffer_still = λ id size w. same-Still w _ (payload_of-same (w (description id)) size w);
  buffered =
      λ id size count n value w w' at h. payload_of-filled (w n) size count value w w' (rw at at h);
  added = λ n value id w w' h. ap (λ p. p.1 n) (sym h) ∙ put-same n (some value) w;
  add_failed = λ n value e w w' h. cc;
  add_held = λ n value w q d. put-other n q (some value) w d;
  unlinked = λ id r n w w' at h. ap (λ p. p.1 n) (sym h) ∙ rw at (put-same n none w);
  unlink_failed = λ id n e w w' at h. cc;
  unlink_held = λ id n w q at d. rw at (put-other n q none w d);
}

-- The keys that are used.
data Used : String → Type 0 where
  k_used : Used "k"
  l_used : Used "l"

apart : (a b : String) → (a == b) ≡ false → a ≡ b → ⊥
apart a b h e = let same = (eq_iff a b).1 e in cc

keys-Apart : Apart keys in_session "app" Used
unfolding key_name hex
keys-Apart _ _ k_used k_used h = refl
keys-Apart _ _ k_used l_used h = absurd (apart _ _ refl h)
keys-Apart _ _ l_used k_used h = absurd (apart _ _ refl h)
keys-Apart _ _ l_used l_used h = refl

abbrev sequence : List Call
sequence = setting "k" secret ∷ setting "l" [] ∷ deleting "k" ∷ getting "k" ∷ getting "l" ∷ []

abbrev empty : Session
empty n = none

abbrev ring : Keyringer Session
ring = record { get = get keys 5 "app"; set = set keys 5 "app"; delete = delete keys 5 "app" }

opens : open_session keys "app" empty ≡ (ok ring, empty)
unfolding open_session ◌>>=◌ relabel
opens = refl

open_session-Allows_example :
    Allows Used
      (stored keys in_session "app"
        (perform_all (call_on ring (some (λ w. none))) sequence empty).1)
      (stored keys in_session "app" empty)
      sequence
      (perform_all (call_on ring (some (λ w. none))) sequence empty).0
open_session-Allows_example =
    open_session-Allows keys in_session "app" 5 ring (some (λ w. none)) Used sequence empty empty
      empty keys-KeyLaws keys-Apart refl opens (k_used, (l_used, (k_used, (k_used, (l_used, tt)))))
