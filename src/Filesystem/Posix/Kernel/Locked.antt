-- ===== src/Filesystem/Posix/Kernel/Locked.antt =====
-- The keyring of internal/backend/fs/keyring.go as a map from keys to secrets.
use mathlib.Core.Path.{subst}
use common_keyring.Base.{
  ℕ, String, none, some, List, ◌==◌, string_eq, ◌≡◌, refl, ◌∙◌, ap, Bool-cases, inl, inr,
}
use common_keyring.Errors.{Result, ok, err, Action, ok-eq}
use common_keyring.Contract.{Context, Bytes, Keyringer}
use common_keyring.Filesystem.Layout.{service_domain, identifier}
use common_keyring.Filesystem.Steps.Runs.{bind-ok, relabel-ok}
use common_keyring.Filesystem.Storage.{Storage}
use common_keyring.Filesystem.Keyring.{
  Host, open_storage, keyring, checked, under_lock, open_absolute, open_keyring,
}
use common_keyring.Filesystem.RealSystem.{Calls, real_system, process}
use common_keyring.Filesystem.Posix.{View, Files, Posix}
use common_keyring.Filesystem.Posix.Kernel.{Kernel, Inspects}
use common_keyring.Filesystem.Posix.Kernel.Real.{real_storage, real_storage-Posix}
use common_keyring.Filesystem.Posix.Refinement.{Apart, stored, perform-Allowed}
use common_keyring.Contract.Memory.{
  Call, getting, setting, deleting, key_of, Allowed, Allowed-around, AllUsed, Allows, perform_all,
  perform_all-each, call_on, refused-Allowed,
}

-- Locking and unlocking a mutex change no file.
pub record Locks {W : Type 0} (v : View W) (lock unlock : ℕ → W → W) : Type 0 where
  pub locked : (n : ℕ) (w : W) (q : List String) → v.holds (lock n w) q ≡ v.holds w q
  pub unlocked : (n : ℕ) (w : W) (q : List String) → v.holds (unlock n w) q ≡ v.holds w q

module _ {W : Type 0} (h : Host W) (s : Storage W) (v : View W) (posix : Posix s v)
    (locks : Locks v h.lock h.unlock) (used : String → Type 0) (apart : Apart s used) where
  call_on-Allowed :
      (ctx : Context W) (c : Call) (w : W)
      → used (key_of c)
      → Allowed used
          (stored s v w)
          (stored s v (call_on (keyring h s) ctx c w).1)
          c
          (call_on (keyring h s) ctx c w).0
  unfolding keyring checked under_lock
  call_on-Allowed ctx (getting key) w u =
      refused-Allowed used (stored s v) some (getting key) _ _ w
        (perform-Allowed s v posix used apart (getting key) w u)
  call_on-Allowed ctx (setting key value) w u =
      refused-Allowed used (stored s v) (λ _. none) (setting key value) _ _ w
        (Allowed-around (λ k. locks.locked _ w _) (λ k. locks.unlocked _ _ _)
          (perform-Allowed s v posix used apart (setting key value) _ u))
  call_on-Allowed ctx (deleting key) w u =
      refused-Allowed used (stored s v) (λ _. none) (deleting key) _ _ w
        (Allowed-around (λ k. locks.locked _ w _) (λ k. locks.unlocked _ _ _)
          (perform-Allowed s v posix used apart (deleting key) _ u))

module _ {W : Type 0} (h : Host W) where
  -- A storage that opens has the fields that it is given.
  abbrev storage_at : String → String → Storage W
  storage_at root_path service_id = record {
    root_path = root_path;
    service_id = service_id;
    effective_uid = h.effective_uid;
    system = h.system;
    sha256 = h.sha256;
    read_rounds = h.read_rounds;
  }

  open_storage-ok :
      (root_path service_id : String) (w w' : W) (s : Storage W)
      → open_storage h root_path service_id w ≡ (ok s, w')
      → storage_at root_path service_id ≡ s
  unfolding open_storage
  open_storage-ok root_path service_id w w' s k =
      let (_, w1, _, e) = bind-ok _ _ w w' s (relabel-ok _ _ w w' s k) in
      let (_, w2, _, j) = bind-ok _ _ w1 w' s e in ok-eq (ap (λ p. p.0) j)

  open_absolute-ok :
      (root_path service : String) (w w' : W) (k : Keyringer W)
      → open_absolute h (ok root_path) service w ≡ (ok k, w')
      → keyring h (storage_at root_path (identifier h.sha256 service_domain service)) ≡ k
  unfolding open_absolute
  open_absolute-ok root_path service w w' k e =
      let opened = open_storage h root_path (identifier h.sha256 service_domain service) w in
      after opened.0 opened.1 refl (ap (λ p. p.0) e)
    where
      after :
          (r : Result (Storage W)) (w1 : W)
          → open_storage h root_path (identifier h.sha256 service_domain service) w ≡ (r, w1)
          → (let x : Result (Keyringer W) = elim r [ ok s ↦ ok (keyring h s) | err e ↦ err e ] in
              x ≡ ok k)
          → keyring h (storage_at root_path (identifier h.sha256 service_domain service)) ≡ k
      after (ok s) w1 o e =
          ap (keyring h)
            (open_storage-ok root_path (identifier h.sha256 service_domain service) w w1 s o)
          ∙ ok-eq e
      after (err d) w1 o e = cc

  -- A keyring that opens works on the storage of the service below the root directory.
  open_keyring-ok :
      (root_dir root_path service : String) (w w' : W) (k : Keyringer W)
      → (h.absolute_path root_dir w).0 ≡ ok root_path
      → open_keyring h root_dir service w ≡ (ok k, w')
      → keyring h (storage_at root_path (identifier h.sha256 service_domain service)) ≡ k
  unfolding open_keyring
  open_keyring-ok root_dir root_path service w w' k a e = elim (Bool-cases (root_dir == "")) [
    | inl m ↦ cc (rw m at e)
    | inr m ↦ elim (Bool-cases (service == "")) [
      | inl n ↦ cc (rw (m, n) at e)
      | inr n ↦
          open_absolute-ok root_path service (h.absolute_path root_dir w).1 w' k (rw (m, n, a) at e)
    ]
  ]

module _ {W : Type 0} (c : Calls W) (absolute : String → Action W String) (uid rounds : ℕ)
    (sha256 : Bytes → Bytes) (lock unlock : ℕ → W → W) (v : View W) where
  -- The storage of a service
  abbrev pub storage_of : String → String → Storage W
  storage_of root_path service =
      real_storage c root_path (identifier sha256 service_domain service) uid rounds sha256

  -- The keyring of the filesystem refines a map from keys to secrets, on the real system: calls in a
  -- row on a keyring that was opened answer as those of the map may, and leave what the map then
  -- holds. A call of the map that fails has no effect, or its whole effect. The calls of the
  -- operating system behave as documented, and no two of the keys that are used have a digest in
  -- common.
  pub opened-Allows :
      (root_dir root_path service : String) (w0 w1 : W) (k : Keyringer W) (ctx : Context W)
      (used : String → Type 0) (cs : List Call) (w : W)
      → Kernel c.directories root_path v
      → Inspects c.environment v
      → Files (real_system c) v
      → Locks v lock unlock
      → Apart (storage_of root_path service) used
      → (absolute root_dir w0).0 ≡ ok root_path
      → open_keyring (process c absolute uid rounds sha256 lock unlock) root_dir service w0
        ≡ (ok k, w1)
      → AllUsed used cs
      → Allows used
          (stored (storage_of root_path service) v (perform_all (call_on k ctx) cs w).1)
          (stored (storage_of root_path service) v w)
          cs
          (perform_all (call_on k ctx) cs w).0
  opened-Allows root_dir root_path service w0 w1 k ctx used cs w kernel inspects files locks apart a
        o us =
      let p = process c absolute uid rounds sha256 lock unlock in
      let id = identifier sha256 service_domain service in
      let s = storage_of root_path service in
      let posix = real_storage-Posix c root_path id uid rounds sha256 v kernel inspects files in
      let same = open_keyring-ok p root_dir root_path service w0 w1 k a o in
      perform_all-each used (stored s v) (call_on k ctx)
        (subst
          (λ n.
            (c : Call) (w : W)
            → used (key_of c)
            → Allowed used (stored s v w) (stored s v (call_on n ctx c w).1) c
                (call_on n ctx c w).0)
          same (call_on-Allowed p s v posix locks used apart ctx))
        cs w us
