-- ===== src/Filesystem/Posix/Refinement.antt =====
-- The storage of internal/backend/fs/storage_linux.go as a map from keys to secrets.
use common_keyring.Base.{String, false, none, some, ◌∷◌, ◌==◌, string_eq, ◌≡◌, inl, inr, eq_iff}
use common_keyring.Contract.Memory.{
  Memory, Call, getting, setting, deleting, key_of, Reply, reply, Allowed, get-Allowed, set-Allowed,
  delete-Allowed,
}
use common_keyring.Filesystem.Layout.{key_domain, identifier}
use common_keyring.Filesystem.Layout.Dotted.{identifier-undotted}
use common_keyring.Filesystem.Storage.{Storage, get, set, delete}
use common_keyring.Filesystem.Posix.{Place, View, Posix}
use common_keyring.Filesystem.Posix.Folder.{folder}
use common_keyring.Filesystem.Posix.Atomic.{credential, name-NotTemporary, set-Atomic}
use common_keyring.Filesystem.Posix.Reading.{get-Got}
use common_keyring.Filesystem.Posix.Removal.{delete-Removed}

cons-head : {a b : String} {p : Place} → ◌≡◌ {A = Place} (a ∷ p) (b ∷ p) → a ≡ b
cons-head h = cc

module _ {W : Type 0} (s : Storage W) where
  abbrev pub perform : Call → W → Reply × W
  perform (getting key) w = let (r, w') = get s key w in (reply some r, w')
  perform (setting key value) w = let (r, w') = set s key value w in (reply (λ _. none) r, w')
  perform (deleting key) w = let (r, w') = delete s key w in (reply (λ _. none) r, w')

  -- Keys of which the credentials have different names.
  abbrev pub Apart : (String → Type 0) → Type 0
  Apart used =
      (k key : String)
      → used k
      → used key
      → identifier s.sha256 key_domain k ≡ identifier s.sha256 key_domain key
      → k ≡ key

  credential-apart :
      (used : String → Type 0) (apart : Apart used) (k key : String)
      → used k
      → used key
      → (k == key) ≡ false
      → credential s k ≡ credential s key
      → ⊥
  credential-apart used apart k key x y h e =
      let same = (eq_iff k key).1 (apart k key x y (cons-head e)) in cc

module _ {W : Type 0} (s : Storage W) (v : View W) where
  -- What the credentials of a state hold.
  abbrev pub stored : W → Memory
  stored w key = v.holds w (credential s key)

  module _ (posix : Posix s v) (used : String → Type 0) (apart : Apart s used) where
    pub perform-Allowed :
        (c : Call) (w : W)
        → used (key_of c)
        → Allowed used (stored w) (stored (perform s c w).1) c (perform s c w).0
    perform-Allowed (getting key) w u =
        let x = get-Got s v posix key w in
        get-Allowed used _ _ key (get s key w).0 (λ k. x.held (credential s k)) x.done
    perform-Allowed (setting key value) w u =
        let x = set-Atomic s v posix key value w in
        let off : (k : String)
            → used k
            → (k == key) ≡ false
            → stored (set s key value w).1 k ≡ stored w k =
          λ k y e. x.held (credential s k) (λ t. elim t [
            | inl h ↦
                name-NotTemporary v (folder s) (identifier s.sha256 key_domain k) value
                  (identifier-undotted s.sha256 key_domain k) h
            | inr h ↦ credential-apart s used apart k key y u e h
          ]) in
        set-Allowed used _ _ key off value (set s key value w).0 x.own x.done
    perform-Allowed (deleting key) w u =
        let x = delete-Removed s v posix key w in
        delete-Allowed used _ _ key
          (λ k y e. x.held (credential s k) (credential-apart s used apart k key y u e))
          (delete s key w).0 x.now x.done
