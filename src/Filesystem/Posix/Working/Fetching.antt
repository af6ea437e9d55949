-- ===== src/Filesystem/Posix/Working/Fetching.antt =====
-- `get` of internal/backend/fs/storage_linux.go completes.
use mathlib.Core.Path.{subst}
use common_keyring.Base.{
  ℕ, zero, suc, ◌<◌, String, false, none, some, [], ◌++◌, ◌==◌, nat_eq, length, length-append,
  arith, ◌≡◌, refl, sym, ◌∙◌, ap, pair-eq, Bool-cases, inl, inr,
}
use common_keyring.Errors.{GoError, Result, Fallible, ok, err, Action}
use common_keyring.Contract.{Bytes}
use common_keyring.Filesystem.Steps.{on_error, relabel, finally, with_error, join, error_of}
use common_keyring.Filesystem.Layout.{key_domain, identifier}
use common_keyring.Filesystem.Storage.{
  Storage, get, read_all, read_credential, open_credential, open_service_directory,
}
use common_keyring.Filesystem.Posix.{View, Posix}
use common_keyring.Filesystem.Posix.Folder.{folder, open_service_directory-Opened}
use common_keyring.Filesystem.Posix.Existing.{open_credential-Readable}
use common_keyring.Filesystem.Posix.Atomic.{credential}
use common_keyring.Filesystem.Posix.Reading.{after_read, read_in, get-Got}
use common_keyring.Filesystem.Posix.Working.{Completes, bind-Completes, Working}
use common_keyring.Filesystem.Posix.Working.Opening.{
  open_service_directory-Completes, open_credential-Completes,
}

pub on_error-Completes :
    {A : Type 0} (f : GoError → GoError) (r : Result A) → Completes r → Completes (on_error f r)
on_error-Completes f (ok a) h = (a, refl)
on_error-Completes f (err e) (a, h) = cc

same_value : (a b : Bytes) → some a ≡ some b → a ≡ b
same_value a b h = cc

fewer :
    (chunk rest : Bytes) (rounds : ℕ)
    → length (chunk ++ rest) < suc rounds
    → (length chunk == 0) ≡ false
    → length rest < rounds
fewer chunk rest rounds h k = let e = length-append chunk rest in ground arith

module _ {W : Type 0} (s : Storage W) (v : View W) (posix : Posix s v) (working : Working s v) where
  after_read-Completes :
      (f : ℕ) (contents left chunk : Bytes) (rounds : ℕ) (again : Bytes → Action W Bytes) (w w1 : W)
      → v.reading w f left
      → s.system.read f w ≡ ((chunk, none), w1)
      → length left < suc rounds
      → ((got rest : Bytes)
          → v.reading w1 f rest
          → length rest < rounds
          → Completes (again got w1).0)
      → Completes (after_read again contents w1 chunk none).0
  after_read-Completes f contents left chunk rounds again w w1 reading h few next =
      let (rest, parts, reading1, _) = posix.files.read_part f left chunk w w1 reading h in
      elim (Bool-cases (length chunk == 0)) [
        | inl z ↦ rw z (contents, refl)
        | inr z ↦
            rw z
              (next (contents ++ chunk) rest reading1 (fewer chunk rest rounds (rw parts at few) z))
      ]

  read_all-Completes :
      (rounds f : ℕ) (contents left : Bytes) (w : W)
      → v.reading w f left
      → length left < rounds
      → Completes (read_all s.system rounds f contents w).0
  unfolding read_all
  read_all-Completes zero f contents left w reading few = ground arith
  read_all-Completes (suc rounds) f contents left w reading few =
      let got = s.system.read f w in
      let (chunk, h) = working.read_some f left w reading in
      subst (λ x. Completes (after_read (read_all s.system rounds f) contents got.1 x.0 x.1).0)
        (sym h)
        (after_read-Completes f contents left chunk rounds (read_all s.system rounds f) w got.1
          reading (pair-eq _ h refl) few
          (λ b rest x k. read_all-Completes rounds f b rest got.1 x k))

  both-Completes :
      (r : Result Bytes) (closed : Fallible)
      → Completes r
      → Completes closed
      → Completes (with_error r (join (error_of r) (error_of closed)))
  both-Completes (ok b) (ok _) x y = (b, refl)
  both-Completes (ok b) (err e) x (a, h) = cc
  both-Completes (err e) closed (a, h) y = cc

  read_in-Completes :
      (key : String) (b : Bytes) (d : ℕ) (w : W)
      → v.inside w d (folder s)
      → v.holds w (credential s key) ≡ some b
      → length b < s.read_rounds
      → Completes (read_in s key d w).0
  unfolding read_credential
  read_in-Completes key b d w on holds few =
      let name = identifier s.sha256 key_domain key in
      let opened = open_credential-Readable s v posix d (folder s) name w on in
      bind-Completes (open_credential s d name) (read_credential s) w
        (open_credential-Completes s v posix working d (folder s) name b w on holds)
        (λ f h.
          let (_, whole, same, reading) = opened.on f h in
          both-Completes _ _
            (read_all-Completes s.read_rounds f [] whole _ reading
              (rw (same_value whole b (sym same ∙ holds)) few))
            (working.closes f _))

  get-Completes :
      (key : String) (b : Bytes) (w : W)
      → v.holds w (credential s key) ≡ some b
      → length b < s.read_rounds
      → Completes (get s key w).0
  unfolding get relabel finally
  get-Completes key b w holds few =
      let opened = open_service_directory-Opened s v posix false w in
      on_error-Completes _ _ (
        bind-Completes (open_service_directory s false)
          (λ d. finally (read_in s key d) (s.system.close d)) w
          (open_service_directory-Completes s v posix working false w)
          (λ d h. read_in-Completes key b d _ (opened.on d h) (opened.held _ (λ x. x) ∙ holds) few))

  -- A `get` of a key of which the credential holds a value returns that value, if there are more
  -- rounds to read it than it has bytes. The calls of the system behave as documented and do not
  -- fail, and the files are private ones of the user.
  pub get-completes :
      (key : String) (b : Bytes) (w : W)
      → v.holds w (credential s key) ≡ some b
      → length b < s.read_rounds
      → (get s key w).0 ≡ ok b
  get-completes key b w holds few =
      let (a, h) = get-Completes key b w holds few in
      h ∙ ap ok (same_value a b (sym ((get-Got s v posix key w).done a h) ∙ holds))
