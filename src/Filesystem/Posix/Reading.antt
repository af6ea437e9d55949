-- ===== src/Filesystem/Posix/Reading.antt =====
-- `get` of internal/backend/fs/storage_linux.go on the files of the system.
use mathlib.Core.Path.{subst}
use common_keyring.Base.{
  ℕ, zero, suc, String, true, false, Option, none, some, [], ◌∷◌, ◌++◌, ◌==◌, nat_eq, length, ◌≡◌,
  refl, sym, ◌∙◌, ap, append-nil, append_assoc, arith, Bool-cases, inl, inr, if◌then◌else◌,
}
use common_keyring.Errors.{GoError, Result, Fallible, ok, err, Action, ok-eq}
use common_keyring.Contract.{Bytes}
use common_keyring.Filesystem.Steps.{◌>>=◌, relabel, finally, with_error, join, error_of}
use common_keyring.Filesystem.Steps.Runs.{bind-run, on_error-ok}
use common_keyring.Filesystem.Layout.{key_domain, identifier}
use common_keyring.Filesystem.Faults.{operation_error}
use common_keyring.Filesystem.Storage.{
  Storage, get, read_all, read_credential, open_credential, open_service_directory,
}
use common_keyring.Filesystem.Posix.{Place, View, Held, Posix}
use common_keyring.Filesystem.Posix.Near.{Nothing, Held-trans}
use common_keyring.Filesystem.Posix.Folder.{folder, open_service_directory-Opened}
use common_keyring.Filesystem.Posix.Existing.{open_credential-Readable}
use common_keyring.Filesystem.Posix.Atomic.{credential}

module _ {W : Type 0} where
  -- What `io.ReadAll` makes of a `read`, with the later ones.
  abbrev pub after_read :
      (Bytes → Action W Bytes) → Bytes → W → Bytes → Option GoError → Result Bytes × W
  after_read again contents w chunk e = elim e [
    | some e' ↦ (err e', w)
    | none ↦ if length chunk == 0 then (ok contents, w) else again (contents ++ chunk) w
  ]

module _ {W : Type 0} (v : View W) where
  -- No file was changed, and the contents that are returned are those of the file at `own`.
  pub record Got (own : Place) (w : W) (r : Result Bytes) (w' : W) : Type 0 where
    pub held : (q : Place) → v.holds w' q ≡ v.holds w q
    pub done : (value : Bytes) → r ≡ ok value → v.holds w own ≡ some value

module _ {W : Type 0} (s : Storage W) where
  -- The work of a `get` in the directory of its storage.
  abbrev pub read_in : String → ℕ → Action W Bytes
  read_in key d = open_credential s d (identifier s.sha256 key_domain key) >>= read_credential s

module _ {W : Type 0} (s : Storage W) (v : View W) (posix : Posix s v) where
  -- No file was changed, and contents that are returned are `whole`.
  record Whole (whole : Bytes) (w : W) (r : Result Bytes) (w' : W) : Type 0 where
    held : Held v Nothing w w'
    done : (b : Bytes) → r ≡ ok b → b ≡ whole

  read-Held :
      (f : ℕ) (x : Bytes × Option GoError) (w w1 : W)
      → s.system.read f w ≡ (x, w1)
      → Held v Nothing w w1
  read-Held f x w w1 h =
      subst (Held v Nothing w) (ap (λ p. p.1) h) (λ q n. posix.files.read_held f w q)

  empty-chunk : (chunk : Bytes) → (length chunk == 0) ≡ true → chunk ≡ []
  empty-chunk [] h = refl
  empty-chunk (c ∷ chunk) h = ground arith

  after_read-Whole :
      (f : ℕ) (contents left chunk : Bytes) (e : Option GoError) (again : Bytes → Action W Bytes)
      (w w1 : W)
      → v.reading w f left
      → s.system.read f w ≡ ((chunk, e), w1)
      → ((got rest : Bytes)
          → v.reading w1 f rest
          → Whole (got ++ rest) w1 (again got w1).0 (again got w1).1)
      → Whole
          (contents ++ left)
          w
          (after_read again contents w1 chunk e).0
          (after_read again contents w1 chunk e).1
  after_read-Whole f contents left chunk (some x) again w w1 reading h next = record {
    held = read-Held f (chunk, some x) w w1 h;
    done = λ b k. cc;
  }
  after_read-Whole f contents left chunk none again w w1 reading h next =
      let held = read-Held f (chunk, none) w w1 h in
      let (rest, parts, reading1, end) = posix.files.read_part f left chunk w w1 reading h in
      elim (Bool-cases (length chunk == 0)) [
        | inl z ↦ rw z (record {
          held = held;
          done = λ b k.
              sym (ok-eq k)
              ∙ sym (append-nil contents)
              ∙ ap (λ xs. contents ++ xs)
                  (sym (parts ∙ ap (λ xs. xs ++ rest) (empty-chunk chunk z) ∙ end z));
        })
        | inr z ↦
            let later = next (contents ++ chunk) rest reading1 in
            rw z (record {
              held = Held-trans v held later.held;
              done = λ b k.
                  later.done b k
                  ∙ append_assoc contents chunk rest
                  ∙ ap (λ xs. contents ++ xs) (sym parts);
            })
      ]

  read_all-Whole :
      (rounds f : ℕ) (contents left : Bytes) (w : W)
      → v.reading w f left
      → Whole
          (contents ++ left)
          w
          (read_all s.system rounds f contents w).0
          (read_all s.system rounds f contents w).1
  unfolding read_all
  read_all-Whole zero f contents left w reading = record { held = λ q n. refl; done = λ b k. cc }
  read_all-Whole (suc rounds) f contents left w reading =
      let got = s.system.read f w in
      after_read-Whole f contents left got.0.0 got.0.1 (read_all s.system rounds f) w got.1 reading
        refl (λ b rest x. read_all-Whole rounds f b rest got.1 x)

  with_error-ok :
      (r : Result Bytes) (closed : Fallible) (b : Bytes)
      → with_error r (join (error_of r) (error_of closed)) ≡ ok b
      → r ≡ ok b
  with_error-ok (ok c) (ok _) b h = h
  with_error-ok (ok c) (err e) b h = cc
  with_error-ok (err d) (ok _) b h = cc
  with_error-ok (err d) (err e) b h = cc

  read_credential-Whole :
      (f : ℕ) (whole : Bytes) (w : W)
      → v.reading w f whole
      → Whole whole w (read_credential s f w).0 (read_credential s f w).1
  unfolding read_credential
  read_credential-Whole f whole w reading =
      let x = read_all-Whole s.read_rounds f [] whole w reading in
      record {
        held = λ q n. posix.files.close_held f _ q ∙ x.held q n;
        done = λ b k. x.done b (with_error-ok _ _ b k);
      }

  read_in-Got :
      (key : String) (d : ℕ) (w : W)
      → v.inside w d (folder s)
      → Got v (credential s key) w (read_in s key d w).0 (read_in s key d w).1
  read_in-Got key d w on =
      let opened =
        open_credential-Readable s v posix d (folder s) (identifier s.sha256 key_domain key) w on in
      bind-run (Got v (credential s key) w) _ _ w
        (λ e h. record { held = λ q. opened.near.held q (λ b. b); done = λ b k. cc })
        (λ f h.
          let (_, whole, holds, reading) = opened.on f (ap (λ p. p.0) h) in
          let x = read_credential-Whole f whole _ reading in
          record {
            held = λ q. x.held q (λ b. b) ∙ opened.near.held q (λ b. b);
            done = λ b k. holds ∙ ap some (sym (x.done b k));
          })

  -- A `get` changes no file, whatever it returns, and a value that it returns is what the credential
  -- of the key holds. The calls of the system behave as documented.
  pub get-Got : (key : String) (w : W) → Got v (credential s key) w (get s key w).0 (get s key w).1
  unfolding get relabel finally
  get-Got key w =
      let opened = open_service_directory-Opened s v posix false w in
      let x =
        bind-run (Got v (credential s key) w) (open_service_directory s false)
          (λ d. finally (read_in s key d) (s.system.close d)) w
          (λ e h. record { held = λ q. opened.held q (λ b. b); done = λ b k. cc })
          (λ d h.
            let y = read_in-Got key d _ (opened.on d (ap (λ p. p.0) h)) in
            record {
              held = λ q. posix.files.close_held d _ q ∙ y.held q ∙ opened.held q (λ b. b);
              done = λ b k. sym (opened.held _ (λ b. b)) ∙ y.done b k;
            }) in
      record {
        held = x.held;
        done = λ b k. x.done b (on_error-ok (operation_error "get credential" true) _ b k);
      }
