-- ===== src/Filesystem/Posix/Temporary.antt =====
-- `createTemporary`, `writeAll` and the removal of a temporary file of
-- internal/backend/fs/storage_linux.go on the files of the system.
use mathlib.Core.Path.{subst}
use common_keyring.Base.{
  ℕ, zero, suc, String, ◌<>◌, true, false, Option, none, some, List, [], ◌∷◌, ◌++◌, ◌==◌, nat_eq,
  length, take, drop, if◌then◌else◌, ◌≡◌, refl, ◌∙◌, ap, pair-eq, append-nil, append_assoc,
  Bool-cases, inl, inr,
}
use common_keyring.Errors.{
  GoError, leaf, fs_exist, short_write, is, Result, Fallible, ok, err, Action, ok-eq,
}
use common_keyring.Contract.{Bytes}
use common_keyring.Filesystem.Steps.Runs.{bind-run}
use common_keyring.Filesystem.Layout.{hex}
use common_keyring.Filesystem.Layout.Dotted.{is_dotted, temporary-dotted}
use common_keyring.Filesystem.Writing.{
  secret_mode, write_rounds, write_all, after_open, try_create, create_attempts, fill_temporary,
  remove_temporary, abandon,
}
use common_keyring.Filesystem.Storage.{Storage}
use common_keyring.Filesystem.Posix.{Place, View, Held, Calm, Posix}
use common_keyring.Filesystem.Posix.Near.{Near, Near-refl, Near-trans, Calm-Near}

-- The temporary files of a directory: those of which the name starts with a dot.
abbrev pub Temporary : Place → Place → Type 0
Temporary place q = (t : String) × (is_dotted t ≡ true) × (q ≡ t ∷ place)

module _ {W : Type 0} where
  -- What a round of `writeAll` makes of its `write`, with the later rounds.
  abbrev pub after_write :
      (Bytes → Action W (Unit {0})) → Bytes → W → ℕ → Option GoError → Fallible × W
  after_write again contents w n e = elim e [
    | some e' ↦ (err e', w)
    | none ↦ if n == 0 then (err (leaf short_write), w) else again (drop n contents) w
  ]

module _ {W : Type 0} (s : Storage W) (v : View W) (posix : Posix s v) where
  -- Nothing but temporary files was changed; a file that is returned is a new one, without contents.
  pub record Created (place : Place) (w : W) (r : Result (String × ℕ)) (w' : W) : Type 0 where
    pub near : Near v (Temporary place) w w'
    pub on :
        (t : String) (f : ℕ)
        → r ≡ ok (t, f)
        → (is_dotted t ≡ true) × v.file w' f × v.filling w' f (t ∷ place) []

  module _ (d : ℕ) (place : Place) where
    after_open-Created :
        (name : String) (again : Action W (String × ℕ)) (r : Result ℕ) (w w1 : W)
        → Near v (Temporary place) w w1
        → v.inside w1 d place
        → is_dotted name ≡ true
        → ((f : ℕ) → r ≡ ok f → v.file w1 f × v.filling w1 f (name ∷ place) [])
        → ((w2 : W) → v.inside w2 d place → Created place w2 (again w2).0 (again w2).1)
        → Created place w
            (after_open s.system name again r w1).0
            (after_open s.system name again r w1).1
    unfolding after_open
    after_open-Created name again (ok f) w w1 near on dot new next = record {
      near = near;
      on = λ t g h.
          let (file, filling) = new f refl in
          rw (← ap (λ p. p.0) (ok-eq h)) (rw (← ap (λ p. p.1) (ok-eq h)) (dot, file, filling));
    }
    after_open-Created name again (err e) w w1 near on dot new next =
        elim (Bool-cases (is e fs_exist)) [
          | inl m ↦
              rw m (record { near = Near-trans v near (next w1 on).near; on = (next w1 on).on })
          | inr m ↦ rw m (record { near = near; on = λ t f h. cc })
        ]

    pub create_attempts-Created :
        (attempts : ℕ) (w : W)
        → v.inside w d place
        → Created place w
            (create_attempts s.system attempts d w).0
            (create_attempts s.system attempts d w).1
    unfolding create_attempts try_create
    create_attempts-Created zero w on = record { near = Near-refl v _ w; on = λ t f h. cc }
    create_attempts-Created (suc attempts) w on =
        let calm = posix.files.random_calm 16 w in
        bind-run (Created place w) _ _ w
          (λ e h. record { near = Calm-Near v _ calm; on = λ t f h. cc })
          (λ random h.
            let name = ".tmp-" <> hex random in
            let dot = temporary-dotted (hex random) in
            let on1 = calm.inside d place on in
            after_open-Created name (create_attempts s.system attempts d) _ w _
              (Near-trans v (Calm-Near v _ calm) (record {
                held = λ q n. posix.files.create_held d name place _ on1 q (λ e. n (name, dot, e));
                inside = posix.files.create_inside d name _;
              }))
              (posix.files.create_inside d name _ d place on1) dot
              (λ f k. posix.files.created d f name place _ _ on1 (pair-eq _ k refl))
              (create_attempts-Created attempts))

  take-drop : {A : Type 0} (n : ℕ) (xs : List A) → take n xs ++ drop n xs ≡ xs
  take-drop zero xs = refl
  take-drop (suc n) [] = refl
  take-drop (suc n) (x ∷ xs) = ap (λ ys. x ∷ ys) (take-drop n xs)

  parts :
      (b : Bytes) (n : ℕ) (contents : Bytes)
      → (b ++ take n contents) ++ drop n contents ≡ b ++ contents
  parts b n contents =
      append_assoc b (take n contents) (drop n contents) ∙ ap (λ xs. b ++ xs) (take-drop n contents)

  -- Nothing but one file was changed, and its descriptor is open still; the file is filled with
  -- `contents` behind a success.
  pub record Filled (f : ℕ) (q : Place) (contents : Bytes) (w : W) (r : Fallible) (w' : W)
      : Type 0 where
    pub near : Near v (λ x. x ≡ q) w w'
    pub file : v.file w' f
    pub done : r ≡ ok tt → v.filling w' f q contents

  module _ (f : ℕ) (q : Place) where
    after_calm :
        (b : Bytes) (w w1 w' : W) (r : Fallible)
        → Calm v w w1
        → Filled f q b w1 r w'
        → Filled f q b w r w'
    after_calm b w w1 w' r x y = record {
      near = Near-trans v (Calm-Near v _ x) y.near;
      file = y.file;
      done = y.done;
    }

    write-Near :
        (b c : Bytes) (x : ℕ × Option GoError) (w w1 : W)
        → v.filling w f q b
        → v.file w f
        → s.system.write f c w ≡ (x, w1)
        → Near v (λ r. r ≡ q) w w1 × v.file w1 f
    write-Near b c x w w1 filling file h =
        subst (λ w'. Near v (λ r. r ≡ q) w w' × v.file w' f) (ap (λ p. p.1) h)
          (
            record {
              held = posix.files.write_held f q b c w filling;
              inside = posix.files.write_inside f c w;
            },
            posix.files.write_file f c w file,
          )

    after_write-Filled :
        (b contents : Bytes) (c n : ℕ) (e : Option GoError) (again : Bytes → Action W (Unit {0}))
        (w w1 : W)
        → v.filling w f q b
        → v.file w f
        → s.system.write f (c ∷ contents) w ≡ ((n, e), w1)
        → ((b' rest : Bytes)
            → v.file w1 f
            → v.filling w1 f q b'
            → Filled f q (b' ++ rest) w1 (again rest w1).0 (again rest w1).1)
        → Filled f q
            (b ++ c ∷ contents)
            w
            (after_write again (c ∷ contents) w1 n e).0
            (after_write again (c ∷ contents) w1 n e).1
    after_write-Filled b contents c n (some x) again w w1 filling file h next =
        let (near, file1) = write-Near b (c ∷ contents) _ w w1 filling file h in
        record { near = near; file = file1; done = λ k. cc }
    after_write-Filled b contents c n none again w w1 filling file h next =
        let (near, file1) = write-Near b (c ∷ contents) _ w w1 filling file h in
        elim (Bool-cases (n == 0)) [
          | inl z ↦ rw z (record { near = near; file = file1; done = λ k. cc })
          | inr z ↦
              let filling1 = posix.files.written f n q b (c ∷ contents) w w1 filling h in
              let later =
                next (b ++ take n (c ∷ contents)) (drop n (c ∷ contents)) file1 filling1 in
              rw z (record {
                near = Near-trans v near later.near;
                file = later.file;
                done = λ k. subst (v.filling _ f q) (parts b n (c ∷ contents)) (later.done k);
              })
        ]

    -- What is written behind `b`, of which the first part has been taken.
    write_rounds-Filled :
        (rounds : ℕ) (b contents : Bytes) (w : W)
        → v.file w f
        → v.filling w f q b
        → Filled f q
            (b ++ contents)
            w
            (write_rounds s.system rounds f contents w).0
            (write_rounds s.system rounds f contents w).1
    unfolding write_rounds
    write_rounds-Filled rounds b [] w file filling = record {
      near = Near-refl v _ w;
      file = file;
      done = λ h. rw (append-nil b) filling;
    }
    write_rounds-Filled zero b (c ∷ contents) w file filling = record {
      near = Near-refl v _ w;
      file = file;
      done = λ h. cc;
    }
    write_rounds-Filled (suc rounds) b (c ∷ contents) w file filling =
        let did = s.system.write f (c ∷ contents) w in
        after_write-Filled b contents c did.0.0 did.0.1 (write_rounds s.system rounds f) w did.1
          filling file refl (λ b' rest x y. write_rounds-Filled rounds b' rest did.1 x y)

    pub fill_temporary-Filled :
        (contents : Bytes) (w : W)
        → v.file w f
        → v.filling w f q []
        → Filled f q contents w
            (fill_temporary s.system f contents w).0
            (fill_temporary s.system f contents w).1
    unfolding fill_temporary write_all
    fill_temporary-Filled contents w file filling =
        let protected = posix.files.fchmod_calm f secret_mode w in
        bind-run (Filled f q contents w) _ _ w
          (λ e h. record {
            near = Calm-Near v _ protected;
            file = protected.file f file;
            done = λ h. cc;
          })
          (λ _ h.
            let written =
              write_rounds-Filled (length contents) [] contents _ (protected.file f file)
                (protected.filling f q [] filling) in
            after_calm contents w _ _ _ protected (
              bind-run (Filled f q contents _) _ _ _
                (λ e k. record { near = written.near; file = written.file; done = λ h. cc })
                (λ _ k.
                  let flushed = posix.files.fsync_calm f _ in
                  record {
                    near = Near-trans v written.near (Calm-Near v _ flushed);
                    file = flushed.file f written.file;
                    done = λ _. flushed.filling f q contents (written.done (ap (λ p. p.0) k));
                  })))

  -- The removal of a temporary file that is not renamed leaves the other files alone.
  pub abandon-Held :
      (d : ℕ) (place : Place) (t : String) (f : ℕ) (e : GoError) (w : W)
      → v.inside w d place
      → is_dotted t ≡ true
      → v.file w f
      → Held v (Temporary place) w (abandon s.system d t f true e w).1
  unfolding abandon remove_temporary
  abandon-Held d place t f e w on dot file q n =
      posix.files.unlink_held d t place _ (posix.files.close_file f w file d place on) q
        (λ x. n (t, dot, x))
      ∙ posix.files.close_held f w q

  -- The same for a file that has been closed.
  pub abandon-closed_held :
      (d : ℕ) (place : Place) (t : String) (e : GoError) (w : W)
      → v.inside w d place
      → is_dotted t ≡ true
      → Held v (Temporary place) w (abandon s.system d t 0 false e w).1
  unfolding abandon remove_temporary
  abandon-closed_held d place t e w on dot q n =
      posix.files.unlink_held d t place w on q (λ x. n (t, dot, x))
