-- ===== src/Keyctl/Stored.antt =====
-- What the operations of internal/backend/keyctl/keyring_linux.go do to the keys in the kernel.
use common_keyring.Base.{
  ℕ, zero, suc, String, Option, none, some, string_eq, take, leb, if◌then◌else◌, ◌≡◌, ◌≢◌, ◌⊎◌,
  refl, sym, ◌∙◌, ap, inl, inr, Bool-cases, arith,
}
use common_keyring.Errors.{GoError, Result, Fallible, ok, err, Action, ok-eq}
use common_keyring.Contract.{Bytes}
use common_keyring.Filesystem.Steps.{return, ◌>>=◌, ◌>>◌, relabel}
use common_keyring.Filesystem.Steps.Runs.{bind-run, relabel-ok, on_error-ok}
use common_keyring.Keyctl.{
  Kernel, operation_error, key_name, read_sized, read_key_contents, find, add,
}
use common_keyring.Keyctl.Laws.{Keys, Still, KeyLaws}

module _ {W : Type 0} (k : Kernel W) (v : Keys W) (session : ℕ) (laws : KeyLaws k v session) where
  -- The reading of a key changed nothing, and what it returned is the payload.
  pub record Read (n : String) (w : W) (r : Result Bytes) (w' : W) : Type 0 where
    pub held : (q : String) → v.holds w' q ≡ v.holds w q
    pub done : (value : Bytes) → r ≡ ok value → v.holds w n ≡ some value

  Read-behind :
      (n : String) (w w1 w' : W) (r : Result Bytes) → Still v w w1 → Read n w1 r w' → Read n w r w'
  Read-behind n w w1 w' r s x = record {
    held = λ q. x.held q ∙ s.held q;
    done = λ value h. sym (s.held n) ∙ x.done value h;
  }

  lost : (n : String) (w w' : W) (e : GoError) → Still v w w' → Read n w (err e) w'
  lost n w w' e s = record { held = s.held; done = λ value h. cc }

  -- A round of the loop of `readKeyContents` with the rounds that follow it.
  round-Read :
      (id size : ℕ) (n : String) (w w1 : W) (r : Result (Bytes × ℕ)) (more : ℕ → Result Bytes × W)
      → v.key_at w id n
      → Still v w w1
      → k.buffer id size w ≡ (r, w1)
      → ((count : ℕ) → Read n w1 (more count).0 (more count).1)
      → let x : Result Bytes × W = elim r [
        | err e ↦ (err e, w1)
        | ok (value, count) ↦ if leb count size then (ok (take count value), w1) else more count
      ] in
        Read n w x.0 x.1
  round-Read id size n w w1 (err e) more at s h rest = lost n w w1 e s
  round-Read id size n w w1 (ok (value, count)) more at s h rest =
      elim (Bool-cases (leb count size)) [
        | inl fits ↦
            let (payload, p, c, t) = laws.buffered id size count n value w w1 at h in
            rw fits (record {
              held = s.held;
              done = λ result e. p ∙ ap some (sym (t (ground arith)) ∙ ok-eq e);
            })
        | inr m ↦ rw m (Read-behind n w w1 _ _ s (rest count))
      ]

  read_sized-Read :
      (rounds size id : ℕ) (n : String) (w : W)
      → v.key_at w id n
      → Read n w (read_sized k rounds size id w).0 (read_sized k rounds size id w).1
  unfolding read_sized
  read_sized-Read zero size id n w at = record { held = λ q. refl; done = λ value h. cc }
  read_sized-Read (suc rounds) size id n w at =
      let s = laws.buffer_still id size w in
      let w1 = (k.buffer id size w).1 in
      round-Read id size n w w1 (k.buffer id size w).0 (λ count. read_sized k rounds count id w1) at
        s refl (λ count. read_sized-Read rounds count id n w1 (s.kept id n at))

  read_key_contents-Read :
      (id : ℕ) (n : String) (w : W)
      → v.key_at w id n
      → Read n w (read_key_contents k id w).0 (read_key_contents k id w).1
  unfolding read_key_contents
  read_key_contents-Read id n w at =
      let s = laws.size_still id w in
      bind-run (Read n w) (k.size id) (λ size. read_sized k k.read_rounds size id) w
        (λ e h. lost n w _ e s)
        (λ size h.
          Read-behind n w _ _ _ s (read_sized-Read k.read_rounds size id n _ (s.kept id n at)))

  pub get-Read :
      (service key : String) (w : W)
      → let n = key_name k service key in
        let m = find k session service key >>= λ id.
        relabel (operation_error "get credential") (read_key_contents k id) in
        Read n w (m w).0 (m w).1
  unfolding find relabel
  get-Read service key w =
      let n = key_name k service key in
      let s = laws.search_still n w in
      bind-run (Read n w) (find k session service key)
        (λ id. relabel (operation_error "get credential") (read_key_contents k id)) w
        (λ e h. lost n w _ e s)
        (λ id h.
          let w1 = (k.search_key session n w).1 in
          let x =
            read_key_contents-Read id n w1
              (laws.searched n id w w1 (relabel-ok _ (k.search_key session n) w w1 id h)) in
          Read-behind n w w1 _ _ s
            (record { held = x.held; done = λ value j. x.done value (on_error-ok _ _ value j) }))

  -- The key of this description was changed to this secret, or not at all, and no other one was.
  pub record Changed (n : String) (secret : Option Bytes) (w : W) (r : Fallible) (w' : W)
      : Type 0 where
    pub off : (q : String) → q ≢ n → v.holds w' q ≡ v.holds w q
    pub own : (v.holds w' n ≡ v.holds w n) ⊎ (v.holds w' n ≡ secret)
    pub done : r ≡ ok tt → v.holds w' n ≡ secret

  pub unchanged :
      (n : String) (secret : Option Bytes) (w w' : W) (e : GoError)
      → ((q : String) → v.holds w' q ≡ v.holds w q)
      → Changed n secret w (err e) w'
  unchanged n secret w w' e held = record {
    off = λ q d. held q;
    own = inl (held n);
    done = λ h. cc;
  }

  Changed-relabel :
      (n : String) (secret : Option Bytes) (w : W) (f : GoError → GoError) (m : Action W (Unit {0}))
      (w1 : W)
      → Changed n secret w (m w1).0 (m w1).1
      → Changed n secret w (relabel f m w1).0 (relabel f m w1).1
  unfolding relabel
  Changed-relabel n secret w f m w1 x = record {
    off = x.off;
    own = x.own;
    done = λ h. x.done (on_error-ok f _ tt h);
  }

  pub add-Changed :
      (service key : String) (value : Bytes) (w : W)
      → Changed
          (key_name k service key)
          (some value)
          w
          (add k session service key value w).0
          (add k session service key value w).1
  unfolding add
  add-Changed service key value w =
      let n = key_name k service key in
      Changed-relabel n (some value) w _ _ w (
        bind-run (Changed n (some value) w) (k.add_key n value session) (λ _. return tt) w
          (λ e h. record {
            off = λ q d. laws.add_held n value w q d;
            own = inl (laws.add_failed n value e w _ h);
            done = λ j. cc;
          })
          (λ id h. record {
            off = λ q d. laws.add_held n value w q d;
            own = inr (laws.added n value id w _ h);
            done = λ j. laws.added n value id w _ h;
          }))

  unlink-Changed :
      (id : ℕ) (n : String) (w w1 : W)
      → Still v w w1
      → v.key_at w1 id n
      → let m = relabel (operation_error "delete credential") (do k.unlink id session; return tt) in
        Changed n none w (m w1).0 (m w1).1
  unlink-Changed id n w w1 s at = Changed-relabel n none w _ _ w1 (
      bind-run (Changed n none w) (k.unlink id session) (λ _. return tt) w1
        (λ e h. record {
          off = λ q d. laws.unlink_held id n w1 q at d ∙ s.held q;
          own = inl (laws.unlink_failed id n e w1 _ at h ∙ s.held n);
          done = λ j. cc;
        })
        (λ r h. record {
          off = λ q d. laws.unlink_held id n w1 q at d ∙ s.held q;
          own = inr (laws.unlinked id r n w1 _ at h);
          done = λ j. laws.unlinked id r n w1 _ at h;
        }))

  pub delete-Changed :
      (service key : String) (w : W)
      → let n = key_name k service key in
        let m = find k session service key >>= λ id.
        relabel (operation_error "delete credential") (do k.unlink id session; return tt) in
        Changed n none w (m w).0 (m w).1
  unfolding find relabel
  delete-Changed service key w =
      let n = key_name k service key in
      let s = laws.search_still n w in
      bind-run (Changed n none w) (find k session service key)
        (λ id. relabel (operation_error "delete credential") (do k.unlink id session; return tt)) w
        (λ e h. unchanged n none w _ e s.held)
        (λ id h.
          let w1 = (k.search_key session n w).1 in
          unlink-Changed id n w w1 s
            (laws.searched n id w w1 (relabel-ok _ (k.search_key session n) w w1 id h)))
