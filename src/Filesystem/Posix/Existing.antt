-- ===== src/Filesystem/Posix/Existing.antt =====
-- `openCredential` and `validateExistingCredential` of internal/backend/fs/storage_linux.go on the
-- files of the system.
use Prim.Native.Nat.{bit_and}
use common_keyring.Base.{ℕ, String, true, some, ◌∷◌, ◌==◌, nat_eq, ◌≡◌, refl, arith}
use common_keyring.Errors.{Result, ok, err, Fallible, ok-eq}
use common_keyring.Contract.{Bytes}
use common_keyring.Filesystem.Steps.Runs.{bind-run}
use common_keyring.Filesystem.System.{Stat}
use common_keyring.Filesystem.Storage.{
  Storage, s_ifmt, s_ifreg, read_flags, check_status, validate_credential, keep_valid,
  open_credential, close_existing, validate_existing,
}
use common_keyring.Filesystem.Posix.{Place, View, Calm, Posix}
use common_keyring.Filesystem.Posix.Near.{Nothing, Near, Near-trans, Calm-Near}

check_status-regular :
    (uid : ℕ) (status : Stat)
    → check_status uid status ≡ ok tt
    → (bit_and status.mode s_ifmt == s_ifreg) ≡ true
unfolding check_status
check_status-regular uid status h = ground arith

module _ {W : Type 0} (s : Storage W) (v : View W) (posix : Posix s v) where
  -- The status of a descriptor was inspected, and was that of a regular file where it is valid.
  record Validated (f : ℕ) (w : W) (r : Fallible) (w' : W) : Type 0 where
    calm : Calm v w w'
    regular :
        r ≡ ok tt
        → (status : Stat) × (s.system.fstat f w ≡ (ok status, w'))
          × ((bit_and status.mode s_ifmt == s_ifreg) ≡ true)

  validate_credential-Validated :
      (f : ℕ) (w : W) → Validated f w (validate_credential s f w).0 (validate_credential s f w).1
  unfolding validate_credential
  validate_credential-Validated f w =
      bind-run (Validated f w) _ _ w
        (λ e h. record { calm = posix.files.fstat_calm f w; regular = λ k. cc })
        (λ status h. record {
          calm = posix.files.fstat_calm f w;
          regular = λ k. (status, h, check_status-regular s.effective_uid status k);
        })

  -- No file was changed; a descriptor that is returned reads what the credential holds.
  pub record Readable (place : Place) (name : String) (w : W) (r : Result ℕ) (w' : W) : Type 0 where
    pub near : Near v Nothing w w'
    pub on :
        (f : ℕ)
        → r ≡ ok f
        → v.file w' f × (b : Bytes) × (v.holds w (name ∷ place) ≡ some b) × v.reading w' f b

  module _ (d : ℕ) (place : Place) (name : String) where
    keep_valid-Readable :
        (f : ℕ) (w w1 w2 : W) (r : Fallible)
        → v.inside w d place
        → s.system.open_file_at d name read_flags 0 w ≡ (ok f, w1)
        → Calm v w w1
        → Validated f w1 r w2
        → Readable place name w (keep_valid s f r w2).0 (keep_valid s f r w2).1
    unfolding keep_valid
    keep_valid-Readable f w w1 w2 (ok _) on h calm x = record {
      near = Near-trans v (Calm-Near v Nothing calm) (Calm-Near v Nothing x.calm);
      on = λ g k.
          let (status, fstat, regular) = x.regular refl in
          let (b, holds, reading) =
            posix.files.opened_regular d f name place status w w1 w2 on h fstat regular in
          rw (← ok-eq k)
            (x.calm.file f (posix.files.opened_file d f name w w1 h), b, holds, reading);
    }
    keep_valid-Readable f w w1 w2 (err e) on h calm x = record {
      near =
          Near-trans v (Near-trans v (Calm-Near v Nothing calm) (Calm-Near v Nothing x.calm))
            (record {
              held = λ q n. posix.files.close_held f w2 q;
              inside =
                  posix.files.close_file f w2
                    (x.calm.file f (posix.files.opened_file d f name w w1 h));
            });
      on = λ g k. cc;
    }

    pub open_credential-Readable :
        (w : W)
        → v.inside w d place
        → Readable place name w (open_credential s d name w).0 (open_credential s d name w).1
    unfolding open_credential
    open_credential-Readable w on =
        let calm = posix.files.open_read_calm d name w in
        bind-run (Readable place name w) _ _ w
          (λ e h. record { near = Calm-Near v Nothing calm; on = λ f k. cc })
          (λ f h. keep_valid-Readable f w _ _ _ on h calm (validate_credential-Validated f _))

    close_existing-Near :
        (w w1 : W) (r : Result ℕ)
        → Readable place name w r w1
        → Near v Nothing w (close_existing s r w1).1
    unfolding close_existing
    close_existing-Near w w1 (err e) x = x.near
    close_existing-Near w w1 (ok f) x = Near-trans v x.near (record {
      held = λ q n. posix.files.close_held f w1 q;
      inside = posix.files.close_file f w1 (x.on f refl).0;
    })

    pub validate_existing-Near :
        (w : W) → v.inside w d place → Near v Nothing w (validate_existing s d name w).1
    unfolding validate_existing
    validate_existing-Near w on = close_existing-Near w _ _ (open_credential-Readable w on)
