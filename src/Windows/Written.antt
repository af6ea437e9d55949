-- ===== src/Windows/Written.antt =====
-- What `Set` of internal/backend/windows/client.go has written where it succeeds.
use common_keyring.Base.{
  ◌≤◌, String, false, not, ◌||◌, Option, none, some, length, ltb, ◌≡◌, refl, sym, ap, pair-eq,
  arith,
}
use common_keyring.Errors.{GoError, Result, ok, err, Action, refuse-ok, ok-eq}
use common_keyring.Contract.{Context, context_error, Bytes}
use common_keyring.Filesystem.Steps.Runs.{on_error-ok}
use common_keyring.Windows.{
  Manager, max_credential_blob_bytes, max_generic_target_units, max_username_units, has_nul,
  is_empty, invalid, target_name, utf16_units, validated_target, checked_target, operate, bounded,
  set,
}

operate-ok :
    {W A : Type 0} (operation : String) (native : Bytes → Action W A) (r : Result Bytes) (w w' : W)
    (a : A)
    → operate operation native r w ≡ (ok a, w')
    → (target : Bytes) × (r ≡ ok target) × (native target w ≡ (ok a, w'))
unfolding operate
operate-ok operation native (ok target) w w' a h = (
  target,
  refl,
  pair-eq _ (on_error-ok _ (native target w).0 a (ap (λ p. p.0) h)) (ap (λ p. p.1) h),
)
operate-ok operation native (err e) w w' a h = cc

bounded-ok :
    (value : Bytes) (r : Result Bytes) (target : Bytes)
    → bounded value r ≡ ok target
    → (r ≡ ok target) × (length value ≤ max_credential_blob_bytes)
unfolding bounded
bounded-ok value (err e) target h = cc
bounded-ok value (ok t) target h =
    let (a, h1) = refuse-ok (ltb max_credential_blob_bytes (length value)) _ _ h in
    (h1, ground arith)

module _ {W : Type 0} (manager : Manager W) where
  -- The names that the target of a credential is made of.
  pub record IsTarget (service key target : Bytes) : Type 0 where
    pub joined : target ≡ target_name service key
    pub service_given : is_empty service ≡ false
    pub key_given : is_empty key ≡ false
    pub no_nul : has_nul service || has_nul key ≡ false
    pub valid : not (manager.is_valid service) || not (manager.is_valid key) ≡ false
    pub username_bound : utf16_units manager key ≤ max_username_units
    pub target_bound : utf16_units manager target ≤ max_generic_target_units

  validated_target-IsTarget :
      (service key target : Bytes)
      → validated_target manager service key ≡ ok target
      → IsTarget service key target
  unfolding validated_target
  validated_target-IsTarget service key target h =
      let (a, h1) = refuse-ok _ _ _ h in
      let (b, h2) = refuse-ok _ _ _ h1 in
      let (c, h3) = refuse-ok _ _ _ h2 in
      let (d, h4) = refuse-ok _ _ _ h3 in
      let (e, h5) =
        refuse-ok (ltb max_username_units (utf16_units manager key))
          (invalid "Windows credential username is too long") _ h4 in
      let (f, h6) =
        refuse-ok (ltb max_generic_target_units (utf16_units manager (target_name service key)))
          (invalid "Windows credential target is too long") _ h5 in
      let same : target_name service key ≡ target = ok-eq h6 in
      record {
        joined = sym same;
        service_given = a;
        key_given = b;
        no_nul = c;
        valid = d;
        username_bound = ground arith;
        target_bound = rw (← same) (ground arith);
      }

  -- The target and the value were within the limits of Windows, and were written.
  pub record Written (service key value : Bytes) (w w' : W) : Type 0 where
    pub target : Bytes
    pub is_target : IsTarget service key target
    pub value_bound : length value ≤ max_credential_blob_bytes
    pub written : manager.write_credential target key value w ≡ (ok tt, w')

  checked_target-ok :
      (ctx : Context W) (service key target : Bytes) (w : W)
      → checked_target manager ctx service key w ≡ ok target
      → IsTarget service key target
  unfolding checked_target
  checked_target-ok ctx service key target w h = after (context_error ctx w) h
    where
      after :
          (c : Option GoError)
          → elim c [ some e ↦ err e | none ↦ validated_target manager service key ] ≡ ok target
          → IsTarget service key target
      after none h = validated_target-IsTarget service key target h
      after (some e) h = cc

  -- Where `Set` succeeds, it has written the value once, to the target of the service and the key,
  -- whose names are given, without NUL, in UTF-8 and within the limits of Windows, as is the value.
  pub set-Written :
      (ctx : Context W) (service key value : Bytes) (w w' : W)
      → set manager ctx service key value w ≡ (ok tt, w')
      → Written service key value w w'
  unfolding set
  set-Written ctx service key value w w' h =
      let (target, r, e) = operate-ok "set credential" _ _ w w' tt h in
      let (c, bound) = bounded-ok value _ target r in
      record {
        target = target;
        is_target = checked_target-ok ctx service key target w c;
        value_bound = bound;
        written = e;
      }
