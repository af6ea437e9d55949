-- ===== src/Secure/Opening.antt =====
-- What `Open` of the package secure selects.
use common_keyring.Base.{
  String, true, false, none, some, List, ◌==◌, string_eq, ◌≡◌, refl, sym, ◌∙◌, ap, arith, ◌⊎◌, inl,
  inr, if-some, and-true, eq_iff, ◌&&◌,
}
use common_keyring.Errors.{Result, ok, err}
use common_keyring.Contract.{Context, Keyringer}
use common_keyring.Contract.Info.{
  Backend, Info, persistence_session, persistence_persistent, host_current, host_windows,
  backend_secret_service, backend_kernel_keyring, backend_windows_credential_manager,
}
use common_keyring.Selection.{Opener, Selection, selected, failed, accept}
use common_keyring.Selection.Winner.{Chosen, selected-Chosen}
use common_keyring.Selection.Rejections.{accept_self}
use common_keyring.Keyring.{opened, from_selection}
use common_keyring.Secure.{
  Options, Getter, Native, Build, Linux, native_keyring, default_order, open_default,
  default_registry, default_getter, wsl2_info, secret_service_info, kernel_info, described,
  open_wsl2, open_secret_service, open_kernel, linux_registry, linux_order, linux_getter,
  merge_options, open_keyring,
}

module _ {W : Type 0} where
  pub open_keyring-getter :
      (getter : Getter W) (ctx : Context W) (os : List (Options W)) (w w' : W) (k : Keyringer W)
      (info : Info)
      → (merge_options os).keyringer ≡ none
      → open_keyring getter ctx os w ≡ (opened k info, w')
      → getter ctx (merge_options os) w ≡ (opened k info, w')
  unfolding open_keyring
  open_keyring-getter getter ctx os w w' k info h e = ground arith

  from_selection-opened :
      (s : Selection (Keyringer W) × W) (k : Keyringer W) (info : Info) (w' : W)
      → from_selection s ≡ (opened k info, w')
      → s ≡ (selected k info, w')
  unfolding from_selection
  from_selection-opened (selected k i, w) k' info w' h = cc
  from_selection-opened (failed e, w) k' info w' h = cc

  default_registry-some :
      (n : Native W) (build : Build) (service : String) (b : Backend) (f : Opener W (Keyringer W))
      → default_registry n build service b ≡ some f
      → (build.native_supported ≡ true)
        × (b ≡ build.native_info.backend)
        × (f ≡ open_default n build service)
  unfolding default_registry
  default_registry-some n build service b f h =
      elim (if-some (build.native_supported && (b == build.native_info.backend)) _ _ _ h) [
        | inl (t, e) ↦
            let (s, m) = and-true build.native_supported (b == build.native_info.backend) t in
            (s, (eq_iff b build.native_info.backend).0 m, sym e)
        | inr n ↦ cc
      ]

  default_getter-Chosen :
      (n : Native W) (build : Build) (ctx : Context W) (o : Options W) (w : W) (k : Keyringer W)
      (info : Info) (w' : W)
      → default_getter n build ctx o w ≡ (opened k info, w')
      → Chosen ctx (default_registry n build o.service) (default_order build o) w k info w'
  unfolding default_getter
  default_getter-Chosen n build ctx o w k info w' e =
      selected-Chosen _ _ _ w k info w' (from_selection-opened _ k info w' e)

  open_default-ok :
      (n : Native W) (build : Build) (service : String) (ctx : Context W) (w w' : W)
      (k : Keyringer W) (base : Info)
      → open_default n build service ctx w ≡ (ok (k, base), w')
      → (k ≡ native_keyring n service) × (base ≡ build.native_info)
  unfolding open_default
  open_default-ok n build service ctx w w' k base h = (cc, cc)

  -- On a build other than Linux, a keyring that `Open` discovers is the native one of a build
  -- that has one, with that build's description and no sign of a fallback beyond the rejected
  -- candidates that it lists.
  pub default_getter-opened :
      (n : Native W) (build : Build) (ctx : Context W) (os : List (Options W)) (w w' : W)
      (k : Keyringer W) (info : Info)
      → (merge_options os).keyringer ≡ none
      → open_keyring (default_getter n build) ctx os w ≡ (opened k info, w')
      → (build.native_supported ≡ true)
        × (k ≡ native_keyring n (merge_options os).service)
        × (info ≡ accept build.native_info info.rejected)
  default_getter-opened n build ctx os w w' k info h e =
      let o = merge_options os in
      let c =
        default_getter-Chosen n build ctx o w k info w'
          (open_keyring-getter (default_getter n build) ctx os w w' k info h e) in
      let (s, _, f) = default_registry-some n build o.service c.backend c.opener c.entry in
      let (ke, ie) =
        open_default-ok n build o.service ctx c.reached w' k c.base
          (ap (λ g. g ctx c.reached) (sym f) ∙ c.opens) in
      (s, ke, rw ie at (accept_self info c.base c.rejected c.described))

  linux_registry-some :
      (l : Linux W) (service : String) (b : Backend) (f : Opener W (Keyringer W))
      → linux_registry l service b ≡ some f
      → ((b ≡ backend_windows_credential_manager) × (open_wsl2 l service ≡ f))
        ⊎ ((b ≡ backend_secret_service) × (open_secret_service l service ≡ f))
        ⊎ ((b ≡ backend_kernel_keyring) × (open_kernel l service ≡ f))
  unfolding linux_registry
  linux_registry-some l service b f h =
      elim (if-some (b == backend_windows_credential_manager) _ _ _ h) [
        | inl (m, e) ↦ inl ((eq_iff b _).0 m, e)
        | inr h1 ↦ elim (if-some (b == backend_secret_service) _ _ _ h1) [
          | inl (m, e) ↦ inr (inl ((eq_iff b _).0 m, e))
          | inr h2 ↦ elim (if-some (b == backend_kernel_keyring) _ _ _ h2) [
            | inl (m, e) ↦ inr (inr ((eq_iff b _).0 m, e))
            | inr n ↦ cc
          ]
        ]
      ]

  described-ok :
      (info base : Info) (r : Result (Keyringer W) × W) (k : Keyringer W) (w' : W)
      → described info r ≡ (ok (k, base), w')
      → base ≡ info
  unfolding described
  described-ok info base (ok k', w) k w' h = cc
  described-ok info base (err e, w) k w' h = cc

  open_secret_service-ok :
      (l : Linux W) (service : String) (ctx : Context W) (w w' : W) (k : Keyringer W) (base : Info)
      → open_secret_service l service ctx w ≡ (ok (k, base), w')
      → (base ≡ secret_service_info) × (k ≡ native_keyring l.native service)
  unfolding open_secret_service
  open_secret_service-ok l service ctx w w' k base h = ground arith

  -- The three backends of the package on Linux, with what each promises.
  pub data IsSecure (l : Linux W) (service : String) (k : Keyringer W) (info : Info) : Type 0 where
    windows :
        info.backend ≡ backend_windows_credential_manager
        → info.persistence ≡ persistence_persistent
        → info.host ≡ host_windows
        → IsSecure l service k info
    secret_service :
        info.backend ≡ backend_secret_service
        → info.persistence ≡ persistence_persistent
        → info.host ≡ host_current
        → k ≡ native_keyring l.native service
        → IsSecure l service k info
    kernel :
        info.backend ≡ backend_kernel_keyring
        → info.persistence ≡ persistence_session
        → info.host ≡ host_current
        → IsSecure l service k info

  open_wsl2-ok :
      (l : Linux W) (service : String) (ctx : Context W) (w w' : W) (k : Keyringer W) (base : Info)
      → open_wsl2 l service ctx w ≡ (ok (k, base), w')
      → base ≡ wsl2_info
  unfolding open_wsl2
  open_wsl2-ok l service ctx w w' k base h = described-ok wsl2_info base _ k w' h

  open_kernel-ok :
      (l : Linux W) (service : String) (ctx : Context W) (w w' : W) (k : Keyringer W) (base : Info)
      → open_kernel l service ctx w ≡ (ok (k, base), w')
      → base ≡ kernel_info
  unfolding open_kernel
  open_kernel-ok l service ctx w w' k base h = described-ok kernel_info base _ k w' h

  pub linux_opener-ok :
      (l : Linux W) (service : String) (ctx : Context W) (w w' : W) (b : Backend)
      (f : Opener W (Keyringer W)) (k : Keyringer W) (base : Info)
      → linux_registry l service b ≡ some f
      → f ctx w ≡ (ok (k, base), w')
      → IsSecure l service k base × (base.backend ≡ b) × (base.fallback ≡ false)
  linux_opener-ok l service ctx w w' b f k base g x = elim (linux_registry-some l service b f g) [
    | inl (be, fe) ↦
        rw (open_wsl2-ok l service ctx w w' k base (ap (λ h. h ctx w) fe ∙ x))
          (windows refl refl refl, sym be, refl)
    | inr (inl (be, fe)) ↦
        let (e, ke) = open_secret_service-ok l service ctx w w' k base (ap (λ h. h ctx w) fe ∙ x) in
        rw e (secret_service refl refl refl ke, sym be, refl)
    | inr (inr (be, fe)) ↦
        rw (open_kernel-ok l service ctx w w' k base (ap (λ h. h ctx w) fe ∙ x))
          (kernel refl refl refl, sym be, refl)
  ]

  pub linux_getter-Chosen :
      (l : Linux W) (ctx : Context W) (o : Options W) (w : W) (k : Keyringer W) (info : Info)
      (w' : W)
      → linux_getter l ctx o w ≡ (opened k info, w')
      → Chosen ctx
          (linux_registry l o.service)
          (linux_order l o w).0
          (linux_order l o w).1
          k
          info
          w'
  unfolding linux_getter
  linux_getter-Chosen l ctx o w k info w' e =
      selected-Chosen _ _ _ _ k info w' (from_selection-opened _ k info w' e)
