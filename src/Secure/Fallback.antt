-- ===== src/Secure/Fallback.antt =====
-- When the session keyring of the kernel may stand in for the persistent stores.
use common_keyring.Base.{
  Bool, true, false, none, List, [], ◌∷◌, ◌++◌, map, ◌≡◌, ◌≢◌, sym, ◌∙◌, ap, arith, eq_iff,
  if◌then◌else◌,
}
use common_keyring.Contract.{Context, Keyringer}
use common_keyring.Contract.Info.{
  Backend, Info, backend_secret_service, backend_kernel_keyring, backend_windows_credential_manager,
}
use common_keyring.Selection.Rejections.{AllPermit, backend-accept, rejected-accept, Tried-rejected}
use common_keyring.Keyring.{opened}
use common_keyring.Secure.{
  Options, Linux, linux_getter, linux_order, linux_registry, merge_options, open_keyring,
}
use common_keyring.Secure.Opening.{linux_getter-Chosen, linux_opener-ok, open_keyring-getter}

secret-ne-kernel : backend_secret_service ≢ backend_kernel_keyring
secret-ne-kernel = ground (arith, eq_iff backend_secret_service backend_kernel_keyring)

windows-ne-kernel : backend_windows_credential_manager ≢ backend_kernel_keyring
windows-ne-kernel = ground (arith, eq_iff backend_windows_credential_manager backend_kernel_keyring)

-- The default order, without and with the Windows store.
abbrev pub stores : Bool → List Backend
stores wsl2 =
    (if wsl2 then backend_windows_credential_manager ∷ [] else []) ++ backend_secret_service ∷ []

before_kernel :
    (bs cs : List Backend)
    → backend_secret_service ∷ backend_kernel_keyring ∷ [] ≡ bs ++ backend_kernel_keyring ∷ cs
    → bs ≡ backend_secret_service ∷ []
before_kernel [] cs h = absurd (secret-ne-kernel (cc))
before_kernel (b ∷ []) cs h = cc
before_kernel (b ∷ c ∷ []) cs h = cc
before_kernel (b ∷ c ∷ d ∷ bs) cs h = cc

before_kernel_wsl2 :
    (wsl2 : Bool) (bs cs : List Backend)
    → (if wsl2 then backend_windows_credential_manager ∷ [] else [])
        ++ backend_secret_service ∷ backend_kernel_keyring ∷ []
      ≡ bs ++ backend_kernel_keyring ∷ cs
    → bs ≡ stores wsl2
before_kernel_wsl2 false bs cs h = before_kernel bs cs h
before_kernel_wsl2 true [] cs h = absurd (windows-ne-kernel (cc))
before_kernel_wsl2 true (b ∷ bs) cs h = cc (before_kernel bs cs (cc))

module _ {W : Type 0} (l : Linux W) where
  linux_order-default :
      (o : Options W) (w : W)
      → o.backends ≡ []
      → (linux_order l o w).0
        ≡ (if (l.is_wsl2 w).0 then backend_windows_credential_manager ∷ [] else [])
          ++ backend_secret_service ∷ backend_kernel_keyring ∷ []
  unfolding linux_order
  linux_order-default o w h = rw h

  -- With the default order, a kernel keyring is selected only after the Secret Service, and in
  -- WSL2 the Windows Credential Manager before it, were rejected as unavailable or unsupported.
  pub kernel-after_stores :
      (ctx : Context W) (os : List (Options W)) (w w' : W) (k : Keyringer W) (info : Info)
      → (merge_options os).keyringer ≡ none
      → (merge_options os).backends ≡ []
      → open_keyring (linux_getter l) ctx os w ≡ (opened k info, w')
      → info.backend ≡ backend_kernel_keyring
      → (map (λ r. r.backend) info.rejected ≡ stores (l.is_wsl2 w).0) × AllPermit info.rejected
  kernel-after_stores ctx os w w' k info h d e b =
      let o = merge_options os in
      let c =
        linux_getter-Chosen l ctx o w k info w'
          (open_keyring-getter (linux_getter l) ctx os w w' k info h e) in
      let (_, named, _) =
        linux_opener-ok l o.service ctx c.reached w' c.backend c.opener k c.base c.entry c.opens in
      let (names, all) = Tried-rejected ctx (linux_registry l o.service) c.tried in
      let r : info.rejected ≡ c.rejected =
        ap (λ i. i.rejected) c.described ∙ rejected-accept c.base c.rejected in
      let at : c.backend ≡ backend_kernel_keyring =
        sym named ∙ sym (ap (λ i. i.backend) c.described ∙ backend-accept c.base c.rejected) ∙ b in
      (
        rw (r, names)
            (before_kernel_wsl2 (l.is_wsl2 w).0 c.before c.after
              (sym (linux_order-default o w d) ∙ c.at ∙ ap (λ x. c.before ++ x ∷ c.after) at)),
        rw r all,
      )
