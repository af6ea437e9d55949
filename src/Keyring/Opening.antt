-- ===== src/Keyring/Opening.antt =====
-- What `Open` of the root package selects.
use mathlib.Core.Path.{fun_ext}
use common_keyring.Base.{
  String, true, none, some, List, ◌==◌, string_eq, ◌≡◌, ◌≢◌, ap, ◌⊎◌, ◌&&◌, if◌then◌else◌,
}
use common_keyring.Errors.{Action}
use common_keyring.Contract.{Context, context_error, Keyringer}
use common_keyring.Contract.Info.{Info, backend_filesystem, persistence_persistent, host_current}
use common_keyring.Selection.{is_cons}
use common_keyring.Keyring.{
  Platform, Options, refused, open_with, native_keyring, open_fallback, open_native, registry,
  order_of, open_keyring, merge_options,
}

module _ {W : Type 0} (p : Platform W) where
  open_fallback-no_dir :
      (open_fs : String → String → Action W (Keyringer W)) (o : Options W)
      → o.fallback_dir ≡ ""
      → open_fallback (record p { open_filesystem = open_fs }) o ≡ open_fallback p o
  unfolding open_fallback
  open_fallback-no_dir open_fs o h = fun_ext λ ctx. fun_ext λ w. rw h

  registry-no_dir :
      (open_fs : String → String → Action W (Keyringer W)) (o : Options W)
      → o.fallback_dir ≡ ""
      → registry (record p { open_filesystem = open_fs }) o ≡ registry p o
  unfolding registry
  registry-no_dir open_fs o h = fun_ext λ b.
      ap
        (λ g.
          if p.native_supported && (b == p.native_info.backend)
          then some (open_native p o)
          else if b == backend_filesystem
          then some g
          else none)
        (open_fallback-no_dir open_fs o h)

  -- Without a fallback directory the result of `Open`, and all that it does to the world, are the
  -- same whatever `Open` of the filesystem backend would do.
  pub open_keyring-no_fallback :
      (open_fs : String → String → Action W (Keyringer W)) (ctx : Context W) (os : List (Options W))
      (w : W)
      → (merge_options os).fallback_dir ≡ ""
      → open_keyring (record p { open_filesystem = open_fs }) ctx os w ≡ open_keyring p ctx os w
  unfolding open_keyring
  open_keyring-no_fallback open_fs ctx os w h =
      let o = merge_options os in
      ap
        (λ r. elim (context_error ctx w) [
          | some e ↦ (refused e, w)
          | none ↦ open_with ctx o (order_of p o) r w
        ])
        (registry-no_dir open_fs o h)

  -- What a discovered keyring is: the platform's native one, after a successful probe, or the
  -- filesystem, which was allowed by a fallback directory and is marked as a fallback.
  pub record IsDiscovered (o : Options W) (k : Keyringer W) (info : Info) : Type 0 where
    pub case :
        ((info.backend ≡ p.native_info.backend)
          × (info.persistence ≡ p.native_info.persistence)
          × (info.host ≡ p.native_info.host)
          × (k ≡ native_keyring p o.service)
          × (p.native_supported ≡ true))
        ⊎ ((info.backend ≡ backend_filesystem)
            × (info.persistence ≡ persistence_persistent)
            × (info.host ≡ host_current)
            × (info.fallback ≡ true)
            × (o.fallback_dir ≢ ""))
    pub marked : is_cons info.rejected ≡ true → info.fallback ≡ true
