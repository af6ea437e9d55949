-- ===== src/Filesystem/Directories/Prepared.antt =====
-- What `prepareDirectories` of internal/backend/fs/directory_linux.go has checked of a directory.
use Prim.Native.Nat.{bit_and}
use common_keyring.Base.{
  ℕ, String, true, nat_eq, ◌≡◌, refl, sym, ◌∙◌, ap, pair-eq, arith, Bool-cases, inl, inr,
}
use common_keyring.Errors.{GoError, Result, ok, err, Action, Fallible, ok-eq, fs_not_exist, is}
use common_keyring.Filesystem.Steps.{return, ◌>>=◌, relabel}
use common_keyring.Filesystem.Steps.Runs.{bind-ok, relabel-ok, finally-ok}
use common_keyring.Filesystem.Layout.{layout_version}
use common_keyring.Filesystem.System.{Stat}
use common_keyring.Filesystem.Storage.{s_ifmt}
use common_keyring.Filesystem.Directories.{
  Host, directory_mode, make_directory, directory_error, s_ifdir, check_directory,
  validate_directory, keep_private, validated, open_directory, open_directory_at, or_create,
  open_or_create, prepare_service, prepare_layout, prepare_directories,
}

-- A directory of this user that nobody else has access to.
pub record IsPrivate (uid : ℕ) (status : Stat) : Type 0 where
  pub directory : bit_and status.mode s_ifmt ≡ s_ifdir
  pub owner : status.uid ≡ uid
  pub mode : bit_and status.mode 0o077 ≡ 0

check_directory-IsPrivate :
    (uid : ℕ) (status : Stat) → check_directory uid status ≡ ok tt → IsPrivate uid status
unfolding check_directory
check_directory-IsPrivate uid status h = record {
  directory = ground arith;
  owner = ground arith;
  mode = ground arith;
}

module _ {W : Type 0} (h : Host W) where
  -- From a state to a state, a directory is opened, and its status is read, which is private.
  pub record Entry (uid : ℕ) (opening : Action W ℕ) (d : ℕ) (w w' : W) : Type 0 where
    pub after : W
    pub status : Stat
    pub opened : opening w ≡ (ok d, after)
    pub inspected : h.fstat d after ≡ (ok status, w')
    pub private_status : IsPrivate uid status

  -- From a state to a state, a directory in another one is entered: it exists, or it is made after
  -- it was not found.
  pub data Entered (uid parent : ℕ) (name : String) (d : ℕ) (w w' : W) : Type 0 where
    existing : Entry uid (h.open_at parent name) d w w' → Entered uid parent name d w w'
    created :
        (e : GoError) (w1 w2 : W)
        → open_directory_at h parent name uid w ≡ (err e, w1)
        → is e fs_not_exist ≡ true
        → make_directory h parent name w1 ≡ (ok tt, w2)
        → Entry uid (h.open_at parent name) d w2 w'
        → Entered uid parent name d w w'

  keep_private-ok :
      (d d' : ℕ) (r : Fallible) (w w' : W)
      → keep_private h d r w ≡ (ok d', w')
      → (r ≡ ok tt) × (d ≡ d') × (w ≡ w')
  unfolding keep_private
  keep_private-ok d d' (ok _) w w' e = (refl, ok-eq (ap (λ p. p.0) e), ap (λ p. p.1) e)
  keep_private-ok d d' (err x) w w' e = cc

  validated-IsPrivate :
      (uid d d' : ℕ) (w w' : W)
      → validated h uid d w ≡ (ok d', w')
      → (d ≡ d') × (status : Stat) × (h.fstat d w ≡ (ok status, w')) × IsPrivate uid status
  unfolding validated validate_directory
  validated-IsPrivate uid d d' w w' e =
      let v = validate_directory h d uid w in
      let (r, same, stays) = keep_private-ok d d' v.0 v.1 w' e in
      let (status, w1, f, g) = bind-ok _ _ w v.1 tt (pair-eq _ r refl) in
      (
        same,
        status,
        relabel-ok _ (h.fstat d) w w1 status f ∙ ap (λ x. (ok status, x)) (ap (λ p. p.1) g ∙ stays),
        check_directory-IsPrivate uid status (ap (λ p. p.0) g),
      )

  opening-Entry :
      (uid d : ℕ) (opening : Action W ℕ) (w w' : W)
      → (relabel (directory_error "open directory") opening >>= validated h uid) w ≡ (ok d, w')
      → Entry uid opening d w w'
  opening-Entry uid d opening w w' e =
      let (d0, w1, o, v) = bind-ok _ _ w w' d e in
      let (same, status, f, p) = validated-IsPrivate uid d0 d w1 w' v in
      record {
        after = w1;
        status = status;
        opened = relabel-ok _ opening w w1 d0 o ∙ ap (λ x. (ok x, w1)) same;
        inspected = ap (λ x. h.fstat x w1) (sym same) ∙ f;
        private_status = p;
      }

  open_at-Entry :
      (parent : ℕ) (name : String) (uid d : ℕ) (w w' : W)
      → open_directory_at h parent name uid w ≡ (ok d, w')
      → Entry uid (h.open_at parent name) d w w'
  unfolding open_directory_at
  open_at-Entry parent name uid d w w' e = opening-Entry uid d (h.open_at parent name) w w' e

  or_create-Entered :
      (parent : ℕ) (name : String) (uid d : ℕ) (r : Result ℕ) (w w1 w' : W)
      → open_directory_at h parent name uid w ≡ (r, w1)
      → or_create h parent name uid r w1 ≡ (ok d, w')
      → Entered uid parent name d w w'
  unfolding or_create
  or_create-Entered parent name uid d (ok d0) w w1 w' o e =
      existing (open_at-Entry parent name uid d w w' (o ∙ e))
  or_create-Entered parent name uid d (err x) w w1 w' o e = elim (Bool-cases (is x fs_not_exist)) [
    | inl m ↦
        let (_, w2, f, g) = bind-ok _ _ w1 w' d (rw m at e) in
        created x w1 w2 o m f (open_at-Entry parent name uid d w2 w' g)
    | inr m ↦ cc (rw m at e)
  ]

  open_or_create-Entered :
      (parent : ℕ) (name : String) (uid d : ℕ) (w w' : W)
      → open_or_create h parent name uid w ≡ (ok d, w')
      → Entered uid parent name d w w'
  unfolding open_or_create
  open_or_create-Entered parent name uid d w w' e =
      let r = open_directory_at h parent name uid w in
      or_create-Entered parent name uid d r.0 w r.1 w' refl e

  -- The steps of a run that prepares the three directories behind a root path, each one from the
  -- state that the step before left.
  pub record Prepared (root_path service_id : String) (uid : ℕ) (w w' : W) : Type 0 where
    pub root : ℕ
    pub version : ℕ
    pub service : ℕ
    pub made_root : W
    pub in_root : W
    pub in_version : W
    pub in_service : W
    pub made : h.mkdir_all root_path directory_mode w ≡ (ok tt, made_root)
    pub of_root : Entry uid (h.open_path root_path) root made_root in_root
    pub of_version : Entered uid root layout_version version in_root in_version
    pub of_service : Entered uid version service_id service in_version in_service
    pub closed : w' ≡ (h.close root (h.close version (h.close service in_service).1).1).1

  -- Where `prepareDirectories` succeeds, these steps lead, each from the state that the one before
  -- left, to the state that it leaves: the root path is made with mode 0700; the root is opened; the
  -- directory of the layout is entered in it, and that of the service in the latter, where to enter
  -- is to open what exists, or to make it after it was not found and to open it; and the three are
  -- closed, the last one first. The status of each, read after it was opened, is that of a directory
  -- of the effective user without access for anybody else.
  pub prepare_directories-Prepared :
      (root_path service_id : String) (uid : ℕ) (w w' : W)
      → prepare_directories h root_path service_id uid w ≡ (ok tt, w')
      → Prepared root_path service_id uid w w'
  unfolding prepare_directories open_directory prepare_layout prepare_service
  prepare_directories-Prepared root_path service_id uid w w' e =
      let (_, w1, m, e1) = bind-ok _ _ w w' tt e in
      let (root, w2, r, e2) = bind-ok _ _ w1 w' tt e1 in
      let (l, close_root) =
        finally-ok (prepare_layout h service_id uid root) (h.close root) w2 w' tt e2 in
      let (version, w3, v, e3) = bind-ok _ _ w2 _ tt l in
      let (s, close_version) =
        finally-ok (prepare_service h service_id uid version) (h.close version) w3 _ tt e3 in
      let (service, w4, t, e4) = bind-ok _ _ w3 _ tt s in
      let (_, close_service) = finally-ok (return tt) (h.close service) w4 _ tt e4 in
      record {
        root = root;
        version = version;
        service = service;
        made_root = w1;
        in_root = w2;
        in_version = w3;
        in_service = w4;
        made = relabel-ok _ _ w w1 tt m;
        of_root =
            opening-Entry uid root (h.open_path root_path) w1 w2 (relabel-ok _ _ w1 w2 root r);
        of_version =
            open_or_create-Entered root layout_version uid version w2 w3
              (relabel-ok _ _ w2 w3 version v);
        of_service =
            open_or_create-Entered version service_id uid service w3 w4
              (relabel-ok _ _ w3 w4 service t);
        closed =
            close_root
            ∙ ap (λ x. (h.close root x).1)
                (close_version ∙ ap (λ x. (h.close version x).1) close_service);
      }
