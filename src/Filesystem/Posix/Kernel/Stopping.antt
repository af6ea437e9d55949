-- ===== src/Filesystem/Posix/Kernel/Stopping.antt =====
-- A process that is stopped behind a number of calls of the operating system, and the documented
-- behaviour of its calls.
use common_keyring.Base.{ℕ, zero, suc, String, some, none, [], ◌≡◌, refl, sym, ap, pair-eq}
use common_keyring.Errors.{GoError, plain, ok, err, Action}
use common_keyring.Filesystem.RealSystem.{Calls, real_system}
use common_keyring.Filesystem.Posix.{Place, View, Calm, Files}
use common_keyring.Filesystem.Posix.Quiet.{Calm-refl, Opens, Spared}
use common_keyring.Filesystem.Posix.Kernel.{Kernel, Inspects}

abbrev stopped : GoError
stopped = plain "the process was stopped"

module _ {W : Type 0} where
  -- A call with the number of calls that are left before the process is stopped. Then nothing is
  -- done any more.
  unfoldable pub limited : {B : Type 0} → B → (W → B × W) → W × ℕ → B × (W × ℕ)
  limited gone call (w, zero) = (gone, (w, zero))
  limited gone call (w, suc left) = let (b, w') = call w in (b, (w', left))

  limited-run :
      {B : Type 0} (P : W → Type 0) (gone : B) (call : W → B × W) (w : W × ℕ)
      → P w.0
      → P (call w.0).1
      → P (limited gone call w).1.0
  unfolding limited
  limited-run P gone call (w, zero) x y = x
  limited-run P gone call (w, suc left) x y = y

  -- What a call returned that was not lost.
  limited-done :
      {B : Type 0} (gone b : B) (call : W → B × W) (w w' : W × ℕ)
      → (gone ≡ b → ⊥)
      → limited gone call w ≡ (b, w')
      → call w.0 ≡ (b, w'.0)
  unfolding limited
  limited-done gone b call (w, zero) w' n h = absurd (n (ap (λ p. p.0) h))
  limited-done gone b call (w, suc left) w' n h =
      pair-eq (call w) (ap (λ p. p.0) h) (ap (λ p. p.1.0) h)

  abbrev until : {A : Type 0} → Action W A → Action (W × ℕ) A
  until act = limited (err stopped) act

  -- The calls of a process that is stopped once it has made a number of them.
  abbrev pub stopping : Calls W → Calls (W × ℕ)
  stopping c = record {
    environment = record {
      absolute = λ path. until (c.environment.absolute path);
      stat = λ path. until (c.environment.stat path);
      evaluate_symlinks = λ path. until (c.environment.evaluate_symlinks path);
      mount_info = until c.environment.mount_info;
      close_mount_info = λ w. (limited tt (λ u. (tt, c.environment.close_mount_info u)) w).1;
    };
    directories = record {
      mkdir_all = λ path mode. until (c.directories.mkdir_all path mode);
      mkdir_at = λ p name mode. until (c.directories.mkdir_at p name mode);
      open_path = λ path. until (c.directories.open_path path);
      open_at = λ p name. until (c.directories.open_at p name);
      fstat = λ d. until (c.directories.fstat d);
      close = λ d. until (c.directories.close d);
    };
    open_file_at = λ d name flags mode. until (c.open_file_at d name flags mode);
    fchmod = λ d mode. until (c.fchmod d mode);
    read = λ d. limited ([], some stopped) (c.read d);
    write = λ d contents. limited (0, some stopped) (c.write d contents);
    fsync = λ d. until (c.fsync d);
    rename_at = λ d from e to. until (c.rename_at d from e to);
    unlink_at = λ d name. until (c.unlink_at d name);
    random = λ n. until (c.random n);
  }

module _ {W : Type 0} (v : View W) where
  abbrev pub seen : View (W × ℕ)
  seen = record {
    holds = λ w. v.holds w.0;
    inside = λ w. v.inside w.0;
    file = λ w. v.file w.0;
    filling = λ w. v.filling w.0;
    reading = λ w. v.reading w.0;
  }

  limited-Calm :
      {B : Type 0} (gone : B) (call : W → B × W) (w : W × ℕ)
      → Calm v w.0 (call w.0).1
      → Calm seen w (limited gone call w).1
  limited-Calm gone call w x =
      let y = limited-run (Calm v w.0) gone call w (Calm-refl v w.0) x in
      record {
        held = y.held;
        inside = y.inside;
        file = y.file;
        filling = y.filling;
        reading = y.reading;
      }

  until-Calm :
      {A : Type 0} (act : Action W A) (w : W × ℕ)
      → Calm v w.0 (act w.0).1
      → Calm seen w (until act w).1
  until-Calm act w x = limited-Calm (err stopped) act w x

  until-done :
      {A : Type 0} (act : Action W A) (w w' : W × ℕ) (a : A)
      → until act w ≡ (ok a, w')
      → act w.0 ≡ (ok a, w'.0)
  until-done act w w' a h = limited-done (err stopped) (ok a) act w w' (λ e. cc) h

  until-failed :
      {A : Type 0} (act : Action W A) (w w' : W × ℕ) (e : GoError) (q : Place)
      → ((d : GoError) (w1 : W) → act w.0 ≡ (err d, w1) → v.holds w1 q ≡ v.holds w.0 q)
      → until act w ≡ (err e, w')
      → v.holds w'.0 q ≡ v.holds w.0 q
  unfolding limited
  until-failed act (w, zero) w' e q x h = ap (λ p. v.holds p.1.0 q) (sym h)
  until-failed act (w, suc left) w' e q x h =
      x e w'.0 (pair-eq (act w) (ap (λ p. p.0) h) (ap (λ p. p.1.0) h))

  pub stopping-Files :
      (c : Calls W) → Files (real_system c) v → Files (real_system (stopping c)) seen
  stopping-Files calls x = record {
    open_read_calm = λ d name w. until-Calm _ w (x.open_read_calm d name w.0);
    fstat_calm = λ f w. until-Calm _ w (x.fstat_calm f w.0);
    fchmod_calm = λ f mode w. until-Calm _ w (x.fchmod_calm f mode w.0);
    fsync_calm = λ f w. until-Calm _ w (x.fsync_calm f w.0);
    random_calm = λ n w. until-Calm _ w (x.random_calm n w.0);
    opened_file = λ d f name w w' h. x.opened_file d f name w.0 w'.0 (until-done _ w w' f h);
    opened_regular = λ d f name place status w w1 w2 on h k regular.
        x.opened_regular d f name place status w.0 w1.0 w2.0 on (until-done _ w w1 f h)
          (until-done _ w1 w2 status k) regular;
    read_part = λ f b chunk w w' reading h.
        x.read_part f b chunk w.0 w'.0 reading
          (limited-done ([], some stopped) (chunk, none) (calls.read f) w w' (λ e. cc) h);
    read_held =
        λ f w q. limited-run (λ u. v.holds u q ≡ v.holds w.0 q) _ _ w refl (x.read_held f w.0 q);
    created =
        λ d f name place w w' on h. x.created d f name place w.0 w'.0 on (until-done _ w w' f h);
    create_held = λ d name place w on q n.
        limited-run (λ u. v.holds u q ≡ v.holds w.0 q) _ _ w refl
          (x.create_held d name place w.0 on q n);
    create_inside = λ d name w c p h.
        limited-run (λ u. v.inside u c p) _ _ w h (x.create_inside d name w.0 c p h);
    written = λ f n q b c w w' filling h.
        x.written f n q b c w.0 w'.0 filling
          (limited-done (0, some stopped) (n, none) (calls.write f c) w w' (λ e. cc) h);
    write_held = λ f q b c w filling r n.
        limited-run (λ u. v.holds u r ≡ v.holds w.0 r) _ _ w refl
          (x.write_held f q b c w.0 filling r n);
    write_inside =
        λ f c w d p h. limited-run (λ u. v.inside u d p) _ _ w h (x.write_inside f c w.0 d p h);
    write_file = λ f c w h. limited-run (λ u. v.file u f) _ _ w h (x.write_file f c w.0 h);
    filled = λ f q b w h. x.filled f q b w.0 h;
    close_held =
        λ f w q. limited-run (λ u. v.holds u q ≡ v.holds w.0 q) _ _ w refl (x.close_held f w.0 q);
    close_file =
        λ f w h d p k. limited-run (λ u. v.inside u d p) _ _ w k (x.close_file f w.0 h d p k);
    close_directory = λ f d p q w h k n.
        limited-run (λ u. v.inside u d q) _ _ w k (x.close_directory f d p q w.0 h k n);
    renamed =
        λ d from to place w w' on h. x.renamed d from to place w.0 w'.0 on (until-done _ w w' tt h);
    rename_held = λ d from to place w on q n.
        limited-run (λ u. v.holds u q ≡ v.holds w.0 q) _ _ w refl
          (x.rename_held d from to place w.0 on q n);
    rename_failed = λ d from to e w w' h q.
        until-failed _ w w' e q (λ c w1 k. x.rename_failed d from to c w.0 w1 k q) h;
    rename_inside = λ d from to w c p h.
        limited-run (λ u. v.inside u c p) _ _ w h (x.rename_inside d from to w.0 c p h);
    unlinked =
        λ d name place w w' on h. x.unlinked d name place w.0 w'.0 on (until-done _ w w' tt h);
    unlink_held = λ d name place w on q n.
        limited-run (λ u. v.holds u q ≡ v.holds w.0 q) _ _ w refl
          (x.unlink_held d name place w.0 on q n);
    unlink_failed = λ d name e w w' h q.
        until-failed _ w w' e q (λ c w1 k. x.unlink_failed d name c w.0 w1 k q) h;
  }

  stopping-Opens : (m : Action W ℕ) (w : W × ℕ) → Opens v m w.0 → Opens seen (until m) w
  stopping-Opens m w x = record {
    calm = until-Calm m w x.calm;
    fresh = λ d h.
        let u = x.fresh d (ap (λ p. p.0) (until-done m w (until m w).1 d (pair-eq _ h refl))) in
        record {
          no_directory = u.no_directory;
          no_file = u.no_file;
          no_filling = u.no_filling;
          no_reading = u.no_reading;
        };
  }

  stopping-Spared :
      (d : ℕ) (m : Action W (Unit {0})) (w : W × ℕ)
      → Spared v d w.0 (m w.0).1
      → Spared seen d w (until m w).1
  stopping-Spared d m w x =
      let unmoved : Spared v d w.0 w.0 = record {
        held = λ q. refl;
        inside = λ c p n h. h;
        file = λ c n h. h;
        filling = λ c q b n h. h;
        reading = λ c b n h. h;
      } in
      let y = limited-run (Spared v d w.0) (err stopped) m w unmoved x in
      record {
        held = y.held;
        inside = y.inside;
        file = y.file;
        filling = y.filling;
        reading = y.reading;
      }

  pub stopping-Kernel :
      (c : Calls W) (root_path : String)
      → Kernel c.directories root_path v
      → Kernel (stopping c).directories root_path seen
  stopping-Kernel c root_path x = record {
    mkdir_all_quiet = λ path mode w. until-Calm _ w (x.mkdir_all_quiet path mode w.0);
    mkdir_at_quiet = λ p name mode w. until-Calm _ w (x.mkdir_at_quiet p name mode w.0);
    open_path_opens = λ path w. stopping-Opens _ w (x.open_path_opens path w.0);
    open_at_opens = λ p name w. stopping-Opens _ w (x.open_at_opens p name w.0);
    fstat_quiet = λ d w. until-Calm _ w (x.fstat_quiet d w.0);
    close_spares = λ d w. stopping-Spared d _ w (x.close_spares d w.0);
    root_inside = λ d w w' h. x.root_inside d w.0 w'.0 (until-done _ w w' d h);
    at_inside =
        λ p d name place w w' on h. x.at_inside p d name place w.0 w'.0 on (until-done _ w w' d h);
  }

  pub stopping-Inspects :
      (c : Calls W) → Inspects c.environment v → Inspects (stopping c).environment seen
  stopping-Inspects c x = record {
    absolute_quiet = λ path w. until-Calm _ w (x.absolute_quiet path w.0);
    stat_quiet = λ path w. until-Calm _ w (x.stat_quiet path w.0);
    evaluate_symlinks_quiet = λ path w. until-Calm _ w (x.evaluate_symlinks_quiet path w.0);
    mount_info_quiet = λ w. until-Calm _ w (x.mount_info_quiet w.0);
    close_mount_info_calm = λ w.
        limited-Calm tt (λ u. (tt, c.environment.close_mount_info u)) w
          (x.close_mount_info_calm w.0);
  }
