-- ===== src/Filesystem/Mounts/Validation.antt =====
-- `validateMount` of internal/backend/fs/mount_linux.go: the lines of the table, the choice of a
-- mount, and the refusal of DrvFS.
use common_keyring.Base.{
  Bool, true, false, not, ◌&&◌, ◌||◌, Option, none, some, List, [], ◌∷◌, ◌++◌, ◌==◌, nat_eq, any,
  codes, length, leb, if◌then◌else◌,
}
use common_keyring.Base.Bytes.{lower, equal, has_prefix}
use common_keyring.Errors.{
  GoError, insecure_fallback, fs_not_exist, cat, plain, wrap1, is, Result, ok, err, Fallible,
  Action, ◌>>=◌,
}
use common_keyring.Contract.{Bytes}
use common_keyring.Filesystem.Paths.{split_by, clean, written, relative, dot_dot, slash}
use common_keyring.Filesystem.Mounts.{
  Device, Mount, maximum_mount_info_line, mount_error, parse_line,
}
use common_keyring.Filesystem.Steps.{on_error}
use mathlib.Core.List.{reverse}

-- The end of `bufio.ScanLines`, which drops a carriage return.
unfoldable pub drop_cr : Bytes → Bytes
drop_cr [] = []
drop_cr (c ∷ []) = if c == b'\r' then [] else c ∷ []
drop_cr (c ∷ d ∷ text) = c ∷ drop_cr (d ∷ text)

-- The lines of `bufio.ScanLines`: nothing follows a final newline.
abbrev pub without_last_empty : List Bytes → List Bytes
without_last_empty [] = []
without_last_empty ([] ∷ []) = []
without_last_empty ((c ∷ word) ∷ []) = (c ∷ word) ∷ []
without_last_empty (word ∷ next ∷ words) = word ∷ without_last_empty (next ∷ words)

unfoldable pub lines : Bytes → List Bytes
unfolding split_by
lines contents = without_last_empty (split_by (λ c. c == b'\n') contents)

abbrev pub end_of_scan : Option GoError → Result (List Mount)
end_of_scan none = ok []
end_of_scan (some e) = err e

-- The loop of `parseMountInfo` over the lines, with the error of reading behind the last.
unfoldable pub parse_lines : Option GoError → List Bytes → Result (List Mount)
unfolding drop_cr
parse_lines read_error [] = end_of_scan read_error
parse_lines read_error (line ∷ rest) =
    let later = parse_lines read_error rest in
    if leb maximum_mount_info_line (length line)
    then err (plain "token too long")
    else (do entry ← parse_line (drop_cr line); mounts ← later; ok (entry ∷ mounts))

-- `parseMountInfo` of what was read of the table
unfoldable pub parse_mount_info : Bytes × Option GoError → Result (List Mount)
unfolding lines parse_lines
parse_mount_info (contents, read_error) = parse_lines read_error (lines contents)

-- The test of `pathWithinMount` on a relative path.
unfoldable pub stays_within : Option Bytes → Bool
stays_within none = false
stays_within (some path) = not (equal path dot_dot) && not (has_prefix (dot_dot ++ slash ∷ []) path)

-- `pathWithinMount`
unfoldable pub path_within_mount : Bytes → Bytes → Bool
unfolding stays_within
path_within_mount path mount_point = stays_within (relative mount_point path)

abbrev pub same_device : Device → Device → Bool
same_device d e = (d.major == e.major) && (d.minor == e.minor)

-- A mount that the loop of `selectMount` considers.
unfoldable pub applies : Bytes → Device → Mount → Bool
applies path device candidate =
    same_device candidate.device device && path_within_mount path candidate.point

-- A candidate replaces the mount that was selected, if any.
unfoldable pub prefers : Option Mount → Mount → Bool
prefers none candidate = true
prefers (some selected) candidate = leb (length selected.point) (length candidate.point)

-- The loop of `selectMount`, with the mount selected so far.
unfoldable pub select_from : Bytes → Device → Option Mount → List Mount → Option Mount
select_from path device selected [] = selected
select_from path device selected (candidate ∷ rest) =
    select_from path device
      (if applies path device candidate && prefers selected candidate
        then some candidate
        else selected)
      rest

abbrev pub or_not_found : Option Mount → Result Mount
or_not_found none = err (plain "mount was not found")
or_not_found (some m) = ok m

-- `selectMount`
unfoldable pub select_mount : List Mount → Bytes → Device → Result Mount
unfolding select_from
select_mount mounts path device = or_not_found (select_from path device none mounts)

-- The options of `strings.SplitSeq`, in lower case.
unfoldable pub names_drvfs : Bytes → Bool
names_drvfs option =
    equal (lower option) (codes "aname=drvfs") || has_prefix (codes "aname=drvfs;") (lower option)

-- `isDrvFS`
unfoldable pub is_drvfs : Mount → Bool
unfolding names_drvfs
is_drvfs m =
    equal (lower m.filesystem) (codes "drvfs")
    || equal (lower m.source) (codes "drvfs")
    || (equal m.filesystem (codes "9p")
        && any names_drvfs (split_by (λ c. c == b',') m.super_options))

-- `mountEnvironment`, with `filepath.Clean` on Unix. `mount_info` opens and reads the table: what
-- was read, and the error that ended the reading, if any; `close_mount_info` closes it.
pub record Environment (W : Type 0) : Type 0 where
  pub absolute : Bytes → Action W Bytes
  pub stat : Bytes → Action W Device
  pub evaluate_symlinks : Bytes → Action W Bytes
  pub mount_info : Action W (Bytes × Option GoError)
  pub close_mount_info : W → W

-- The end of `nearestExistingPath` for a path that exists on this device.
unfoldable pub resolved : Device → Result Bytes → Result (Bytes × Device)
resolved device (ok path) = ok (path, device)
resolved device (err e) = err (mount_error "resolve fallback symlinks" e)

unfoldable pub permitted : Mount → Fallible
permitted selected =
    if is_drvfs selected
    then err (wrap1 "DrvFS mount is not permitted" (cat insecure_fallback))
    else ok tt

-- The checks of `validateMountWithEnvironment` on what was read of the table.
unfoldable pub check_table : Bytes → Device → Bytes × Option GoError → Fallible
unfolding permitted
check_table path device table = do
  mounts ← on_error (mount_error "parse mount metadata") (parse_mount_info table)
  selected ← on_error (mount_error "identify fallback filesystem") (select_mount mounts path device)
  permitted selected

module _ {W : Type 0} (env : Environment W) where
  -- The rest of the loop's body for the answer of `stat` at a path, with what is done where
  -- nothing exists there.
  unfoldable pub after_stat :
      Bytes → (GoError → Action W (Bytes × Device)) → Result Device → Action W (Bytes × Device)
  unfolding resolved
  after_stat path missing (ok device) w =
      let (target, w') = env.evaluate_symlinks path w in (resolved device target, w')
  after_stat path missing (err e) w =
      if is e fs_not_exist then missing e w else (err (mount_error "inspect fallback path" e), w)

  -- The loop of `nearestExistingPath`, over the parts of a cleaned path. `filepath.Dir` drops
  -- the innermost part; a path without parts is its own parent.
  unfoldable pub nearest_existing : Bool → List Bytes → Action W (Bytes × Device)
  unfolding after_stat
  nearest_existing rooted [] w =
      let path = written rooted [] in
      let (status, w') = env.stat path w in
      after_stat path (λ e w1. (err (mount_error "locate existing fallback parent" e), w1)) status
        w'
  nearest_existing rooted (name ∷ inner) w =
      let path = written rooted (reverse (name ∷ inner)) in
      let (status, w') = env.stat path w in
      after_stat path (λ e w1. nearest_existing rooted inner w1) status w'

  unfoldable pub nearest_of : Result Bytes → Action W (Bytes × Device)
  unfolding nearest_existing
  nearest_of (err e) w = (err (mount_error "resolve fallback path" e), w)
  nearest_of (ok path) w = nearest_existing (clean path).rooted (clean path).inner w

  -- `nearestExistingPath`
  unfoldable pub nearest_existing_path : Bytes → Action W (Bytes × Device)
  unfolding nearest_of
  nearest_existing_path root_path w =
      let (path, w') = env.absolute root_path w in nearest_of path w'

  unfoldable pub check_opened :
      Bytes → Device → Result (Bytes × Option GoError) → Action W (Unit {0})
  unfolding check_table
  check_opened path device (err e) w = (err (mount_error "open mount metadata" e), w)
  check_opened path device (ok table) w = (check_table path device table, env.close_mount_info w)

  unfoldable pub check_mount : Result (Bytes × Device) → Action W (Unit {0})
  unfolding check_opened
  check_mount (err e) w = (err e, w)
  check_mount (ok (path, device)) w =
      let (table, w') = env.mount_info w in check_opened path device table w'

  -- `validateMountWithEnvironment`
  unfoldable pub validate_mount : Bytes → Action W (Unit {0})
  unfolding nearest_existing_path check_mount
  validate_mount root_path w =
      let (existing, w') = nearest_existing_path root_path w in check_mount existing w'
