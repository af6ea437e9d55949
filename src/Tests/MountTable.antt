-- ===== src/Tests/MountTable.antt =====
-- Concrete uses of what is shown of internal/backend/fs/mount_linux.go.
use common_keyring.Base.{
  ℕ, List, ◌-◌, if◌then◌else◌, ◌+◌, true, none, [], ◌∷◌, codes, ◌≡◌, refl, arith, nat_eq,
}
use common_keyring.Base.Bytes.{is_space, equal, has_prefix, to_lower}
use common_keyring.Errors.{is, fs_not_exist, leaf, ok, err}
use common_keyring.Contract.{Bytes}
use common_keyring.Filesystem.Paths.{clean, written, relative, parts, text_of, is_rooted}
use common_keyring.Filesystem.Mounts.{Mount, unescape, parse_line}
use common_keyring.Filesystem.Mounts.Escapes.{escape, unescape-escape}
use common_keyring.Filesystem.Mounts.Records.{Line, IsLine, line_text, parse_line-line_text}
use common_keyring.Filesystem.Mounts.Within.{begins, path_within_mount-begins}
use common_keyring.Filesystem.Mounts.Choice.{Choice, select_mount-Choice}
use common_keyring.Filesystem.Mounts.Accepted.{AcceptedMount, validate_mount-AcceptedMount}
use common_keyring.Filesystem.Mounts.Validation.{
  Environment, applies, prefers, path_within_mount, select_mount, validate_mount, is_drvfs,
  parse_mount_info,
}

unescape-escape_example : unescape (escape (codes "/my files\\new")) ≡ ok (codes "/my files\\new")
unescape-escape_example = unescape-escape (codes "/my files\\new")

abbrev home_line : Line
home_line = record {
  id = codes "36";
  parent = codes "35";
  device = record { major = 98; minor = 0 };
  root = codes "/";
  point = codes "/home/my files";
  options = codes "rw,noatime";
  optional = codes "master:1" ∷ [];
  filesystem = codes "ext4";
  source = codes "/dev/root";
  super_options = codes "rw";
}

home_line-IsLine : IsLine home_line
unfolding is_space equal
home_line-IsLine = record {
  words = (
    (refl, (refl, tt)),
    (
      (refl, (refl, tt)),
      (
        (refl, tt),
        (
          (refl, (refl, (refl, (refl, (refl, (refl, (refl, (refl, (refl, (refl, tt)))))))))),
          ((refl, (refl, (refl, (refl, tt)))), ((refl, (refl, tt)), tt)),
        ),
      ),
    ),
  );
  optional_words = ((refl, (refl, (refl, (refl, (refl, (refl, (refl, (refl, tt)))))))), tt);
  ascii = refl;
  other = (refl, (refl, (refl, (refl, tt))));
  optional_other = (refl, tt);
  major_bound = omega arith;
  minor_bound = omega arith;
  below = codes "home/my files";
  point_rooted = refl;
  point_escapable = (
    refl,
    (
      refl,
      (refl, (refl, (refl, (refl, (refl, (refl, (refl, (refl, (refl, (refl, (refl, tt))))))))))),
    ),
  );
  first = b'/';
  others = codes "dev/root";
  source_cons = refl;
  source_escapable = (refl, (refl, (refl, (refl, (refl, (refl, (refl, (refl, (refl, tt)))))))));
  source_unmarked = refl;
}

parse_line-line_text_example :
    parse_line (line_text home_line)
    ≡ ok (record {
      device = record { major = 98; minor = 0 };
      point = text_of (clean (codes "/home/my files"));
      filesystem = codes "ext4";
      source = codes "/dev/root";
      super_options = codes "rw";
    })
parse_line-line_text_example = parse_line-line_text home_line home_line-IsLine

rooted_example : (is_rooted (codes "/home/../home/me") ≡ true) × (is_rooted (codes "/home") ≡ true)
rooted_example = (refl, refl)

path_within_mount-begins_example :
    path_within_mount (codes "/home/../home/me") (codes "/home")
    ≡ begins (parts (clean (codes "/home"))) (parts (clean (codes "/home/../home/me")))
path_within_mount-begins_example =
    path_within_mount-begins (codes "/home/../home/me") (codes "/home") rooted_example.0
      rooted_example.1

abbrev mount_at : Bytes → Bytes → Mount
mount_at point filesystem = record {
  device = record { major = 8; minor = 1 };
  point = point;
  filesystem = filesystem;
  source = codes "none";
  super_options = codes "rw";
}

abbrev mounts : List Mount
mounts = mount_at (codes "/") (codes "ext4") ∷ mount_at (codes "/home") (codes "drvfs") ∷ []

select_mount-Choice_example :
    Choice
      (codes "/home/me")
      (record { major = 8; minor = 1 })
      mounts
      (select_mount mounts (codes "/home/me") (record { major = 8; minor = 1 }))
select_mount-Choice_example =
    select_mount-Choice (codes "/home/me") (record { major = 8; minor = 1 }) mounts

-- A host where just the root exists, and whose state counts the open tables.
abbrev pub host : Environment ℕ
host = record {
  absolute = λ path w. (ok path, w);
  stat = λ path w.
      if equal path (codes "/")
      then (ok (record { major = 8; minor = 1 }), w)
      else (err (leaf fs_not_exist), w);
  evaluate_symlinks = λ path w. (ok path, w);
  mount_info = λ w. (ok (codes "1 0 8:1 / / rw - ext4 /dev/sda1 rw", none), w + 1);
  close_mount_info = λ w. w - 1;
}

abbrev accepted : Bytes
accepted = codes "/secrets"

accepted_run : validate_mount host accepted 0 ≡ (ok tt, 0)
unfolding validate_mount clean equal written is parse_mount_info parse_line select_mount applies
    path_within_mount relative has_prefix prefers is_drvfs to_lower
accepted_run = refl

validate_mount-AcceptedMount_example : AcceptedMount host accepted 0 0
validate_mount-AcceptedMount_example = validate_mount-AcceptedMount host accepted 0 0 accepted_run
