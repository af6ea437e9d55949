-- ===== src/Filesystem/Mounts/Records.antt =====
-- `parseMountInfoLine` of internal/backend/fs/mount_linux.go and the lines that the kernel writes.
use mathlib.Core.Path.{ap₂}
use common_keyring.Base.{
  ℕ, zero, suc, ◌+◌, ◌^◌, ◌<◌, Bool, true, false, ◌||◌, ◌&&◌, any, not, some, List, [], ◌∷◌, ◌++◌,
  ◌==◌, nat_eq, codes, length, length-append, ltb, leb, ◌≡◌, refl, ap, ◌∙◌, arith,
}
use common_keyring.Base.Bytes.{IsSolid, IsSolid-append, is_space, equal}
use common_keyring.Errors.{ok}
use common_keyring.Contract.{Bytes}
use common_keyring.Filesystem.Paths.{clean, text_of}
use common_keyring.Filesystem.Mounts.{
  Device, separator, field_at, parse_fields, parse_words, parse_at, parse_line, parse_device,
  unescape,
}
use common_keyring.Filesystem.Mounts.Escapes.{escape, escape_byte, unescape-escape}
use common_keyring.Filesystem.Mounts.Devices.{
  AllDigits, decimal_onto-digits, decimal_onto-cons, device_text, parse_device-device_text, decimal,
}
use common_keyring.Filesystem.Mounts.Words.{spaced, IsWord, AllWords, AllOther, fields-spaced}

-- A line of /proc/self/mountinfo, in the words of proc(5).
pub record Line : Type 0 where
  pub id : Bytes
  pub parent : Bytes
  pub device : Device
  pub root : Bytes
  pub point : Bytes
  pub options : Bytes
  pub optional : List Bytes
  pub filesystem : Bytes
  pub source : Bytes
  pub super_options : Bytes

abbrev dash : Bytes
dash = codes "-"

abbrev first_words : Line → List Bytes
first_words l =
    l.id ∷ l.parent ∷ device_text l.device ∷ l.root ∷ escape l.point ∷ l.options ∷ l.optional

abbrev last_words : Line → List Bytes
last_words l = l.filesystem ∷ escape l.source ∷ l.super_options ∷ []

-- The line as the kernel writes it, where the source has no `#`.
abbrev pub line_text : Line → Bytes
line_text l = spaced (first_words l ++ dash ∷ last_words l)

separator-dash :
    (words rest : List Bytes)
    → AllOther words
    → separator (words ++ dash ∷ rest) ≡ some (length words)
unfolding separator equal
separator-dash [] rest h = refl
separator-dash (word ∷ words) rest (o, h) = rw (o, separator-dash words rest h) refl

field_at-append :
    (words rest : List Bytes) (n k : ℕ)
    → n ≡ length words + k
    → field_at (words ++ rest) n ≡ field_at rest k
field_at-append [] rest n k h = ap (field_at rest) (omega arith)
field_at-append (word ∷ words) rest zero k h = absurd (omega arith)
field_at-append (word ∷ words) rest (suc n) k h = field_at-append words rest n k (omega arith)

parse_fields-ok :
    (words : List Bytes) (n : ℕ) (d : Device) (point source : Bytes)
    → ltb n 6 ≡ false
    → ltb (length words) (n + 4) ≡ false
    → parse_device (field_at words 2) ≡ ok d
    → unescape (field_at words 4) ≡ ok point
    → unescape (field_at words (n + 2)) ≡ ok source
    → parse_fields words n
      ≡ ok (record {
        device = d;
        point = text_of (clean point);
        filesystem = field_at words (n + 1);
        source = source;
        super_options = field_at words (n + 3);
      })
unfolding parse_fields
parse_fields-ok words n d point source a b p q r = rw (a, b, p, q, r) refl

-- A byte of ASCII that is not white space, or that the kernel escapes.
abbrev pub is_escapable : ℕ → Bool
is_escapable c = ltb c 128 && (not (is_space c) || c == b'\t' || c == b'\n' || c == b' ')

abbrev pub AllEscapable : Bytes → Type 0
AllEscapable [] = Unit
AllEscapable (c ∷ text) = (is_escapable c ≡ true) × AllEscapable text

abbrev pub all_ascii : List Bytes → Bool
all_ascii words = not (any (any (λ c. leb 128 c)) words)

-- A line of ASCII whose source has no `#`, which the kernel writes as `\043` and the parser refuses,
-- with what the kernel keeps: words without white space and other than `-`, a device of two numbers of
-- 32 bits, a mount point that starts with a slash, a source that is not empty, and in both no
-- white space but tabs, newlines and spaces.
pub record IsLine (l : Line) : Type 0 where
  pub words : AllWords (l.id ∷ l.parent ∷ l.root ∷ l.options ∷ l.filesystem ∷ l.super_options ∷ [])
  pub optional_words : AllWords l.optional
  pub ascii :
      all_ascii (l.id ∷ l.parent ∷ l.root ∷ l.options ∷ l.filesystem ∷ l.super_options ∷ l.optional)
      ≡ true
  pub other : AllOther (l.id ∷ l.parent ∷ l.root ∷ l.options ∷ [])
  pub optional_other : AllOther l.optional
  pub major_bound : l.device.major < 2 ^ 32
  pub minor_bound : l.device.minor < 2 ^ 32
  pub below : Bytes
  pub point_rooted : l.point ≡ b'/' ∷ below
  pub point_escapable : AllEscapable below
  pub first : ℕ
  pub others : Bytes
  pub source_cons : l.source ≡ first ∷ others
  pub source_escapable : AllEscapable (first ∷ others)
  pub source_unmarked : any (λ c. c == b'#') l.source ≡ false

escape_byte-IsSolid : (c : ℕ) → is_escapable c ≡ true → IsSolid (escape_byte c)
unfolding is_space
escape_byte-IsSolid c h = ground arith

escape-IsSolid : (text : Bytes) → AllEscapable text → IsSolid (escape text)
escape-IsSolid [] h = tt
escape-IsSolid (c ∷ text) (e, h) =
    IsSolid-append (escape_byte c) (escape text) (escape_byte-IsSolid c e) (escape-IsSolid text h)

digits-IsSolid : (text : Bytes) → AllDigits text → IsSolid text
unfolding is_space
digits-IsSolid [] h = tt
digits-IsSolid (c ∷ text) (low, high, h) = (ground arith, digits-IsSolid text h)

IsWord-append : (a b : Bytes) → IsWord a → IsSolid b → IsWord (a ++ b)
IsWord-append [] b h k = absurd h
IsWord-append (c ∷ a) b (s, h) k = (s, IsSolid-append a b h k)

escape_byte-IsWord : (c : ℕ) → is_escapable c ≡ true → IsWord (escape_byte c)
unfolding is_space
escape_byte-IsWord c h = ground arith

escape-IsWord : (c : ℕ) (text : Bytes) → AllEscapable (c ∷ text) → IsWord (escape (c ∷ text))
escape-IsWord c text (e, h) =
    IsWord-append (escape_byte c) (escape text) (escape_byte-IsWord c e) (escape-IsSolid text h)

-- What the device's word is, by its first digit.
digits-IsWord :
    (text after : Bytes) (c : ℕ) (rest : Bytes)
    → text ≡ c ∷ rest
    → AllDigits text
    → IsSolid after
    → IsWord (text ++ after) × (equal (text ++ after) dash ≡ false)
unfolding is_space equal
digits-IsWord [] after c rest e h k = cc
digits-IsWord (d ∷ text) after c rest e (low, high, h) k =
    let other : (d == b'-') ≡ false = ground arith in
    ((ground arith, IsSolid-append text after (digits-IsSolid text h) k), rw other refl)

device_text-IsWord : (d : Device) → IsWord (device_text d) × (equal (device_text d) dash ≡ false)
unfolding is_space
device_text-IsWord d =
    let (c, rest, e) = decimal_onto-cons d.major d.major [] in
    digits-IsWord (decimal d.major) (b':' ∷ decimal d.minor) c rest e
      (decimal_onto-digits d.major d.major [] tt)
      (refl, digits-IsSolid (decimal d.minor) (decimal_onto-digits d.minor d.minor [] tt))

point-IsWord :
    (point below : Bytes)
    → point ≡ b'/' ∷ below
    → AllEscapable below
    → IsWord (escape point) × (equal (escape point) dash ≡ false)
unfolding is_space equal
point-IsWord point below e h = rw e ((refl, escape-IsSolid below h), refl)

source-IsWord :
    (source : Bytes) (c : ℕ) (rest : Bytes)
    → source ≡ c ∷ rest
    → AllEscapable (c ∷ rest)
    → IsWord (escape source)
source-IsWord source c rest e h = rw e (escape-IsWord c rest h)

AllWords-append : (xs ys : List Bytes) → AllWords xs → AllWords ys → AllWords (xs ++ ys)
AllWords-append [] ys h k = k
AllWords-append (x ∷ xs) ys (w, h) k = (w, AllWords-append xs ys h k)

module _ (l : Line) (h : IsLine l) where
  open h use {words, optional_words, other, optional_other}

  line-AllWords : AllWords (first_words l ++ dash ∷ last_words l)
  unfolding is_space
  line-AllWords =
      let (id, (parent, (root, (options, (filesystem, (super_options, _)))))) = words in
      let source = source-IsWord l.source h.first h.others h.source_cons h.source_escapable in
      let point = (point-IsWord l.point h.below h.point_rooted h.point_escapable).0 in
      let rest =
        AllWords-append l.optional (dash ∷ last_words l) optional_words
          ((refl, tt), (filesystem, (source, (super_options, tt)))) in
      (id, (parent, ((device_text-IsWord l.device).0, (root, (point, (options, rest))))))

  line-AllOther : AllOther (first_words l)
  line-AllOther =
      let (id, (parent, (root, (options, _)))) = other in
      let point = (point-IsWord l.point h.below h.point_rooted h.point_escapable).1 in
      (id, (parent, ((device_text-IsWord l.device).1, (root, (point, (options, optional_other))))))

  -- The words of a line, parsed.
  parse_words-line :
      parse_words (first_words l ++ dash ∷ last_words l)
      ≡ ok (record {
        device = l.device;
        point = text_of (clean l.point);
        filesystem = l.filesystem;
        source = l.source;
        super_options = l.super_options;
      })
  unfolding parse_words parse_at
  parse_words-line =
      let n = length (first_words l) in
      let all = first_words l ++ dash ∷ last_words l in
      let size : length all ≡ n + 4 = length-append (first_words l) (dash ∷ last_words l) in
      let filesystem : field_at all (n + 1) ≡ l.filesystem =
        field_at-append (first_words l) (dash ∷ last_words l) (n + 1) 1 refl in
      let source : field_at all (n + 2) ≡ escape l.source =
        field_at-append (first_words l) (dash ∷ last_words l) (n + 2) 2 refl in
      let super_options : field_at all (n + 3) ≡ l.super_options =
        field_at-append (first_words l) (dash ∷ last_words l) (n + 3) 3 refl in
      ap (parse_at all) (separator-dash (first_words l) (last_words l) line-AllOther)
      ∙ parse_fields-ok all n l.device l.point l.source (ground arith) (ground arith)
          (parse_device-device_text l.device h.major_bound h.minor_bound) (unescape-escape l.point)
          (ap unescape source ∙ unescape-escape l.source)
      ∙ ap₂
          (λ f s. ok (record {
            device = l.device;
            point = text_of (clean l.point);
            filesystem = f;
            source = l.source;
            super_options = s;
          }))
          filesystem super_options

-- A line of ASCII that the kernel writes, with no `#` in its source, is parsed back to its device,
-- its cleaned mount point, its filesystem type, its source and its super options, whatever its
-- optional fields.
pub parse_line-line_text :
    (l : Line)
    → IsLine l
    → parse_line (line_text l)
      ≡ ok (record {
        device = l.device;
        point = text_of (clean l.point);
        filesystem = l.filesystem;
        source = l.source;
        super_options = l.super_options;
      })
unfolding parse_line
parse_line-line_text l h =
    ap parse_words (fields-spaced (first_words l ++ dash ∷ last_words l) (line-AllWords l h))
    ∙ parse_words-line l h
