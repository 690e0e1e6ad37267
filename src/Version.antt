-- ===== src/Version.antt =====
-- src/version.c: versions, parsed from a string. A string is the list of its characters, without
-- the NUL; `malloc` and `strdup` succeed.
pub mod Parse
mod Tests
use libasdf.Prelude.{
  ℕ, ◌%◌, ◌^◌, Bool, not, ◌||◌, Option, none, some, List, [], ◌==◌, if◌then◌else◌, drop,
}
use libasdf.Prelude.Bytes.{is_digit, head_char, strtoul}

-- `asdf_version_t`
pub record Version : Type 0 where
  pub version : List ℕ
  pub major : ℕ
  pub minor : ℕ
  pub patch : ℕ
  pub extra : Option (List ℕ)

-- An `unsigned long` that is stored in an `unsigned int`.
abbrev pub to_uint : ℕ → ℕ
to_uint n = n % 2 ^ 32

-- What `calloc` and the copy of the string give.
abbrev pub fresh : List ℕ → Version
fresh s = record { version = s; major = 0; minor = 0; patch = 0; extra = none }

abbrev pub with_extra : Version → List ℕ → Version
with_extra ver s = record ver { extra = some s }

-- The fields from `patch` on; `chr` is at a digit.
parse_patch : Version → List ℕ → Version
parse_patch ver chr =
    let (n, end) = strtoul chr in
    let ver' : Version = record ver { patch = to_uint n } in
    let sep = head_char end == b'.' || head_char end == b'-' in
    let rest = if sep then drop 1 end else end in
    if head_char end == 0 then ver' else if head_char rest == 0 then ver' else with_extra ver' rest

-- The fields from `minor` on; `chr` is at a digit.
parse_minor : Version → List ℕ → Version
unfolding parse_patch
parse_minor ver chr =
    let (n, end) = strtoul chr in
    let ver' : Version = record ver { minor = to_uint n } in
    let next = drop 1 end in
    if not (head_char end == b'.')
    then (if head_char end == 0 then ver' else with_extra ver' end)
    else if not (is_digit (head_char next))
    then with_extra ver' next
    else parse_patch ver' next

-- The fields from `major` on; `chr` is at a digit.
parse_major : Version → List ℕ → Version
unfolding parse_minor
parse_major ver chr =
    let (n, end) = strtoul chr in
    let ver' : Version = record ver { major = to_uint n } in
    let next = drop 1 end in
    if not (head_char end == b'.')
    then (if head_char end == 0 then ver' else with_extra ver' end)
    else if not (is_digit (head_char next))
    then with_extra ver' next
    else parse_minor ver' next

-- `asdf_version_parse`; `none` is NULL.
unfoldable pub version_parse : Option (List ℕ) → Option Version
unfolding parse_major
version_parse none = none
version_parse (some s) =
    if not (is_digit (head_char s)) then some (fresh s) else some (parse_major (fresh s) s)

-- `asdf_version_copy`
unfoldable pub version_copy : Version → Version
version_copy v = record {
  version = v.version;
  major = v.major;
  minor = v.minor;
  patch = v.patch;
  extra = elim v.extra [ none ↦ none | some s ↦ some s ];
}
