-- ===== src/Tag/Tests.antt =====
-- Tags as the schemas have them.
use libasdf.Prelude.{◌≡◌, refl}
use libasdf.Prelude.{◌≢◌, none, some, arith}
use libasdf.Prelude.{All}
use libasdf.Prelude.Bytes.{codes, is_digit, strtoul}
use libasdf.Version.{Version, version_parse}
use libasdf.Tag.{Tag, tag_parse, tag_text, tag_text-tag_parse}

abbrev v110 : Version
v110 = record { version = codes "1.1.0"; major = 1; minor = 1; patch = 0; extra = none }

abbrev ndarray : Tag
ndarray = record { name = codes "core/ndarray"; version = some v110 }

parses_version : version_parse (some (codes "1.1.0")) ≡ some v110
unfolding version_parse is_digit strtoul
parses_version = refl

parses : tag_parse (some (codes "core/ndarray-1.1.0")) ≡ some ndarray
unfolding tag_parse version_parse is_digit strtoul
parses = refl

no_dash : All (λ c. c ≢ b'-') (codes "core/ndarray")
no_dash = ground arith

tag_text-tag_parse_example : tag_text ndarray ≡ codes "core/ndarray-1.1.0"
tag_text-tag_parse_example = tag_text-tag_parse (codes "core/ndarray-1.1.0") parses
