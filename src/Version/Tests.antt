-- ===== src/Version/Tests.antt =====
-- Versions as the test suite has them.
use libasdf.Prelude.{◌≡◌, refl}
use libasdf.Prelude.{◌≢◌, false, some, arith}
use libasdf.Prelude.{All}
use libasdf.Prelude.Bytes.{codes, is_digit, strtoul, decimal_from}
use libasdf.Version.{Version, version_parse}
use libasdf.Version.Parse.{IsNumber, version_parse-semver}

abbrev v123 : Version
v123 = record {
  version = codes "1.2.3-dev";
  major = 1;
  minor = 2;
  patch = 3;
  extra = some (codes "dev");
}

parses : version_parse (some (codes "1.2.3-dev")) ≡ some v123
unfolding version_parse is_digit strtoul
parses = refl

one : IsNumber (codes "1")
unfolding is_digit decimal_from
one = record { digits = (refl, tt); starts = refl; small = omega arith }

two : IsNumber (codes "2")
unfolding is_digit decimal_from
two = record { digits = (refl, tt); starts = refl; small = omega arith }

three : IsNumber (codes "3")
unfolding is_digit decimal_from
three = record { digits = (refl, tt); starts = refl; small = omega arith }

no_digit : is_digit b'-' ≡ false
unfolding is_digit
no_digit = refl

no_nul : All (λ c. c ≢ 0) (codes "-dev")
no_nul = ground arith

version_parse-semver_example : version_parse (some (codes "1.2.3-dev")) ≡ some v123
unfolding decimal_from
version_parse-semver_example = version_parse-semver (codes "-dev") one two three no_digit no_nul
