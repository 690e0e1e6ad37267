-- ===== src/Version/Parse.antt =====
-- `asdf_version_parse` on the texts that a version may be written as.
use libasdf.Prelude.{ℕ, ◌^◌, ◌<◌, ◌≡◌, refl}
use libasdf.Prelude.{◌≢◌, true, false, ◌||◌, Option, none, some, arith}
use libasdf.Prelude.{List, [], ◌∷◌, ◌++◌, All}
use libasdf.Prelude.{◌==◌, if◌then◌else◌}
use libasdf.Prelude.Bytes.{is_digit, head_char, strtoul, strtoul-append, decimal}
use libasdf.Version.{Version, version_parse, fresh, parse_major, parse_minor, parse_patch}

-- A number below 2 ^ 32, written in one digit or more.
pub record IsNumber (ds : List ℕ) : Type 0 where
  pub digits : All (λ d. is_digit d ≡ true) ds
  pub starts : is_digit (head_char ds) ≡ true
  pub small : decimal ds < 2 ^ 32

-- What `asdf_version_parse` makes of the text after the patch number.
abbrev pub extra_of : List ℕ → Option (List ℕ)
extra_of [] = none
extra_of (c ∷ cs) =
    if c == b'.' || c == b'-' then (if head_char cs == 0 then none else some cs) else some (c ∷ cs)

head-append :
    (ds cs : List ℕ) → is_digit (head_char ds) ≡ true → head_char (ds ++ cs) ≡ head_char ds
unfolding is_digit
head-append [] cs h = ground arith
head-append (d ∷ ds) cs h = refl

strtoul-number :
    {ds : List ℕ} (cs : List ℕ)
    → IsNumber ds
    → is_digit (head_char cs) ≡ false
    → strtoul (ds ++ cs) ≡ (decimal ds, cs)
strtoul-number {ds} cs n e = strtoul-append ds cs n.digits e (omega (arith, n.small))

dot_not_digit : is_digit b'.' ≡ false
unfolding is_digit
dot_not_digit = refl

parse_patch-number :
    (v : Version) {ds : List ℕ} (cs : List ℕ)
    → IsNumber ds
    → is_digit (head_char cs) ≡ false
    → All (λ c. c ≢ 0) cs
    → v.extra ≡ none
    → parse_patch v (ds ++ cs) ≡ record v { patch = decimal ds; extra = extra_of cs }
unfolding parse_patch
parse_patch-number v {ds} [] n e nz x = ground (arith, strtoul-number [] n e, n.small)
parse_patch-number v {ds} (c ∷ cs) n e nz x =
    ground (arith, strtoul-number (c ∷ cs) n e, n.small, nz.0)

parse_minor-number :
    (v : Version) {ds : List ℕ} (cs : List ℕ)
    → IsNumber ds
    → is_digit (head_char cs) ≡ true
    → parse_minor v (ds ++ (b'.' ∷ cs)) ≡ parse_patch (record v { minor = decimal ds }) cs
unfolding parse_minor
parse_minor-number v {ds} cs n e =
    ground (arith, strtoul-number (b'.' ∷ cs) n dot_not_digit, n.small)

parse_major-number :
    (v : Version) {ds : List ℕ} (cs : List ℕ)
    → IsNumber ds
    → is_digit (head_char cs) ≡ true
    → parse_major v (ds ++ (b'.' ∷ cs)) ≡ parse_minor (record v { major = decimal ds }) cs
unfolding parse_major
parse_major-number v {ds} cs n e =
    ground (arith, strtoul-number (b'.' ∷ cs) n dot_not_digit, n.small)

abbrev pub semver : List ℕ → List ℕ → List ℕ → List ℕ → List ℕ
semver a b c rest = a ++ (b'.' ∷ (b ++ (b'.' ∷ (c ++ rest))))

-- A text X.Y.Z, each of the three below 2 ^ 32 and in one decimal digit or more, is read back as
-- those numbers, with the text itself in `version`. What follows must not begin with a digit and
-- has no NUL: it goes into `extra`, less one leading '.' or '-', and is left out if nothing is left.
pub version_parse-semver :
    {a b c : List ℕ} (rest : List ℕ)
    → IsNumber a
    → IsNumber b
    → IsNumber c
    → is_digit (head_char rest) ≡ false
    → All (λ c. c ≢ 0) rest
    → version_parse (some (semver a b c rest))
      ≡ some (record {
        version = semver a b c rest;
        major = decimal a;
        minor = decimal b;
        patch = decimal c;
        extra = extra_of rest;
      })
unfolding version_parse
version_parse-semver {a} {b} {c} rest ha hb hc e nz =
    let text : List ℕ = semver a b c rest in
    ground (
      arith,
      head-append a (b'.' ∷ (b ++ (b'.' ∷ (c ++ rest)))) ha.starts,
      head-append b (b'.' ∷ (c ++ rest)) hb.starts,
      head-append c rest hc.starts,
      ha.starts,
      hb.starts,
      hc.starts,
      parse_major-number (fresh text) (b ++ (b'.' ∷ (c ++ rest))) ha,
      parse_minor-number (record (fresh text) { major = decimal a }) (c ++ rest) hb,
      parse_patch-number (record (fresh text) { major = decimal a; minor = decimal b }) rest hc e nz
          refl,
    )

-- The fields that the parser fills in, in the range of an `unsigned int`, over the text `s`.
record InRange (s : List ℕ) (v : Version) : Type 0 where
  same : v.version ≡ s
  major_fits : v.major < 2 ^ 32
  minor_fits : v.minor < 2 ^ 32
  patch_fits : v.patch < 2 ^ 32

fresh-InRange : (s : List ℕ) → InRange s (fresh s)
fresh-InRange s = record {
  same = refl;
  major_fits = omega arith;
  minor_fits = omega arith;
  patch_fits = omega arith;
}

parse_patch-InRange :
    {s : List ℕ} (v : Version) (cs : List ℕ) → InRange s v → InRange s (parse_patch v cs)
unfolding parse_patch
parse_patch-InRange v cs r = ground arith

parse_minor-InRange :
    {s : List ℕ} (v : Version) (cs : List ℕ) → InRange s v → InRange s (parse_minor v cs)
unfolding parse_minor
parse_minor-InRange v cs r = grind (arith, parse_patch-InRange)

parse_major-InRange :
    {s : List ℕ} (v : Version) (cs : List ℕ) → InRange s v → InRange s (parse_major v cs)
unfolding parse_major
parse_major-InRange v cs r = grind (arith, parse_minor-InRange)

-- Every version that is parsed keeps the text that it was parsed from, and has its three numbers in
-- the range of an `unsigned int`.
pub version_parse-bounds :
    (s : List ℕ) {v : Version}
    → version_parse (some s) ≡ some v
    → (v.version ≡ s) × (v.major < 2 ^ 32) × (v.minor < 2 ^ 32) × (v.patch < 2 ^ 32)
unfolding version_parse
version_parse-bounds s {v} h =
    ground (arith, fresh-InRange s, parse_major-InRange {s = s} (fresh s) s (fresh-InRange s))
