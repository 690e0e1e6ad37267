-- ===== src/Token/Directive.antt =====
-- `is_generic_yaml_directive` accepts `%YAML X.Y` lines, and reads past a buffer that ends in the
-- version number.
use libasdf.Prelude.{ℕ, ◌+◌, ◌≤◌, ◌≡◌, refl, ap, ◌∙◌}
use libasdf.Prelude.{inl, inr, Bool, true, false, Option, none, some, arith}
use libasdf.Prelude.{List, [], ◌∷◌, ◌++◌, length, All}
use libasdf.Prelude.{length-append}
use mathlib.Core.List.{append-nil}
use libasdf.Prelude.Bytes.{is_digit}
use libasdf.Stream.Tokens.{starts_with-append}
use libasdf.Token.{yaml_directive_prefix, skip_digits, ends_line, digits_then, dot_then}
use libasdf.Token.{is_generic_yaml_directive}
use libasdf.Token.Line.{LineEnd}

-- One decimal digit or more.
pub record IsDigits (ds : List ℕ) : Type 0 where
  pub digits : All (λ d. is_digit d ≡ true) ds
  pub some_digit : 1 ≤ length ds

skip_digits-append :
    (ds : List ℕ) (c : ℕ) (cs : List ℕ)
    → All (λ d. is_digit d ≡ true) ds
    → is_digit c ≡ false
    → skip_digits (ds ++ (c ∷ cs)) ≡ some (c ∷ cs)
unfolding skip_digits
skip_digits-append [] c cs h n = ground (arith, n)
skip_digits-append (d ∷ ds) c cs (hd, h) n = ground (arith, hd, skip_digits-append ds c cs h n)

skip_digits_end : (ds : List ℕ) → All (λ d. is_digit d ≡ true) ds → skip_digits ds ≡ none
unfolding skip_digits
skip_digits_end [] h = refl
skip_digits_end (d ∷ ds) (hd, h) = ground (arith, hd, skip_digits_end ds h)

digits_then-append :
    (k : List ℕ → Option Bool) {ds : List ℕ} (c : ℕ) (cs : List ℕ)
    → IsDigits ds
    → is_digit c ≡ false
    → digits_then k (ds ++ (c ∷ cs)) ≡ k (c ∷ cs)
unfolding digits_then
digits_then-append k {ds = []} c cs h n = absurd (omega (arith, h.some_digit))
digits_then-append k {ds = d ∷ ds} c cs h n =
    ground (arith, h.digits.0, skip_digits-append (d ∷ ds) c cs h.digits n)

digits_then_end : (k : List ℕ → Option Bool) (ds : List ℕ) → IsDigits ds → digits_then k ds ≡ none
unfolding digits_then
digits_then_end k [] h = absurd (omega (arith, h.some_digit))
digits_then_end k (d ∷ ds) h = ground (arith, h.digits.0, skip_digits_end (d ∷ ds) h.digits)

abbrev pub directive : List ℕ → List ℕ → List ℕ → List ℕ
directive x y end = yaml_directive_prefix ++ (x ++ (b'.' ∷ (y ++ end)))

length-directive :
    (x y end : List ℕ) → length (directive x y end) ≡ 7 + length x + length y + length end
length-directive x y end = omega (arith, length-append x (b'.' ∷ (y ++ end)), length-append y end)

controls_not_digits : (is_digit b'\n' ≡ false) × (is_digit b'\r' ≡ false) × (is_digit b'.' ≡ false)
unfolding is_digit
controls_not_digits = (refl, refl, refl)

-- The part of the test that comes after the prefix.
is_generic-directive :
    {x : List ℕ} (y end : List ℕ)
    → IsDigits x
    → 3 ≤ length x + length y + length end
    → is_generic_yaml_directive (directive x y end) ≡ digits_then ends_line (y ++ end)
unfolding is_generic_yaml_directive
is_generic-directive {x} y end hx l = ground (
  arith,
  length-directive x y end,
  starts_with-append yaml_directive_prefix (x ++ (b'.' ∷ (y ++ end))),
  digits_then-append dot_then b'.' (y ++ end) hx controls_not_digits.2,
)

ends_line_newline : (more : List ℕ) → ends_line (b'\n' ∷ more) ≡ some true
unfolding ends_line
ends_line_newline [] = refl
ends_line_newline (c ∷ cs) = refl

-- A line `%YAML X.Y` with any decimal X and Y, of a digit or more each, and either line ending is a
-- directive.
pub is_generic_yaml_directive_complete :
    {x y : List ℕ} (end more : List ℕ)
    → IsDigits x
    → IsDigits y
    → LineEnd more end
    → is_generic_yaml_directive (directive x y end) ≡ some true
unfolding ends_line
is_generic_yaml_directive_complete {x} {y} end more hx hy (inl e) =
    is_generic-directive y end hx (omega (arith, hx.some_digit, hy.some_digit, ap length e))
    ∙ rw e
        (digits_then-append ends_line b'\n' more hy controls_not_digits.0 ∙ ends_line_newline more)
is_generic_yaml_directive_complete {x} {y} end more hx hy (inr e) =
    is_generic-directive y end hx (omega (arith, hx.some_digit, hy.some_digit, ap length e))
    ∙ rw e (digits_then-append ends_line b'\r' (b'\n' ∷ more) hy controls_not_digits.1 ∙ refl)

-- A buffer of ten bytes or more that is used up by a version number without its line ending makes
-- the test read past the buffer.
pub is_generic_yaml_directive_overread :
    {x y : List ℕ}
    → IsDigits x
    → IsDigits y
    → 3 ≤ length x + length y
    → is_generic_yaml_directive (directive x y []) ≡ none
is_generic_yaml_directive_overread {x} {y} hx hy l =
    is_generic-directive y [] hx (omega arith) ∙ rw (append-nil y) (digits_then_end ends_line y hy)
