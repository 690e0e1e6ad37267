-- ===== src/Token/Tests.antt =====
-- Directives and markers at the ends of lines.
use libasdf.Prelude.{ℕ, ◌≡◌, refl}
use libasdf.Prelude.{◌≢◌, inl, true, none, some, arith}
use libasdf.Prelude.{List, [], ◌∷◌, ◌++◌}
use libasdf.Prelude.Bytes.{codes, is_digit, starts_with}
use libasdf.Token.{is_string_with_newline, is_generic_yaml_directive, document_end_marker}
use libasdf.Token.Directive.{
  IsDigits, is_generic_yaml_directive_complete, is_generic_yaml_directive_overread,
}

abbrev crlf : List ℕ
crlf = b'\r' ∷ b'\n' ∷ codes "rest"

marker : is_string_with_newline (document_end_marker ++ crlf) document_end_marker ≡ true
unfolding is_string_with_newline starts_with
marker = refl

some_marker : document_end_marker ≢ []
some_marker = ground arith

one_digit : IsDigits (codes "1")
unfolding is_digit
one_digit = record { digits = (refl, tt); some_digit = omega arith }

two_digit : IsDigits (codes "2")
unfolding is_digit
two_digit = record { digits = (refl, tt); some_digit = omega arith }

two-IsDigits : IsDigits (codes "22")
unfolding is_digit
two-IsDigits = record { digits = (refl, (refl, tt)); some_digit = omega arith }

is_generic_yaml_directive_complete_example :
    is_generic_yaml_directive (codes "%YAML 1.2" ++ (b'\n' ∷ codes "---")) ≡ some true
is_generic_yaml_directive_complete_example =
    is_generic_yaml_directive_complete (b'\n' ∷ codes "---") (codes "---") one_digit two_digit
      (inl refl)

is_generic_yaml_directive_overread_example : is_generic_yaml_directive (codes "%YAML 1.22") ≡ none
is_generic_yaml_directive_overread_example =
    is_generic_yaml_directive_overread one_digit two-IsDigits (omega arith)
