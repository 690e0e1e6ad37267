-- ===== src/Token.antt =====
-- src/parse_util.c and src/parse_util.h: the tokens that the parser scans for, and the tests that a
-- token is followed by what makes it one. The tokens themselves are those of src/yaml.h and
-- src/block.c.
pub mod Directive
pub mod Line
mod Tests
use libasdf.Prelude.{
  ℕ, zero, suc, ◌+◌, ◌-◌, ◌*◌, ◌/◌, ◌%◌, ◌^◌, ◌≤◌, ◌<◌, min, max, ◌≡◌, refl, sym, ap, ap₂, ◌∙◌,
}
use libasdf.Prelude.{
  ◌≢◌, ◌↔◌, ◌⊎◌, inl, inr, Bool, true, false, not, ◌&&◌, ◌||◌, Option, none, some, arith,
}
use libasdf.Prelude.{
  List, [], ◌∷◌, ◌++◌, map, length, get_elem?, get_or, set, take, drop, replicate, All,
}
use libasdf.Prelude.{ltb, leb, ◌==◌, if◌then◌else◌, Bool-cases, Option-cases, tests}
use libasdf.Prelude.{
  length-append, length-take, length-drop, length-replicate, take-append, drop-append, drop-drop,
  drop-nil, drop_all, take-append-drop,
}
use libasdf.Prelude.{M, pure, fault, ◌>>=◌, ◌>>◌, get, gets, modify, read, assert, >>=-eq-some}
use libasdf.Prelude.Bytes.{codes, is_digit, starts_with}
use libasdf.Stream.{Stream, mem_scan}

abbrev pub yaml_directive_prefix : List ℕ
yaml_directive_prefix = codes "%YAML "

abbrev pub yaml_directive : List ℕ
yaml_directive = codes "%YAML 1.1"

abbrev pub document_end_marker : List ℕ
document_end_marker = b'\n' ∷ codes "..."

abbrev pub block_magic : List ℕ
block_magic = 0xd3 ∷ codes "BLK"

abbrev pub block_index_header : List ℕ
block_index_header = codes "#ASDF BLOCK INDEX"

abbrev pub version_comment : List ℕ
version_comment = codes "#ASDF "

abbrev pub standard_comment : List ℕ
standard_comment = codes "#ASDF_STANDARD "

-- `asdf_parse_token_id_t`, less `ASDF_LAST_TOK`, which ends an array of them.
pub data Token : Type 0 where
  yaml_directive_tok document_end_tok block_magic_tok block_index_header_tok : Token

-- `asdf_parse_tokens`
abbrev pub token_bytes : Token → List ℕ
token_bytes yaml_directive_tok = yaml_directive_prefix
token_bytes document_end_tok = document_end_marker
token_bytes block_magic_tok = block_magic
token_bytes block_index_header_tok = block_index_header

-- The token with the index that the scan matched.
abbrev pub token_at : List Token → Option (ℕ × ℕ) → Option Token
token_at ids none = none
token_at ids (some (o, i)) = get_elem? ids i

-- `asdf_parser_scan_tokens`: the token matched, or `none` for the result 1.
unfoldable pub scan_for : List Token → M Stream (Option Token)
scan_for [] = pure none
scan_for (t ∷ ts) = do r ← mem_scan (map token_bytes (t ∷ ts)); pure (token_at (t ∷ ts) r)

-- `while (isdigit(*p) && p < end) ++p;`, which reads `*p` also at the end.
unfoldable pub skip_digits : List ℕ → Option (List ℕ)
unfolding is_digit
skip_digits [] = none
skip_digits (c ∷ cs) = let more = skip_digits cs in if is_digit c then more else some (c ∷ cs)

-- The end of `is_generic_yaml_directive`: an optional `\r`, then a newline.
unfoldable pub ends_line : List ℕ → Option Bool
ends_line [] = none
ends_line (c ∷ []) = if c == b'\r' then none else some (c == b'\n')
ends_line (c ∷ d ∷ cs) = if c == b'\r' then some (d == b'\n') else some (c == b'\n')

-- `if (!isdigit(*p)) return false;` and the digits that follow.
unfoldable pub digits_then : (List ℕ → Option Bool) → List ℕ → Option Bool
unfolding is_digit skip_digits
digits_then k [] = none
digits_then k (c ∷ cs) =
    if is_digit c then elim (skip_digits (c ∷ cs)) [ none ↦ none | some p ↦ k p ] else some false

-- `if (p < end && *p++ != '.') return false;` and the minor version.
unfoldable pub dot_then : List ℕ → Option Bool
unfolding digits_then ends_line
dot_then [] = digits_then ends_line []
dot_then (c ∷ cs) = if not (c == b'.') then some false else digits_then ends_line cs

-- `is_generic_yaml_directive`; `none` is a read past the buffer.
unfoldable pub is_generic_yaml_directive : List ℕ → Option Bool
unfolding dot_then
is_generic_yaml_directive buf =
    if ltb (length buf) (9 + 1)
    then some false
    else if not (starts_with yaml_directive_prefix buf)
    then some false
    else digits_then dot_then (drop 6 buf)

abbrev pub char_at : List ℕ → ℕ → ℕ
char_at buf i = get_or buf i 0

-- `ends_with_newline`; it reads only inside the buffer.
unfoldable pub ends_with_newline : List ℕ → ℕ → Bool
ends_with_newline buf len =
    if len == 0 || length buf == 0 || ltb (length buf) (len + 1)
    then false
    else char_at buf len == b'\n'
      || (char_at buf len == b'\r' && leb (len + 2) (length buf) && char_at buf (len + 1) == b'\n')

-- `is_string_with_newline`
unfoldable pub is_string_with_newline : List ℕ → List ℕ → Bool
unfolding ends_with_newline
is_string_with_newline buf str =
    if ltb (length buf) (length str + 1)
    then false
    else if not (starts_with str buf)
    then false
    else ends_with_newline buf (length str)

-- `is_yaml_1_1_directive`
unfoldable pub is_yaml_1_1_directive : List ℕ → Bool
unfolding is_string_with_newline
is_yaml_1_1_directive buf = is_string_with_newline buf yaml_directive

-- `is_yaml_directive`
unfoldable pub is_yaml_directive : List ℕ → Option Bool
unfolding is_yaml_1_1_directive is_generic_yaml_directive
is_yaml_directive buf =
    if is_yaml_1_1_directive buf then some true else is_generic_yaml_directive buf

-- `is_yaml_document_end_marker`
unfoldable pub is_yaml_document_end_marker : List ℕ → Bool
unfolding is_string_with_newline
is_yaml_document_end_marker buf = is_string_with_newline buf document_end_marker

-- `is_block_magic`, on NULL with no byte available or on a buffer.
unfoldable pub is_block_magic : List ℕ → Bool
is_block_magic buf = if ltb (length buf) 4 then false else starts_with block_magic buf
