-- ===== src/Parser/Header.antt =====
-- The first lines of a file: the version comments, and comments and blank lines.
pub mod Lines
pub mod Comments
use libasdf.Prelude.{
  ℕ, zero, suc, ◌+◌, ◌-◌, ◌*◌, ◌/◌, ◌%◌, ◌^◌, ◌≤◌, ◌<◌, min, max, ◌≡◌, refl, sym, ap, ap₂, ◌∙◌,
}
use libasdf.Prelude.{
  ◌≢◌, ◌↔◌, ◌⊎◌, inl, inr, Bool, true, false, not, ◌&&◌, ◌||◌, Option, none, some, arith,
}
use libasdf.Prelude.{
  List, [], ◌∷◌, ◌++◌, map, length, get_elem?, get_or, set, take, drop, replicate, All,
}
use libasdf.Prelude.{ltb, leb, ◌==◌, if◌then◌else◌, Bool-cases, Option-cases, tests}
use libasdf.Prelude.{
  length-append, length-take, length-drop, length-replicate, take-append, drop-append, drop-drop,
  drop-nil, drop_all, take-append-drop,
}
use libasdf.Prelude.{M, pure, fault, ◌>>=◌, ◌>>◌, get, gets, modify, read, assert, >>=-eq-some}
use libasdf.Prelude.Bytes.{size_mod, strncmp_eq, strndup, head_char}
use libasdf.Error.{ErrorCode, unexpected_eof, invalid_asdf_header}
use libasdf.Version.{Version, version_parse}
use libasdf.Stream.{Stream, set_error, mem_readline, mem_peek, mem_consume}
use libasdf.Token.{version_comment, standard_comment}
use libasdf.Parser.{Parser, Result, Event, on_stream, goto, fail, has_error}
use libasdf.Parser.{parse_error, parse_continue, running, parse_event}
use libasdf.Parser.{no_event, asdf_version_event, standard_version_event, comment_event}
use libasdf.Parser.{State}

-- The version after `expected`: `none` is a fault, and `some none` the error for a bad header.
-- `to_copy` wraps, as a `size_t` does.
unfoldable pub version_of : List ℕ → List ℕ → ℕ → Option (Option Version)
version_of expected line line_len =
    if ltb line_len (length expected) then some none else elim (strncmp_eq expected line) [
      | none ↦ none
      | some false ↦ some none
      | some true ↦
          elim (strndup ((line_len + size_mod - length expected - 1) % size_mod)
            (drop (length expected) line)) [
              | none ↦ none
              | some text ↦ some (version_parse (some text))
            ]
    ]

-- `parse_version_comment`; `none` is the result 1.
unfoldable pub parse_version_comment : List ℕ → M Parser (Option Version)
parse_version_comment expected = do
  r ← on_stream mem_readline
  elim r [
    | none ↦ (do on_stream (set_error unexpected_eof); pure none)
    | some (line, line_len) ↦ (do
      v ← read (version_of expected line line_len)
      elim v [
        | none ↦ (do on_stream (set_error invalid_asdf_header); pure none)
        | some version ↦ pure (some version)
      ])
  ]

-- `parse_asdf_version`
unfoldable pub parse_asdf_version : M Parser Result
parse_asdf_version = do
  v ← parse_version_comment version_comment
  elim v [
    | none ↦ pure parse_error
    | some version ↦ (do
      modify (λ p. record p { asdf_version = some version; state = State.standard_version })
      pure (parse_event (asdf_version_event (some version))))
  ]

-- `parse_standard_version`
unfoldable pub parse_standard_version : M Parser Result
parse_standard_version = do
  v ← parse_version_comment standard_comment
  elim v [
    | none ↦ pure parse_error
    | some version ↦ (do
      modify (λ p. record p { standard_version = some version; state = State.comment })
      pure (parse_event (standard_version_event (some version))))
  ]

-- `comment[strcspn(comment, "\r\n")] = '\0'`
unfoldable pub cut_line : List ℕ → List ℕ
cut_line [] = []
cut_line (c ∷ cs) = if c == b'\r' || c == b'\n' then [] else c ∷ cut_line cs

-- The comment that begins at the stream's position. A missing line returns 1, which is
-- `ASDF_PARSE_EVENT`, with the error set and the event not filled in.
unfoldable pub parse_comment_line : M Parser Result
unfolding cut_line
parse_comment_line = do
  r ← on_stream mem_readline
  elim r [
    | none ↦ (do on_stream (set_error unexpected_eof); pure (parse_event no_event))
    | some (line, len) ↦ (do
      text ← read (strndup (len - 1) (drop 1 line))
      pure (parse_event (comment_event (cut_line text))))
  ]

-- The loop of `parse_comment`. Each round that goes on consumes a byte.
unfoldable pub comment_loop : ℕ → M Parser Result
comment_loop zero = pure running
comment_loop (suc f) =
    let again : M Parser Result = comment_loop f in
    (do
      r ← on_stream mem_peek
      elim r [
        | none ↦ (do goto State.block_index; pure parse_continue)
        | some [] ↦ (do goto State.end; pure parse_continue)
        | some (b ∷ bs) ↦
            if b == b'\r' || b == b'\n'
            then (do
              on_stream (mem_consume 1)
              failed ← gets has_error
              if failed then pure parse_error else again)
            else if b == b'#'
            then parse_comment_line
            else (do goto State.block_index; pure parse_continue)
      ])

-- `parse_comment`, with a round for each byte of the buffer and one more.
unfoldable pub parse_comment : M Parser Result
parse_comment p = comment_loop (length p.stream.buf + 1) p
