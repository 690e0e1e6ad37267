-- ===== src/FileStream/Readline/Line.antt =====
-- `file_readline` at a line that the window holds.
use libasdf.Prelude.{ℕ, ◌+◌, ◌<◌, ◌≡◌, sym, ap, ap₂, ◌∙◌}
use libasdf.Prelude.{some, arith}
use libasdf.Prelude.{List, [], ◌∷◌, ◌++◌, length, take, drop}
use libasdf.Prelude.{drop-drop}
use libasdf.Prelude.{◌>>=◌}
use libasdf.Stream.{find_newline}
use libasdf.Stream.Valid.{HasNoNewline, find_newline-append, drop_line}
use libasdf.FileStream.{FileStream, remain, window, file_readline}
use libasdf.FileStream.Valid.{IsValid, unread, pending, length-unread}
use libasdf.FileStream.Consume.{file_consume_lem}
use libasdf.FileStream.Readline.{
  room, IsFresh, opened, read_line_found, take_past, take-take, take_line,
}

-- A line that the window has, with its newline, is returned whole; the stream keeps its error, and
-- is left valid at what follows the line.
pub file_readline_line :
    {s : FileStream} (line more : List ℕ)
    → IsValid s
    → IsFresh s
    → pending s ≡ line ++ (b'\n' ∷ more)
    → HasNoNewline line
    → length line < room s
    → (p : List ℕ) × (t : FileStream) × (file_readline s ≡ some (some (p, length line + 1), t))
      × (take (length line + 1) p ≡ line ++ (b'\n' ∷ []))
      × (pending t ≡ more)
      × IsValid t
      × (t.error ≡ s.error)
unfolding file_readline
file_readline_line {s} line more v f e h fits =
    let (t, call, valid, view, size, left) = opened v f (omega arith) in
    let (rest, first) = take_past (room s) line more b'\n' fits in
    let has : unread t ≡ line ++ (b'\n' ∷ rest) = left ∙ ap (take (room s)) e ∙ first in
    let found : find_newline (unread t) ≡ length line = rw has (find_newline-append line rest h) in
    let long : length (unread t) ≡ remain t = length-unread valid in
    let (u, eats, valid', c) = file_consume_lem (length line + 1) valid (omega (arith, size)) in
    let same : pending t ≡ pending s = ap₂ drop view.file_pos view.content in
    (
      window t,
      u,
      rw (call, ◌>>=◌)
          (read_line_found t u (window t) (remain t) (length line) found (omega (arith, size, long))
            eats),
      sym (take-take (length line + 1) (remain t) (window t) (omega (arith, size)))
          ∙ ap (take (length line + 1)) has
          ∙ take_line line rest b'\n',
      ap₂ drop c.moved c.content
          ∙ sym (drop-drop (length line + 1) t.file_pos t.content)
          ∙ ap (drop (length line + 1)) (same ∙ e)
          ∙ drop_line line more,
      valid',
      c.error ∙ view.error,
    )
