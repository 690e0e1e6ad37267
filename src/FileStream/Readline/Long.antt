-- ===== src/FileStream/Readline/Long.antt =====
-- `file_readline` at a line that the window cuts off, and where the window is used up.
use libasdf.Prelude.{ℕ, zero, suc, ◌+◌, ◌-◌, ◌≤◌, ◌<◌, min, ◌≡◌, refl, sym, ap, ap₂, ◌∙◌}
use libasdf.Prelude.{◌≢◌, none, some, arith}
use libasdf.Prelude.{List, [], ◌∷◌, ◌++◌, length, take, drop}
use libasdf.Prelude.{length-append, length-take, length-drop, drop-drop, drop_all}
use libasdf.Prelude.{◌>>=◌}
use libasdf.Prelude.{le→ltb, lt→ltb, le→leb}
use libasdf.Stream.{find_newline, overwrite}
use libasdf.Stream.Valid.{HasNoNewline, find_newline-append, find_newline_none, drop_line}
use libasdf.FileStream.{
  FileStream, ahead, remain, window, fread, enlarge, shift_down, read_in, fill, file_next,
  read_line, file_readline, skip_line,
}
use libasdf.FileStream.Valid.{
  IsValid, unread, pending, length-unread, take-le-append, drop-le-append,
}
use libasdf.FileStream.Consume.{file_consume_lem}
use libasdf.FileStream.Readline.{room, IsFresh, opened, read_line_cut}

HasNoNewline-take : (n : ℕ) (xs : List ℕ) → HasNoNewline xs → HasNoNewline (take n xs)
HasNoNewline-take zero xs h = tt
HasNoNewline-take (suc n) [] h = tt
HasNoNewline-take (suc n) (x ∷ xs) (h, hs) = (h, HasNoNewline-take n xs hs)

HasNoNewline-drop : (n : ℕ) (xs : List ℕ) → HasNoNewline xs → HasNoNewline (drop n xs)
HasNoNewline-drop zero xs h = h
HasNoNewline-drop (suc n) [] h = tt
HasNoNewline-drop (suc n) (x ∷ xs) (h, hs) = HasNoNewline-drop n xs hs

used_up : {s : FileStream} → IsValid s → remain s ≡ 0 → ahead s ≡ pending s
used_up {s} v z = ap (λ k. take k (window s) ++ ahead s) (sym z) ∙ v.aligned

ahead-skip_line :
    (s : FileStream) (line more : List ℕ)
    → ahead s ≡ line ++ (b'\n' ∷ more)
    → HasNoNewline line
    → ahead (skip_line s) ≡ more
ahead-skip_line s line more e h =
    let found : find_newline (ahead s) ≡ length line = rw e (find_newline-append line more h) in
    let n : min (find_newline (ahead s) + 1) (length (ahead s)) ≡ length line + 1 =
      omega (arith, found, ap length e, length-append line (b'\n' ∷ more)) in
    sym (drop-drop (min (find_newline (ahead s) + 1) (length (ahead s))) s.cursor s.content)
    ∙ ap₂ drop n e
    ∙ drop_line line more

-- A line that the window cuts off: the bytes that the window has are returned, and the position
-- moves on by their number, but the file is read up to the end of the line. What the next read
-- gets is not what the position says.
pub file_readline_long :
    {s : FileStream} (line more : List ℕ)
    → IsValid s
    → IsFresh s
    → pending s ≡ line ++ (b'\n' ∷ more)
    → HasNoNewline line
    → 0 < room s
    → room s ≤ length line
    → (p : List ℕ) × (t : FileStream) × (file_readline s ≡ some (some (p, room s), t))
      × (take (room s) p ≡ take (room s) line)
      × (remain t ≡ 0)
      × (pending t ≡ drop (room s) line ++ (b'\n' ∷ more))
      × (ahead t ≡ more)
unfolding file_readline
file_readline_long {s} line more v f e h some_room cut =
    let (t, call, valid, view, size, left) = opened v f some_room in
    let front : take (room s) (pending s) ≡ take (room s) line =
      ap (take (room s)) e ∙ take-le-append (room s) line (b'\n' ∷ more) cut in
    let has : unread t ≡ take (room s) line = left ∙ front in
    let long : length (unread t) ≡ remain t = length-unread valid in
    let found : find_newline (unread t) ≡ length (unread t) =
      rw has (find_newline_none (take (room s) line) (HasNoNewline-take (room s) line h)) in
    let (u, eats, valid', c) = file_consume_lem (remain t) valid (omega arith) in
    let same : pending t ≡ pending s = ap₂ drop view.file_pos view.content in
    let at : pending u ≡ drop (room s) line ++ (b'\n' ∷ more) =
      ap₂ drop c.moved c.content
      ∙ sym (drop-drop (remain t) t.file_pos t.content)
      ∙ ap₂ drop size (same ∙ e)
      ∙ drop-le-append (room s) line (b'\n' ∷ more) cut in
    let skipped : ahead u ≡ drop (room s) line ++ (b'\n' ∷ more) =
      used_up valid' (omega (arith, c.left)) ∙ at in
    (
      window t,
      skip_line u,
      rw (call, ◌>>=◌)
          (read_line_cut t u (window t) (remain t) found
              (omega (arith, valid.inside, length-drop t.buf_pos t.buf)) eats
            ∙ ap (λ k. some (some (window t, k), skip_line u)) size),
      ap (λ k. take k (window t)) (sym size) ∙ has,
      omega (arith, c.left),
      at,
      ahead-skip_line u (drop (room s) line) more skipped (HasNoNewline-drop (room s) line h),
    )

fill_used : (s : FileStream) → s.buf_avail ≡ s.buf_pos → fill [] 0 s ≡ read_in 0 s
unfolding fill enlarge shift_down
fill_used s e =
    let none_left : remain s ≡ 0 = omega arith in
    rw (le→ltb (length s.buf) 0 (omega arith)) (
      rw (le→ltb (remain s) 0 (omega arith))
        (rw (le→leb s.buf_avail s.buf_pos (omega arith)) (ap (λ k. read_in k s) none_left)))

read_line_outside : (n : ℕ) (t : FileStream) → 0 < n → read_line (some []) n t ≡ none
unfolding read_line find_newline
read_line_outside zero t h = absurd (omega arith)
read_line_outside (suc n) t h = rw (lt→ltb 0 (suc n) (omega arith)) refl

-- `read_in` at the start of the buffer, where `buf_pos` is at its end.
read_in-used :
    (s : FileStream)
    → s.buf_pos ≡ length s.buf
    → s.buf_avail ≡ s.buf_pos
    → 0 < length s.buf
    → ahead s ≢ []
    → (window (read_in 0 s) ≡ []) × (0 < remain (read_in 0 s))
unfolding read_in
read_in-used s p a h ne =
    let bs : List ℕ = fread (length s.buf - 0) s in
    let got : length bs ≡ min (length s.buf - 0) (length (ahead s)) =
      length-take (length s.buf - 0) (ahead s) in
    (
      drop_all s.buf_pos (overwrite 0 bs s.buf) (
          omega (
            arith,
            got,
            length-append bs (drop (0 + length bs) s.buf),
            length-drop (0 + length bs) s.buf,
          )),
      omega (arith, got, not_empty (ahead s) ne),
    )
  where
    not_empty : (xs : List ℕ) → xs ≢ [] → 0 < length xs
    not_empty [] ne = absurd (ne refl)
    not_empty (x ∷ xs) ne = omega arith

next_used :
    (s : FileStream)
    → s.buf_avail ≡ s.buf_pos
    → window (read_in 0 s) ≡ []
    → 0 < remain (read_in 0 s)
    → file_next [] 0 s ≡ some ((some [], remain (read_in 0 s)), read_in 0 s)
unfolding file_next
next_used s a empty more = rw (fill_used s a) (
    rw (lt→ltb 0 (remain (read_in 0 s)) more)
      (ap (λ w. some ((some w, remain (read_in 0 s)), read_in 0 s)) empty))

-- A window that is used up and fills the buffer, with bytes left in the file: the next line is read
-- from outside of the buffer.
pub file_readline_used :
    {s : FileStream} → IsValid s → s.buf_pos ≡ length s.buf → ahead s ≢ [] → file_readline s ≡ none
unfolding file_readline
file_readline_used {s} v p ne =
    let a : s.buf_avail ≡ s.buf_pos = omega (arith, v.ordered, v.inside) in
    let (empty, more) = read_in-used s p a v.buffered ne in
    rw (next_used s a empty more, ◌>>=◌)
      (read_line_outside (remain (read_in 0 s)) (read_in 0 s) more)
