-- ===== src/Parser/Header/Comments.antt =====
-- The comments and blank lines that may follow the version comments.
use libasdf.Prelude.{ℕ, suc, ◌+◌, ◌-◌, ◌^◌, ◌≤◌, ◌<◌, ◌≡◌, refl, sym, ap, ap₂, ◌∙◌}
use libasdf.Prelude.{◌≢◌, ◌⊎◌, true, false, ◌||◌, none, some, arith}
use libasdf.Prelude.{List, [], ◌∷◌, ◌++◌, length, drop, All}
use libasdf.Prelude.{◌==◌}
use libasdf.Prelude.{length-append, drop-append}
use libasdf.Prelude.{◌>>=◌}
use native.Mathlib.Nat.{add-zero, zero-add}
use libasdf.Stream.{Stream, rest, mem_peek, mem_readline}
use libasdf.Stream.Valid.{IsValid, HasNoNewline, mem_readline_moves, rest-moved, length-rest}
use libasdf.Stream.Captured.{mem_consume-plain}
use libasdf.Parser.{Parser, State, parse_continue, parse_event, has_error}
use libasdf.Parser.{comment_event}
use libasdf.Parser.Tree.Scan.{at, at-IsValid, next-at}
use libasdf.Parser.Header.{parse_comment_line, comment_loop, parse_comment}
use libasdf.Parser.Header.Lines.{
  IsPlain, strndup-line, cut_line-plain, HasNoNewline-append, after_line,
}

pub peek-some :
    (s : Stream) {b : ℕ} {bs : List ℕ}
    → IsValid s
    → rest s ≡ b ∷ bs
    → mem_peek s ≡ some (some (b ∷ bs), s)
unfolding mem_peek
peek-some s {b} {bs} v e =
    let l : 1 ≤ length (rest s) = omega (arith, ap length e) in
    rw (next-at s v l, ◌>>=◌)
      (rw (mem_consume-plain s 0 v.plain (omega (arith, v.within, v.small)), ◌>>=◌)
        (ap₂ (λ r k. some (some r, record s { offset = k })) e (add-zero s.offset)))

abbrev pub IsBlank : ℕ → Type 0
IsBlank c = (c ≡ b'\r') ⊎ (c ≡ b'\n')

comment_loop_round :
    (b : ℕ) (more : List ℕ) (f : ℕ) (p : Parser)
    → IsValid p.stream
    → p.stream.error ≡ none
    → IsBlank b
    → rest p.stream ≡ b ∷ more
    → comment_loop (suc f) p ≡ comment_loop f (at (p.stream.offset + 1) p)
unfolding comment_loop
comment_loop_round b more f p v c h e =
    let ok : has_error (at (p.stream.offset + 1) p) ≡ false = rw c refl in
    let l : p.stream.offset + 1 < 2 ^ 64 = omega (arith, v.within, v.small) in
    let blank : (b == b'\r' || b == b'\n') ≡ true = ground (arith, h) in
    rw (peek-some p.stream v e, ◌>>=◌)
      (rw blank (rw (mem_consume-plain p.stream 1 v.plain l, ◌>>=◌) (rw ok refl)))

-- The loop passes over the line endings in front of it, a round for each.
comment_loop_blank :
    (blanks more : List ℕ) (f : ℕ) (p : Parser)
    → IsValid p.stream
    → p.stream.error ≡ none
    → All IsBlank blanks
    → rest p.stream ≡ blanks ++ more
    → comment_loop (length blanks + f) p ≡ comment_loop f (at (p.stream.offset + length blanks) p)
comment_loop_blank [] more f p v c h e =
    ap₂ (λ g k. comment_loop g (at k p)) (zero-add f) (sym (add-zero p.stream.offset))
comment_loop_blank (b ∷ blanks) more f p v c (hb, h) e =
    let q : Parser = at (p.stream.offset + 1) p in
    let fuel : length (b ∷ blanks) + f ≡ suc (length blanks + f) = omega arith in
    let l : 1 ≤ length (rest p.stream) = omega (arith, ap length e) in
    let e' : rest q.stream ≡ blanks ++ more = sym (rest-moved p.stream 1) ∙ ap (drop 1) e in
    let moved : p.stream.offset + 1 + length blanks ≡ p.stream.offset + length (b ∷ blanks) =
      omega arith in
    ap (λ g. comment_loop g p) fuel
    ∙ comment_loop_round b (blanks ++ more) (length blanks + f) p v c hb e
    ∙ comment_loop_blank blanks more f q (at-IsValid p 1 v l) c h e'
    ∙ ap (λ k. comment_loop f (at k p)) moved

-- The rest of the loop, from the first byte that is no line ending, with a round left.
to_content :
    (p : Parser) (blanks more : List ℕ) (b : ℕ)
    → IsValid p.stream
    → p.stream.error ≡ none
    → All IsBlank blanks
    → rest p.stream ≡ blanks ++ (b ∷ more)
    → (f : ℕ) × (parse_comment p ≡ comment_loop (suc f) (at (p.stream.offset + length blanks) p))
      × (rest (at (p.stream.offset + length blanks) p).stream ≡ b ∷ more)
      × IsValid (at (p.stream.offset + length blanks) p).stream
unfolding parse_comment
to_content p blanks more b v c h e =
    let here : rest (at (p.stream.offset + length blanks) p).stream ≡ b ∷ more =
      sym (rest-moved p.stream (length blanks))
      ∙ ap (drop (length blanks)) e
      ∙ drop-append blanks _ in
    let n : length (rest p.stream) ≡ length blanks + suc (length more) =
      ap length e ∙ length-append blanks (b ∷ more) in
    let f : ℕ = length p.stream.buf - length blanks in
    let fuel : length p.stream.buf + 1 ≡ length blanks + suc f =
      omega (arith, length-rest p.stream, n, v.within) in
    (
      f,
      ap (λ g. comment_loop g p) fuel ∙ comment_loop_blank blanks (b ∷ more) (suc f) p v c h e,
      here,
      at-IsValid p (length blanks) v (omega (arith, n)),
    )

-- After blank lines, a line "#T" gives the comment event with its text T, which has no NUL and no
-- line ending, and the parser stays in its state, at the next line. The stream is valid and without
-- an error. The loop ends within its rounds.
pub parse_comment_comment :
    (p : Parser) (blanks text more : List ℕ)
    → IsValid p.stream
    → p.stream.error ≡ none
    → All IsBlank blanks
    → IsPlain text
    → rest p.stream ≡ blanks ++ (b'#' ∷ (text ++ (b'\n' ∷ more)))
    → let n : ℕ = p.stream.offset + length blanks + (1 + length text + 1) in
      (parse_comment p ≡ some (parse_event (comment_event text), at n p))
      × (rest (at n p).stream ≡ more)
unfolding comment_loop parse_comment_line
parse_comment_comment p blanks text more v c h t e =
    let q : Parser = at (p.stream.offset + length blanks) p in
    let (f, start, here, v') = to_content p blanks (text ++ (b'\n' ∷ more)) b'#' v c h e in
    let plain : HasNoNewline (b'#' ∷ text) =
      HasNoNewline-append (b'#' ∷ []) text (ground arith) t in
    let m : mem_readline q.stream ≡ _ = (mem_readline_moves (b'#' ∷ text) more v' here plain).0 in
    let len : length (b'#' ∷ text) + 1 ≡ 1 + length text + 1 = omega arith in
    let count : 1 + length text + 1 - 1 ≡ length text + 1 = omega arith in
    (
      start
          ∙ rw (peek-some q.stream v' here, ◌>>=◌)
              (rw (m, ◌>>=◌)
                (rw (len, count, here, strndup-line text more t, cut_line-plain text t) refl)),
      (after_line q (b'#' ∷ []) text more v' here).0,
    )

-- After blank lines, on a valid stream without an error, any byte but a '#' sends the parser on, to
-- look for a block index there.
pub parse_comment_other :
    (p : Parser) (blanks more : List ℕ) (b : ℕ)
    → IsValid p.stream
    → p.stream.error ≡ none
    → All IsBlank blanks
    → rest p.stream ≡ blanks ++ (b ∷ more)
    → ¬ IsBlank b
    → b ≢ b'#'
    → parse_comment p
      ≡ some (
        parse_continue,
        record (at (p.stream.offset + length blanks) p) { state = State.block_index },
      )
unfolding comment_loop
parse_comment_other p blanks more b v c h e nb nc =
    let q : Parser = at (p.stream.offset + length blanks) p in
    let (f, start, here, v') = to_content p blanks more b v c h e in
    let blank : (b == b'\r' || b == b'\n') ≡ false = ground (arith, nb) in
    let hash : (b == b'#') ≡ false = ground (arith, nc) in
    start ∙ rw (peek-some q.stream v' here, ◌>>=◌) (rw (blank, hash) refl)
