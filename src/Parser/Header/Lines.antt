-- ===== src/Parser/Header/Lines.antt =====
-- The version comments at the start of a file.
use libasdf.Prelude.{ℕ, ◌+◌, ◌-◌, ◌%◌, ◌<◌, ◌≡◌, refl, sym, ap, ◌∙◌}
use libasdf.Prelude.{◌≢◌, true, false, some, arith}
use libasdf.Prelude.{List, [], ◌∷◌, ◌++◌, length, drop, All}
use libasdf.Prelude.{ltb}
use libasdf.Prelude.{length-append, drop-append, drop_exact}
use libasdf.Prelude.{◌>>=◌}
use mathlib.Core.List.{append_assoc}
use libasdf.Prelude.Bytes.{strncmp_eq, strndup, size_mod}
use libasdf.Stream.{rest}
use libasdf.Stream.Valid.{IsValid, HasNoNewline, mem_readline_moves, rest-moved}
use libasdf.Version.{Version, version_parse}
use libasdf.Token.{version_comment, standard_comment}
use libasdf.Parser.{Parser, State, parse_event}
use libasdf.Parser.{asdf_version_event, standard_version_event}
use libasdf.Parser.Tree.Scan.{at, at-IsValid}
use libasdf.Parser.Header.{
  version_of, parse_version_comment, parse_asdf_version, parse_standard_version,
}
use libasdf.Parser.Header.{cut_line}

-- A text with neither NUL nor the end of a line.
abbrev pub IsPlain : List ℕ → Type 0
IsPlain cs = All (λ c. (c ≢ 0) × (c ≢ b'\r') × (c ≢ b'\n')) cs

strncmp_eq-append : (ts bs : List ℕ) → strncmp_eq ts (ts ++ bs) ≡ some true
unfolding strncmp_eq
strncmp_eq-append [] bs = refl
strncmp_eq-append (t ∷ ts) bs = ground (arith, strncmp_eq-append ts bs)

strndup-append : (cs bs : List ℕ) → IsPlain cs → strndup (length cs) (cs ++ bs) ≡ some cs
unfolding strndup
strndup-append [] bs h = refl
strndup-append (c ∷ cs) bs ((z, r, n), h) = ground (arith, strndup-append cs bs h)

-- The newline at the end of a comment is duplicated with it.
pub strndup-line :
    (cs bs : List ℕ)
    → IsPlain cs
    → strndup (length cs + 1) (cs ++ (b'\n' ∷ bs)) ≡ some (cs ++ (b'\n' ∷ []))
unfolding strndup
strndup-line [] bs h = refl
strndup-line (c ∷ cs) bs ((z, r, n), h) = ground (arith, strndup-line cs bs h)

pub cut_line-plain : (cs : List ℕ) → IsPlain cs → cut_line (cs ++ (b'\n' ∷ [])) ≡ cs
unfolding cut_line
cut_line-plain [] h = refl
cut_line-plain (c ∷ cs) ((z, r, n), h) = ground (arith, cut_line-plain cs h)

pub HasNoNewline-append : (bs cs : List ℕ) → HasNoNewline bs → IsPlain cs → HasNoNewline (bs ++ cs)
HasNoNewline-append [] [] h k = tt
HasNoNewline-append [] (c ∷ cs) h ((z, r, n), k) = (n, HasNoNewline-append [] cs tt k)
HasNoNewline-append (a ∷ bs) cs (ha, h) k = (ha, HasNoNewline-append bs cs h k)

version_of-line :
    (expected text more : List ℕ) (v : Version)
    → IsPlain text
    → length expected + length text + 1 < size_mod
    → version_parse (some text) ≡ some v
    → version_of expected (expected ++ (text ++ (b'\n' ∷ more))) (length expected + length text + 1)
      ≡ some (some v)
unfolding version_of
version_of-line expected text more v h l e =
    let long : ltb (length expected + length text + 1) (length expected) ≡ false = ground arith in
    let count : (length expected + length text + 1 + size_mod - length expected - 1) % size_mod
        ≡ length text =
      omega arith in
    rw (long, strncmp_eq-append expected (text ++ (b'\n' ∷ more)))
      (rw
        (count, drop-append expected (text ++ (b'\n' ∷ more)), strndup-append text (b'\n' ∷ more) h)
        (ap some e))

version_comment_line :
    (p : Parser) (expected text more : List ℕ) (v : Version)
    → IsValid p.stream
    → rest p.stream ≡ expected ++ (text ++ (b'\n' ∷ more))
    → HasNoNewline expected
    → IsPlain text
    → version_parse (some text) ≡ some v
    → parse_version_comment expected p
      ≡ some (some v, at (p.stream.offset + (length expected + length text + 1)) p)
unfolding parse_version_comment
version_comment_line p expected text more v w e k h q =
    let line : List ℕ = expected ++ text in
    let whole : rest p.stream ≡ line ++ (b'\n' ∷ more) =
      e ∙ sym (append_assoc expected text (b'\n' ∷ more)) in
    let (m, room) = mem_readline_moves line more w whole (HasNoNewline-append expected text k h) in
    let n : length line + 1 ≡ length expected + length text + 1 =
      ap (λ k. k + 1) (length-append expected text) in
    let small : length expected + length text + 1 < size_mod = omega (arith, n, w.small, room) in
    rw (m, ◌>>=◌, n, e) (rw (version_of-line expected text more v h small q) refl)

pub after_line :
    (p : Parser) (expected text more : List ℕ)
    → IsValid p.stream
    → rest p.stream ≡ expected ++ (text ++ (b'\n' ∷ more))
    → let n : ℕ = length expected + length text + 1 in
      (rest (at (p.stream.offset + n) p).stream ≡ more)
      × IsValid (at (p.stream.offset + n) p).stream
after_line p expected text more w e =
    let n : ℕ = length expected + length text + 1 in
    let line : List ℕ = expected ++ (text ++ (b'\n' ∷ [])) in
    let long : length line ≡ n =
      omega
        (arith, length-append expected (text ++ (b'\n' ∷ [])), length-append text (b'\n' ∷ [])) in
    let whole : rest p.stream ≡ line ++ more = e ∙ simp (append_assoc) in
    let there : length (rest p.stream) ≡ n + length more =
      ap length whole ∙ length-append line more ∙ ap (λ k. k + length more) long in
    (
      sym (rest-moved p.stream n) ∙ ap (drop n) whole ∙ drop_exact n line more long,
      at-IsValid p n w (omega (arith, there)),
    )

asdf_comment-HasNoNewline : HasNoNewline version_comment
asdf_comment-HasNoNewline = ground arith

standard_comment-HasNoNewline : HasNoNewline standard_comment
standard_comment-HasNoNewline = ground arith

-- If a valid stream goes on with the line "#ASDF V" and then the line "#ASDF_STANDARD W", both
-- ending in a bare newline, the first two steps produce the two version events, with V and W
-- parsed, and leave the parser in the comment state, at what follows the two lines. V and W have no
-- NUL and no line ending.
pub parse_versions :
    (p : Parser) (a b more : List ℕ) {v w : Version}
    → IsValid p.stream
    → rest p.stream
      ≡ version_comment ++ (a ++ (b'\n' ∷ (standard_comment ++ (b ++ (b'\n' ∷ more)))))
    → IsPlain a
    → IsPlain b
    → version_parse (some a) ≡ some v
    → version_parse (some b) ≡ some w
    → let q : Parser = record (at (p.stream.offset + (6 + length a + 1)) p) {
      asdf_version = some v;
      state = State.standard_version;
    } in
      let r : Parser = record (at (q.stream.offset + (15 + length b + 1)) q) {
        standard_version = some w;
        state = State.comment;
      } in
      (parse_asdf_version p ≡ some (parse_event (asdf_version_event (some v)), q))
      × (parse_standard_version q ≡ some (parse_event (standard_version_event (some w)), r))
      × (rest r.stream ≡ more)
unfolding parse_asdf_version parse_standard_version
parse_versions p a b more {v} {w} valid e ha hb ea eb =
    let tail : List ℕ = standard_comment ++ (b ++ (b'\n' ∷ more)) in
    let (here, valid') = after_line p version_comment a tail valid e in
    let q : Parser = record (at (p.stream.offset + (6 + length a + 1)) p) {
      asdf_version = some v;
      state = State.standard_version;
    } in
    let first : parse_version_comment version_comment p ≡ _ =
      version_comment_line p version_comment a tail v valid e asdf_comment-HasNoNewline ha ea in
    let second : parse_version_comment standard_comment q ≡ _ =
      version_comment_line q standard_comment b more w valid' here standard_comment-HasNoNewline hb
        eb in
    (
      rw (first, ◌>>=◌) refl,
      rw (second, ◌>>=◌) refl,
      (after_line q standard_comment b more valid' here).0,
    )
