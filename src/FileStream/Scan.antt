-- ===== src/FileStream/Scan.antt =====
-- One slide of the window of `file_scan`.
pub mod Pieces
pub mod Rounds
pub mod Whole
use libasdf.Prelude.{
  ℕ, zero, suc, ◌+◌, ◌-◌, ◌*◌, ◌/◌, ◌%◌, ◌^◌, ◌≤◌, ◌<◌, min, max, ◌≡◌, refl, sym, ap, ap₂, ◌∙◌,
}
use libasdf.Prelude.{
  ◌≢◌, ◌↔◌, ◌⊎◌, inl, inr, Bool, true, false, not, ◌&&◌, ◌||◌, Option, none, some, arith,
}
use libasdf.Prelude.{
  List, [], ◌∷◌, ◌++◌, map, length, get_elem?, get_or, set, take, drop, replicate, All,
}
use libasdf.Prelude.{ltb, leb, ◌==◌, if◌then◌else◌, Bool-cases, Option-cases, tests}
use libasdf.Prelude.{
  length-append, length-take, length-drop, length-replicate, take-append, drop-append, drop-drop,
  drop-nil, drop_all, take-append-drop,
}
use libasdf.Prelude.{M, pure, fault, ◌>>=◌, ◌>>◌, get, gets, modify, read, assert, >>=-eq-some}
use libasdf.Prelude.{take_all, take_exact, lt→ltb, le→ltb, ltb→lt, le→leb, lt→leb}
use libasdf.Prelude.Bytes.{add_size}
use libasdf.Stream.Tokens.{scan_tokens_sound}
use libasdf.Stream.{scan_from, scan_tokens, overwrite}
use libasdf.FileStream.{
  FileStream, off_max, ahead, remain, window, fread, shift, slide, scan_window, after_slide,
  scan_rounds, file_scan, max_token_len, file_capture, file_consume,
}
use libasdf.FileStream.Valid.{
  IsValid, unread, pending, restarted, overwrite_front, take-append-append, take-drop-length,
  read_behind, drop-take, drop-le-append, length-unread, length-fread,
}
use mathlib.Core.Option
use libasdf.FileStream.Next.{length-pending}
use libasdf.FileStream.Consume.{Consumed, file_consume_lem}
use Pieces.{SameLength, scan_from_short, scan_from-append_found, scan_from-append_none}
use Pieces.{scan_from_shift}

-- A round of the scan drops all of the window but its last `j` bytes, and reads on.
pub record Slid (s : FileStream) (j : ℕ) (t : FileStream) : Type 0 where
  pub valid : IsValid t
  pub start : t.buf_pos ≡ 0
  pub content : t.content ≡ s.content
  pub moved : t.file_pos ≡ s.file_pos + (remain s - j)
  pub size : t.buf_avail ≡ j + min (length s.buf - j) (length (ahead s))
  pub left : length (ahead t) ≡ length (ahead s) - min (length s.buf - j) (length (ahead s))
  pub buffer : length t.buf ≡ length s.buf
  pub error : t.error ≡ s.error

pub slide_lem :
    {s : FileStream} (j : ℕ) → IsValid s → s.buf_pos ≡ 0 → j ≤ remain s → Slid s j (slide j s)
unfolding slide
slide_lem {s} j v p l =
    let bs : List ℕ = fread (length s.buf - j) s in
    let got : length bs ≡ min (length s.buf - j) (length (ahead s)) =
      length-take (length s.buf - j) (ahead s) in
    let kept : List ℕ = take j (drop (s.buf_avail - j) s.buf) in
    let long : length kept ≡ j = omega (
      arith,
      v.inside,
      length-take j (drop (s.buf_avail - j) s.buf),
      length-drop (s.buf_avail - j) s.buf,
    ) in
    let front : take j (shift j s) ≡ kept =
      ap (λ k. take k (shift j s)) (sym long) ∙ overwrite_front kept s.buf in
    let same_size : length (shift j s) ≡ length s.buf = omega (
      arith,
      long,
      v.inside,
      length-append kept (drop (0 + length kept) s.buf),
      length-drop (0 + length kept) s.buf,
    ) in
    let all : s.buf_avail ≡ remain s = omega arith in
    let k : s.buf_avail - (s.buf_avail - j) ≡ j = omega arith in
    let is_end : kept ≡ drop (s.buf_avail - j) (take s.buf_avail s.buf) =
      ap (λ n. take n (drop (s.buf_avail - j) s.buf)) (sym k)
      ∙ sym (drop-take (s.buf_avail - j) s.buf_avail s.buf) in
    let whole : take s.buf_avail s.buf ≡ unread s =
      ap₂ (λ n q. take n (drop q s.buf)) all (sym p) in
    let at : add_size s.file_pos (s.buf_avail - j) ≡ s.file_pos + (s.buf_avail - j) =
      omega (arith, v.placed, v.in_range) in
    let rest : kept ++ ahead s ≡ drop (add_size s.file_pos (s.buf_avail - j)) s.content =
      ap (λ w. w ++ ahead s) (is_end ∙ ap (drop (s.buf_avail - j)) whole)
      ∙ sym (drop-le-append (s.buf_avail - j) (unread s) (ahead s) (omega (arith, length-unread v)))
      ∙ ap (drop (s.buf_avail - j)) v.aligned
      ∙ drop-drop (s.buf_avail - j) s.file_pos s.content
      ∙ ap (λ n. drop n s.content) (sym at) in
    let short : length (take j (shift j s)) ≡ j = ap length front ∙ long in
    record {
      valid =
          restarted (slide j s) p
            (ap (λ w. w ++ drop (s.cursor + length bs) s.content)
                (take-append-append (j + length bs) (take j (shift j s)) bs
                  (drop (j + length bs) (shift j s)) (omega (arith, short)))
              ∙ read_behind (take j (shift j s)) (length s.buf - j) s
              ∙ ap (λ w. w ++ ahead s) front
              ∙ rest)
            (omega (
              arith,
              short,
              got,
              same_size,
              v.inside,
              v.buffered,
              length-append (take j (shift j s)) (bs ++ drop (j + length bs) (shift j s)),
              length-append bs (drop (j + length bs) (shift j s)),
              length-drop (j + length bs) (shift j s),
            ))
            (omega (arith, at, v.placed))
            (omega (arith, got, v.in_range, v.small, length-drop s.cursor s.content)) v.small
            v.plain;
      start = p;
      content = refl;
      moved = omega (arith, at);
      size = omega (arith, got);
      left = omega (
        arith,
        got,
        length-drop s.cursor s.content,
        length-drop (s.cursor + length bs) s.content,
      );
      buffer = omega (
        arith,
        short,
        got,
        same_size,
        v.inside,
        length-append (take j (shift j s)) (bs ++ drop (j + length bs) (shift j s)),
        length-append bs (drop (j + length bs) (shift j s)),
        length-drop (j + length bs) (shift j s),
      );
      error = refl;
    }

pub file_capture-plain :
    (bs : List ℕ) (n : ℕ) (s : FileStream) → s.capture ≡ none → file_capture bs n s ≡ some (tt, s)
unfolding file_capture
file_capture-plain bs n s h = ground (arith, h)
