-- ===== src/FileStream/Consume.antt =====
-- Consuming, seeking and telling on a file-backed stream.
use libasdf.Prelude.{ℕ, ◌+◌, ◌-◌, ◌≤◌, min, ◌≡◌, refl, sym, ap, ap₂, ◌∙◌}
use libasdf.Prelude.{none, some, arith}
use libasdf.Prelude.{◌++◌, take, drop}
use libasdf.Prelude.{drop-drop}
use libasdf.Prelude.Bytes.{add_size}
use libasdf.FileStream.{FileStream, ahead, remain, window, file_consume}
use libasdf.FileStream.Valid.{IsValid, unread, drop-take, drop-le-append, length-unread}

-- The state after `n` bytes of `s` are consumed.
pub record Consumed (s : FileStream) (n : ℕ) (t : FileStream) : Type 0 where
  pub content : t.content ≡ s.content
  pub moved : t.file_pos ≡ s.file_pos + n
  pub cursor : t.cursor ≡ s.cursor
  pub left : remain t ≡ remain s - n
  pub unread : unread t ≡ drop n (unread s)
  pub error : t.error ≡ s.error

file_consume-plain :
    (s : FileStream) (n : ℕ)
    → s.capture ≡ none
    → file_consume n s
      ≡ some (
        tt,
        record s {
          buf_pos = min (add_size s.buf_pos n) s.buf_avail;
          file_pos = add_size s.file_pos n;
        },
      )
unfolding file_consume
file_consume-plain s n h = ground (arith, h)

-- Consuming bytes that the window has keeps a stream valid: the position moves on by their number,
-- and the window loses exactly these bytes.
pub file_consume_lem :
    {s : FileStream} (n : ℕ)
    → IsValid s
    → n ≤ remain s
    → (t : FileStream) × (file_consume n s ≡ some (tt, t)) × IsValid t × Consumed s n t
file_consume_lem {s} n v h =
    let pos : min (add_size s.buf_pos n) s.buf_avail ≡ s.buf_pos + n =
      omega (arith, v.ordered, v.behind, v.in_range) in
    let at : add_size s.file_pos n ≡ s.file_pos + n = omega (arith, v.placed, v.in_range) in
    let t : FileStream = record s { buf_pos = s.buf_pos + n; file_pos = s.file_pos + n } in
    let less : s.buf_avail - (s.buf_pos + n) ≡ remain s - n = omega arith in
    let shorter : unread t ≡ drop n (unread s) =
      ap₂ take less (sym (drop-drop n s.buf_pos s.buf)) ∙ sym (drop-take n (remain s) (window s)) in
    (
      t,
      file_consume-plain s n v.plain
          ∙ ap₂ (λ p q. some (tt, record s { buf_pos = p; file_pos = q })) pos at,
      record {
        aligned =
            ap (λ w. w ++ ahead s) shorter
            ∙ sym (drop-le-append n (unread s) (ahead s) (omega (arith, length-unread v)))
            ∙ ap (drop n) v.aligned
            ∙ drop-drop n s.file_pos s.content;
        ordered = omega (arith, v.ordered);
        inside = v.inside;
        buffered = v.buffered;
        placed = omega (arith, v.placed);
        behind = v.behind;
        in_range = v.in_range;
        small = v.small;
        plain = v.plain;
      },
      record {
        content = refl;
        moved = refl;
        cursor = refl;
        left = less;
        unread = shorter;
        error = refl;
      },
    )
