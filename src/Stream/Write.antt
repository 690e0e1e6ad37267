-- ===== src/Stream/Write.antt =====
-- `mem_write`: a stream over `malloc`ed memory takes all that is written to it, one over memory of
-- a fixed size as much as fits.
use libasdf.Prelude.{ℕ, ◌+◌, ◌-◌, ◌^◌, ◌≤◌, ◌<◌, min, ◌≡◌, refl, sym, ap, ◌∙◌}
use libasdf.Prelude.{true, false, some, arith}
use libasdf.Prelude.{List, [], ◌++◌, length, take, drop}
use libasdf.Prelude.{ltb, if◌then◌else◌}
use libasdf.Prelude.{length-append, length-take, length-drop, drop_all}
use libasdf.Prelude.{take_all, take_exact, drop_exact}
use libasdf.Error.{unexpected_eof}
use libasdf.Stream.{Stream, size, mem_write, resize_for, overwrite}
use mathlib.Core.List.{append-nil}
use libasdf.Stream.Valid.{IsValid}

pub length-overwrite :
    (n : ℕ) (bs buf : List ℕ)
    → n + length bs ≤ length buf
    → length (overwrite n bs buf) ≡ length buf
length-overwrite n bs buf h = omega (
  arith,
  length-append (take n buf) (bs ++ drop (n + length bs) buf),
  length-append bs (drop (n + length bs) buf),
  length-take n buf,
  length-drop (n + length bs) buf,
)

-- What is written at the end of a stream over `malloc`ed memory is appended to it: every byte is
-- taken, and the stream is at its new end.
pub mem_write-append :
    (s : Stream) (fresh bs : List ℕ)
    → s.is_resizeable ≡ true
    → s.offset ≡ size s
    → size s + length bs < 2 ^ 63
    → length fresh ≡ length bs
    → mem_write fresh bs s
      ≡ some (length bs, record s { buf = s.buf ++ bs; offset = size s + length bs })
unfolding mem_write
mem_write-append s fresh bs r e l f =
    let grown : resize_for fresh (length bs) s ≡ record s { buf = s.buf ++ fresh } = ground arith in
    let total : length (s.buf ++ fresh) ≡ size s + length bs =
      omega (arith, length-append s.buf fresh) in
    let all : min (length (s.buf ++ fresh) - s.offset) (length bs) ≡ length bs = omega arith in
    let left : take s.offset (s.buf ++ fresh) ≡ s.buf = take_exact s.offset s.buf fresh (sym e) in
    let right : drop (s.offset + length bs) (s.buf ++ fresh) ≡ [] =
      drop_all (s.offset + length bs) (s.buf ++ fresh) (omega arith) in
    rw grown (
      ground (arith, all, left, right, total, take_all (length bs) bs (omega arith), append-nil bs))

-- A stream over memory of a fixed size takes what fits, writes it at its position, keeps its size and
-- all other bytes, and sets the error exactly if something did not fit.
pub mem_write-fixed :
    (s : Stream) (fresh bs : List ℕ)
    → IsValid s
    → s.is_resizeable ≡ false
    → let k = min (size s - s.offset) (length bs) in
      (t : Stream) × (mem_write fresh bs s ≡ some (k, t))
      × IsValid t
      × (size t ≡ size s)
      × (t.offset ≡ s.offset + k)
      × (take s.offset t.buf ≡ take s.offset s.buf)
      × (drop s.offset t.buf ≡ take k bs ++ drop (s.offset + k) s.buf)
      × (t.error ≡ (if ltb k (length bs) then some unexpected_eof else s.error))
unfolding mem_write
mem_write-fixed s fresh bs v r =
    let k : ℕ = min (size s - s.offset) (length bs) in
    let same : resize_for fresh (length bs) s ≡ s = ground arith in
    let copied : length (take k bs) ≡ k = omega (arith, length-take k bs) in
    let front : length (take s.offset s.buf) ≡ s.offset =
      omega (arith, v.within, length-take s.offset s.buf) in
    let whole : length (overwrite s.offset (take k bs) s.buf) ≡ size s =
      length-overwrite s.offset (take k bs) s.buf (omega (arith, v.within)) in
    let t : Stream = record s {
      buf = overwrite s.offset (take k bs) s.buf;
      offset = s.offset + k;
      error = if ltb k (length bs) then some unexpected_eof else s.error;
    } in
    (
      t,
      rw same (ground (arith, v.within)),
      record { within = omega (arith, v.within); small = omega (arith, v.small); plain = v.plain },
      whole,
      refl,
      take_exact s.offset (take s.offset s.buf) _ front,
      drop_exact s.offset (take s.offset s.buf) _ front
          ∙ ap (λ j. take k bs ++ drop (s.offset + j) s.buf) copied,
      refl,
    )
