-- ===== src/Reader/File.antt =====
-- The file-backed stream of src/stream.c as an implementation of streams, and its agreement with
-- the memory-backed one.
use libasdf.Prelude.{ℕ, ◌+◌, ◌-◌, ◌^◌, ◌<◌, min, ◌≡◌, refl, ap, ap₂, ◌∙◌}
use libasdf.Prelude.{Bool, true, false, none, some, arith}
use libasdf.Prelude.{List, length, drop}
use libasdf.Prelude.{length-drop}
use libasdf.Prelude.Int.{pos}
use libasdf.Reader.{Reader, stream_seek}
use libasdf.Reader.Skip.{stream_seek_forward}
use libasdf.Reader.Memory.{memory}
use libasdf.Stream.{Stream, Whence, seek_cur, mem_seek}
use libasdf.Stream
use libasdf.Stream.Valid
use libasdf.FileStream.{FileStream, file_next, file_consume, file_seek, remain}
use libasdf.FileStream.Valid.{IsValid}
use libasdf.FileStream.Next.{file_next_lem}
use libasdf.FileStream.Consume.{file_consume_lem}

-- `alloc` gives the memory that `realloc` adds; `is_seekable` is what the file system answers.
module _ (alloc : ℕ → List ℕ) (alloc_size : (n : ℕ) → length (alloc n) ≡ n)
    (is_seekable : Bool) where
  unfoldable pub file : Reader FileStream
  file = record {
    IsReady = IsValid;
    bytes = λ s. s.content;
    place = λ s. s.file_pos;
    offered = λ s. remain s;
    error = λ s. s.error;
    is_seekable = λ s. is_seekable;
    set_error = λ e s. record s { error = some e };
    seek = file_seek;
    next = λ n s. file_next (alloc (n - length s.buf)) n s;
    consume = file_consume;
    next_law = λ n s v h.
        let (r, t, call, valid, view, off, ans) =
          file_next_lem (alloc (n - length s.buf)) n v (alloc_size (n - length s.buf)) h in
        (r, t, call, valid, view.content, view.file_pos, view.error, off, ans);
    consume_law = λ n s v h.
        let (t, call, valid, c) = file_consume_lem n v h in
        (t, call, valid, c.content, c.moved, c.error);
  }

seek_cur-forward :
    (s : Stream) (n : ℕ)
    → Stream.Valid.IsValid s
    → n < 2 ^ 63
    → mem_seek (pos n) seek_cur s
      ≡ some (true, record s { offset = s.offset + min n (length (drop s.offset s.buf)) })
unfolding mem_seek
seek_cur-forward s n v h =
    ap (λ k. some (true, record s { offset = k }))
      (ground (arith, v.within, v.small, length-drop s.offset s.buf))

-- A file stream that is not seekable and a memory stream, both valid without an error and at the
-- same place of the same bytes: a seek forward from the current position returns 0 on both, by
-- reading on the one and by moving the position on the other, and leaves both at the same place.
pub stream_seek-agree :
    (alloc : ℕ → List ℕ) (alloc_size : (n : ℕ) → length (alloc n) ≡ n) (n : ℕ) {s : FileStream}
    {t : Stream}
    → IsValid s
    → Stream.Valid.IsValid t
    → s.error ≡ none
    → s.content ≡ t.buf
    → s.file_pos ≡ t.offset
    → n < 2 ^ 63
    → (s' : FileStream) × (t' : Stream) × (stream_seek
          (file alloc alloc_size false)
          (pos n)
          seek_cur
          s
        ≡ some (true, s'))
      × (stream_seek memory (pos n) seek_cur t ≡ some (true, t'))
      × IsValid s'
      × (s'.content ≡ t'.buf)
      × (s'.file_pos ≡ t'.offset)
unfolding memory stream_seek file
stream_seek-agree alloc alloc_size n {s} {t} v w e same at h =
    let (s', runs, p) = stream_seek_forward (file alloc alloc_size false) n seek_cur s refl v e in
    let left : length (drop s.file_pos s.content) ≡ length (drop t.offset t.buf) =
      ap₂ (λ k bs. length (drop k bs)) at same in
    (
      s',
      record t { offset = t.offset + min n (length (drop t.offset t.buf)) },
      runs,
      seek_cur-forward t n w h,
      p.ready,
      p.same ∙ same,
      omega (arith, p.moved, left, at),
    )
