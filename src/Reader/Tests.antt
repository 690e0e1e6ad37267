-- ===== src/Reader/Tests.antt =====
-- A seek over a file that cannot seek, and over the same bytes in memory.
use libasdf.Prelude.{ℕ, ◌≡◌, refl}
use libasdf.Prelude.{true, false, none, some, arith}
use libasdf.Prelude.{List, length, replicate}
use libasdf.Prelude.{length-replicate}
use libasdf.Prelude.{length-replicate}
use libasdf.Prelude.Bytes.{codes}
use libasdf.Prelude.Int.{pos}
use libasdf.Stream.{Stream, Whence, seek_cur, from_memory}
use libasdf.Stream
use libasdf.Stream.Valid
use libasdf.FileStream.{FileStream}
use libasdf.FileStream.Valid.{IsValid}
use libasdf.Reader.{stream_seek}
use libasdf.Reader.Memory.{memory}
use libasdf.Reader.File.{file, stream_seek-agree}

abbrev text : List ℕ
text = codes "abcdefg"

abbrev alloc : ℕ → List ℕ
alloc n = replicate n 0

alloc_size : (n : ℕ) → length (alloc n) ≡ n
alloc_size n = length-replicate n 0

-- The window has two of its four bytes left.
abbrev from_file : FileStream
from_file = record {
  content = text;
  cursor = 4;
  buf = codes "abcd";
  buf_avail = 4;
  buf_pos = 2;
  file_pos = 2;
  is_writeable = false;
  capture = none;
  error = none;
}

from_file-IsValid : IsValid from_file
from_file-IsValid = record {
  aligned = refl;
  ordered = omega arith;
  inside = omega arith;
  buffered = omega arith;
  placed = refl;
  behind = omega arith;
  in_range = omega arith;
  small = omega arith;
  plain = refl;
}

abbrev in_memory : Stream
in_memory = record { buf = text; offset = 2; is_resizeable = false; capture = none; error = none }

in_memory-IsValid : Stream.Valid.IsValid in_memory
in_memory-IsValid = record { within = omega arith; small = omega arith; plain = refl }

stream_seek-agree_example :
    (s : FileStream) × (t : Stream) × (stream_seek
        (file alloc alloc_size false)
        (pos 4)
        seek_cur
        from_file
      ≡ some (true, s))
    × (stream_seek memory (pos 4) seek_cur in_memory ≡ some (true, t))
    × IsValid s
    × (s.content ≡ t.buf)
    × (s.file_pos ≡ t.offset)
stream_seek-agree_example =
    stream_seek-agree alloc alloc_size 4 from_file-IsValid in_memory-IsValid refl refl refl
      (omega arith)
