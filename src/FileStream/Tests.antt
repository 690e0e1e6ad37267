-- ===== src/FileStream/Tests.antt =====
-- Streams over short files, through windows of a few bytes.
use libasdf.Prelude.{◌↔◌}
use libasdf.Prelude.{ℕ, ◌+◌, ◌≡◌, refl}
use libasdf.Prelude.{◌≢◌, inr, Bool, true, Option, none, some, arith}
use libasdf.Prelude.{List, [], ◌∷◌, ◌++◌, take}
use libasdf.Prelude.Bytes.{codes, starts_with}
use libasdf.Prelude.Int.{pos, negsuc}
use libasdf.Stream.{seek_end, scan_from, match_token}
use libasdf.Stream.Valid.{HasNoNewline}
use libasdf.FileStream.{
  FileStream, ahead, remain, from_fp, fill, file_next, file_consume, file_readline, file_scan,
  file_seek, file_tell, ahead, remain,
}
use libasdf.FileStream.Valid.{IsValid, SameView, pending}
use libasdf.FileStream.Next.{file_next_lem}
use libasdf.FileStream.Consume.{Consumed, file_consume_lem}
use libasdf.FileStream.Readline.Long.{file_readline_long, file_readline_used}
use libasdf.FileStream.Scan.Pieces.{SameLength}
use libasdf.FileStream.Scan.Rounds.{Leaves}
use libasdf.FileStream.Scan.Whole.{file_scan-scan_from, file_scan_displaced}
use libasdf.FileStream.Seek.{Sought, file_seek_lem}
use libasdf.Reader.{Answers}

-- A new stream over a file, with a buffer of four bytes.
abbrev fresh : List ℕ → FileStream
fresh bs = record {
  content = bs;
  cursor = 0;
  buf = codes "????";
  buf_avail = 0;
  buf_pos = 0;
  file_pos = 0;
  is_writeable = true;
  capture = none;
  error = none;
}

as_opened : from_fp none (codes "????") true (codes "abc") ≡ fresh (codes "abc")
unfolding from_fp
as_opened = refl

-- The stream once its window has the first four bytes, of which `n` are consumed.
abbrev read_ahead : List ℕ → ℕ → FileStream
read_ahead bs n = record (fresh bs) {
  cursor = 4;
  buf = take 4 bs;
  buf_avail = 4;
  buf_pos = n;
  file_pos = n;
}

abbrev text : List ℕ
text = codes "abcdefg"

fresh-IsValid : IsValid (fresh text)
fresh-IsValid = record {
  aligned = refl;
  ordered = omega arith;
  inside = omega arith;
  buffered = omega arith;
  placed = refl;
  behind = omega arith;
  in_range = omega arith;
  small = omega arith;
  plain = refl;
}

second-IsValid : IsValid (read_ahead text 2)
second-IsValid = record {
  aligned = refl;
  ordered = omega arith;
  inside = omega arith;
  buffered = omega arith;
  placed = refl;
  behind = omega arith;
  in_range = omega arith;
  small = omega arith;
  plain = refl;
}

used-IsValid : IsValid (read_ahead text 4)
used-IsValid = record {
  aligned = refl;
  ordered = omega arith;
  inside = omega arith;
  buffered = omega arith;
  placed = refl;
  behind = omega arith;
  in_range = omega arith;
  small = omega arith;
  plain = refl;
}

-- Three bytes are asked for where the window has two: it is filled up.
refilled :
    file_next [] 3 (read_ahead text 2)
    ≡ some (
      (some (codes "cdef"), 4),
      record (read_ahead text 2) { buf = codes "cdef"; buf_pos = 0; cursor = 6 },
    )
unfolding file_next fill
refilled = refl

file_next_lem_example :
    (r : Option (List ℕ) × ℕ) × (t : FileStream) × (file_next [] 3 (read_ahead text 2)
      ≡ some (r, t))
    × IsValid t
    × SameView (read_ahead text 2) t
    × (remain t ≡ r.1)
    × Answers 3 (codes "cdefg") r
file_next_lem_example = file_next_lem [] 3 second-IsValid refl (omega arith)

file_consume_lem_example :
    (t : FileStream) × (file_consume 1 (read_ahead text 2) ≡ some (tt, t))
    × IsValid t
    × Consumed (read_ahead text 2) 1 t
file_consume_lem_example = file_consume_lem 1 second-IsValid (omega arith)

is_used_up : ahead (read_ahead text 4) ≢ []
is_used_up = ground arith

file_readline_used_example : file_readline (read_ahead text 4) ≡ none
file_readline_used_example = file_readline_used used-IsValid refl is_used_up

abbrev long_line : List ℕ
long_line = codes "abcdef" ++ (b'\n' ∷ codes "gh")

long-IsValid : IsValid (fresh long_line)
long-IsValid = record {
  aligned = refl;
  ordered = omega arith;
  inside = omega arith;
  buffered = omega arith;
  placed = refl;
  behind = omega arith;
  in_range = omega arith;
  small = omega arith;
  plain = refl;
}

no_newline : HasNoNewline (codes "abcdef")
no_newline = ground arith

file_readline_long_example :
    (p : List ℕ) × (t : FileStream) × (file_readline (fresh long_line) ≡ some (some (p, 4), t))
    × (take 4 p ≡ codes "abcd")
    × (remain t ≡ 0)
    × (pending t ≡ codes "ef" ++ (b'\n' ∷ codes "gh"))
    × (ahead t ≡ codes "gh")
file_readline_long_example =
    file_readline_long (codes "abcdef") (codes "gh") long-IsValid (inr refl) refl no_newline
      (omega arith) (omega arith)

abbrev tokens : List (List ℕ)
tokens = codes "efg" ∷ codes "xyz" ∷ []

same_length : SameLength 3 tokens
same_length = ground arith

some_tokens : tokens ≢ []
some_tokens = ground arith

-- The token crosses the end of the first window.
crossing : scan_from tokens 0 text ≡ some (4, 0)
unfolding scan_from match_token starts_with
crossing = refl

file_scan-scan_from_example :
    (t : FileStream) × (file_scan tokens (fresh text) ≡ some (scan_from tokens 0 text, t))
    × (t.content ≡ text)
    × (t.error ≡ none)
    × Leaves 3 tokens (fresh text) (scan_from tokens 0 text) t
file_scan-scan_from_example =
    file_scan-scan_from 3 tokens (fresh text) same_length some_tokens (omega arith) fresh-IsValid
      refl (omega arith)

-- A file of six bytes, all in the window, of which three are consumed; the next three have no token.
abbrev at_end : FileStream
at_end = record (fresh (codes "abcdef")) {
  cursor = 6;
  buf = codes "abcdef";
  buf_avail = 6;
  buf_pos = 3;
  file_pos = 3;
}

at_end-IsValid : IsValid at_end
at_end-IsValid = record {
  aligned = refl;
  ordered = omega arith;
  inside = omega arith;
  buffered = omega arith;
  placed = refl;
  behind = omega arith;
  in_range = omega arith;
  small = omega arith;
  plain = refl;
}

no_token : scan_from tokens 0 (codes "def") ≡ none
unfolding scan_from match_token starts_with
no_token = refl

file_scan_displaced_example :
    (t : FileStream) × (file_scan tokens at_end ≡ some (none, t))
    × (remain t ≡ 0)
    × (ahead t ≡ [])
    × (t.file_pos + 2 ≡ 6 + 3)
    × ((t.file_pos ≡ 6) ↔ (at_end.buf_pos ≡ 2))
file_scan_displaced_example =
    file_scan_displaced 3 tokens same_length some_tokens (omega arith) at_end-IsValid refl
      (omega arith) (omega arith) no_token

file_seek_lem_example :
    (ok : Bool) × (t : FileStream) × (file_seek (negsuc 1) seek_end (read_ahead text 2)
      ≡ some (ok, t))
    × IsValid t
    × Sought (read_ahead text 2) (negsuc 1) seek_end ok t
    × (file_tell t ≡ some (pos t.file_pos, t))
file_seek_lem_example = file_seek_lem (negsuc 1) seek_end second-IsValid (omega arith, omega arith)
