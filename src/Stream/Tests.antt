-- ===== src/Stream/Tests.antt =====
-- Streams over short texts.
use libasdf.Prelude.{Option, ℕ, min, ◌≡◌, refl}
use libasdf.Prelude.{◌≢◌, true, false, none, some, arith}
use libasdf.Prelude.{List, [], ◌∷◌, ◌++◌}
use libasdf.Prelude.Bytes.{codes, starts_with}
use libasdf.Prelude.Int.{pos, negsuc}
use libasdf.Stream.{
  Stream, Capture, scan_tokens, mem_consume, mem_readline, mem_scan, mem_seek, mem_write,
}
use libasdf.Stream.{Whence, mem_open_mem, seek_end, match_token}
use libasdf.Stream.Captured.{Consumed, captured, mem_consume-captured}
use libasdf.Stream.Valid.{IsValid, HasNoNewline, ScanResult, target, mem_readline_unterminated}
use libasdf.Stream.Valid.{mem_scan_lem, mem_seek_lem}
use libasdf.Stream.Write.{mem_write-append}

abbrev tokens : List (List ℕ)
tokens = codes "yz" ∷ codes "z" ∷ []

abbrev text : List ℕ
text = codes "xyz"

abbrev stream : List ℕ → ℕ → Stream
stream bs n = record { buf = bs; offset = n; is_resizeable = false; capture = none; error = none }

found : scan_tokens text tokens ≡ some (1, 0)
unfolding scan_tokens match_token starts_with
found = refl

abbrev capture : Capture
capture = record { bytes = codes "ab"; cap = 2 }

abbrev capturing : Stream
capturing = record (stream text 1) { capture = some capture }

mem_consume-captured_example :
    (t : Stream) × (mem_consume 2 capturing ≡ some (tt, t))
    × (captured t ≡ codes "ab" ++ codes "yz")
    × Consumed capturing 2 t
mem_consume-captured_example =
    mem_consume-captured capturing capture 2 refl (omega arith, omega arith) (omega arith)
      (omega arith)

valid : IsValid (stream text 1)
valid = record { within = omega arith; small = omega arith; plain = refl }

abbrev two_lines : List ℕ
two_lines = codes "ab" ++ (b'\n' ∷ codes "cd")

lines-IsValid : IsValid (stream two_lines 0)
lines-IsValid = record { within = omega arith; small = omega arith; plain = refl }

no_newline : HasNoNewline (codes "ab")
no_newline = ground arith

no_newline_left : HasNoNewline (codes "yz")
no_newline_left = ground arith

some_tokens : tokens ≢ []
some_tokens = ground arith

mem_readline_unterminated_example :
    (t : Stream) × (mem_readline (stream text 1) ≡ some (some (codes "yz", 3), t))
    × (mem_readline t ≡ none)
    × (mem_scan tokens t ≡ none)
mem_readline_unterminated_example =
    mem_readline_unterminated tokens valid (omega arith) no_newline_left some_tokens

from_start : IsValid (stream text 0)
from_start = record { within = omega arith; small = omega arith; plain = refl }

mem_scan_lem_example :
    (r : Option (ℕ × ℕ)) × (t : Stream) × (mem_scan tokens (stream text 0) ≡ some (r, t))
    × IsValid t
    × (t.buf ≡ text)
    × (t.error ≡ none)
    × ScanResult tokens (stream text 0) t r
mem_scan_lem_example = mem_scan_lem tokens from_start

known : seek_end ≢ Whence.other
known = ground arith

mem_seek_lem_example :
    (t : Stream) × (mem_seek (negsuc 0) seek_end (stream text 1) ≡ some (true, t))
    × IsValid t
    × (t.buf ≡ text)
    × (t.offset ≡ min (target (stream text 1) (negsuc 0) seek_end) 3)
mem_seek_lem_example = mem_seek_lem (negsuc 0) seek_end valid known

region : mem_open_mem (pos 1) 9 (stream text 0) ≡ some (some (1, 2), stream text 0)
unfolding mem_open_mem
region = refl

abbrev growing : Stream
growing = record (stream text 3) { is_resizeable = true }

mem_write-append_example :
    mem_write (codes "..") (codes "ab") growing
    ≡ some (2, record growing { buf = codes "xyzab"; offset = 5 })
mem_write-append_example =
    mem_write-append growing (codes "..") (codes "ab") refl refl (omega arith) refl
