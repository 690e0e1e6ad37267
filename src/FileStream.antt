-- ===== src/FileStream.antt =====
-- src/stream.c and src/stream_intern.h: the file-backed stream, which reads a file through a window.
-- The file is the list of its bytes with the position of the `FILE`; stdio's calls have their
-- documented behaviour on a regular file, and reads do not fail. `buf_size` is the length of `buf`.
-- `buf_pos` never exceeds `buf_avail`, so their difference is taken as it is.
pub mod Valid
pub mod Next
pub mod Consume
pub mod Readline
pub mod Scan
pub mod Seek
mod Tests
use libasdf.Prelude.{
  ℕ, zero, suc, ◌+◌, ◌-◌, ◌*◌, ◌/◌, ◌%◌, ◌^◌, ◌≤◌, ◌<◌, min, max, ◌≡◌, refl, sym, ap, ap₂, ◌∙◌,
}
use libasdf.Prelude.{
  ◌≢◌, ◌↔◌, ◌⊎◌, inl, inr, Bool, true, false, not, ◌&&◌, ◌||◌, Option, none, some, arith,
}
use libasdf.Prelude.{
  List, [], ◌∷◌, ◌++◌, map, length, get_elem?, get_or, set, take, drop, replicate, All,
}
use libasdf.Prelude.{ltb, leb, ◌==◌, if◌then◌else◌, Bool-cases, Option-cases, tests}
use libasdf.Prelude.{
  length-append, length-take, length-drop, length-replicate, take-append, drop-append, drop-drop,
  drop-nil, drop_all, take-append-drop,
}
use libasdf.Prelude.{M, pure, fault, ◌>>=◌, ◌>>◌, get, gets, modify, read, assert, >>=-eq-some}
use libasdf.Prelude.Bytes.{size_mod, add_size}
use libasdf.Prelude.Int.{ℤ, pos, negsuc, to_size, pos_part, neg_part}
use libasdf.Error.{ErrorCode, system}
use libasdf.Stream.{Stream, Capture, stream_capture, find_newline, scan_tokens, overwrite, Whence}
use libasdf.Stream.{seek_set, seek_cur, seek_end, other}

-- `file_userdata_t`, with the file and what the functions use of `asdf_stream_t`.
pub record FileStream : Type 0 where
  pub content : List ℕ
  pub cursor : ℕ
  pub buf : List ℕ
  pub buf_avail : ℕ
  pub buf_pos : ℕ
  pub file_pos : ℕ
  pub is_writeable : Bool
  pub capture : Option Capture
  pub error : Option ErrorCode

-- `ASDF_OFF_MAX`
abbrev pub off_max : ℕ
off_max = 2 ^ 63 - 1

-- The bytes that the file has left for the `FILE`.
abbrev pub ahead : FileStream → List ℕ
ahead s = drop s.cursor s.content

abbrev pub remain : FileStream → ℕ
remain s = s.buf_avail - s.buf_pos

-- `data->buf + data->buf_pos`
abbrev pub window : FileStream → List ℕ
window s = drop s.buf_pos s.buf

-- `stream_capture`, of the first `n` of the bytes `bs`.
unfoldable pub file_capture : List ℕ → ℕ → M FileStream (Unit {0})
unfolding stream_capture
file_capture bs n s =
    elim (stream_capture bs n (record {
      buf = [];
      offset = 0;
      is_resizeable = false;
      capture = s.capture;
      error = s.error;
    })) [ none ↦ none | some (u, t) ↦ some (tt, record s { capture = t.capture; error = t.error }) ]

-- `memmove` of the last `k` bytes of the window to the start of the buffer.
abbrev pub shift : ℕ → FileStream → List ℕ
shift k s = overwrite 0 (take k (drop (s.buf_avail - k) s.buf)) s.buf

-- What `fread` gets for `n` bytes.
abbrev pub fread : ℕ → FileStream → List ℕ
fread n s = take n (ahead s)

-- The `realloc` of `file_next`; the memory that it adds holds the bytes `fresh`.
unfoldable pub enlarge : List ℕ → ℕ → FileStream → FileStream
enlarge fresh count s = if ltb (length s.buf) count then record s { buf = s.buf ++ fresh } else s

unfoldable pub shift_down : ℕ → FileStream → FileStream
shift_down count s =
    if ltb (remain s) count
    then record s { buf = shift (remain s) s; buf_avail = remain s; buf_pos = 0 }
    else s

-- The `fread` of `file_next`, behind the `kept` bytes.
unfoldable pub read_in : ℕ → FileStream → FileStream
read_in kept s =
    let bs = fread (length s.buf - kept) s in
    record s {
      buf = overwrite kept bs s.buf;
      cursor = s.cursor + length bs;
      buf_avail = s.buf_avail + length bs;
    }

unfoldable pub fill : List ℕ → ℕ → FileStream → FileStream
unfolding enlarge shift_down read_in
fill fresh count s =
    let t = shift_down count (enlarge fresh count s) in
    if ltb (remain s) count || leb t.buf_avail t.buf_pos then read_in (remain s) t else t

-- `file_next`: NULL or the place in the buffer, and `*avail`; `realloc` succeeds.
unfoldable pub file_next : List ℕ → ℕ → M FileStream (Option (List ℕ) × ℕ)
file_next fresh count s =
    let t = fill fresh count s in
    some ((if ltb 0 (remain t) then some (window t) else none, remain t), t)

-- `file_consume`
unfoldable pub file_consume : ℕ → M FileStream (Unit {0})
unfolding file_capture
file_consume n = do
  s ← get
  file_capture (window s) n
  modify λ t. record t {
    buf_pos = min (add_size t.buf_pos n) t.buf_avail;
    file_pos = add_size t.file_pos n;
  }

-- The loop of `fgetc` up to a newline or the end of the file.
abbrev pub skip_line : FileStream → FileStream
skip_line s = record s { cursor = s.cursor + min (find_newline (ahead s) + 1) (length (ahead s)) }

-- The loops of `file_readline`. It faults where the first reads past the buffer.
unfoldable pub read_line : Option (List ℕ) → ℕ → M FileStream (Option (List ℕ × ℕ))
unfolding find_newline
read_line none avail = pure none
read_line (some bs) avail =
    let idx = find_newline (take avail bs) in
    if ltb idx (length (take avail bs))
    then (do file_consume (idx + 1); pure (some (bs, idx + 1)))
    else if ltb (length bs) avail
    then fault
    else do file_consume avail; modify skip_line; pure (some (bs, avail))

-- `file_readline`: NULL, or the bytes from the line on and `*len`.
unfoldable pub file_readline : M FileStream (Option (List ℕ × ℕ))
file_readline = do r ← file_next [] 0; read_line r.0 r.1

-- `max_token_len`
unfoldable pub max_token_len : List (List ℕ) → ℕ
max_token_len [] = 0
max_token_len (t ∷ ts) = max (length t) (max_token_len ts)

-- The `memmove` and the `fread` of `file_scan`, which keep the last `k` bytes of the window.
unfoldable pub slide : ℕ → FileStream → FileStream
slide k s =
    let bs = fread (length s.buf - k) s in
    record s {
      buf = overwrite k bs (shift k s);
      cursor = s.cursor + length bs;
      buf_avail = k + length bs;
      file_pos = add_size s.file_pos (s.buf_avail - k);
    }

-- The scan of what the window holds, if that is at least `m` bytes.
unfoldable pub scan_window : ℕ → List (List ℕ) → FileStream → Option (ℕ × ℕ)
unfolding scan_tokens
scan_window m tokens s =
    if leb m (remain s) then scan_tokens (take (remain s) (window s)) tokens else none

-- The end of a round of `file_scan`, with what the later rounds do.
unfoldable pub after_slide : ℕ → M FileStream (Option (ℕ × ℕ)) → M FileStream (Option (ℕ × ℕ))
after_slide m later s =
    if ltb s.buf_avail m
    then some (none, record s { buf_pos = s.buf_avail })
    else later (record s { buf_pos = 0 })

-- `while (true)` of `file_scan` on fuel.
unfoldable pub scan_rounds : ℕ → ℕ → List (List ℕ) → M FileStream (Option (ℕ × ℕ))
scan_rounds zero m tokens s = none
scan_rounds (suc f) m tokens s =
    let later = scan_rounds f m tokens in
    elim (scan_window m tokens s) [
      | some (off, tdx) ↦ (do file_consume off; pure (some (s.file_pos + off, tdx))) s
      | none ↦
          let k = min (remain s) (m - 1) in
          (do file_capture s.buf (s.buf_avail - k); modify (slide k); after_slide m later) s
    ]

-- `file_scan`; `none` is the result 1. A round that is not the last reads at least one byte.
unfoldable pub file_scan : List (List ℕ) → M FileStream (Option (ℕ × ℕ))
file_scan tokens s =
    if max_token_len tokens == 0
    then some (none, s)
    else scan_rounds (length (ahead s) + 1) (max_token_len tokens) tokens s

-- Where `fseeko` takes the `FILE`; `none` is its failure.
unfoldable pub fseeko : ℤ → Whence → FileStream → Option ℕ
fseeko (pos n) seek_set s = some n
fseeko (pos n) seek_cur s = if ltb off_max (s.cursor + n) then none else some (s.cursor + n)
fseeko (pos n) seek_end s =
    if ltb off_max (length s.content + n) then none else some (length s.content + n)
fseeko (negsuc n) seek_set s = none
fseeko (negsuc n) seek_cur s = if leb s.cursor n then none else some (s.cursor - (n + 1))
fseeko (negsuc n) seek_end s =
    if leb (length s.content) n then none else some (length s.content - (n + 1))
fseeko off other s = none

-- After `fseeko`: on success the window is dropped, and `file_pos` is the new place. The result of
-- `ftello` is that place too.
unfoldable pub seek_done : Option ℕ → M FileStream Bool
seek_done none s = some (false, s)
seek_done (some p) s =
    some (true, record s { cursor = p; buf_avail = 0; buf_pos = 0; file_pos = p })

-- `file_seek`; true is the result 0.
unfoldable pub file_seek : ℤ → Whence → M FileStream Bool
unfolding fseeko seek_done
file_seek off seek_cur s =
    let p = add_size s.file_pos (to_size off) in
    if ltb off_max p then some (false, s) else seek_done (fseeko (pos p) seek_set s) s
file_seek off seek_set s = seek_done (fseeko off seek_set s) s
file_seek off seek_end s = seek_done (fseeko off seek_end s) s
file_seek off other s = seek_done (fseeko off other s) s

-- `file_tell`
unfoldable pub file_tell : M FileStream ℤ
file_tell s = some (if ltb off_max s.file_pos then negsuc 0 else pos s.file_pos, s)

-- `file_fy_parser_set_input`, up to the call of libfyaml, which gets the `FILE`; true is its call.
unfoldable pub file_set_input : M FileStream Bool
unfolding fseeko
file_set_input s =
    if ltb off_max (remain s)
    then some (false, s)
    else elim (fseeko (if remain s == 0 then pos 0 else negsuc (remain s - 1)) seek_cur s) [
      | none ↦ some (true, s)
      | some p ↦ some (true, record s { cursor = p })
    ]

-- `asdf_stream_from_fp`, on a `FILE` at its start; `malloc` gives the buffer the bytes `fresh`.
unfoldable pub from_fp : Option ErrorCode → List ℕ → Bool → List ℕ → FileStream
from_fp e fresh is_writeable content = record {
  content = content;
  cursor = 0;
  buf = fresh;
  buf_avail = 0;
  buf_pos = 0;
  file_pos = 0;
  is_writeable = is_writeable;
  capture = none;
  error = e;
}
