-- ===== src/Stream.antt =====
-- src/stream.c: the memory-backed stream, its token scanner, and the capture of what is consumed.
-- A buffer is the list of its bytes, so `data->size` is the list's length. A pointer into it is the
-- list of the bytes from there on. A computation faults where the code reads past the buffer.
pub mod Tokens
pub mod Valid
pub mod Write
pub mod Captured
mod Tests
use libasdf.Prelude.{
  ℕ, zero, suc, ◌+◌, ◌-◌, ◌*◌, ◌/◌, ◌%◌, ◌^◌, ◌≤◌, ◌<◌, min, max, ◌≡◌, refl, sym, ap, ap₂, ◌∙◌,
}
use libasdf.Prelude.{
  ◌≢◌, ◌↔◌, ◌⊎◌, inl, inr, Bool, true, false, not, ◌&&◌, ◌||◌, Option, none, some, arith,
}
use libasdf.Prelude.{
  List, [], ◌∷◌, ◌++◌, map, length, get_elem?, get_or, set, take, drop, replicate, All,
}
use libasdf.Prelude.{ltb, leb, ◌==◌, if◌then◌else◌, Bool-cases, Option-cases, tests}
use libasdf.Prelude.{
  length-append, length-take, length-drop, length-replicate, take-append, drop-append, drop-drop,
  drop-nil, drop_all, take-append-drop,
}
use libasdf.Prelude.{M, pure, fault, ◌>>=◌, ◌>>◌, get, gets, modify, read, assert, >>=-eq-some}
use libasdf.Prelude.Bytes.{size_mod, add_size, starts_with}
use libasdf.Prelude.Int.{ℤ, pos, negsuc, to_size, to_off}
use libasdf.Error.{ErrorCode, unexpected_eof}

-- The buffer of `asdf_stream_set_capture`: its first `*capture_size` bytes, and its capacity.
pub record Capture : Type 0 where
  pub bytes : List ℕ
  pub cap : ℕ

-- `mem_userdata_t` with what the functions use of `asdf_stream_t`; `error` is the one that the
-- shared context holds.
pub record Stream : Type 0 where
  pub buf : List ℕ
  pub offset : ℕ
  pub is_resizeable : Bool
  pub capture : Option Capture
  pub error : Option ErrorCode

abbrev pub size : Stream → ℕ
size s = length s.buf

-- The bytes from `data->buf + data->pos` on.
abbrev pub rest : Stream → List ℕ
rest s = drop s.offset s.buf

-- `ASDF_ERROR_COMMON`: the last error replaces the one before.
abbrev pub set_error : ErrorCode → M Stream (Unit {0})
set_error e s = some (tt, record s { error = some e })

-- The inner loop of `asdf_scan_tokens`: the first token that stands at the front of the bytes,
-- counted from `tdx`.
unfoldable pub match_token : List (List ℕ) → ℕ → List ℕ → Option ℕ
match_token [] tdx bs = none
match_token (t ∷ ts) tdx bs =
    let later = match_token ts (tdx + 1) bs in
    if leb (length t) (length bs) && starts_with t bs then some tdx else later

-- The outer loop: the first offset at which a token stands, counted from `idx`, and the token.
unfoldable pub scan_from : List (List ℕ) → ℕ → List ℕ → Option (ℕ × ℕ)
scan_from tokens idx [] = none
scan_from tokens idx (b ∷ bs) =
    let later = scan_from tokens (idx + 1) bs in
    elim (match_token tokens 0 (b ∷ bs)) [ none ↦ later | some tdx ↦ some (idx, tdx) ]

-- `asdf_scan_tokens`; `none` is the result 1.
unfoldable pub scan_tokens : List ℕ → List (List ℕ) → Option (ℕ × ℕ)
unfolding scan_from
scan_tokens buf tokens = scan_from tokens 0 buf

-- `while (new_cap < needed) new_cap *= 2;` on fuel.
unfoldable pub grow : ℕ → ℕ → ℕ → Option ℕ
grow zero cap needed = if ltb cap needed then none else some cap
grow (suc f) cap needed =
    let more = grow f (cap * 2 % size_mod) needed in if ltb cap needed then more else some cap

-- `stream_capture`, of the first `n` of the bytes `bs`; `realloc` succeeds.
unfoldable pub stream_capture : List ℕ → ℕ → M Stream (Unit {0})
unfolding grow
stream_capture bs n s = elim s.capture [
  | none ↦ some (tt, s)
  | some c ↦
      if n == 0
      then some (tt, s)
      else elim (if ltb c.cap (length c.bytes + n)
          then grow (length c.bytes + n) c.cap (length c.bytes + n)
          else some c.cap) [
            | none ↦ none
            | some cap' ↦
                if ltb (length bs) n
                then none
                else some (
                  tt,
                  record s { capture = some (record { bytes = c.bytes ++ take n bs; cap = cap' }) },
                )
          ]
]

-- `asdf_stream_set_capture`
unfoldable pub set_capture : Option Capture → M Stream (Unit {0})
set_capture c s = some (tt, record s { capture = c })

-- `mem_next`: NULL, or the bytes that are available.
unfoldable pub mem_next : M Stream (Option (List ℕ))
mem_next s = if leb (size s) s.offset then some (none, s) else some (some (rest s), s)

-- `mem_consume`
unfoldable pub mem_consume : ℕ → M Stream (Unit {0})
unfolding stream_capture
mem_consume n = do
  s ← get
  stream_capture (rest s) n
  modify (λ t. record t { offset = add_size t.offset n })

-- `asdf_stream_peek`
unfoldable pub mem_peek : M Stream (Option (List ℕ))
unfolding mem_next mem_consume
mem_peek = do r ← mem_next; mem_consume 0; pure r

-- The loop of `mem_readline`: the place of the first newline, or the number of the bytes.
unfoldable pub find_newline : List ℕ → ℕ
find_newline [] = 0
find_newline (b ∷ bs) = if b == b'\n' then 0 else suc (find_newline bs)

-- `mem_readline`: NULL, or the bytes from the line on and `*len`. With the position past the end
-- `remaining` wraps, and the loop reads past the buffer.
unfoldable pub mem_readline : M Stream (Option (List ℕ × ℕ))
unfolding find_newline mem_consume
mem_readline s =
    if s.offset == size s
    then some (none, s)
    else if ltb (size s) s.offset
    then none
    else (do
      mem_consume (find_newline (rest s) + 1)
      pure (some (rest s, find_newline (rest s) + 1)))
        s

-- `mem_scan`; `none` is the result 1. With the position past the end the scan reads past the
-- buffer, if it has a token to compare.
unfoldable pub mem_scan : List (List ℕ) → M Stream (Option (ℕ × ℕ))
unfolding scan_tokens mem_consume
mem_scan tokens s =
    if ltb (size s) s.offset
    then (if length tokens == 0 then some (none, record s { offset = size s }) else none)
    else elim (scan_tokens (rest s) tokens) [
      | none ↦ (do mem_consume (size s - s.offset); pure none) s
      | some (off, tdx) ↦ (do mem_consume off; pure (some (off + s.offset, tdx))) s
    ]

pub data Whence : Type 0 where
  seek_set seek_cur seek_end other : Whence

-- The position is clamped to the end of the buffer.
abbrev pub clamp_to : Stream → ℕ → Stream
clamp_to s new_pos = record s { offset = if ltb (size s) new_pos then size s else new_pos }

-- `mem_seek`; true is the result 0.
unfoldable pub mem_seek : ℤ → Whence → M Stream Bool
mem_seek off seek_set s = some (true, clamp_to s (to_size off))
mem_seek off seek_cur s = some (true, clamp_to s (add_size s.offset (to_size off)))
mem_seek off seek_end s = some (true, clamp_to s (add_size (size s) (to_size off)))
mem_seek off other s = some (false, s)

-- `mem_tell`
unfoldable pub mem_tell : M Stream ℤ
mem_tell s = some (to_off s.offset, s)

-- The memory that `realloc` adds holds the bytes `fresh`; the code asks for `count` of them.
abbrev pub resize_for : List ℕ → ℕ → Stream → Stream
resize_for fresh count s =
    if leb (size s) (add_size s.offset count) && s.is_resizeable
    then record s { buf = s.buf ++ fresh }
    else s

-- The `memcpy` of `mem_write`.
abbrev pub overwrite : ℕ → List ℕ → List ℕ → List ℕ
overwrite n bs buf = take n buf ++ (bs ++ drop (n + length bs) buf)

-- The copy of `mem_write`, once the buffer has its size.
copy_in : List ℕ → M Stream ℕ
copy_in bs t =
    let to_copy = min (size t - t.offset) (length bs) in
    if ltb (size t) t.offset
    then none
    else some (
      to_copy,
      record t {
        buf = overwrite t.offset (take to_copy bs) t.buf;
        offset = t.offset + to_copy;
        error = if ltb to_copy (length bs) then some unexpected_eof else t.error;
      },
    )

-- `mem_write`, with the number of the bytes written; `realloc` succeeds.
unfoldable pub mem_write : List ℕ → List ℕ → M Stream ℕ
unfolding copy_in
mem_write fresh bs s = copy_in bs (resize_for fresh (length bs) s)

-- `mem_open_mem`: NULL, or where the region begins and `*avail`.
unfoldable pub mem_open_mem : ℤ → ℕ → M Stream (Option (ℕ × ℕ))
mem_open_mem off n s =
    let start = to_size off in
    if ltb (size s) start
    then some (none, s)
    else if ltb (size_mod - 1 - start) n
    then some (none, s)
    else some (some (start, if leb n (size s - start) then n else size s - start), s)

-- `asdf_stream_from_memory`, with an error already in the context or none.
unfoldable pub from_memory : Option ErrorCode → List ℕ → Stream
from_memory e bytes = record {
  buf = bytes;
  offset = 0;
  is_resizeable = false;
  capture = none;
  error = e;
}

-- `asdf_stream_from_malloc`
unfoldable pub from_malloc : Option ErrorCode → List ℕ → Stream
unfolding from_memory
from_malloc e bytes = record (from_memory e bytes) { is_resizeable = true }
