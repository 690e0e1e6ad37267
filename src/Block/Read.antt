-- ===== src/Block/Read.antt =====
-- `asdf_block_info_read`: the header at the stream's position.
pub mod Clean
pub mod Fields
pub mod Sticky
use libasdf.Prelude.{
  ℕ, zero, suc, ◌+◌, ◌-◌, ◌*◌, ◌/◌, ◌%◌, ◌^◌, ◌≤◌, ◌<◌, min, max, ◌≡◌, refl, sym, ap, ap₂, ◌∙◌,
}
use libasdf.Prelude.{
  ◌≢◌, ◌↔◌, ◌⊎◌, inl, inr, Bool, true, false, not, ◌&&◌, ◌||◌, Option, none, some, arith,
}
use libasdf.Prelude.{
  List, [], ◌∷◌, ◌++◌, map, length, get_elem?, get_or, set, take, drop, replicate, All,
}
use libasdf.Prelude.{ltb, leb, ◌==◌, if◌then◌else◌, Bool-cases, Option-cases, tests}
use libasdf.Prelude.{
  length-append, length-take, length-drop, length-replicate, take-append, drop-append, drop-drop,
  drop-nil, drop_all, take-append-drop,
}
use libasdf.Prelude.{M, pure, fault, ◌>>=◌, ◌>>◌, get, gets, modify, read, assert, >>=-eq-some}
use libasdf.Prelude.Endian.{be_value}
use libasdf.Prelude.Int.{to_off}
use libasdf.Error.{ErrorCode, invalid_block_header, unexpected_eof}
use libasdf.Stream.{Stream, set_error, mem_tell, mem_next, mem_consume}
use libasdf.Block.{Header, BlockInfo, header_len}

-- `ASDF_ERROR_GET(stream) != NULL`
abbrev pub has_error : Stream → Bool
has_error s = elim s.error [ none ↦ false | some e ↦ true ]

abbrev pub Reader : Type 0
Reader = M Stream (Bool × BlockInfo)

-- `asdf_stream_consume`, and `return false` if the context holds an error.
consume_checked : ℕ → BlockInfo → Reader → Reader
unfolding mem_consume
consume_checked n info next = do
  mem_consume n
  s ← get
  if has_error s then pure (false, info) else next

-- `ASDF_ERROR_COMMON(stream, e); return false;`
fail_with : ErrorCode → BlockInfo → Reader
fail_with e info = do set_error e; pure (false, info)

abbrev pub slice : ℕ → ℕ → List ℕ → List ℕ
slice off n bs = take n (drop off bs)

-- The fields at their offsets. The bytes that `|` joins do not overlap.
abbrev pub parse_fields : ℕ → List ℕ → Header
parse_fields size buf = record {
  header_size = size;
  flags = be_value (slice 0 4 buf);
  compression = slice 4 4 buf;
  allocated_size = be_value (slice 8 8 buf);
  used_size = be_value (slice 16 8 buf);
  data_size = be_value (slice 24 8 buf);
  checksum = slice 32 16 buf;
}

-- The header once its size is known, with no byte available if the stream gives NULL.
read_fields : ℕ → BlockInfo → Option (List ℕ) → Reader
unfolding consume_checked fail_with mem_tell
read_fields header_at info none = fail_with unexpected_eof info
read_fields header_at info (some buf) =
    let size = info.header.header_size in
    let info' : BlockInfo = record info { header = parse_fields size buf } in
    if ltb (length buf) size
    then fail_with unexpected_eof info
    else consume_checked size info' (do
      data_at ← mem_tell
      pure (true, record info' { header_pos = to_off header_at; data_pos = data_at }))

-- The header size, in its two bytes.
read_size : ℕ → BlockInfo → Option (List ℕ) → Reader
unfolding fail_with consume_checked read_fields mem_next
read_size header_at info none = fail_with invalid_block_header info
read_size header_at info (some buf) =
    let size = be_value (slice 0 2 buf) in
    let info' : BlockInfo = record info { header = record (info.header) { header_size = size } } in
    if ltb (length buf) 2
    then fail_with unexpected_eof info
    else if ltb size header_len
    then fail_with invalid_block_header info'
    else consume_checked 2 info' (do r ← mem_next; read_fields header_at info' r)

-- `asdf_block_info_read`: whether a block could be read, and `*out_block` as it is left.
unfoldable pub info_read : BlockInfo → Reader
unfolding consume_checked read_size mem_next
info_read info s = consume_checked 4 info (do r ← mem_next; read_size s.offset info r) s
