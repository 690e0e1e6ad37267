-- ===== src/Parser/Blocks.antt =====
-- The blocks of a file: finding the next one, by the block index or by a scan, and stepping over it.
-- The vectors are STC's: `grown c n` is the capacity that a vector of capacity `c` has after room for
-- `n` entries was asked for. Memory does not run out.
pub mod Count
pub mod Found
pub mod Section
pub mod Refused
use libasdf.Prelude.{
  ℕ, zero, suc, ◌+◌, ◌-◌, ◌*◌, ◌/◌, ◌%◌, ◌^◌, ◌≤◌, ◌<◌, min, max, ◌≡◌, refl, sym, ap, ap₂, ◌∙◌,
}
use libasdf.Prelude.{
  ◌≢◌, ◌↔◌, ◌⊎◌, inl, inr, Bool, true, false, not, ◌&&◌, ◌||◌, Option, none, some, arith,
}
use libasdf.Prelude.{
  List, [], ◌∷◌, ◌++◌, map, length, get_elem?, get_or, set, take, drop, replicate, All,
}
use libasdf.Prelude.{ltb, leb, ◌==◌, if◌then◌else◌, Bool-cases, Option-cases, tests}
use libasdf.Prelude.{
  length-append, length-take, length-drop, length-replicate, take-append, drop-append, drop-drop,
  drop-nil, drop_all, take-append-drop,
}
use libasdf.Prelude.{M, pure, fault, ◌>>=◌, ◌>>◌, get, gets, modify, read, assert, >>=-eq-some}
use libasdf.Prelude.Int.{ℤ, pos, negsuc}
use libasdf.Prelude.Bytes.{add_size}
use libasdf.Error.{ErrorCode, unexpected_eof, invalid_block_header}
use libasdf.Stream.{Stream, Whence, set_error, mem_peek, mem_seek, seek_set, seek_cur, seek_end}
use libasdf.Token.{Token, block_magic_tok, scan_for, is_block_magic}
use libasdf.Block.{BlockInfo, zero_header}
use libasdf.Block.Read.{info_read}
use libasdf.Parser.{Parser, State, Result, Event, BlockTable, on_stream, goto, with_blocks, fail}
use libasdf.Parser.{parse_error, parse_continue, parse_event, block_event}
use libasdf.Parser.Tree.{available}

-- `asdf_block_info_t block_info = {.index = index};`
abbrev pub empty_info : ℕ → BlockInfo
empty_info index = record {
  index = index;
  header_pos = pos 0;
  data_pos = pos 0;
  header = zero_header;
  data_bytes = none;
  data_size = 0;
  data_owned = false;
  data_mmapped = false;
  data_is_compressed = false;
  write_compressor = none;
}

-- `PTRDIFF_MAX`, `SSIZE_MAX`
abbrev pub ptrdiff_max : ℕ
ptrdiff_max = 2 ^ 63 - 1

-- `TRY_SEEK(parser, offset, whence, failed)`, on a memory stream, which is seekable.
abbrev pub try_seek : {A : Type 0} → ℤ → Whence → A → M Parser A → M Parser A
try_seek offset whence failed next = do
  done ← on_stream (mem_seek offset whence)
  if done then next else (do on_stream (set_error unexpected_eof); pure failed)

-- `scan_for_block`
unfoldable pub scan_for_block : M Parser Bool
scan_for_block = do
  m ← on_stream (scan_for (block_magic_tok ∷ []))
  pure (elim m [ none ↦ false | some t ↦ true ])

-- `validate_block`: whether the block is valid, and `*block_out` as it is left.
unfoldable pub validate_block : ℕ → BlockInfo → M Parser (Bool × BlockInfo)
validate_block idx block_out = do
  p ← get
  if leb (length p.blocks.index) idx || ltb ptrdiff_max idx then pure (false, block_out) else (do
    offset ← read (get_elem? p.blocks.index idx)
    try_seek offset seek_set (false, block_out)
        (do
          buf ← on_stream mem_peek
          if is_block_magic (available buf)
              then on_stream (info_read block_out)
              else pure (false, block_out)))

-- `BLOCK_INFO_IS_EMPTY`
abbrev pub is_zero : ℤ → Bool
is_zero (pos n) = n == 0
is_zero (negsuc n) = false

-- `block_from_index`; `none` is NULL.
unfoldable pub block_from_index : ℕ → M Parser (Option BlockInfo)
block_from_index block_idx = do
  p ← get
  if ltb ptrdiff_max block_idx then pure none else (do
    info ← read (get_elem? p.blocks.infos block_idx)
    if ltb block_idx p.blocks.count
        then (if is_zero info.data_pos
            then pure none
            else try_seek info.data_pos seek_set none (pure (some info)))
        else (do
          r ← validate_block block_idx info
          with_blocks (λ b. record b { infos = set b.infos block_idx r.1 })
          pure (if r.0 then some r.1 else none)))

-- Reading a header, and pushing it onto the vector if it is valid.
unfoldable pub push_block : BlockInfo → M Parser (Bool × BlockInfo)
push_block block_info = do
  r ← on_stream (info_read block_info)
  if r.0 then (do with_blocks (λ b. record b { infos = b.infos ++ (r.1 ∷ []) }); pure r) else pure r

-- `parse_new_block`; `none` is NULL.
unfoldable pub parse_new_block : M Parser (Option BlockInfo)
parse_new_block = do
  p ← get
  buf ← on_stream mem_peek
  first ←
      (if is_block_magic (available buf)
        then push_block (empty_info p.blocks.found)
        else pure (false, empty_info p.blocks.found))
  if first.0 then pure (some first.1) else (do
    matched ← scan_for_block
    if matched
        then (do second ← push_block first.1; pure (if second.0 then some second.1 else none))
        else pure none)

-- The block of the block index, if there is one for `block_idx`; an entry without a block is
-- made invalid.
unfoldable pub indexed_block : ℕ → M Parser (Option BlockInfo)
indexed_block block_idx = do
  p ← get
  if p.blocks.has_index && ltb block_idx (length p.blocks.index)
      then (do
        block_info ← block_from_index block_idx
        elim block_info [
          | none ↦ (do
            with_blocks (λ b. record b { index = set b.index block_idx (negsuc 0) })
            pure none)
          | some info ↦ pure (some info)
        ])
      else pure none

-- The step over a block, from the start of its data.
unfoldable pub skip_block : BlockInfo → M Parser Result
skip_block info =
    let streamed = info.header.flags % 2 == 1 in
    if not streamed && ltb ptrdiff_max info.header.allocated_size
    then fail invalid_block_header
    else (do
      done ← on_stream (
          if streamed
          then mem_seek (pos 0) seek_end
          else mem_seek (pos info.header.allocated_size) seek_cur)
      if done then pure (parse_event (block_event info)) else fail invalid_block_header)

module _ (grown : ℕ → ℕ → ℕ) where
  -- `asdf_block_index_resize(block_index, n, -1)`
  abbrev pub resized : ℕ → BlockTable → BlockTable
  resized n b = record b {
    index = take n b.index ++ replicate (n - length b.index) (negsuc 0);
    index_cap = grown b.index_cap n;
  }

  -- The resize of the block index, if it has no room for all blocks found.
  unfoldable pub with_room : BlockTable → BlockTable
  with_room b =
      if ltb b.index_cap b.found
      then resized (if b.index_cap == 0 then 8 else b.index_cap * 2) b
      else b

  -- The counts and the block index, with the block at `block_idx` found. An entry outside of the
  -- index is a fault.
  unfoldable pub note_block : ℕ → BlockInfo → M Parser (Unit {0})
  note_block block_idx info = do
    with_blocks (λ b. record b { found = add_size b.found 1 })
    with_blocks with_room
    q ← get
    assert (ltb block_idx (length q.blocks.index))
    with_blocks (λ b. record b { index = set b.index block_idx info.header_pos; count = b.found })

  -- `parse_block`
  unfoldable pub parse_block : M Parser Result
  parse_block = do
    p ← get
    if leb ptrdiff_max p.blocks.found then pure parse_error else (do
      indexed ← indexed_block p.blocks.found
      block_info ← (elim indexed [ none ↦ parse_new_block | some info ↦ pure (some info) ])
      elim block_info [
        | none ↦ (do
          with_blocks (λ b. record b { index_cap = length b.index })
          goto State.end
          pure parse_continue)
        | some info ↦ (do note_block p.blocks.found info; skip_block info)
      ])
