-- ===== src/Parser/Index.antt =====
-- The block index at the end of a file: finding it, reading it, and checking it against the blocks.
-- libfyaml is a parameter: `read_index` gives the items of the sequence that a text holds, each
-- `none` where it is no number, or `none` if the text is no document with a sequence at its root.
-- The page size is a parameter too, with 0 for one that `sysconf` does not give.
pub mod Order
pub mod Corrupt
pub mod Absent
use libasdf.Prelude.{
  ℕ, zero, suc, ◌+◌, ◌-◌, ◌*◌, ◌/◌, ◌%◌, ◌^◌, ◌≤◌, ◌<◌, min, max, ◌≡◌, refl, sym, ap, ap₂, ◌∙◌,
}
use libasdf.Prelude.{
  ◌≢◌, ◌↔◌, ◌⊎◌, inl, inr, Bool, true, false, not, ◌&&◌, ◌||◌, Option, none, some, arith,
}
use libasdf.Prelude.{
  List, [], ◌∷◌, ◌++◌, map, length, get_elem?, get_or, set, take, drop, replicate, All,
}
use libasdf.Prelude.{ltb, leb, ◌==◌, if◌then◌else◌, Bool-cases, Option-cases, tests}
use libasdf.Prelude.{
  length-append, length-take, length-drop, length-replicate, take-append, drop-append, drop-drop,
  drop-nil, drop_all, take-append-drop,
}
use libasdf.Prelude.{M, pure, fault, ◌>>=◌, ◌>>◌, get, gets, modify, read, assert, >>=-eq-some}
use libasdf.Prelude.Int.{ℤ, pos, negsuc, leb_ℤ, closer_than}
use libasdf.Error.{ErrorCode, unexpected_eof}
use libasdf.Stream.{Stream, set_error, mem_peek, mem_next, mem_seek, mem_tell, seek_set, seek_end}
use libasdf.Token.{Token, block_index_header_tok, block_index_header, scan_for, ends_with_newline}
use libasdf.Block.{BlockInfo}
use libasdf.Parser.{Parser, State, Result, Event, BlockTable, on_stream, goto, with_blocks, fail}
use libasdf.Parser.{parse_error, parse_continue, running, parse_event, no_event, block_index_event}
use libasdf.Parser.Tree.{available}
use libasdf.Parser.Blocks.{try_seek, empty_info, validate_block}

-- `ASDF_BLOCK_HEADER_FULL_SIZE`
abbrev pub header_full_size : ℕ
header_full_size = 54

-- The loop over the offsets: each is past the one before, by the size of a header at least.
unfoldable pub in_order : List ℤ → Bool
in_order [] = true
in_order (prev ∷ []) = true
in_order (prev ∷ offset ∷ offsets) =
    let later = in_order (offset ∷ offsets) in
    if leb_ℤ offset prev || closer_than offset prev header_full_size then false else later

-- The block infos between the first and the last, which are read later on.
unfoldable pub empty_infos : ℕ → ℕ → List BlockInfo
empty_infos idx zero = []
empty_infos idx (suc n) = empty_info idx ∷ empty_infos (idx + 1) n

-- The last block, where there are at least two.
unfoldable pub validate_last : ℕ → BlockInfo → M Parser (Bool × BlockInfo)
validate_last n_blocks first =
    if ltb 1 n_blocks
    then validate_block (n_blocks - 1) (empty_info (n_blocks - 1))
    else pure (true, first)

-- The infos of all blocks of the index.
unfoldable pub push_infos : ℕ → BlockInfo → BlockInfo → M Parser (Unit {0})
push_infos n_blocks first last = with_blocks (λ b. record b {
  infos =
      b.infos
      ++ (first ∷ (if ltb 1 n_blocks then empty_infos 1 (n_blocks - 2) ++ (last ∷ []) else []));
  count = n_blocks;
})

-- `validate_block_index`
unfoldable pub validate_block_index : M Parser Bool
validate_block_index = do
  p ← get
  if length p.blocks.index == 0
      then pure true
      else (if in_order p.blocks.index
          then (do
            first ← validate_block 0 (empty_info 0)
            last ← (if first.0 then validate_last (length p.blocks.index) first.1 else pure first)
            if last.0
                then (do push_infos (length p.blocks.index) first.1 last.1; pure true)
                else pure false)
          else pure false)

-- The loop of `parse_find_block_index`. It scans again from where it stands.
unfoldable pub find_loop : ℕ → M Parser Result
find_loop zero = pure running
find_loop (suc f) =
    let again : M Parser Result = find_loop f in
    (do
      m ← on_stream (scan_for (block_index_header_tok ∷ []))
      elim m [
        | none ↦ pure parse_continue
        | some t ↦ (do
          buf ← on_stream mem_peek
          if ltb (length (available buf)) (length block_index_header + 1)
              then pure parse_continue
              else (if ends_with_newline (available buf) (length block_index_header)
                  then pure (parse_event no_event)
                  else again))
      ])

-- Where the search begins: the start of the last page but one, or of the file.
unfoldable pub aligned_offset : ℕ → ℕ → ℕ
aligned_offset page_size file_size =
    if ltb page_size file_size then file_size - page_size - file_size % page_size else 0

-- `parse_find_block_index`
unfoldable pub parse_find_block_index : ℕ → ℕ → ℤ → M Parser Result
parse_find_block_index fuel page_size (negsuc n) =
    if page_size == 0 then pure parse_continue else fail unexpected_eof
parse_find_block_index fuel page_size (pos n) =
    if page_size == 0
    then pure parse_continue
    else try_seek (pos (aligned_offset page_size n)) seek_set parse_error (find_loop fuel)

-- The items of the sequence, up to one that is no number; whether there was none of these.
unfoldable pub push_items : List (Option ℤ) → List ℤ → Bool × List ℤ
push_items [] index = (true, index)
push_items (none ∷ items) index = (false, index)
push_items (some offset ∷ items) index = push_items items (index ++ (offset ∷ []))

module _ (grown : ℕ → ℕ → ℕ) (read_index : List ℕ → Option (List (Option ℤ))) where
  -- The block index at the stream's position. Before it, the index of the parser is empty, so that
  -- the entries fit the room that is made. A text that cannot be read leaves the result
  -- `ASDF_PARSE_EVENT` of the search, with the event not filled in.
  unfoldable pub read_block_index : M Parser Result
  read_block_index = do
    buf ← on_stream mem_next
    elim buf [
      | none ↦ fail unexpected_eof
      | some text ↦ elim (read_index text) [
        | none ↦ pure (parse_event no_event)
        | some items ↦ (do
          p ← get
          let pushed : Bool × List ℤ = push_items items p.blocks.index
          with_blocks (λ b. record b {
            index = pushed.1;
            index_cap =
                if ltb b.index_cap (length items)
                then grown b.index_cap (length items)
                else b.index_cap;
          })
          if pushed.0
              then (do
                valid ← validate_block_index
                if valid
                    then (do
                      with_blocks (λ b. record b { has_index = true })
                      q ← get
                      pure (parse_event (block_index_event q.blocks.index)))
                    else pure parse_continue)
              else pure (parse_event no_event))
      ]
    ]

  -- `parse_block_index`, on a seekable stream. The state does not change where a seek fails.
  unfoldable pub parse_block_index : ℕ → ℕ → M Parser Result
  parse_block_index fuel page_size = do
    cur_offset ← on_stream mem_tell
    try_seek (pos 0) seek_end parse_error (do
      file_size ← on_stream mem_tell
      found ← parse_find_block_index fuel page_size file_size
      res ← (elim found [
        | parse_error ↦ pure parse_error
        | parse_continue ↦ pure parse_continue
        | running ↦ pure running
        | parse_event e ↦ read_block_index
      ])
      try_seek cur_offset seek_set parse_error (do goto State.tree_or_block; pure res))
