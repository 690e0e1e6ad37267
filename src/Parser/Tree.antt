-- ===== src/Parser/Tree.antt =====
-- The start and the end of the YAML tree.
pub mod Scan
pub mod End
use libasdf.Prelude.{
  ℕ, zero, suc, ◌+◌, ◌-◌, ◌*◌, ◌/◌, ◌%◌, ◌^◌, ◌≤◌, ◌<◌, min, max, ◌≡◌, refl, sym, ap, ap₂, ◌∙◌,
}
use libasdf.Prelude.{
  ◌≢◌, ◌↔◌, ◌⊎◌, inl, inr, Bool, true, false, not, ◌&&◌, ◌||◌, Option, none, some, arith,
}
use libasdf.Prelude.{
  List, [], ◌∷◌, ◌++◌, map, length, get_elem?, get_or, set, take, drop, replicate, All,
}
use libasdf.Prelude.{ltb, leb, ◌==◌, if◌then◌else◌, Bool-cases, Option-cases, tests}
use libasdf.Prelude.{
  length-append, length-take, length-drop, length-replicate, take-append, drop-append, drop-drop,
  drop-nil, drop_all, take-append-drop,
}
use libasdf.Prelude.{M, pure, fault, ◌>>=◌, ◌>>◌, get, gets, modify, read, assert, >>=-eq-some}
use libasdf.Prelude.Int.{ℤ, pos}
use libasdf.Stream.{
  Stream, set_error, Capture, mem_readline, mem_peek, mem_next, mem_tell, mem_consume, set_capture,
}
use libasdf.Token.{
  Token, yaml_directive_tok, document_end_tok, block_magic_tok, block_index_header_tok,
}
use libasdf.Token.{scan_for, is_yaml_directive, is_block_magic, is_yaml_document_end_marker}
use libasdf.Parser.{
  Parser, State, TreeInfo, HasTree, Result, Event, on_stream, goto, with_tree_info, fail, has_error,
}
use libasdf.Parser.{parse_error, parse_continue, running, parse_event}
use libasdf.Parser.{no_event, tree_start_event, tree_end_event}
use libasdf.Error.{unknown_state, yaml_parser_init_failed}

-- `asdf_stream_next` or `peek`, with no byte for NULL.
abbrev pub available : Option (List ℕ) → List ℕ
available none = []
available (some bs) = bs

-- `emit_tree_start_event`
unfoldable pub emit_tree_start_event : M Parser Result
emit_tree_start_event = do
  offset ← on_stream mem_tell
  with_tree_info (λ t. record t { start = offset })
  goto State.tree
  pure (parse_event (tree_start_event offset))

abbrev set_has_tree : HasTree → M Parser (Unit {0})
set_has_tree h = with_tree_info (λ t. record t { has_tree = h })

-- The loop of `parse_tree_or_block`, which scans again from where it stands. The default case
-- returns 1, which is `ASDF_PARSE_EVENT`.
unfoldable pub start_loop : ℕ → M Parser Result
start_loop zero = pure running
start_loop (suc f) =
    let again : M Parser Result = start_loop f in
    (do
      m ← on_stream (scan_for (yaml_directive_tok ∷ block_magic_tok ∷ []))
      elim m [
        | none ↦ (do goto State.end; pure parse_continue)
        | some yaml_directive_tok ↦ (do
          r ← on_stream mem_next
          valid ← read (is_yaml_directive (available r))
          if valid then (do set_has_tree HasTree.with_tree; emit_tree_start_event) else again)
        | some block_magic_tok ↦ (do
          set_has_tree HasTree.without_tree
          goto State.block
          pure parse_continue)
        | some document_end_tok ↦ (do
          on_stream (set_error unknown_state)
          pure (parse_event no_event))
        | some block_index_header_tok ↦ (do
          on_stream (set_error unknown_state)
          pure (parse_event no_event))
      ])

-- `parse_tree_or_block`, with fuel for its loop.
unfoldable pub parse_tree_or_block : ℕ → M Parser Result
parse_tree_or_block fuel = do
  r ← on_stream mem_peek
  elim r [
    | none ↦ (do goto State.end; pure parse_continue)
    | some buf ↦ (do
      valid ← read (is_yaml_directive buf)
      if valid
          then (do set_has_tree HasTree.with_tree; emit_tree_start_event)
          else (if is_block_magic buf
              then (do set_has_tree HasTree.without_tree; goto State.block; pure parse_continue)
              else start_loop fuel))
  ]

-- `emit_tree_end_event`
unfoldable pub emit_tree_end_event : M Parser Result
emit_tree_end_event p = some (parse_event (tree_end_event p.tree.start p.tree.end p.tree.buf), p)

-- What the loop of `parse_tree_fast` ends with: the tree's end, the result 1, or no end of its own.
pub data FastEnd : Type 0 where
  end_at : ℤ → FastEnd
  fast_error fast_running : FastEnd

-- The consumption of an end marker: its leading newline, and the line of the marker.
unfoldable pub consume_marker : M Parser FastEnd
consume_marker = do
  on_stream (mem_consume 1)
  failed ← gets has_error
  if failed
      then pure fast_error
      else (do line ← on_stream mem_readline; offset ← on_stream mem_tell; pure (end_at offset))

-- The loop of `parse_tree_fast`. The end is 0 if no token is found.
unfoldable pub fast_loop : ℕ → M Parser FastEnd
fast_loop zero = pure fast_running
fast_loop (suc f) =
    let again : M Parser FastEnd = fast_loop f in
    (do
      m ← on_stream (scan_for (document_end_tok ∷ block_magic_tok ∷ []))
      elim m [
        | none ↦ pure (end_at (pos 0))
        | some document_end_tok ↦ (do
          r ← on_stream mem_next
          if is_yaml_document_end_marker (available r) then consume_marker else again)
        | some block_magic_tok ↦ (do offset ← on_stream mem_tell; pure (end_at offset))
        | some yaml_directive_tok ↦ (do on_stream (set_error unknown_state); pure fast_error)
        | some block_index_header_tok ↦ (do on_stream (set_error unknown_state); pure fast_error)
      ])

-- The end of `parse_tree_fast`: whether it returned 0, or none if it did not return.
unfoldable pub note_end : FastEnd → M Parser (Option Bool)
note_end (end_at offset) = do
  with_tree_info (λ t. record t { end = offset; found = true })
  pure (some true)
note_end fast_error = pure (some false)
note_end fast_running = pure none

-- `parse_tree_fast`
unfoldable pub parse_tree_fast : ℕ → M Parser (Option Bool)
parse_tree_fast fuel = do e ← fast_loop fuel; note_end e

-- `ASDF_PARSER_READ_BUFFER_INIT_SIZE`
abbrev pub read_buffer_init_size : ℕ
read_buffer_init_size = 512

-- Halting the capture leaves in `tree.buf` what the stream captured.
unfoldable pub halt_capture : Bool → M Parser (Unit {0})
halt_capture false = on_stream (set_capture none)
halt_capture true = do
  p ← get
  with_tree_info
      (λ t. record t { buf = elim p.stream.capture [ none ↦ t.buf | some c ↦ some c.bytes ] })
  on_stream (set_capture none)

abbrev start_capture : Bool → M Parser (Unit {0})
start_capture false = pure tt
start_capture true =
    on_stream (set_capture (some (record { bytes = []; cap = read_buffer_init_size })))

-- `initialize_yaml_parser`: whether it returned 0. libfyaml is a parameter: `yaml_input` tells
-- whether it takes the input that the parser has for it.
unfoldable pub initialize_yaml_parser : (Parser → Bool) → M Parser Bool
initialize_yaml_parser yaml_input = do
  taken ← gets yaml_input
  if taken then pure true else (do on_stream (set_error yaml_parser_init_failed); pure false)

-- The search for the end of the tree, under the capture, if the tree is to be buffered or no YAML
-- events are asked for; `some true` if there is none. `malloc` succeeds.
unfoldable pub find_tree_end : ℕ → M Parser (Option Bool)
find_tree_end fuel = do
  p ← get
  start_capture p.buffer_tree
  if p.buffer_tree || not p.emit_yaml_events
      then (do res ← parse_tree_fast fuel; halt_capture p.buffer_tree; pure res)
      else pure (some true)

-- `parse_tree`, on a seekable stream.
unfoldable pub parse_tree : (Parser → Bool) → ℕ → M Parser Result
parse_tree yaml_input fuel = do
  res ← find_tree_end fuel
  emit_yaml_events ← gets (λ p. p.emit_yaml_events)
  elim res [
    | none ↦ pure running
    | some false ↦ pure parse_error
    | some true ↦
        if emit_yaml_events
        then (do
          ready ← initialize_yaml_parser yaml_input
          if ready
              then (do
                goto State.yaml
                with_tree_info (λ t. record t { found = false })
                pure parse_continue)
              else pure parse_error)
        else (do goto State.padding; emit_tree_end_event)
  ]

-- `parse_padding`
unfoldable pub parse_padding : M Parser Result
parse_padding = do goto State.block; pure parse_continue
