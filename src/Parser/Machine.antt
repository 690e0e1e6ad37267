-- ===== src/Parser/Machine.antt =====
-- `asdf_parser_parse`: the loop over the parser's states up to the next event.
pub mod Run
pub mod File
pub mod TreeFile
use libasdf.Prelude.{
  ℕ, zero, suc, ◌+◌, ◌-◌, ◌*◌, ◌/◌, ◌%◌, ◌^◌, ◌≤◌, ◌<◌, min, max, ◌≡◌, refl, sym, ap, ap₂, ◌∙◌,
}
use libasdf.Prelude.{
  ◌≢◌, ◌↔◌, ◌⊎◌, inl, inr, Bool, true, false, not, ◌&&◌, ◌||◌, Option, none, some, arith,
}
use libasdf.Prelude.{
  List, [], ◌∷◌, ◌++◌, map, length, get_elem?, get_or, set, take, drop, replicate, All,
}
use libasdf.Prelude.{ltb, leb, ◌==◌, if◌then◌else◌, Bool-cases, Option-cases, tests}
use libasdf.Prelude.{
  length-append, length-take, length-drop, length-replicate, take-append, drop-append, drop-drop,
  drop-nil, drop_all, take-append-drop,
}
use libasdf.Prelude.{M, pure, fault, ◌>>=◌, ◌>>◌, get, gets, modify, read, assert, >>=-eq-some}
use libasdf.Prelude.Int.{ℤ, negsuc, pos}
use libasdf.Error.{unknown_state}
use libasdf.Stream.{Stream, set_error, from_memory}
use libasdf.Parser.{Parser, State, HasTree, Result, Event, on_stream, goto, end_event}
use libasdf.Parser.{parse_error, parse_continue, running, parse_event}
use libasdf.Parser.Header.{parse_asdf_version, parse_standard_version, parse_comment}
use libasdf.Parser.Tree.{parse_tree_or_block, parse_tree, parse_padding}
use libasdf.Parser.Blocks.{parse_block}
use libasdf.Parser.Index.{parse_block_index}

-- What a call gives: an event, NULL, or nothing yet, where a loop used up its fuel.
pub data Parsed : Type 0 where
  event : Event → Parsed
  null unfinished : Parsed

-- `asdf_parser_create` and `asdf_parser_set_input_mem`, with the two options of the configuration.
unfoldable pub parser_of : Bool → Bool → List ℕ → Parser
unfolding from_memory
parser_of buffer_tree emit_yaml_events bytes = record {
  state = State.asdf_version;
  stream = from_memory none bytes;
  buffer_tree = buffer_tree;
  emit_yaml_events = emit_yaml_events;
  asdf_version = none;
  standard_version = none;
  tree = record {
    start = pos 0;
    end = pos 0;
    buf = none;
    found = false;
    done = false;
    has_tree = HasTree.unknown;
  };
  blocks = record {
    infos = [];
    index = [];
    index_cap = 0;
    has_index = false;
    count = 0;
    found = 0;
  };
  done = false;
}

module _ (grown : ℕ → ℕ → ℕ) (page_size : ℕ) (read_index : List ℕ → Option (List (Option ℤ)))
    (yaml_input : Parser → Bool) (parse_yaml : M Parser Result) (fuel : ℕ) where
  -- The call for a state that has a function of its own. The initial state has none: it sets an
  -- error, and the loop goes on.
  unfoldable pub dispatch : State → M Parser Result
  dispatch State.initial = do on_stream (set_error unknown_state); pure parse_continue
  dispatch State.asdf_version = parse_asdf_version
  dispatch State.standard_version = parse_standard_version
  dispatch State.comment = parse_comment
  dispatch State.tree_or_block = parse_tree_or_block fuel
  dispatch State.tree = parse_tree yaml_input fuel
  dispatch State.yaml = parse_yaml
  dispatch State.block = parse_block grown
  dispatch State.padding = parse_padding
  dispatch State.block_index = parse_block_index grown read_index fuel page_size
  dispatch State.end = pure parse_continue
  dispatch State.error = pure parse_continue

  -- What follows the loop, or the loop itself.
  unfoldable pub after : Result → M Parser Parsed → M Parser Parsed
  after (parse_event e) again = pure (event e)
  after parse_error again = do goto State.error; pure null
  after parse_continue again = again
  after running again = pure unfinished

  -- The end state gives the end event once, and the error state nothing.
  unfoldable pub finish : State → M Parser Parsed → M Parser Parsed
  finish State.end other p =
      if p.done then some (null, p) else some (event end_event, record p { done = true })
  finish State.error other p = some (null, record p { done = true })
  finish State.initial other p = other p
  finish State.asdf_version other p = other p
  finish State.standard_version other p = other p
  finish State.comment other p = other p
  finish State.tree_or_block other p = other p
  finish State.tree other p = other p
  finish State.yaml other p = other p
  finish State.block other p = other p
  finish State.padding other p = other p
  finish State.block_index other p = other p

  -- `asdf_parser_parse`, with as many rounds of its loop as the number says.
  unfoldable pub parser_parse : ℕ → M Parser Parsed
  unfolding after
  parser_parse zero = pure unfinished
  parser_parse (suc rounds) =
      let again : M Parser Parsed = parser_parse rounds in
      (do p ← get; finish p.state (do res ← dispatch p.state; after res again))
