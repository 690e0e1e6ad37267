-- ===== src/Parser.antt =====
-- src/parser.c and src/parser.h: the parser's state. Memory-backed input; the containers of STC are
-- lists, and a read outside of one is a fault.
pub mod Header
pub mod Tree
pub mod Blocks
pub mod Index
pub mod Machine
mod Tests
use libasdf.Prelude.{
  ℕ, zero, suc, ◌+◌, ◌-◌, ◌*◌, ◌/◌, ◌%◌, ◌^◌, ◌≤◌, ◌<◌, min, max, ◌≡◌, refl, sym, ap, ap₂, ◌∙◌,
}
use libasdf.Prelude.{
  ◌≢◌, ◌↔◌, ◌⊎◌, inl, inr, Bool, true, false, not, ◌&&◌, ◌||◌, Option, none, some, arith,
}
use libasdf.Prelude.{
  List, [], ◌∷◌, ◌++◌, map, length, get_elem?, get_or, set, take, drop, replicate, All,
}
use libasdf.Prelude.{ltb, leb, ◌==◌, if◌then◌else◌, Bool-cases, Option-cases, tests}
use libasdf.Prelude.{
  length-append, length-take, length-drop, length-replicate, take-append, drop-append, drop-drop,
  drop-nil, drop_all, take-append-drop,
}
use libasdf.Prelude.{M, pure, fault, ◌>>=◌, ◌>>◌, get, gets, modify, read, assert, >>=-eq-some}
use libasdf.Prelude.Int.{ℤ, pos}
use libasdf.Error.{ErrorCode}
use libasdf.Version.{Version}
use libasdf.Stream.{Stream, set_error, mem_consume}
use libasdf.Block.{BlockInfo}

-- `asdf_parser_state_t`
pub data State : Type 0 where
  initial asdf_version standard_version comment tree_or_block tree yaml : State
  block padding block_index end error : State

-- `has_tree`: -1, 0 and 1.
pub data HasTree : Type 0 where
  unknown without_tree with_tree : HasTree

-- `asdf_parser_tree_info_t`; `buf` holds the `size` bytes that were captured, if any were asked for.
pub record TreeInfo : Type 0 where
  pub start : ℤ
  pub end : ℤ
  pub buf : Option (List ℕ)
  pub found : Bool
  pub done : Bool
  pub has_tree : HasTree

-- `asdf_parser_block_info_t`, with the capacity of the vector `index`.
pub record BlockTable : Type 0 where
  pub infos : List BlockInfo
  pub index : List ℤ
  pub index_cap : ℕ
  pub has_index : Bool
  pub count : ℕ
  pub found : ℕ

-- `asdf_parser_t` with its stream, and the two options of its configuration.
pub record Parser : Type 0 where
  pub state : State
  pub stream : Stream
  pub buffer_tree : Bool
  pub emit_yaml_events : Bool
  pub asdf_version : Option Version
  pub standard_version : Option Version
  pub tree : TreeInfo
  pub blocks : BlockTable
  pub done : Bool

-- `asdf_event_t`: the events that the states but YAML produce, and one that is not filled in.
pub data Event : Type 0 where
  no_event end_event : Event
  asdf_version_event standard_version_event : Option Version → Event
  comment_event : List ℕ → Event
  tree_start_event : ℤ → Event
  tree_end_event : ℤ → ℤ → Option (List ℕ) → Event
  block_event : BlockInfo → Event
  block_index_event : List ℤ → Event

-- `parse_result_t`. `running` is no C value: a loop of the state used up its fuel.
pub data Result : Type 0 where
  parse_error parse_continue running : Result
  parse_event : Event → Result

abbrev pub on_stream : {A : Type 0} → M Stream A → M Parser A
on_stream m p = elim (m p.stream) [ none ↦ none | some (a, s) ↦ some (a, record p { stream = s }) ]

abbrev pub goto : State → M Parser (Unit {0})
goto st p = some (tt, record p { state = st })

abbrev pub with_tree_info : (TreeInfo → TreeInfo) → M Parser (Unit {0})
with_tree_info f p = some (tt, record p { tree = f p.tree })

abbrev pub with_blocks : (BlockTable → BlockTable) → M Parser (Unit {0})
with_blocks f p = some (tt, record p { blocks = f p.blocks })

-- `ASDF_ERROR_COMMON(parser, e); return ASDF_PARSE_ERROR;`
abbrev pub fail : ErrorCode → M Parser Result
fail e = do on_stream (set_error e); pure parse_error

-- `ASDF_ERROR_GET(parser) != NULL`
abbrev pub has_error : Parser → Bool
has_error p = elim p.stream.error [ none ↦ false | some e ↦ true ]
