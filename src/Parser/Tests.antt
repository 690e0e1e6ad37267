-- ===== src/Parser/Tests.antt =====
-- The parser on short files: their headers, trees and block indices.
mod Blocks
mod Tree
use libasdf.Prelude.{
  ℕ, zero, suc, ◌+◌, ◌-◌, ◌*◌, ◌/◌, ◌%◌, ◌^◌, ◌≤◌, ◌<◌, min, max, ◌≡◌, refl, sym, ap, ap₂, ◌∙◌,
}
use libasdf.Prelude.{
  ◌≢◌, ◌↔◌, ◌⊎◌, inl, inr, Bool, true, false, not, ◌&&◌, ◌||◌, Option, none, some, arith,
}
use libasdf.Prelude.{
  List, [], ◌∷◌, ◌++◌, map, length, get_elem?, get_or, set, take, drop, replicate, All,
}
use libasdf.Prelude.{ltb, leb, ◌==◌, if◌then◌else◌, Bool-cases, Option-cases, tests}
use libasdf.Prelude.{
  length-append, length-take, length-drop, length-replicate, take-append, drop-append, drop-drop,
  drop-nil, drop_all, take-append-drop,
}
use libasdf.Prelude.{M, pure, fault, ◌>>=◌, ◌>>◌, get, gets, modify, read, assert, >>=-eq-some}
use libasdf.Prelude.Bytes.{codes, starts_with, is_digit, strtoul}
use libasdf.Prelude.Int.{ℤ, pos, negsuc, to_off}
use libasdf.Stream.{Stream, size, rest, scan_tokens, match_token}
use libasdf.Stream.Valid.{IsValid}
use libasdf.Version.{Version, version_parse}
use libasdf.Block.{BlockInfo}
use libasdf.Token.{
  version_comment, standard_comment, is_yaml_document_end_marker, block_index_header,
}
use libasdf.Parser.{Parser, State, HasTree, Result, Event, parse_continue, parse_event, no_event}
use libasdf.Parser.{asdf_version_event, standard_version_event, comment_event, end_event}
use libasdf.Parser.Header.{parse_asdf_version, parse_standard_version, parse_comment}
use libasdf.Parser.Header.Lines.{IsPlain, parse_versions}
use libasdf.Parser.Header.Comments.{IsBlank, parse_comment_comment, parse_comment_other}
use libasdf.Parser.Tree.{parse_tree_fast}
use libasdf.Parser.{tree_end_event}
use libasdf.Parser.Tree.{parse_tree}
use libasdf.Parser.Tree.End.{parse_tree_marker}
use libasdf.Parser.Tree.Scan.{at, end_tokens, parse_tree_fast_stuck}
use libasdf.Parser.Blocks.{note_block, empty_info}
use libasdf.Parser.Index.{in_order, aligned_offset, read_block_index, parse_block_index}
use libasdf.Parser.Index.Order.{Apart, in_order-Apart, aligned_offset_lem}
use libasdf.Parser.Index.Absent.{parse_block_index-absent}
use libasdf.Parser.Index.Corrupt.{read_block_index_partial}
use libasdf.Parser.Machine.{Parsed, event, null, parser_parse}
use libasdf.Parser.Machine.Run.{parser_parse-over}

abbrev pub parser : State → List ℕ → ℕ → Parser
parser state bytes n = record {
  state = state;
  stream = record { buf = bytes; offset = n; is_resizeable = false; capture = none; error = none };
  buffer_tree = false;
  emit_yaml_events = false;
  asdf_version = none;
  standard_version = none;
  tree = record {
    start = pos 0;
    end = pos 0;
    buf = none;
    found = false;
    done = false;
    has_tree = HasTree.unknown;
  };
  blocks = record {
    infos = [];
    index = [];
    index_cap = 0;
    has_index = false;
    count = 0;
    found = 0;
  };
  done = false;
}

abbrev pub yaml_taken : Parser → Bool
yaml_taken p = true

abbrev pub grown : ℕ → ℕ → ℕ
grown c n = n

pub grown_exact : (c n : ℕ) → c < n → grown c n ≡ n
grown_exact c n l = refl

abbrev pub version_1 : Version
version_1 = record { version = codes "1.0.0"; major = 1; minor = 0; patch = 0; extra = none }

pub text_1-IsPlain : IsPlain (codes "1.0.0")
text_1-IsPlain = ground arith

pub parses_1 : version_parse (some (codes "1.0.0")) ≡ some version_1
unfolding version_parse is_digit strtoul
parses_1 = refl

abbrev two_versions : List ℕ
two_versions =
    codes "#ASDF 1.0.0" ++ (b'\n' ∷ (codes "#ASDF_STANDARD 1.0.0" ++ (b'\n' ∷ codes "#")))

two_versions-IsValid : IsValid (parser State.asdf_version two_versions 0).stream
two_versions-IsValid = record { within = omega arith; small = omega arith; plain = refl }

abbrev comment : List ℕ
comment = b'\r' ∷ b'\n' ∷ (codes "# hi" ++ (b'\n' ∷ codes "%"))

comment-IsValid : IsValid (parser State.comment comment 0).stream
comment-IsValid = record { within = omega arith; small = omega arith; plain = refl }

line-IsBlank : All IsBlank (b'\r' ∷ b'\n' ∷ [])
line-IsBlank = (inl refl, (inr refl, tt))

hi-IsPlain : IsPlain (codes " hi")
hi-IsPlain = ground arith

parse_comment_comment_example :
    (parse_comment (parser State.comment comment 0)
      ≡ some (parse_event (comment_event (codes " hi")), parser State.comment comment 7))
    × (rest (parser State.comment comment 7).stream ≡ codes "%")
parse_comment_comment_example =
    parse_comment_comment (parser State.comment comment 0) (b'\r' ∷ b'\n' ∷ []) (codes " hi")
      (codes "%") comment-IsValid refl line-IsBlank hi-IsPlain refl

directive-IsValid : IsValid (parser State.comment (b'\n' ∷ codes "%YAML") 0).stream
directive-IsValid = record { within = omega arith; small = omega arith; plain = refl }

not-IsBlank : ¬ IsBlank b'%'
not-IsBlank = ground arith

no_hash : ◌≢◌ {A = ℕ} b'%' b'#'
no_hash = ground arith

abbrev tree_end : List ℕ
tree_end = codes "a: 1" ++ (b'\n' ∷ (codes "..." ++ (b'\n' ∷ codes "x")))

tree_end-IsValid : IsValid (parser State.tree tree_end 0).stream
tree_end-IsValid = record { within = omega arith; small = omega arith; plain = refl }

marker_found : scan_tokens tree_end end_tokens ≡ some (4, 0)
unfolding scan_tokens match_token starts_with
marker_found = refl

marker_ends : is_yaml_document_end_marker (drop 4 tree_end) ≡ true
unfolding is_yaml_document_end_marker starts_with
marker_ends = refl

dots : All (λ b. b ≢ b'\n') (codes "...")
dots = ground arith

parse_tree_marker_example :
    parse_tree yaml_taken 1 (parser State.tree tree_end 0)
    ≡ some (
      parse_event (tree_end_event (pos 0) (pos 9) none),
      record (parser State.padding tree_end 9) {
        tree = record {
          start = pos 0;
          end = pos 9;
          buf = none;
          found = true;
          done = false;
          has_tree = HasTree.unknown;
        };
      },
    )
parse_tree_marker_example =
    parse_tree_marker yaml_taken (parser State.tree tree_end 0) 4 0 (codes "...") (codes "x")
      tree_end-IsValid refl refl refl marker_found marker_ends refl dots

abbrev dotted : List ℕ
dotted = codes "a: |" ++ (b'\n' ∷ codes "....")

dotted-IsValid : IsValid (parser State.tree dotted 0).stream
dotted-IsValid = record { within = omega arith; small = omega arith; plain = refl }

dots_found : scan_tokens dotted end_tokens ≡ some (4, 0)
unfolding scan_tokens match_token starts_with
dots_found = refl

no_end : is_yaml_document_end_marker (drop 4 dotted) ≡ false
unfolding is_yaml_document_end_marker starts_with
no_end = refl

parse_tree_fast_stuck_example :
    parse_tree_fast 1000 (parser State.tree dotted 0) ≡ some (none, parser State.tree dotted 4)
parse_tree_fast_stuck_example =
    parse_tree_fast_stuck (parser State.tree dotted 0) 4 999 dotted-IsValid dots_found no_end

ordered : in_order (pos 10 ∷ pos 64 ∷ pos 200 ∷ []) ≡ true
unfolding in_order
ordered = refl

in_order-Apart_example : Apart 108 (pos 10) (pos 200)
in_order-Apart_example = in_order-Apart (pos 10 ∷ pos 64 ∷ pos 200 ∷ []) 0 1 ordered refl refl

abbrev no_items : List ℕ → Option (List (Option ℤ))
no_items text = none

no_header :
    scan_tokens (drop (aligned_offset 4096 8) (codes "%YAML1.1")) (block_index_header ∷ []) ≡ none
unfolding aligned_offset scan_tokens match_token starts_with
no_header = refl

start-IsValid : IsValid (parser State.block_index (codes "%YAML1.1") 0).stream
start-IsValid = record { within = omega arith; small = omega arith; plain = refl }

abbrev two_items : List ℕ → Option (List (Option ℤ))
two_items text = some (some (pos 10) ∷ none ∷ [])

read_block_index_partial_example :
    (q : Parser) × (read_block_index grown two_items (parser State.block_index (codes "%YAML1.1") 0)
      ≡ some (parse_event no_event, q))
    × (q.blocks.index ≡ pos 10 ∷ [])
    × (q.blocks.has_index ≡ false)
    × (note_block grown 1 (empty_info 1) (record q { blocks = record (q.blocks) { found = 1 } })
        ≡ none)
read_block_index_partial_example =
    read_block_index_partial grown grown_exact two_items
      (parser State.block_index (codes "%YAML1.1") 0) (pos 10 ∷ []) [] (empty_info 1) start-IsValid
      (omega arith) refl refl refl (omega arith)

abbrev pub no_yaml : M Parser Result
no_yaml = pure parse_continue
