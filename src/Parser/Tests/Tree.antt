-- ===== src/Parser/Tests/Tree.antt =====
-- The parser on a short file with a tree and a block.
use libasdf.Prelude.{ℕ, ◌^◌, ◌<◌, ◌≡◌, refl}
use libasdf.Prelude.{false, Option, none, some, arith}
use libasdf.Prelude.{List, [], ◌∷◌, ◌++◌, map, length, drop}
use libasdf.Prelude.Bytes.{codes, starts_with}
use libasdf.Prelude.Endian.{to_be}
use libasdf.Prelude.Int.{ℤ, pos}
use libasdf.Stream.{scan_tokens, match_token}
use libasdf.Token.{
  version_comment, standard_comment, is_yaml_directive, is_yaml_document_end_marker,
  block_index_header,
}
use libasdf.Block.{sized_header}
use libasdf.Parser.{
  Parser, State, asdf_version_event, standard_version_event, tree_start_event, tree_end_event,
  block_event, end_event,
}
use libasdf.Parser.Blocks.Found.{Piece, IsPiece}
use libasdf.Parser.Blocks.Section.{section_bytes, infos_at}
use libasdf.Parser.Index.{aligned_offset}
use libasdf.Parser.Machine.{parser_of}
use libasdf.Parser.Machine.Run.{Calls}
use libasdf.Parser.Machine.TreeFile.{IsTree, parser_parse-tree_file}
use libasdf.Parser.Tests.{
  grown, grown_exact, version_1, text_1-IsPlain, parses_1, no_yaml, yaml_taken,
}

abbrev piece : Piece
piece = record { header = sized_header 4; bytes = codes "xyz"; comp = none }

piece-IsPiece : IsPiece piece
piece-IsPiece = record {
  fits = record {
    flags_fit = omega arith;
    allocated_fits = omega arith;
    data_fits = omega arith;
    checksum_size = refl;
  };
  compression = tt;
  small = omega arith;
  not_streamed = refl;
}

abbrev tree : List ℕ
tree = codes "%YAML 1.1" ++ (b'\n' ∷ (codes "--- {}" ++ (b'\n' ∷ (codes "..." ++ (b'\n' ∷ [])))))

abbrev blocks : List Piece
blocks = piece ∷ []

tree-IsTree : IsTree tree (section_bytes blocks) 16 (codes "...")
unfolding is_yaml_directive is_yaml_document_end_marker scan_tokens match_token starts_with to_be
tree-IsTree = record {
  tail = _;
  starts = refl;
  directive = refl;
  found = refl;
  marker = refl;
  end_line = refl;
  one_line = ground arith;
}

abbrev file : List ℕ
file =
    version_comment
    ++ (codes "1.0.0"
        ++ (b'\n'
            ∷ (standard_comment ++ (codes "1.0.0" ++ (b'\n' ∷ (tree ++ section_bytes blocks))))))

file_small : length file < 2 ^ 63
unfolding to_be
file_small = omega arith

no_header :
    scan_tokens (drop (aligned_offset 4096 (length file)) file) (block_index_header ∷ []) ≡ none
unfolding aligned_offset scan_tokens match_token starts_with to_be
no_header = refl

abbrev no_items : List ℕ → Option (List (Option ℤ))
no_items text = none

parser_parse-tree_file_example :
    (q : Parser) × Calls grown 4096 no_items yaml_taken no_yaml 1
      (parser_of false false file)
      (asdf_version_event (some version_1)
        ∷ (standard_version_event (some version_1)
            ∷ (tree_start_event (pos 33)
                ∷ (tree_end_event (pos 33) (pos 54) none
                    ∷ (map block_event (infos_at 54 0 blocks) ++ (end_event ∷ []))))))
      q
    × (q.state ≡ State.end)
parser_parse-tree_file_example =
    parser_parse-tree_file grown grown_exact 4096 (omega arith) no_items yaml_taken no_yaml 0
      (codes "1.0.0") (codes "1.0.0") tree (codes "...") 16 blocks text_1-IsPlain text_1-IsPlain
      parses_1 parses_1 tree-IsTree (piece-IsPiece, tt) (omega arith) file_small no_header
