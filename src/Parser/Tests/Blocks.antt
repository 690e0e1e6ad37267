-- ===== src/Parser/Tests/Blocks.antt =====
-- The parser on short files: their blocks.
use libasdf.Prelude.{ℕ, ◌+◌, ◌^◌, ◌≤◌, ◌<◌, ◌≡◌, refl}
use libasdf.Prelude.{true, false, Option, none, some, arith}
use libasdf.Prelude.{List, [], ◌∷◌, ◌++◌, map, length, drop}
use libasdf.Prelude.Bytes.{codes, starts_with}
use libasdf.Prelude.Endian.{to_be, be_from}
use libasdf.Prelude.Int.{ℤ}
use libasdf.Error.{ErrorCode}
use libasdf.Stream.{scan_tokens, match_token}
use libasdf.Stream.Valid.{IsValid}
use libasdf.Token.{block_magic, is_block_magic, block_index_header}
use libasdf.Block.{sized_header}
use libasdf.Block.Read.{info_read}
use libasdf.Parser.{
  Parser, State, parse_continue, block_event, asdf_version_event, standard_version_event, end_event,
}
use libasdf.Parser.Blocks.{empty_info, parse_new_block, parse_block}
use libasdf.Parser.Blocks.Found.{Piece, IsPiece, IsReady}
use libasdf.Parser.Blocks.Section.{Reads, section_bytes, infos_at, parse_block-section}
use libasdf.Parser.Blocks.Refused.{parse_new_block_refused}
use libasdf.Parser.Index.{aligned_offset}
use libasdf.Parser.Machine.{parser_of}
use libasdf.Parser.Machine.Run.{Calls}
use libasdf.Parser.Machine.File.{file_bytes, parser_parse-file}
use libasdf.Parser.Tests.{
  parser, grown, grown_exact, version_1, text_1-IsPlain, parses_1, no_yaml, yaml_taken,
}

abbrev piece : Piece
piece = record { header = sized_header 4; bytes = codes "xyz"; comp = none }

piece-IsPiece : IsPiece piece
piece-IsPiece = record {
  fits = record {
    flags_fit = omega arith;
    allocated_fits = omega arith;
    data_fits = omega arith;
    checksum_size = refl;
  };
  compression = tt;
  small = omega arith;
  not_streamed = refl;
}

abbrev blocks : List Piece
blocks = piece ∷ piece ∷ []

abbrev first : Parser
first = parser State.block (section_bytes blocks) 0

first-IsReady : IsReady first
unfolding to_be
first-IsReady = record {
  clean = record {
    valid = record { within = omega arith; small = omega arith; plain = refl };
    no_error = refl;
  };
  no_index = refl;
  full = refl;
  room = omega arith;
}

parse_block-section_example :
    (q : Parser) × (r : Parser) × Reads grown first (infos_at 0 0 blocks) q
    × (parse_block grown q ≡ some (parse_continue, r))
    × (r.state ≡ State.end)
    × (r.blocks.infos ≡ infos_at 0 0 blocks)
    × (r.blocks.found ≡ 0 + 2)
parse_block-section_example =
    parse_block-section grown grown_exact blocks first first-IsReady
      (piece-IsPiece, (piece-IsPiece, tt)) (omega arith) refl

-- A block magic with a header size of 1, and a good block behind it.
abbrev bad : List ℕ
bad = block_magic ++ (0 ∷ 1 ∷ section_bytes blocks)

bad-IsValid :
    (n : ℕ) (e : Option ErrorCode)
    → n ≤ 6
    → IsValid (record (parser State.block bad n).stream { error = e })
unfolding to_be
bad-IsValid n e l = record { within = omega (arith, l); small = omega arith; plain = refl }

bad_magic : is_block_magic bad ≡ true
unfolding is_block_magic starts_with to_be
bad_magic = refl

refused :
    info_read (empty_info 0) (parser State.block bad 0).stream
    ≡ some (
      (false, record (empty_info 0) { header = record (sized_header 0) { header_size = 1 } }),
      record (parser State.block bad 4).stream { error = some ErrorCode.invalid_block_header },
    )
unfolding info_read be_from to_be
refused = refl

parse_new_block_refused_example :
    (q : Parser) × (parse_new_block (parser State.block bad 0) ≡ some (none, q))
    × (q.blocks ≡ (parser State.block bad 0).blocks)
parse_new_block_refused_example =
    parse_new_block_refused (parser State.block bad 0) (bad-IsValid 0 none (omega arith)) refl
      bad_magic refused (bad-IsValid 4 (some ErrorCode.invalid_block_header) (omega arith))

abbrev file : List ℕ
file = file_bytes (codes "1.0.0") (codes "1.0.0") blocks

file_small : length file < 2 ^ 63
unfolding to_be
file_small = omega arith

no_header :
    scan_tokens (drop (aligned_offset 4096 (length file)) file) (block_index_header ∷ []) ≡ none
unfolding aligned_offset scan_tokens match_token starts_with to_be
no_header = refl

abbrev no_items : List ℕ → Option (List (Option ℤ))
no_items text = none

parser_parse-file_example :
    (q : Parser) × Calls grown 4096 no_items yaml_taken no_yaml 1
      (parser_of true false file)
      (asdf_version_event (some version_1)
        ∷ (standard_version_event (some version_1)
            ∷ (map block_event (infos_at (0 + (6 + 5 + 1) + (15 + 5 + 1)) 0 blocks)
                ++ (end_event ∷ []))))
      q
    × (q.state ≡ State.end)
parser_parse-file_example =
    parser_parse-file grown grown_exact 4096 (omega arith) no_items yaml_taken no_yaml 0 true false
      (codes "1.0.0") (codes "1.0.0") piece (piece ∷ []) text_1-IsPlain text_1-IsPlain parses_1
      parses_1 (piece-IsPiece, (piece-IsPiece, tt)) (omega arith) file_small no_header
