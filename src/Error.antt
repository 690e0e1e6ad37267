-- ===== src/Error.antt =====
-- include/asdf/error.h: the error codes.
pub data ErrorCode : Type 0 where
  unknown_state stream_init_failed stream_read_only invalid_asdf_header unexpected_eof : ErrorCode
  invalid_block_header block_magic_mismatch yaml_parser_init_failed yaml_parse_failed : ErrorCode
  out_of_memory system invalid_argument unknown_compression compression_failed : ErrorCode
  extension_not_found over_limit : ErrorCode
