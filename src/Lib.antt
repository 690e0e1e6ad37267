-- ===== src/Lib.antt =====
-- libasdf reads and writes ASDF files: a text header, a YAML tree, and binary blocks. This library
-- models the part of it that takes the bytes of a file apart into events and puts blocks back, and
-- the reading of arrays from the data of a block.
--
-- The parts, and the files that model them (paths from the repository's root):
--   Prelude    lists, C strings, big-endian numbers, signed numbers, and `M`, the monad of code that
--              changes a state and may fault. A fault is a failed assertion or an access outside
--              of a buffer.
--   Version    src/version.c: version_parse and version_copy.
--   Tag        src/tag.c: tag_parse.
--   Error      include/asdf/error.h: the error codes that the modelled code sets.
--   Stream     src/stream.c: the memory-backed stream. mem_next, mem_readline, mem_scan, mem_seek,
--              mem_write and the others have the names of the functions in the code; scan_tokens is
--              asdf_scan_tokens, and stream_capture and set_capture are the capture of what is consumed.
--   Reader     src/stream.h: what a stream is to its clients, as an interface of operations and laws;
--              stream_seek is asdf_stream_seek. Reader/Memory and Reader/File fill it.
--   FileStream src/stream.c and src/stream_intern.h: the stream over a file, which it reads through a
--              window. file_next, file_readline, file_scan, file_seek and the others
--              have the names of the functions in the code. FileStream/Valid has the state's
--              invariant: the window and what the FILE has left are the file from file_pos on.
--   Token      src/parse_util.c and src/parse_util.h: the tokens and the tests for line-bound markers.
--   Block      src/block.c and src/block.h: the block header. info_read is asdf_block_info_read, and
--              info_write is asdf_block_info_write; Block/RoundTrip relates the two. Block/Handle
--              has the handles of an open file's blocks, with names as in the code less asdf_.
--   Parser     src/parser.c and src/parser.h: the states of the parser. Parser/Header has the version
--              comments and comments, Parser/Tree the limits of the YAML tree, Parser/Blocks the
--              blocks, Parser/Index the block index, and Parser/Machine the loop of asdf_parser_parse.
--   Datatype   src/core/datatype.c, src/core/datatype.h and include/asdf/core/datatype.h: from_string,
--              to_string and scalar_size are asdf_scalar_datatype_from_string, _to_string and _size.
--   Ndarray    src/core/ndarray.c: read_tile is asdf_ndarray_read_tile_ndim, and read_all, read_at and
--              read_tile_2d are built on it as in the code. Ndarray/Rows has the odometer of the main
--              loop against nested loops, Ndarray/Strides the places in the array, Ndarray/Tile the
--              reads, and Ndarray/Integers the table and the loops of src/core/ndarray_convert.c for
--              the integer types.
--
-- How they interact: the parser holds a stream and moves it; every function of the parser is a
-- computation over the parser's record, and on_stream lifts one over the stream's. The token tests
-- read what the stream has left. Blocks are read from the stream by info_read. The error that the
-- shared context of the C objects holds is the field `error` of the stream.
--
-- What the models fix:
--   - a buffer is the list of its bytes, and a pointer into it the list of the bytes from there on;
--   - size_t and uint64_t wrap at 2 ^ 64, unsigned int at 2 ^ 32, and off_t is a signed number;
--   - malloc, calloc, realloc and strdup succeed, and logging has no effect;
--   - a file is the list of its bytes, and the stdio functions do to it and to the position of the
--     FILE what they document for a regular file; reading does not fail;
--   - NULL is `none`, and a function that returns a status gives an Option or a Bool.
--
-- Loops that need not end run on fuel: the comment loop, with a round for each byte of the buffer,
-- which is enough; the growth of the capture buffer, with as many rounds as bytes are needed, which
-- is enough; the searches for the end of the tree, for the start of the tree and for the block index,
-- and the rounds of the parser, with fuel that the caller gives. The scan of a file has a round for
-- each byte that is left, the loop of a tile a round for each of its rows, and the seek of an
-- unseekable stream one for each byte to pass over: these are enough, as the theorems on them show.
-- `running` and `unfinished` mark that fuel was used up.
--
-- Code outside of the repository is a parameter: libfyaml's reading of the block index (read_index)
-- and its taking of input (yaml_input), the page size of the system, the compressors, MD5, the bytes
-- of memory that realloc adds (alloc), and the growth of STC's vectors (grown). parse_yaml, the step
-- that forwards libfyaml's events, is a parameter too, since what it does hangs on them. The table of
-- the conversion functions is a parameter of the reads, so that they do not hang on the types; it is
-- filled in by get_convert_fn where source and destination are integers.
--
-- Not modelled: writes and flushes of the file stream, which follow its reads without a positioning
-- call, so that stdio leaves them undefined, and which the code notes not to be correct; the mmaps of
-- the file stream, the contents of the YAML events, the conversions from and to floating point, the
-- emitter, the values of the tree, and the extensions.
pub mod Prelude
pub mod Version
pub mod Tag
pub mod Error
pub mod Stream
pub mod Reader
pub mod FileStream
pub mod Token
pub mod Block
pub mod Parser
pub mod Datatype
pub mod Ndarray
