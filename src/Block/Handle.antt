-- ===== src/Block/Handle.antt =====
-- src/block.c and src/file.h: the handles of the blocks of an open file. The file has no parser, or
-- one that is done, so that all its blocks are known. A handle belongs to the one file there is.
pub mod Append
use libasdf.Prelude.{
  ℕ, zero, suc, ◌+◌, ◌-◌, ◌*◌, ◌/◌, ◌%◌, ◌^◌, ◌≤◌, ◌<◌, min, max, ◌≡◌, refl, sym, ap, ap₂, ◌∙◌,
}
use libasdf.Prelude.{
  ◌≢◌, ◌↔◌, ◌⊎◌, inl, inr, Bool, true, false, not, ◌&&◌, ◌||◌, Option, none, some, arith,
}
use libasdf.Prelude.{
  List, [], ◌∷◌, ◌++◌, map, length, get_elem?, get_or, set, take, drop, replicate, All,
}
use libasdf.Prelude.{ltb, leb, ◌==◌, if◌then◌else◌, Bool-cases, Option-cases, tests}
use libasdf.Prelude.{
  length-append, length-take, length-drop, length-replicate, take-append, drop-append, drop-drop,
  drop-nil, drop_all, take-append-drop,
}
use libasdf.Prelude.{M, pure, fault, ◌>>=◌, ◌>>◌, get, gets, modify, read, assert, >>=-eq-some}
use libasdf.Prelude.Int.{ℤ, negsuc}
use libasdf.Prelude.Bytes.{size_mod}
use libasdf.Error.{ErrorCode, stream_read_only, over_limit, unknown_compression}
use libasdf.Block.{Header, Compressor, BlockInfo, header_len, zero_header, info_deinit}

-- `asdf_file_t`, as far as its blocks are concerned, with the error of its context.
pub record File : Type 0 where
  pub read_only : Bool
  pub blocks : List BlockInfo
  pub error : Option ErrorCode

-- `asdf_block_t`, without the parts for reading its data.
pub record Handle : Type 0 where
  pub info : BlockInfo
  pub detached : Bool

-- `SIZE_MAX`
abbrev pub size_max : ℕ
size_max = size_mod - 1

-- The info of the block that `calloc` and `asdf_file_block_create` make.
abbrev pub new_info : BlockInfo
new_info = record {
  index = size_max;
  header_pos = negsuc 0;
  data_pos = negsuc 0;
  header = record zero_header { header_size = header_len };
  data_bytes = none;
  data_size = 0;
  data_owned = false;
  data_mmapped = false;
  data_is_compressed = false;
  write_compressor = none;
}

-- The header with the sizes of new data.
abbrev pub with_sizes : ℕ → ℕ → Header → Header
with_sizes data_size used_size h = record h { data_size = data_size; used_size = used_size }

-- `asdf_block_data_set`
unfoldable pub data_set : List ℕ → Handle → Handle
data_set bytes block =
    let dropped = info_deinit block.info in
    record block {
      info = record dropped {
        data_bytes = some bytes;
        data_size = length bytes;
        data_owned = false;
        data_is_compressed = false;
        header = with_sizes (length bytes) (length bytes) dropped.header;
      };
    }

-- The buffer that `asdf_block_data_alloc` uses again.
abbrev pub has_buffer : ℕ → BlockInfo → Bool
has_buffer size info =
    (elim info.data_bytes [ none ↦ false | some bytes ↦ true ])
    && info.data_owned
    && info.data_mmapped
    && not info.data_is_compressed
    && info.data_size == size

-- `asdf_block_data_alloc`; the memory that `mmap` gives is filled with zeros.
unfoldable pub data_alloc : ℕ → Handle → Handle
data_alloc size block =
    let dropped = info_deinit block.info in
    if has_buffer size block.info then block else record block {
      info = record dropped {
        data_bytes = some (replicate size 0);
        data_size = size;
        data_owned = true;
        data_mmapped = true;
        data_is_compressed = false;
        header = with_sizes size size dropped.header;
      };
    }

-- The compression field of `asdf_block_data_set_compressed`: four bytes of the string and its NUL,
-- which must be there.
abbrev pub field_of : Option (List ℕ) → Option (List ℕ)
field_of none = some (replicate 4 0)
field_of (some []) = some (replicate 4 0)
field_of (some (c ∷ cs)) = if ltb (length cs) 2 then none else some (take 4 ((c ∷ cs) ++ (0 ∷ [])))

-- `asdf_block_data_set_compressed`; `none` where it reads past the string.
unfoldable pub data_set_compressed : List ℕ → ℕ → Option (List ℕ) → Handle → Option Handle
data_set_compressed bytes data_size compression block =
    let dropped = info_deinit block.info in
    elim (field_of compression) [
      | none ↦ none
      | some field ↦ some (record block {
        info = record dropped {
          data_bytes = some bytes;
          data_size = length bytes;
          data_owned = false;
          data_is_compressed = true;
          write_compressor = none;
          header = record (with_sizes data_size (length bytes) dropped.header) {
            compression = field;
          };
        };
      })
    ]

-- `asdf_file_block_create`: a block over the bytes given, or over a buffer of its own.
unfoldable pub block_create : Option (List ℕ) → ℕ → Handle
unfolding data_set data_alloc
block_create (some bytes) size = data_set bytes (record { info = new_info; detached = true })
block_create none size =
    if ltb 0 size
    then data_alloc size (record { info = new_info; detached = true })
    else record { info = new_info; detached = true }

-- `asdf_block_open`; `none` is NULL.
unfoldable pub block_open : ℕ → File → Option Handle
block_open index file =
    if leb (length file.blocks) index then none else elim (get_elem? file.blocks index) [
      | none ↦ none
      | some info ↦ some (record { info = record info { data_owned = false }; detached = false })
    ]

-- A change of a block that goes on to the file's own info, if the block is appended. A place
-- outside of the vector is a fault.
unfoldable pub propagate : (BlockInfo → BlockInfo) → Handle → File → Option File
propagate change block file =
    if not block.detached && not (block.info.index == size_max)
    then elim (get_elem? file.blocks block.info.index) [
      | none ↦ none
      | some info ↦ some (record file { blocks = set file.blocks block.info.index (change info) })
    ]
    else some file

abbrev pub with_allocated : ℕ → BlockInfo → BlockInfo
with_allocated n info = record info { header = record (info.header) { allocated_size = n } }

-- `asdf_block_allocated_size_set`
unfoldable pub allocated_size_set : ℕ → Handle → File → Option (Handle × File)
allocated_size_set n block file =
    let block' : Handle = record block { info = with_allocated n block.info } in
    elim (propagate (with_allocated n) block' file) [ none ↦ none | some f ↦ some (block', f) ]

abbrev pub with_compressor : Compressor → BlockInfo → BlockInfo
with_compressor comp info = record info { write_compressor = some comp }

-- `asdf_block_compression_set`, with the compressor that the registry has for the name, and whether
-- it returned 0.
unfoldable pub compression_set : Option Compressor → Handle → File → Option (Bool × Handle × File)
compression_set none block file =
    some (false, block, record file { error = some unknown_compression })
compression_set (some comp) block file =
    let block' : Handle = record block { info = with_compressor comp block.info } in
    elim (propagate (with_compressor comp) block' file) [
      | none ↦ none
      | some f ↦ some (true, block', f)
    ]

-- `asdf_block_append`: whether it returned the block.
unfoldable pub block_append : Handle → File → Bool × Handle × File
block_append block file =
    if file.read_only
    then (false, block, record file { error = some stream_read_only })
    else if not block.detached
    then (false, block, file)
    else if leb (2 ^ 63 - 1) (length file.blocks)
    then (false, block, record file { error = some over_limit })
    else let info : BlockInfo = record (block.info) { index = length file.blocks } in
      (
        true,
        record block { info = record info { data_owned = false }; detached = false },
        record file { blocks = file.blocks ++ (info ∷ []) },
      )
