-- ===== src/Block/Write.antt =====
-- `asdf_block_info_write`: a block's header and data, written to a stream.
pub mod Append
use libasdf.Prelude.{
  ℕ, zero, suc, ◌+◌, ◌-◌, ◌*◌, ◌/◌, ◌%◌, ◌^◌, ◌≤◌, ◌<◌, min, max, ◌≡◌, refl, sym, ap, ap₂, ◌∙◌,
}
use libasdf.Prelude.{
  ◌≢◌, ◌↔◌, ◌⊎◌, inl, inr, Bool, true, false, not, ◌&&◌, ◌||◌, Option, none, some, arith,
}
use libasdf.Prelude.{
  List, [], ◌∷◌, ◌++◌, map, length, get_elem?, get_or, set, take, drop, replicate, All,
}
use libasdf.Prelude.{ltb, leb, ◌==◌, if◌then◌else◌, Bool-cases, Option-cases, tests}
use libasdf.Prelude.{
  length-append, length-take, length-drop, length-replicate, take-append, drop-append, drop-drop,
  drop-nil, drop_all, take-append-drop,
}
use libasdf.Prelude.{M, pure, fault, ◌>>=◌, ◌>>◌, get, gets, modify, read, assert, >>=-eq-some}
use libasdf.Prelude.Int.{ℤ, pos, negsuc, to_off}
use libasdf.Prelude.Endian.{to_be}
use libasdf.Error.{ErrorCode, out_of_memory, compression_failed}
use libasdf.Stream.{Stream, set_error, mem_tell, mem_write, mem_open_mem}
use libasdf.Token.{block_magic}
use libasdf.Block.{Header, Compressor, BlockInfo, header_len}

-- The bytes that a block is written from: the source, if there is one, and whether it is
-- compressed; `no_region` where `open_mem` gives NULL.
pub data Source : Type 0 where
  no_region : Source
  source : Option (List ℕ) → Bool → Source

-- The `else if` of the source: the region of the input file, if the block has one.
unfoldable pub region_of : Option Stream → BlockInfo → Source
unfolding mem_open_mem
region_of none info = source none false
region_of (some input) info = elim info.data_pos [
  | negsuc n ↦ source none false
  | pos p ↦ elim (mem_open_mem (pos p) info.header.used_size input) [
    | none ↦ no_region
    | some (none, t) ↦ no_region
    | some (some (start, avail), t) ↦
        source (some (take avail (drop start input.buf)))
          (not (get_or info.header.compression 0 0 == 0))
  ]
]

unfoldable pub source_of : Option Stream → BlockInfo → Source
unfolding region_of
source_of input info = elim info.data_bytes [
  | some bytes ↦ source (some bytes) info.data_is_compressed
  | none ↦ region_of input info
]

-- What is written: the bytes, and the compression field if there is one.
pub data Payload : Type 0 where
  failed : Option ErrorCode → Payload
  payload : List ℕ → Option (List ℕ) → Payload

abbrev pub compressed_by : Compressor → Option (List ℕ) → Payload
compressed_by c none = failed none
compressed_by c (some out) = payload out (some c.name)

-- `WRITE_CHECK` for several pieces in turn: false as soon as one is not written whole. The memory
-- that a write adds to the stream's buffer first holds the bytes `alloc n`.
module _ (alloc : ℕ → List ℕ) where
  unfoldable pub write_pieces : List (List ℕ) → M Stream Bool
  unfolding mem_write
  write_pieces [] s = some (true, s)
  write_pieces (p ∷ ps) s = elim (mem_write (alloc (length p)) p s) [
    | none ↦ none
    | some (n, t) ↦ if n == length p then write_pieces ps t else some (false, t)
  ]

-- The padding, in pieces of at most 512 zeros, on fuel.
unfoldable pub zero_pieces : ℕ → ℕ → List (List ℕ)
zero_pieces zero remaining = []
zero_pieces (suc f) remaining =
    let chunk = if ltb 512 remaining then 512 else remaining in
    let more = zero_pieces f (remaining - chunk) in
    if ltb 0 remaining then replicate chunk 0 ∷ more else []

-- `allocated_size` as it is written.
abbrev pub allocated_for : Header → ℕ → ℕ
allocated_for h used = if ltb h.allocated_size used then used else h.allocated_size

abbrev pub comp_field : Option (List ℕ) → List ℕ
comp_field none = replicate 4 0
comp_field (some name) = take 4 name

-- The pieces of the header up to `data_size`.
abbrev pub header_pieces : Header → List ℕ → Option (List ℕ) → List (List ℕ)
header_pieces h bytes comp =
    block_magic
    ∷ to_be 2 header_len
    ∷ to_be 4 h.flags
    ∷ comp_field comp
    ∷ to_be 8 (allocated_for h (length bytes))
    ∷ to_be 8 (length bytes)
    ∷ to_be 8 h.data_size
    ∷ []

-- The data, if there is any, and the padding, which is never longer than the allocated size.
abbrev pub body_pieces : Header → List ℕ → List (List ℕ)
body_pieces h [] = zero_pieces (allocated_for h 0) (allocated_for h 0)
body_pieces h (b ∷ bs) =
    (b ∷ bs)
    ∷ zero_pieces (allocated_for h (length (b ∷ bs)))
        (allocated_for h (length (b ∷ bs)) - length (b ∷ bs))

-- The checksum that the header has when it is written.
abbrev pub with_checksum : (List ℕ → List ℕ) → Bool → List ℕ → BlockInfo → BlockInfo
with_checksum md5 checksum bytes info =
    if checksum
    then record info { header = record (info.header) { checksum = md5 bytes } }
    else info

-- What the code takes from elsewhere: the digest of libmd, the memory of `realloc`, and
-- `asdf_block_comp_open` of src/compression/compression.c, which gives the decompressed bytes.
module _ (md5 : List ℕ → List ℕ) (alloc : ℕ → List ℕ)
    (comp_open : BlockInfo → List ℕ → Option (List ℕ)) where
  recompress : Compressor → BlockInfo → List ℕ → Payload
  recompress c info bytes = elim (comp_open info bytes) [
    | none ↦ failed (some compression_failed)
    | some plain ↦ compressed_by c (c.comp plain)
  ]

  -- The choice between compressing, recompressing and writing verbatim.
  unfoldable pub payload_of : BlockInfo → Option (List ℕ) → Bool → Payload
  unfolding recompress
  payload_of info none is_compressed =
      payload [] (if is_compressed then some info.header.compression else none)
  payload_of info (some bytes) is_compressed = elim info.write_compressor [
    | none ↦ payload bytes (if is_compressed then some info.header.compression else none)
    | some c ↦ if is_compressed then recompress c info bytes else compressed_by c (c.comp bytes)
  ]

  unfoldable pub write_body : Bool → BlockInfo → List ℕ → ℤ → M Stream (Bool × BlockInfo)
  write_body false info bytes data_at = pure (false, info)
  write_body true info bytes data_at = do
    whole ← write_pieces alloc (body_pieces info.header bytes)
    pure (whole, record info { data_pos = data_at })

  -- From the checksum on; false is the `ret` of a write that came out short.
  unfoldable pub finish_write : Bool → BlockInfo → List ℕ → M Stream (Bool × BlockInfo)
  finish_write false info bytes = pure (false, info)
  finish_write true info bytes = do
    wrote ← write_pieces alloc (info.header.checksum ∷ [])
    data_at ← mem_tell
    write_body wrote info bytes data_at

  -- The writes, with the block as they leave it.
  unfoldable pub write_payload : Bool → BlockInfo → Payload → M Stream (Bool × BlockInfo)
  write_payload checksum info (failed none) = pure (false, info)
  write_payload checksum info (failed (some e)) = do set_error e; pure (false, info)
  write_payload checksum info (payload bytes comp) = do
    header_at ← mem_tell
    let info' = record info { header_pos = header_at }
    wrote ← write_pieces alloc (header_pieces info.header bytes comp)
    finish_write wrote (if wrote then with_checksum md5 checksum bytes info' else info') bytes

  -- `asdf_block_info_write`, where the input is the stream of the file's parser, if there is one.
  unfoldable pub info_write : Option Stream → Bool → BlockInfo → M Stream (Bool × BlockInfo)
  info_write input checksum info = elim (source_of input info) [
    | no_region ↦ (do set_error out_of_memory; pure (false, info))
    | source bytes is_compressed ↦ write_payload checksum info (payload_of info bytes is_compressed)
  ]
