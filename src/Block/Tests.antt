-- ===== src/Block/Tests.antt =====
-- A block of three bytes, written and read back, and a header that is refused.
use libasdf.Prelude.{ℕ, ◌+◌, ◌≡◌, refl}
use libasdf.Prelude.{true, false, Option, none, some, arith}
use libasdf.Prelude.{List, [], ◌∷◌, ◌++◌, length, drop, replicate}
use libasdf.Prelude.{length-replicate}
use libasdf.Prelude.Bytes.{codes, add_size}
use libasdf.Prelude.Endian.{to_be, be_value, be_from}
use libasdf.Prelude.Int.{negsuc}
use libasdf.Error.{ErrorCode}
use libasdf.Stream.{Stream, size}
use libasdf.Token.{block_magic}
use libasdf.Block.{Header, BlockInfo, sized_header}
use libasdf.Block.Read.{info_read}
use libasdf.Block.Read.Clean.{IsClean, filled}
use libasdf.Block.Read.Fields.{HeaderFields, IsSized, described, info_read_header}
use libasdf.Block.Read.Sticky.{info_read_sticky}
use libasdf.Block.Write.{write_payload, payload, allocated_for}
use libasdf.Block.Write.Append.{
  IsAppending, block_bytes, padding, written, summed, appended, write_payload-append,
}
use libasdf.Block.{Compressor}
use libasdf.Block.Handle.{
  File, Handle, block_append, block_open, with_allocated, with_compressor, allocated_size_set,
  compression_set,
}
use libasdf.Block.Handle.Append.{placed, block_append-block_open, set-block_append}
use libasdf.Block.RoundTrip.{Fits, stored, info_read-write_payload}

abbrev blank : BlockInfo
blank = record {
  index = 0;
  header_pos = negsuc 0;
  data_pos = negsuc 0;
  header = sized_header 3;
  data_bytes = none;
  data_size = 3;
  data_owned = false;
  data_mmapped = false;
  data_is_compressed = false;
  write_compressor = none;
}

abbrev stream : List ℕ → Stream
stream bs = record { buf = bs; offset = 0; is_resizeable = true; capture = none; error = none }

abbrev fields : List ℕ
fields = replicate 8 0 ++ (to_be 8 4 ++ (to_be 8 3 ++ (to_be 8 3 ++ replicate 16 0)))

abbrev header : List ℕ
header = block_magic ++ (to_be 2 48 ++ (fields ++ codes "xyz."))

header-IsClean : IsClean (stream header)
unfolding to_be
header-IsClean = record {
  valid = record { within = omega arith; small = omega arith; plain = refl };
  no_error = refl;
}

size_value : be_value (to_be 2 48) ≡ 48
unfolding to_be be_from
size_value = refl

size_length : length (to_be 2 48) ≡ 2
unfolding to_be
size_length = refl

length-fields : length fields ≡ 48
unfolding to_be
length-fields = refl

abbrev pieces : HeaderFields
pieces = record {
  flags = replicate 4 0;
  compression = replicate 4 0;
  allocated_size = to_be 8 4;
  used_size = to_be 8 3;
  data_size = to_be 8 3;
  checksum = replicate 16 0;
}

pieces-IsSized : IsSized pieces
unfolding to_be
pieces-IsSized = record {
  flags_size = refl;
  compression_size = refl;
  allocated_bytes = refl;
  used_bytes = refl;
  data_bytes = refl;
  checksum_size = refl;
}

info_read_header_example :
    info_read blank (stream header)
    ≡ some (
      (
        true,
        filled (described (be_value (to_be 2 48)) pieces) 0 (0 + 6 + be_value (to_be 2 48)) blank,
      ),
      record (stream header) { offset = 0 + 6 + be_value (to_be 2 48) },
    )
info_read_header_example =
    info_read_header blank block_magic (to_be 2 48) pieces [] (codes "xyz.") header-IsClean refl
      refl size_length size_value pieces-IsSized

abbrev short : Stream
short = stream (block_magic ++ (0 ∷ 1 ∷ []))

refused :
    info_read blank short
    ≡ some (
      (false, record blank { header = record (sized_header 3) { header_size = 1 } }),
      record short { offset = 4; error = some ErrorCode.invalid_block_header },
    )
unfolding info_read be_from
refused = refl

-- The header that is refused has a size of 1; the next stream has a whole header.
info_read_sticky_example :
    (e : ErrorCode) × (some ErrorCode.invalid_block_header ≡ some e)
    × (info_read blank (record (stream header) { error = some ErrorCode.invalid_block_header })
        ≡ some (
          (false, blank),
          record (stream header) {
            offset = add_size 0 4;
            error = some ErrorCode.invalid_block_header;
          },
        ))
info_read_sticky_example =
    info_read_sticky blank blank short
      (record short { offset = 4; error = some ErrorCode.invalid_block_header }) (stream header)
      refl refl refused

abbrev digest : List ℕ → List ℕ
digest bs = replicate 16 7

abbrev alloc : ℕ → List ℕ
alloc n = replicate n 0

alloc_size : (n : ℕ) → length (alloc n) ≡ n
alloc_size n = length-replicate n 0

abbrev comp_open : BlockInfo → List ℕ → Option (List ℕ)
comp_open info bytes = none

abbrev three : List ℕ
three = codes "xyz"

abbrev summed_header : Header
summed_header = summed digest true blank three

has_room : IsAppending (stream []) (length (block_bytes summed_header three none))
unfolding to_be
has_room = record { grows = refl; at_end = refl; room = omega arith }

write_payload-append_example :
    write_payload digest alloc comp_open true blank (payload three none) (stream [])
    ≡ some (
      (true, written digest true 0 blank three),
      appended (stream []) (block_bytes summed_header three none),
    )
write_payload-append_example =
    write_payload-append digest (λ bs. refl) alloc alloc_size comp_open true blank three none
      (stream []) tt refl has_room

fits : Fits (sized_header 3)
fits = record {
  flags_fit = omega arith;
  allocated_fits = omega arith;
  data_fits = omega arith;
  checksum_size = refl;
}

info_read-write_payload_example :
    (t : Stream) × (write_payload digest alloc comp_open true blank (payload three none) (stream [])
      ≡ some ((true, written digest true 0 blank three), t))
    × (info_read blank (record t { offset = 0 })
        ≡ some (
          (true, filled (stored summed_header three none) 0 (0 + 54) blank),
          record t { offset = 0 + 54 },
        ))
    × (drop (0 + 54) t.buf ≡ three ++ padding summed_header three)
    × (0 + 54 + allocated_for summed_header 3 ≡ size t)
info_read-write_payload_example =
    info_read-write_payload digest (λ bs. refl) alloc alloc_size comp_open true blank blank three
      none (stream []) tt fits has_room refl refl

abbrev detached_block : Handle
detached_block = record { info = blank; detached = true }

abbrev one_block : File
one_block = record { read_only = false; blocks = blank ∷ []; error = none }

abbrev zlib : Compressor
zlib = record { name = codes "zlib"; comp = λ bytes. some bytes }

block_append-block_open_example :
    (view' : Handle) × (file' : File) × (block_append detached_block one_block
      ≡ (true, view', file'))
    × (file'.blocks ≡ blank ∷ (placed one_block blank ∷ []))
    × (block_open 1 file' ≡ some view')
    × (block_append view' file' ≡ (false, view', file'))
block_append-block_open_example =
    block_append-block_open detached_block one_block refl refl (omega arith)

set-block_append_example :
    (v : Handle) × (f : File) × (v2 : Handle) × (f2 : File) × (v3 : Handle) × (f3 : File)
    × (block_append detached_block one_block ≡ (true, v, f))
    × (block_append (record detached_block { info = with_allocated 64 blank }) one_block
        ≡ (true, v2, f2))
    × (allocated_size_set 64 v f ≡ some (v2, f2))
    × (block_append (record detached_block { info = with_compressor zlib blank }) one_block
        ≡ (true, v3, f3))
    × (compression_set (some zlib) v f ≡ some (true, v3, f3))
set-block_append_example = set-block_append 64 zlib detached_block one_block refl refl (omega arith)
