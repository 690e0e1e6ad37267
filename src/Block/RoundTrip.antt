-- ===== src/Block/RoundTrip.antt =====
-- A block that was written is read back.
use libasdf.Prelude.{ℕ, ◌+◌, ◌-◌, ◌^◌, ◌≤◌, ◌<◌, ◌≡◌, refl, sym, ap, ap₂, ◌∙◌}
use libasdf.Prelude.{Bool, true, false, Option, none, some, arith}
use libasdf.Prelude.{List, [], ◌++◌, length, drop}
use libasdf.Prelude.{length-append, length-replicate, drop-append, drop-drop}
use mathlib.Core.List.{append-nil, append_assoc}
use libasdf.Prelude.{drop_exact}
use libasdf.Prelude.Endian.{to_be, length-to_be, be_value-to_be}
use libasdf.Stream.{Stream, size, rest}
use libasdf.Token.{block_magic}
use libasdf.Block.{Header, BlockInfo, header_len}
use libasdf.Block.Read.{parse_fields, info_read}
use libasdf.Block.Read.Clean.{IsClean, filled, advance, info_read_parsed}
use libasdf.Block.Read.Fields.{
  HeaderFields, IsSized, laid_out, parse_fields-laid_out, length-laid_out,
}
use libasdf.Block.Write.{allocated_for, comp_field, write_payload, payload}
use libasdf.Block.Write.Append.{
  IsAppending, appended, padding, header_bytes, block_bytes, IsCompression, length-comp_field,
}
use libasdf.Block.Write.Append.{written, summed, write_payload-append}

-- The numbers of a header fit their fields.
pub record Fits (h : Header) : Type 0 where
  pub flags_fit : h.flags < 2 ^ 32
  pub allocated_fits : h.allocated_size < 2 ^ 64
  pub data_fits : h.data_size < 2 ^ 64
  pub checksum_size : length h.checksum ≡ 16

-- The header that stands in the file: the sizes are those of what was written.
abbrev pub stored : Header → List ℕ → Option (List ℕ) → Header
stored h bytes comp = record {
  header_size = header_len;
  flags = h.flags;
  compression = comp_field comp;
  allocated_size = allocated_for h (length bytes);
  used_size = length bytes;
  data_size = h.data_size;
  checksum = h.checksum;
}

-- The fields that stand in the file.
abbrev stored_fields : Header → List ℕ → Option (List ℕ) → HeaderFields
stored_fields h bytes comp = record {
  flags = to_be 4 h.flags;
  compression = comp_field comp;
  allocated_size = to_be 8 (allocated_for h (length bytes));
  used_size = to_be 8 (length bytes);
  data_size = to_be 8 h.data_size;
  checksum = h.checksum;
}

stored_fields-IsSized :
    (h : Header) (bytes : List ℕ) (comp : Option (List ℕ))
    → Fits h
    → IsCompression comp
    → IsSized (stored_fields h bytes comp)
stored_fields-IsSized h bytes comp f c = record {
  flags_size = length-to_be 4 h.flags;
  compression_size = length-comp_field comp c;
  allocated_bytes = length-to_be 8 (allocated_for h (length bytes));
  used_bytes = length-to_be 8 (length bytes);
  data_bytes = length-to_be 8 h.data_size;
  checksum_size = f.checksum_size;
}

abbrev field_bytes : Header → List ℕ → Option (List ℕ) → List ℕ → List ℕ
field_bytes h bytes comp more = laid_out (stored_fields h bytes comp) more

parse_fields-field_bytes :
    (h : Header) (bytes : List ℕ) (comp : Option (List ℕ)) (more : List ℕ)
    → Fits h
    → IsCompression comp
    → length bytes < 2 ^ 63
    → parse_fields header_len (field_bytes h bytes comp more) ≡ stored h bytes comp
parse_fields-field_bytes h bytes comp more f c l =
    let n : ℕ = allocated_for h (length bytes) in
    let small : n < 256 ^ 8 = ground (arith, f.allocated_fits) in
    parse_fields-laid_out header_len (stored_fields h bytes comp) more
      (stored_fields-IsSized h bytes comp f c)
    ∙ (λ i. record {
      header_size = header_len;
      flags = be_value-to_be 4 h.flags (omega (arith, f.flags_fit)) i;
      compression = comp_field comp;
      allocated_size = be_value-to_be 8 n small i;
      used_size = be_value-to_be 8 (length bytes) (omega arith) i;
      data_size = be_value-to_be 8 h.data_size (omega (arith, f.data_fits)) i;
      checksum = h.checksum;
    })

field_bytes-append :
    (h : Header) (bytes : List ℕ) (comp : Option (List ℕ)) (more : List ℕ)
    → field_bytes h bytes comp [] ++ more ≡ field_bytes h bytes comp more
field_bytes-append h bytes comp more = simp (append_assoc, append-nil)

length-field_bytes :
    (h : Header) (bytes : List ℕ) (comp : Option (List ℕ))
    → Fits h
    → IsCompression comp
    → length (field_bytes h bytes comp []) ≡ 48
length-field_bytes h bytes comp f c =
    length-laid_out (stored_fields h bytes comp) [] (stored_fields-IsSized h bytes comp f c)

pub block_bytes-pieces :
    (h : Header) (bytes : List ℕ) (comp : Option (List ℕ))
    → block_bytes h bytes comp
      ≡ block_magic ++ (to_be 2 header_len ++ field_bytes h bytes comp (bytes ++ padding h bytes))
block_bytes-pieces h bytes comp = simp (append_assoc, append-nil)

pub length-header_bytes :
    (h : Header) (bytes : List ℕ) (comp : Option (List ℕ))
    → Fits h
    → IsCompression comp
    → length (header_bytes h bytes comp) ≡ 54
length-header_bytes h bytes comp f c =
    let e : header_bytes h bytes comp
        ≡ block_magic ++ (to_be 2 header_len ++ field_bytes h bytes comp []) =
      simp (append_assoc, append-nil) in
    omega (
      arith,
      ap length e,
      length-field_bytes h bytes comp f c,
      length-to_be 2 header_len,
      length-append (to_be 2 header_len) (field_bytes h bytes comp []),
    )

length-block_bytes :
    (h : Header) (bytes : List ℕ) (comp : Option (List ℕ))
    → Fits h
    → IsCompression comp
    → length (block_bytes h bytes comp) ≡ 54 + length (bytes ++ padding h bytes)
length-block_bytes h bytes comp f c = omega (
  arith,
  length-header_bytes h bytes comp f c,
  length-append (header_bytes h bytes comp) (bytes ++ padding h bytes),
)

pub allocated-ge : (h : Header) (n : ℕ) → n ≤ allocated_for h n
allocated-ge h n = ground arith

-- A stream that holds a block, at the block's first byte.
pub info_read-block_bytes :
    (info : BlockInfo) (h : Header) (bytes : List ℕ) (comp : Option (List ℕ)) (more : List ℕ)
    {r : Stream}
    → Fits h
    → IsCompression comp
    → length bytes < 2 ^ 63
    → IsClean r
    → rest r ≡ block_bytes h bytes comp ++ more
    → info_read info r
      ≡ some (
        (true, filled (stored h bytes comp) r.offset (r.offset + 54) info),
        advance 48 (advance 2 (advance 4 r)),
      )
info_read-block_bytes info h bytes comp more {r} f c l cl e =
    let body : List ℕ = bytes ++ padding h bytes in
    let pieces : rest r
        ≡ block_magic ++ (to_be 2 header_len ++ (field_bytes h bytes comp [] ++ (body ++ more))) =
      e ∙ ap (λ b. b ++ more) (block_bytes-pieces h bytes comp) ∙ simp (append_assoc, append-nil) in
    let result : Header → ℕ → Option ((Bool × BlockInfo) × Stream) =
      λ k n. some ((true, filled k r.offset n info), advance 48 (advance 2 (advance 4 r))) in
    info_read_parsed info block_magic (to_be 2 header_len) (field_bytes h bytes comp [])
      (body ++ more) 48 cl pieces refl (length-to_be 2 header_len)
      (be_value-to_be 2 header_len (omega arith)) (omega arith)
      (length-field_bytes h bytes comp f c)
    ∙ ap₂ result
        (ap (parse_fields 48) (field_bytes-append h bytes comp (body ++ more))
          ∙ parse_fields-field_bytes h bytes comp (body ++ more) f c l)
        (omega arith)

module _ (md5 : List ℕ → List ℕ) (md5_size : (bs : List ℕ) → length (md5 bs) ≡ 16)
    (alloc : ℕ → List ℕ) (alloc_size : (n : ℕ) → length (alloc n) ≡ n)
    (comp_open : BlockInfo → List ℕ → Option (List ℕ)) where
  summed-Fits :
      (checksum : Bool) (info : BlockInfo) (bytes : List ℕ)
      → Fits info.header
      → Fits (summed md5 checksum info bytes)
  summed-Fits true info bytes f = record {
    flags_fit = f.flags_fit;
    allocated_fits = f.allocated_fits;
    data_fits = f.data_fits;
    checksum_size = md5_size bytes;
  }
  summed-Fits false info bytes f = f

  -- A block written at the end of a stream over `malloc`ed memory, whose context has no error and
  -- no capture, is read back from where it begins: with the flags, the compression field, the data
  -- size and the checksum that were written, the size of the payload as used size, and the larger
  -- of it and the block's allocated size as allocated size. The data position that both note is
  -- where the payload stands, and as many bytes as are allocated follow it up to the end of the
  -- stream. The numbers of the header fit their fields, and the stream stays shorter than 2 ^ 63
  -- bytes.
  pub info_read-write_payload :
      (checksum : Bool) (info info' : BlockInfo) (bytes : List ℕ) (comp : Option (List ℕ))
      (s : Stream)
      → IsCompression comp
      → Fits info.header
      → IsAppending s (length (block_bytes (summed md5 checksum info bytes) bytes comp))
      → s.error ≡ none
      → s.capture ≡ none
      → (let h = summed md5 checksum info bytes in
          (t : Stream) × (write_payload md5 alloc comp_open checksum info (payload bytes comp) s
            ≡ some ((true, written md5 checksum (size s) info bytes), t))
          × (info_read info' (record t { offset = size s })
              ≡ some (
                (true, filled (stored h bytes comp) (size s) (size s + 54) info'),
                record t { offset = size s + 54 },
              ))
          × (drop (size s + 54) t.buf ≡ bytes ++ padding h bytes)
          × (size s + 54 + allocated_for h (length bytes) ≡ size t))
  info_read-write_payload checksum info info' bytes comp s c f a e p =
      let h : Header = summed md5 checksum info bytes in
      let g : Fits h = summed-Fits checksum info bytes f in
      let block : List ℕ = block_bytes h bytes comp in
      let t : Stream = appended s block in
      let r : Stream = record t { offset = size s } in
      let total : size t ≡ size s + length block = length-append s.buf block in
      let parts : length block ≡ 54 + length (bytes ++ padding h bytes) =
        length-block_bytes h bytes comp g c in
      let short : length bytes < 2 ^ 63 =
        omega (arith, a.room, parts, length-append bytes (padding h bytes)) in
      let clean : IsClean r = record {
        valid = record {
          within = omega (arith, total);
          small = omega (arith, total, a.room);
          plain = p;
        };
        no_error = e;
      } in
      let here : rest r ≡ block ++ [] = drop-append s.buf block ∙ sym (append-nil block) in
      let result : ℕ → Option ((Bool × BlockInfo) × Stream) = λ k. some (
        (true, filled (stored h bytes comp) (size s) (size s + 54) info'),
        record t { offset = k },
      ) in
      let behind : drop (size s + 54) t.buf ≡ bytes ++ padding h bytes =
        sym (drop-drop 54 (size s) t.buf)
        ∙ ap (drop 54) (drop-append s.buf block)
        ∙ drop_exact 54 (header_bytes h bytes comp) (bytes ++ padding h bytes)
            (length-header_bytes h bytes comp g c) in
      (
        t,
        write_payload-append md5 md5_size alloc alloc_size comp_open checksum info bytes comp s c
            f.checksum_size a,
        info_read-block_bytes info' h bytes comp [] g c short clean here ∙ ap result (omega arith),
        behind,
        omega (
          arith,
          total,
          parts,
          length-append bytes (padding h bytes),
          length-replicate {A = ℕ} (allocated_for h (length bytes) - length bytes) 0,
          allocated-ge h (length bytes),
        ),
      )
