-- ===== src/Block/Read/Fields.antt =====
-- The fields of a block header, one after the other in its bytes.
use libasdf.Prelude.{ℕ, ◌+◌, ◌≡◌, refl, sym, ap, ◌∙◌}
use libasdf.Prelude.{Bool, true, Option, some, arith}
use libasdf.Prelude.{List, ◌++◌, length, take, drop}
use libasdf.Prelude.{length-append, drop-drop, take_exact, drop_exact}
use mathlib.Core.List.{append_assoc}
use libasdf.Prelude.Endian.{be_value}
use libasdf.Stream.{Stream, rest}
use libasdf.Block.{Header, BlockInfo}
use libasdf.Block.Read.{slice, parse_fields, info_read}
use libasdf.Block.Read.Clean.{IsClean, filled, info_read_parsed}

-- The bytes of each field.
pub record HeaderFields : Type 0 where
  pub flags : List ℕ
  pub compression : List ℕ
  pub allocated_size : List ℕ
  pub used_size : List ℕ
  pub data_size : List ℕ
  pub checksum : List ℕ

pub record IsSized (f : HeaderFields) : Type 0 where
  pub flags_size : length f.flags ≡ 4
  pub compression_size : length f.compression ≡ 4
  pub allocated_bytes : length f.allocated_size ≡ 8
  pub used_bytes : length f.used_size ≡ 8
  pub data_bytes : length f.data_size ≡ 8
  pub checksum_size : length f.checksum ≡ 16

-- The order in which they stand, with what follows.
abbrev pub laid_out : HeaderFields → List ℕ → List ℕ
laid_out f more =
    f.flags
    ++ (f.compression
        ++ (f.allocated_size ++ (f.used_size ++ (f.data_size ++ (f.checksum ++ more)))))

-- The header that they describe.
abbrev pub described : ℕ → HeaderFields → Header
described size f = record {
  header_size = size;
  flags = be_value f.flags;
  compression = f.compression;
  allocated_size = be_value f.allocated_size;
  used_size = be_value f.used_size;
  data_size = be_value f.data_size;
  checksum = f.checksum;
}

-- The next piece at an offset that is reached.
next_piece :
    (off n : ℕ) (xs p ys : List ℕ) → drop off xs ≡ p ++ ys → length p ≡ n → drop (off + n) xs ≡ ys
next_piece off n xs p ys e l = sym (drop-drop n off xs) ∙ ap (drop n) e ∙ drop_exact n p ys l

this_piece :
    (off n : ℕ) (xs p ys : List ℕ) → drop off xs ≡ p ++ ys → length p ≡ n → slice off n xs ≡ p
this_piece off n xs p ys e l = ap (take n) e ∙ take_exact n p ys l

pub parse_fields-laid_out :
    (size : ℕ) (f : HeaderFields) (more : List ℕ)
    → IsSized f
    → parse_fields size (laid_out f more) ≡ described size f
parse_fields-laid_out size f more s =
    let xs : List ℕ = laid_out f more in
    let rest5 : List ℕ = f.checksum ++ more in
    let rest4 : List ℕ = f.data_size ++ rest5 in
    let rest3 : List ℕ = f.used_size ++ rest4 in
    let rest2 : List ℕ = f.allocated_size ++ rest3 in
    let rest1 : List ℕ = f.compression ++ rest2 in
    let at4 : drop 4 xs ≡ rest1 = next_piece 0 4 xs f.flags rest1 refl s.flags_size in
    let at8 : drop 8 xs ≡ rest2 = next_piece 4 4 xs f.compression rest2 at4 s.compression_size in
    let at16 : drop 16 xs ≡ rest3 =
      next_piece 8 8 xs f.allocated_size rest3 at8 s.allocated_bytes in
    let at24 : drop 24 xs ≡ rest4 = next_piece 16 8 xs f.used_size rest4 at16 s.used_bytes in
    let at32 : drop 32 xs ≡ rest5 = next_piece 24 8 xs f.data_size rest5 at24 s.data_bytes in
    λ i. record {
      header_size = size;
      flags = ap be_value (this_piece 0 4 xs f.flags rest1 refl s.flags_size) i;
      compression = this_piece 4 4 xs f.compression rest2 at4 s.compression_size i;
      allocated_size =
          ap be_value (this_piece 8 8 xs f.allocated_size rest3 at8 s.allocated_bytes) i;
      used_size = ap be_value (this_piece 16 8 xs f.used_size rest4 at16 s.used_bytes) i;
      data_size = ap be_value (this_piece 24 8 xs f.data_size rest5 at24 s.data_bytes) i;
      checksum = this_piece 32 16 xs f.checksum more at32 s.checksum_size i;
    }

pub length-laid_out :
    (f : HeaderFields) (more : List ℕ) → IsSized f → length (laid_out f more) ≡ 48 + length more
length-laid_out f more s = omega (
  arith,
  s,
  length-append f.flags (
      f.compression
      ++ (f.allocated_size ++ (f.used_size ++ (f.data_size ++ (f.checksum ++ more))))),
  length-append f.compression
      (f.allocated_size ++ (f.used_size ++ (f.data_size ++ (f.checksum ++ more)))),
  length-append f.allocated_size (f.used_size ++ (f.data_size ++ (f.checksum ++ more))),
  length-append f.used_size (f.data_size ++ (f.checksum ++ more)),
  length-append f.data_size (f.checksum ++ more),
  length-append f.checksum more,
)

-- A clean stream whose next bytes are four for the magic, two for the header size and as many
-- header bytes as that says, at least 48: reading the header gives the block whose flags,
-- compression, allocated, used and data size and checksum stand one after the other in these, the
-- numbers with the most significant byte first; bytes beyond the 48th are passed over. The stream
-- is left just after the header, where the data begins.
pub info_read_header :
    (info : BlockInfo) {s : Stream} (magic sizes : List ℕ) (f : HeaderFields) (extra more : List ℕ)
    → IsClean s
    → rest s ≡ magic ++ (sizes ++ (laid_out f extra ++ more))
    → length magic ≡ 4
    → length sizes ≡ 2
    → be_value sizes ≡ 48 + length extra
    → IsSized f
    → info_read info s
      ≡ some (
        (true, filled (described (be_value sizes) f) s.offset (s.offset + 6 + be_value sizes) info),
        record s { offset = s.offset + 6 + be_value sizes },
      )
info_read_header info {s} magic sizes f extra more c e lm ls v sized =
    let hs : ℕ = be_value sizes in
    let start : (n : ℕ) → n + 4 + 2 + hs ≡ n + 6 + hs = λ n. omega arith in
    let result : Header → ℕ → ℕ → Option ((Bool × BlockInfo) × Stream) =
      λ h k n. some ((true, filled h s.offset k info), record s { offset = n }) in
    info_read_parsed info magic sizes (laid_out f extra) more hs c e lm ls refl (omega (arith, v))
      (omega (arith, v, length-laid_out f extra sized))
    ∙ ap (λ h. result h (s.offset + 4 + 2 + hs) (s.offset + 4 + 2 + hs))
        (ap (parse_fields hs) (simp append_assoc)
          ∙ parse_fields-laid_out hs f (extra ++ more) sized)
    ∙ ap (λ n. result (described hs f) n n) (start s.offset)
