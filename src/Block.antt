-- ===== src/Block.antt =====
-- src/block.h and src/block.c: a block's header and what the library knows of a block.
pub mod Read
pub mod Write
pub mod RoundTrip
pub mod Handle
mod Tests
use libasdf.Prelude.{
  ℕ, zero, suc, ◌+◌, ◌-◌, ◌*◌, ◌/◌, ◌%◌, ◌^◌, ◌≤◌, ◌<◌, min, max, ◌≡◌, refl, sym, ap, ap₂, ◌∙◌,
}
use libasdf.Prelude.{
  ◌≢◌, ◌↔◌, ◌⊎◌, inl, inr, Bool, true, false, not, ◌&&◌, ◌||◌, Option, none, some, arith,
}
use libasdf.Prelude.{
  List, [], ◌∷◌, ◌++◌, map, length, get_elem?, get_or, set, take, drop, replicate, All,
}
use libasdf.Prelude.{ltb, leb, ◌==◌, if◌then◌else◌, Bool-cases, Option-cases, tests}
use libasdf.Prelude.{
  length-append, length-take, length-drop, length-replicate, take-append, drop-append, drop-drop,
  drop-nil, drop_all, take-append-drop,
}
use libasdf.Prelude.{M, pure, fault, ◌>>=◌, ◌>>◌, get, gets, modify, read, assert, >>=-eq-some}
use libasdf.Prelude.Int.{ℤ, negsuc}

-- `asdf_block_header_t`; the two arrays are lists of 4 and of 16 bytes.
pub record Header : Type 0 where
  pub header_size : ℕ
  pub flags : ℕ
  pub compression : List ℕ
  pub allocated_size : ℕ
  pub used_size : ℕ
  pub data_size : ℕ
  pub checksum : List ℕ

-- The part of `asdf_compressor_t` that writing a block uses: the four bytes of `compression`, and
-- `comp`, which gives the compressed bytes, or `none` where it does not return 0.
pub record Compressor : Type 0 where
  pub name : List ℕ
  pub comp : List ℕ → Option (List ℕ)

-- `asdf_block_info_t`; `none` is a NULL `data` or `write_compressor`.
pub record BlockInfo : Type 0 where
  pub index : ℕ
  pub header_pos : ℤ
  pub data_pos : ℤ
  pub header : Header
  pub data_bytes : Option (List ℕ)
  pub data_size : ℕ
  pub data_owned : Bool
  pub data_mmapped : Bool
  pub data_is_compressed : Bool
  pub write_compressor : Option Compressor

abbrev pub header_len : ℕ
header_len = 48

-- A header of zeros, as `{0}` and `calloc` give it.
abbrev pub zero_header : Header
zero_header = record {
  header_size = 0;
  flags = 0;
  compression = replicate 4 0;
  allocated_size = 0;
  used_size = 0;
  data_size = 0;
  checksum = replicate 16 0;
}

-- The header that `asdf_block_info_init` begins with.
abbrev pub sized_header : ℕ → Header
sized_header size = record zero_header {
  header_size = header_len;
  allocated_size = size;
  used_size = size;
  data_size = size;
}

-- `asdf_block_info_init`, which leaves the other fields of `out_block` as they are.
unfoldable pub info_init : ℕ → Option (List ℕ) → ℕ → BlockInfo → BlockInfo
info_init index data_bytes size out_block = record out_block {
  index = index;
  header = sized_header size;
  header_pos = negsuc 0;
  data_pos = negsuc 0;
  data_bytes = data_bytes;
  data_size = size;
}

-- `asdf_block_info_deinit` on a block that is not NULL; what is released is not part of the state.
unfoldable pub info_deinit : BlockInfo → BlockInfo
info_deinit info =
    if info.data_owned
    then record info { data_bytes = none; data_owned = false; data_mmapped = false; data_size = 0 }
    else record info { data_size = 0 }
