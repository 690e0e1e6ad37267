-- ===== src/Ndarray/Integers/Tests.antt =====
-- A tile of an array of 16-bit integers, read as bytes: it clamps, and tells of the last row.
use libasdf.Prelude.{ℕ, ◌*◌, ◌≡◌, refl}
use libasdf.Prelude.{true, false, not, ◌&&◌, none, some, arith}
use libasdf.Prelude.{List, [], ◌∷◌, map, length, All}
use libasdf.Prelude.{if◌then◌else◌}
use libasdf.Prelude.{concat}
use libasdf.Prelude.Bytes.{IsByte}
use libasdf.Prelude.Endian.{be_from, to_be, le_value, to_le}
use libasdf.Datatype.{
  int8, int16, uint8, big, little, Datatype, datatype, end, scalar_size, datatype_size, is_string,
  is_structured, times_shape,
}
use libasdf.Ndarray.{
  Ndarray, Convert, ok, overflow, stored, dangling, outer, read_tile, destination, should_byteswap,
  other_order, product_from, nbytes, size, tile_of, copy_tile, init_strides, check_bounds,
  offset_from, all_one, main_loop, advance, dims_onto,
}
use libasdf.Ndarray.Strides.{Inside, last_dim, more_dims}
use libasdf.Ndarray.Rows.Loop.{over_last}
use libasdf.Ndarray.Tile.Read.{HasData}
use libasdf.Ndarray.Integers.{
  int_type, int_type_of, value_of, cast_to, min_of, max_of, int_kind, convert_one, is_big,
  source_big, load, store, convert_loop, convert_fn_of, get_convert_fn,
}
use libasdf.Ndarray.Integers.Element.{nearest}
use libasdf.Ndarray.Integers.Numbers.{numbers, any_outside}
use libasdf.Ndarray.Integers.Row.{Nearest}
use libasdf.Ndarray.Integers.Table.{get_convert_fn-Nearest}
use libasdf.Ndarray.Integers.Order.{big_endian, little_endian}
use libasdf.Ndarray.Integers.Tile.{row_numbers, starts, read_tile-nearest}

abbrev shorts_type : Datatype
shorts_type = datatype int16 2 none big [] end

-- 1, -2, 300 and 5, 7, 255 in two rows.
abbrev shorts : Ndarray
shorts = record {
  shape = 2 ∷ 3 ∷ [];
  datatype = shorts_type;
  byteorder = big;
  bytes = 0 ∷ 1 ∷ 255 ∷ 254 ∷ 1 ∷ 44 ∷ 0 ∷ 5 ∷ 0 ∷ 7 ∷ 0 ∷ 255 ∷ [];
}

-- The last two columns: -2 and 300 are out of range, 7 and 255 are not, and no overflow is told.
columns :
    read_tile little (get_convert_fn little) shorts (0 ∷ 1 ∷ []) (2 ∷ 2 ∷ []) uint8 true
    ≡ some (ok, stored (0 ∷ 255 ∷ 7 ∷ 255 ∷ []))
unfolding read_tile destination scalar_size should_byteswap other_order product_from nbytes size
    datatype_size is_string is_structured times_shape check_bounds tile_of copy_tile init_strides
    offset_from all_one main_loop advance dims_onto get_convert_fn int_type int_kind convert_fn_of
    convert_loop convert_one value_of cast_to min_of max_of is_big source_big load store be_from
    le_value to_be to_le
columns = refl

-- As signed bytes the last row has an overflow: a tile that was allocated has been freed, and one in
-- memory of the caller is there.
freed :
    read_tile little (get_convert_fn little) shorts (0 ∷ 1 ∷ []) (2 ∷ 2 ∷ []) int8 true
    ≡ some (overflow, dangling)
unfolding read_tile destination scalar_size should_byteswap other_order product_from nbytes size
    datatype_size is_string is_structured times_shape check_bounds tile_of copy_tile init_strides
    offset_from all_one main_loop advance dims_onto get_convert_fn int_type int_kind convert_fn_of
    convert_loop convert_one value_of cast_to min_of max_of is_big source_big load store be_from
    le_value to_be to_le
freed = refl

given_back :
    read_tile little (get_convert_fn little) shorts (0 ∷ 1 ∷ []) (2 ∷ 2 ∷ []) int8 false
    ≡ some (overflow, stored (254 ∷ 127 ∷ 7 ∷ 127 ∷ []))
unfolding read_tile destination scalar_size should_byteswap other_order product_from nbytes size
    datatype_size is_string is_structured times_shape check_bounds tile_of copy_tile init_strides
    offset_from all_one main_loop advance dims_onto get_convert_fn int_type int_kind convert_fn_of
    convert_loop convert_one value_of cast_to min_of max_of is_big source_big load store be_from
    le_value to_be to_le
given_back = refl

shorts-HasData : HasData shorts
unfolding scalar_size datatype_size is_string
shorts-HasData = record {
  sized = refl;
  scalar = omega arith;
  countable = omega arith;
  complete = omega arith;
  small = omega arith;
}

abbrev shorts_bytes : List ℕ
shorts_bytes = 0 ∷ 1 ∷ 255 ∷ 254 ∷ 1 ∷ 44 ∷ 0 ∷ 5 ∷ 0 ∷ 7 ∷ 0 ∷ 255 ∷ []

All-shorts_bytes : All IsByte shorts_bytes
All-shorts_bytes = (
  omega arith,
  (
    omega arith,
    (
      omega arith,
      (
        omega arith,
        (
          omega arith,
          (
            omega arith,
            (
              omega arith,
              (omega arith, (omega arith, (omega arith, (omega arith, (omega arith, tt))))),
            ),
          ),
        ),
      ),
    ),
  ),
)

shorts_tile-Inside : Inside (2 ∷ 3 ∷ []) (0 ∷ 1 ∷ []) (2 ∷ 2 ∷ [])
shorts_tile-Inside =
    more_dims 2 0 2 3 1 2 [] [] [] (omega arith) (omega arith)
      (last_dim 3 1 2 (omega arith) (omega arith))

from_type : int_type int16 ≡ some (int_type_of 2 true)
unfolding int_type
from_type = refl

to_type : int_type uint8 ≡ some (int_type_of 1 false)
unfolding int_type
to_type = refl

same_destination : int_type (destination int8 int16) ≡ some (int_type_of 1 true)
unfolding int_type destination
same_destination = refl

abbrev tile_starts : List ℕ
tile_starts = starts shorts (0 ∷ 1 ∷ []) (2 ∷ 2 ∷ [])

read_tile-nearest_example :
    (tile : List ℕ) × (read_tile little
        (get_convert_fn little)
        shorts
        (0 ∷ 1 ∷ [])
        (2 ∷ 2 ∷ [])
        int8
        true
      ≡ some (
        if over_last
              (λ o. any_outside (int_type_of 1 true) (row_numbers shorts (int_type_of 2 true) 2 o))
              tile_starts
            then overflow
            else ok,
        if (true && not (all_one (outer (2 ∷ 2 ∷ []))))
              && over_last
                  (λ o.
                    any_outside (int_type_of 1 true) (row_numbers shorts (int_type_of 2 true) 2 o))
                  tile_starts
            then dangling
            else stored tile,
      ))
    × (numbers (is_big little) (int_type_of 1 true) (length tile_starts * 2) tile
        ≡ map
            (nearest (int_type_of 1 true))
            (concat (map (row_numbers shorts (int_type_of 2 true) 2) tile_starts)))
read_tile-nearest_example =
    read_tile-nearest little shorts int8 true (int_type_of 2 true) (int_type_of 1 true)
      little_endian big_endian shorts_tile-Inside shorts-HasData All-shorts_bytes from_type
      same_destination

get_convert_fn-Nearest_example :
    (convert : Convert) × (get_convert_fn little int16 uint8 true ≡ some convert)
    × Nearest
        (is_big little)
        (int_type_of 1 false)
        6
        (numbers (source_big little true) (int_type_of 2 true) 6 shorts_bytes)
        (convert 6 shorts_bytes)
get_convert_fn-Nearest_example =
    get_convert_fn-Nearest little int16 uint8 true (int_type_of 2 true) (int_type_of 1 false) 6
      shorts_bytes from_type to_type All-shorts_bytes (omega arith)
