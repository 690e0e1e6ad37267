-- ===== src/Ndarray/Tests.antt =====
-- Tiles of an array of two rows and three columns of bytes.
use libasdf.Prelude.{ℕ, ◌+◌, ◌-◌, ◌*◌, ◌^◌, ◌≤◌, ◌<◌, ◌≡◌, refl, sym, ap, ◌∙◌}
use libasdf.Prelude.{Bool, true, false, not, ◌&&◌, Option, none, some, arith}
use libasdf.Prelude.{List, [], ◌∷◌, map, length, take, drop, All}
use libasdf.Prelude.{ltb, if◌then◌else◌}
use libasdf.Prelude.{length-drop}
use libasdf.Prelude.{concat, le→ltb}
use libasdf.Prelude.Bytes.{codes}
use libasdf.Datatype.{
  Scalar, uint8, unknown, little, Datatype, datatype, end, scalar_size, datatype_size, is_string,
  is_structured, times_shape,
}
use libasdf.Ndarray.{
  Ndarray, Convert, ok, overflow, stored, dangling, outer, finish, read_tile, read_all, read_at,
  destination, should_byteswap, product_from, nbytes, size, tile_of, copy_tile, init_strides,
  check_bounds, offset_from, all_one, main_loop, advance, dims_onto,
}
use libasdf.Ndarray.Strides.{Inside, last_dim, more_dims}
use libasdf.Ndarray.Rows.Loop.{over_last}
use libasdf.Ndarray.Tile.{tile_rows}
use libasdf.Ndarray.Tile.Read.{HasData, src_size, read_tile_rows}
use libasdf.Ndarray.Tile.Whole.{read_all_copy, read_at_element}
use libasdf.Ndarray.Tile.Wrapped.{array_1d, read_tile_wrapped}

abbrev bytes_type : Datatype
bytes_type = datatype uint8 1 none little [] end

abbrev grid : Ndarray
grid = record {
  shape = 2 ∷ 3 ∷ [];
  datatype = bytes_type;
  byteorder = little;
  bytes = codes "abcdef";
}

-- A conversion that copies bytes.
abbrev copy : Convert
copy n bs = if ltb (length bs) n then none else some (take n bs, false)

abbrev table : Scalar → Scalar → Bool → Option Convert
table src dst bswap = some copy

-- The last two columns.
columns :
    read_tile little table grid (0 ∷ 1 ∷ []) (2 ∷ 2 ∷ []) unknown true
    ≡ some (ok, stored (codes "bcef"))
unfolding read_tile destination scalar_size should_byteswap product_from nbytes size datatype_size
    is_string is_structured times_shape check_bounds tile_of copy_tile init_strides offset_from
    all_one main_loop advance dims_onto
columns = refl

grid-HasData : HasData grid
unfolding scalar_size datatype_size is_string
grid-HasData = record {
  sized = refl;
  scalar = omega arith;
  countable = omega arith;
  complete = omega arith;
  small = omega arith;
}

tile-Inside : Inside (2 ∷ 3 ∷ []) (0 ∷ 1 ∷ []) (2 ∷ 2 ∷ [])
tile-Inside =
    more_dims 2 0 2 3 1 2 [] [] [] (omega arith) (omega arith)
      (last_dim 3 1 2 (omega arith) (omega arith))

has_size : 0 < scalar_size (destination unknown uint8)
unfolding scalar_size destination
has_size = omega arith

one_byte : scalar_size uint8 ≡ 1
unfolding scalar_size
one_byte = refl

copies :
    (n o : ℕ)
    → n ≤ length (drop o (codes "abcdef"))
    → copy n (drop o (codes "abcdef")) ≡ some (take n (drop o (codes "abcdef")), false)
copies n o h = rw (le→ltb (length (drop o (codes "abcdef"))) n h) refl

read_tile_rows_example :
    All
      (λ o. o + 2 * src_size grid ≤ 6)
      (tile_rows (src_size grid) (2 ∷ 3 ∷ []) (0 ∷ 1 ∷ []) (2 ∷ 2 ∷ []))
    × (read_tile little table grid (0 ∷ 1 ∷ []) (2 ∷ 2 ∷ []) unknown true
        ≡ some (
          if over_last
                (λ o. false)
                (tile_rows (src_size grid) (2 ∷ 3 ∷ []) (0 ∷ 1 ∷ []) (2 ∷ 2 ∷ []))
              then overflow
              else ok,
          if (true && not (all_one (outer (2 ∷ 2 ∷ []))))
                && over_last
                    (λ o. false)
                    (tile_rows (src_size grid) (2 ∷ 3 ∷ []) (0 ∷ 1 ∷ []) (2 ∷ 2 ∷ []))
              then dangling
              else stored (
                  concat (
                    map
                      (λ o. take 2 (drop o (codes "abcdef")))
                      (tile_rows (src_size grid) (2 ∷ 3 ∷ []) (0 ∷ 1 ∷ []) (2 ∷ 2 ∷ [])))),
        ))
read_tile_rows_example =
    read_tile_rows little table grid unknown true copy (λ o. take 2 (drop o (codes "abcdef")))
      (λ o. false) tile-Inside grid-HasData has_size refl
      (λ o h. copies 2 o (omega (arith, h, one_byte, length-drop o (codes "abcdef"))))

copies_all :
    (n : ℕ) (bs : List ℕ)
    → n * src_size grid ≤ length bs
    → copy n bs ≡ some (take (n * src_size grid) bs, false)
copies_all n bs h =
    let width : n * src_size grid ≡ n = ap (λ k. n * k) one_byte ∙ times_one n in
    rw (le→ltb (length bs) n (omega (arith, h, width)))
      (ap (λ k. some (take k bs, false)) (sym width))
  where
    times_one : (n : ℕ) → n * 1 ≡ n
    times_one n = omega arith

read_all_copy_example :
    read_all little table grid unknown true
    ≡ some (ok, stored (take (6 * src_size grid) (codes "abcdef")))
read_all_copy_example =
    read_all_copy little table grid unknown copy true tile-Inside grid-HasData has_size refl
      copies_all

element-Inside : Inside (2 ∷ 3 ∷ []) (1 ∷ 2 ∷ []) (1 ∷ 1 ∷ [])
element-Inside =
    more_dims 2 1 1 3 2 1 [] [] [] (omega arith) (omega arith)
      (last_dim 3 2 1 (omega arith) (omega arith))

read_at_element_example :
    (5 * src_size grid + src_size grid ≤ 6)
    × (read_at little table grid (1 ∷ 2 ∷ []) unknown
        ≡ finish false (some (take 1 (drop (5 * src_size grid) (codes "abcdef")), false)))
read_at_element_example =
    read_at_element little table grid unknown copy (1 ∷ 2 ∷ [])
      (λ o. take 1 (drop o (codes "abcdef"))) (λ o. false) element-Inside grid-HasData has_size refl
      (λ o h. copies 1 o (omega (arith, h, one_byte, length-drop o (codes "abcdef"))))

sized : (datatype_size bytes_type).0 ≡ 1
unfolding datatype_size is_string
sized = refl

read_tile_wrapped_example :
    read_tile little table
      (array_1d 6 bytes_type little (codes "abcdef"))
      ((2 ^ 64 - 1) ∷ [])
      (2 ∷ [])
      unknown
      true
    ≡ none
read_tile_wrapped_example =
    read_tile_wrapped little table bytes_type little (codes "abcdef") unknown copy 6 (2 ^ 64 - 1) 2
      true one_byte sized refl (omega arith) (omega arith) (omega arith) has_size (omega arith)
      (omega arith) refl refl
