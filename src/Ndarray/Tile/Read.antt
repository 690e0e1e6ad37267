-- ===== src/Ndarray/Tile/Read.antt =====
-- `asdf_ndarray_read_tile_ndim` for a tile that lies inside of the array, and where its checks fail.
use libasdf.Prelude.{ℕ, ◌+◌, ◌*◌, ◌^◌, ◌≤◌, ◌<◌, ◌≡◌, refl, ◌∙◌}
use libasdf.Prelude.{◌≢◌, not, ◌&&◌, if◌then◌else◌, Bool, Option, some, arith}
use libasdf.Prelude.{List, map, length, drop, All}
use libasdf.Prelude.{concat, le→ltb, ==_ne}
use native.Mathlib.Nat.{mul-le-mul_right, mul_comm}
use libasdf.Datatype.{Scalar, Byteorder, scalar_size, datatype_size}
use libasdf.Ndarray.{
  Ndarray, Convert, inner, count, product_from, times_size, nbytes, scalar_of, destination,
  should_byteswap, tile_of, read_tile, all_one, outer, ok, overflow, stored, dangling,
}
use libasdf.Ndarray.Strides.{Inside, check_bounds-Inside}
use libasdf.Ndarray.Rows.Loop.{over_last}
use libasdf.Ndarray.Tile.{tile_rows, tile_of_rows}
use libasdf.Ndarray.Tile.Products.{
  product_from-tile, count-le, has_dims, nbytes_lem, count_positive-tile,
}

-- An array of scalars whose data are all there, of less than 2 ^ 63 bytes also at 16 bytes for each
-- element.
pub record HasData (nd : Ndarray) : Type 0 where
  pub sized : (datatype_size nd.datatype).0 ≡ scalar_size (scalar_of nd.datatype)
  pub scalar : 0 < scalar_size (scalar_of nd.datatype)
  pub countable : count nd.shape * 16 < 2 ^ 63
  pub complete : count nd.shape * scalar_size (scalar_of nd.datatype) ≤ length nd.bytes
  pub small : length nd.bytes < 2 ^ 63

-- The size of an element in the data, and the type that a read gives.
abbrev pub src_size : Ndarray → ℕ
src_size nd = scalar_size (scalar_of nd.datatype)

abbrev pub dst_of : Scalar → Ndarray → Scalar
dst_of dst_t nd = destination dst_t (scalar_of nd.datatype)

pub scalar_size-le : (t : Scalar) → scalar_size t ≤ 16
unfolding scalar_size
scalar_size-le t = ground arith

product-le : (a b c d : ℕ) → a ≤ b → c ≤ d → a * c ≤ b * d
product-le a b c d h k =
    let first : a * c ≤ b * c = mul-le-mul_right c h in
    let second : c * b ≤ d * b = mul-le-mul_right b k in
    omega (arith, first, second, mul_comm c b, mul_comm d b)

pub positive : (a b : ℕ) → 0 < a → 0 < b → 0 < a * b
positive a b h k = grind arith

module _ (host : Byteorder) (convert_fn : Scalar → Scalar → Bool → Option Convert) (nd : Ndarray)
    (dst_t : Scalar) where
  checks_passed :
      {os ns : List ℕ} (new_buf : Bool) (convert : Convert)
      → Inside nd.shape os ns
      → HasData nd
      → 0 < scalar_size (dst_of dst_t nd)
      → convert_fn
          (scalar_of nd.datatype)
          (dst_of dst_t nd)
          (should_byteswap host (src_size nd) nd.byteorder)
        ≡ some convert
      → read_tile host convert_fn nd os ns dst_t new_buf
        ≡ tile_of convert (src_size nd) nd.bytes nd.shape os ns new_buf
  unfolding read_tile
  checks_passed {os} {ns} new_buf convert i v d c =
      let small : count nd.shape < 2 ^ 63 = omega (arith, v.countable) in
      let nelems : product_from 1 ns ≡ count ns = product_from-tile i (omega arith) in
      let tile : count ns ≤ count nd.shape = count-le i in
      let src_fits : times_size (src_size nd) (count ns) ≤ length nd.bytes =
        let within =
          product-le (count ns) (count nd.shape) (src_size nd) (src_size nd) tile (omega arith) in
        omega (arith, within, v.complete, v.small, mul_comm (src_size nd) (count ns)) in
      let nbytes_fit : nbytes nd ≤ length nd.bytes = omega (
        arith,
        nbytes_lem nd (src_size nd) i v.sized (omega arith) (omega (arith, v.complete, v.small)),
        v.complete,
      ) in
      let dst_fits : times_size (scalar_size (dst_of dst_t nd)) (count ns) ≢ 0 = λ z.
        let within =
          product-le (count ns) (count nd.shape) (scalar_size (dst_of dst_t nd)) 16 tile
            (scalar_size-le (dst_of dst_t nd)) in
        let some_bytes =
          positive (scalar_size (dst_of dst_t nd)) (count ns) d (count_positive-tile i) in
        omega (
          arith,
          within,
          v.countable,
          some_bytes,
          z,
          mul_comm (scalar_size (dst_of dst_t nd)) (count ns),
        ) in
      rw (le→ltb (src_size nd) 1 v.scalar) (
        rw (le→ltb (scalar_size (dst_of dst_t nd)) 1 d) (
          rw (check_bounds-Inside i small) (
            rw (has_dims i) (
              rw nelems (
                rw (le→ltb (length nd.bytes) (times_size (src_size nd) (count ns)) src_fits) (
                  rw (le→ltb (length nd.bytes) (nbytes nd) nbytes_fit) (
                    rw c (
                      rw (has_dims i) (
                        rw nelems (
                          rw
                            (==_ne (times_size (scalar_size (dst_of dst_t nd)) (count ns)) 0
                              dst_fits)
                            refl))))))))))

  -- A tile of at least one element inside of an array of scalars whose data are there, and a
  -- conversion that succeeds on each row of the data: reading never leaves the data; it writes the
  -- rows of the tile, in C order, each converted, and reports the overflow of the last row, and no
  -- other. `*dst` is that tile, except where the tile was allocated, has several rows, and an
  -- overflow is reported: then it has been freed.
  pub read_tile_rows :
      {os ns : List ℕ} (new_buf : Bool) (convert : Convert) (out : ℕ → List ℕ) (over : ℕ → Bool)
      → Inside nd.shape os ns
      → HasData nd
      → 0 < scalar_size (dst_of dst_t nd)
      → convert_fn
          (scalar_of nd.datatype)
          (dst_of dst_t nd)
          (should_byteswap host (src_size nd) nd.byteorder)
        ≡ some convert
      → ((o : ℕ)
          → o + inner ns * (src_size nd) ≤ length nd.bytes
          → convert (inner ns) (drop o nd.bytes) ≡ some (out o, over o))
      → All
          (λ o. o + inner ns * (src_size nd) ≤ length nd.bytes)
          (tile_rows (src_size nd) nd.shape os ns)
        × (read_tile host convert_fn nd os ns dst_t new_buf
            ≡ some (
              if over_last over (tile_rows (src_size nd) nd.shape os ns) then overflow else ok,
              if (new_buf && not (all_one (outer ns)))
                    && over_last over (tile_rows (src_size nd) nd.shape os ns)
                  then dangling
                  else stored (concat (map out (tile_rows (src_size nd) nd.shape os ns))),
            ))
  read_tile_rows {os} {ns} new_buf convert out over i v d c f =
      let small : count nd.shape < 2 ^ 63 = omega (arith, v.countable) in
      let (within, copied) =
        tile_of_rows convert (src_size nd) nd.bytes out over nd.shape os ns new_buf i small
          v.complete v.small f in
      (within, checks_passed new_buf convert i v d c ∙ copied)
