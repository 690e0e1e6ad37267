-- ===== src/Ndarray/Integers/Tile.antt =====
-- Reading a tile of an array of integers into integers: the odometer, the byte order and the
-- conversion together.
use libasdf.Prelude.{ℕ, ◌+◌, ◌*◌, ◌≤◌, ◌<◌, ◌≡◌, refl, ap, ◌∙◌}
use libasdf.Prelude.{Bool, false, not, ◌&&◌, Option, none, some, arith}
use libasdf.Prelude.{List, [], map, length, drop, All}
use libasdf.Prelude.{if◌then◌else◌}
use libasdf.Prelude.{length-drop}
use libasdf.Prelude.{concat}
use libasdf.Prelude.Bytes.{IsByte}
use libasdf.Prelude.Int.{ℤ}
use libasdf.Datatype.{
  Scalar, unknown, int8, uint8, int16, uint16, int32, uint32, int64, uint64, float16, float32,
  float64, complex64, complex128, bool8, ascii, ucs4, structured, Byteorder, scalar_size,
}
use libasdf.Ndarray.{
  Ndarray, ok, overflow, stored, dangling, all_one, outer, inner, scalar_of, should_byteswap,
  read_tile,
}
use libasdf.Ndarray.Strides.{Inside}
use libasdf.Ndarray.Rows.Loop.{over_last}
use libasdf.Ndarray.Tile.{tile_rows}
use libasdf.Ndarray.Tile.Read.{HasData, src_size, dst_of, read_tile_rows}
use libasdf.Ndarray.Integers.{
  IntType, int_type, Kind, is_big, source_big, convert_fn_of, get_convert_fn,
}
use libasdf.Ndarray.Integers.Element.{nearest, Suits}
use libasdf.Ndarray.Integers.Numbers.{IsType, numbers, any_outside, All-drop}
use libasdf.Ndarray.Integers.Row.{Nearest, convert_fn-Nearest}
use libasdf.Ndarray.Integers.Table.{int_kind-Suits, get_convert_fn_lem}
use libasdf.Ndarray.Integers.Joined.{rows_right, over_last-same}
use libasdf.Ndarray.Integers.Order.{IsEndian, swapped_numbers}

size_or_zero : Option IntType → ℕ
size_or_zero none = 0
size_or_zero (some t) = t.size

int_size : (t : Scalar) (s : IntType) → int_type t ≡ some s → scalar_size t ≡ s.size
unfolding int_type scalar_size size_or_zero
int_size int8 s e = ap size_or_zero e
int_size uint8 s e = ap size_or_zero e
int_size int16 s e = ap size_or_zero e
int_size uint16 s e = ap size_or_zero e
int_size int32 s e = ap size_or_zero e
int_size uint32 s e = ap size_or_zero e
int_size int64 s e = ap size_or_zero e
int_size uint64 s e = ap size_or_zero e
int_size unknown s e = cc
int_size float16 s e = cc
int_size float32 s e = cc
int_size float64 s e = cc
int_size complex64 s e = cc
int_size complex128 s e = cc
int_size bool8 s e = cc
int_size ascii s e = cc
int_size ucs4 s e = cc
int_size structured s e = cc

int_size_positive : (t : Scalar) (s : IntType) → int_type t ≡ some s → 0 < scalar_size t
unfolding int_type scalar_size
int_size_positive int8 s e = omega arith
int_size_positive uint8 s e = omega arith
int_size_positive int16 s e = omega arith
int_size_positive uint16 s e = omega arith
int_size_positive int32 s e = omega arith
int_size_positive uint32 s e = omega arith
int_size_positive int64 s e = omega arith
int_size_positive uint64 s e = omega arith
int_size_positive unknown s e = cc
int_size_positive float16 s e = cc
int_size_positive float32 s e = cc
int_size_positive float64 s e = cc
int_size_positive complex64 s e = cc
int_size_positive complex128 s e = cc
int_size_positive bool8 s e = cc
int_size_positive ascii s e = cc
int_size_positive ucs4 s e = cc
int_size_positive structured s e = cc

bytes_of : Option (List ℕ × Bool) → List ℕ
bytes_of none = []
bytes_of (some (out, over)) = out

flag_of : Option (List ℕ × Bool) → Bool
flag_of none = false
flag_of (some (out, over)) = over

-- A result that is right is one.
given :
    (order : Bool) (d : IntType) (n : ℕ) (vs : List ℤ) (r : Option (List ℕ × Bool))
    → Nearest order d n vs r
    → (r ≡ some (bytes_of r, flag_of r))
      × (length (bytes_of r) ≡ n * d.size)
      × (numbers order d n (bytes_of r) ≡ map (nearest d) vs)
      × (flag_of r ≡ any_outside d vs)
unfolding Nearest bytes_of flag_of
given order d n vs none h = absurd h
given order d n vs (some (out, over)) (len, same, flags) = (refl, len, same, flags)

-- The numbers of the row of a tile that begins at a byte, and where the rows of a tile begin.
abbrev pub row_numbers : Ndarray → IntType → ℕ → ℕ → List ℤ
row_numbers nd s n o = numbers (is_big nd.byteorder) s n (drop o nd.bytes)

abbrev pub starts : Ndarray → List ℕ → List ℕ → List ℕ
starts nd os ns = tile_rows (src_size nd) nd.shape os ns

-- What the conversion of one row gives.
row_right :
    (host : Byteorder) (nd : Ndarray) (s d : IntType) (n o : ℕ) (k : Kind)
    → IsEndian host
    → IsEndian nd.byteorder
    → IsType s
    → IsType d
    → Suits k s d
    → All IsByte nd.bytes
    → src_size nd ≡ s.size
    → 0 < src_size nd
    → o + n * src_size nd ≤ length nd.bytes
    → let r =
        convert_fn_of k s d host
          (should_byteswap host (src_size nd) nd.byteorder)
          n
          (drop o nd.bytes) in
      (r ≡ some (bytes_of r, flag_of r))
      × (length (bytes_of r) ≡ n * d.size)
      × (numbers (is_big host) d n (bytes_of r) ≡ map (nearest d) (row_numbers nd s n o))
      × (flag_of r ≡ any_outside d (row_numbers nd s n o))
row_right host nd s d n o k host_end nd_end s_type d_type fits bytes size some_size h =
    let bswap = should_byteswap host (src_size nd) nd.byteorder in
    let bswap' = should_byteswap host s.size nd.byteorder in
    let bs = drop o nd.bytes in
    let width : n * src_size nd ≡ n * s.size = ap (λ m. n * m) size in
    let left : n * s.size ≤ length bs = omega (arith, length-drop o nd.bytes, h, width) in
    let same : numbers (source_big host bswap) s n bs ≡ row_numbers nd s n o =
      ap (λ m. numbers (source_big host (should_byteswap host m nd.byteorder)) s n bs) size
      ∙ swapped_numbers host nd.byteorder s n bs host_end nd_end (omega (arith, size, some_size)) in
    let (got, len, number, flag) =
      given (is_big host) d n (numbers (source_big host bswap) s n bs)
        (convert_fn_of k s d host bswap n bs)
        (convert_fn-Nearest k s d host bswap n bs s_type d_type fits (All-drop o nd.bytes bytes)
          left) in
    (got, len, number ∙ ap (map (nearest d)) same, flag ∙ ap (any_outside d) same)

-- Reading a tile that lies inside of an array of integers, whose data are there and in a byte order
-- that is known, into integers: it succeeds, and the numbers of the tile are in the order of the
-- host and are, row after row in C order, the numbers of the destination that are nearest to those
-- of the array; it returns the overflow error just when a number of the last row is not one of the
-- destination. `*dst` is that tile, except where it was allocated, has several rows, and the
-- overflow is returned: then it has been freed.
pub read_tile-nearest :
    (host : Byteorder) (nd : Ndarray) (dst_t : Scalar) (new_buf : Bool) (s d : IntType)
    {os ns : List ℕ}
    → IsEndian host
    → IsEndian nd.byteorder
    → Inside nd.shape os ns
    → HasData nd
    → All IsByte nd.bytes
    → int_type (scalar_of nd.datatype) ≡ some s
    → int_type (dst_of dst_t nd) ≡ some d
    → (tile : List ℕ) × (read_tile host (get_convert_fn host) nd os ns dst_t new_buf
        ≡ some (
          if over_last (λ o. any_outside d (row_numbers nd s (inner ns) o)) (starts nd os ns)
              then overflow
              else ok,
          if (new_buf && not (all_one (outer ns)))
                && over_last (λ o. any_outside d (row_numbers nd s (inner ns) o)) (starts nd os ns)
              then dangling
              else stored tile,
        ))
      × (numbers (is_big host) d (length (starts nd os ns) * inner ns) tile
          ≡ map (nearest d) (concat (map (row_numbers nd s (inner ns)) (starts nd os ns))))
read_tile-nearest host nd dst_t new_buf s d {os} {ns} host_end nd_end i v bytes src_type dst_type =
    let bswap = should_byteswap host (src_size nd) nd.byteorder in
    let (k, kind, fits, s_type, d_type) =
      int_kind-Suits (scalar_of nd.datatype) (dst_of dst_t nd) s d src_type dst_type in
    let convert = convert_fn_of k s d host bswap in
    let result = λ (o : ℕ). convert (inner ns) (drop o nd.bytes) in
    let size = int_size (scalar_of nd.datatype) s src_type in
    let right = λ (o : ℕ) (h : o + inner ns * src_size nd ≤ length nd.bytes).
      row_right host nd s d (inner ns) o k host_end nd_end s_type d_type fits bytes size v.scalar
        h in
    let (within, done) =
      read_tile_rows host (get_convert_fn host) nd dst_t new_buf convert (λ o. bytes_of (result o))
        (λ o. flag_of (result o)) i v (int_size_positive (dst_of dst_t nd) d dst_type)
        (get_convert_fn_lem host (scalar_of nd.datatype) (dst_of dst_t nd) bswap s d k src_type
          dst_type kind)
        (λ o h. (right o h).0) in
    (
      concat (map (λ o. bytes_of (result o)) (starts nd os ns)),
      done
          ∙ ap
              (λ b. some (
                if b then overflow else ok,
                if (new_buf && not (all_one (outer ns))) && b
                    then dangling
                    else stored (concat (map (λ o. bytes_of (result o)) (starts nd os ns))),
              ))
              (over_last-same (λ o. flag_of (result o))
                (λ o. any_outside d (row_numbers nd s (inner ns) o))
                (λ o. o + inner ns * src_size nd ≤ length nd.bytes) (starts nd os ns) within
                (λ o h. (right o h).3)),
      rows_right (is_big host) d (inner ns) (λ o. bytes_of (result o)) (row_numbers nd s (inner ns))
          (λ o. o + inner ns * src_size nd ≤ length nd.bytes) (λ o h. (right o h).1)
          (λ o h. (right o h).2) (starts nd os ns) within,
    )
