-- ===== src/Ndarray.antt =====
-- src/core/ndarray.c and include/asdf/core/ndarray.h: reading a tile of an array. `ndim` is the
-- length of the shape. A pointer into the data is its distance from the start; an access outside
-- of the data faults.
pub mod Strides
pub mod Rows
pub mod Tile
pub mod Integers
mod Tests
use libasdf.Prelude.{
  ℕ, zero, suc, ◌+◌, ◌-◌, ◌*◌, ◌/◌, ◌%◌, ◌^◌, ◌≤◌, ◌<◌, min, max, ◌≡◌, refl, sym, ap, ap₂, ◌∙◌,
}
use libasdf.Prelude.{
  ◌≢◌, ◌↔◌, ◌⊎◌, inl, inr, Bool, true, false, not, ◌&&◌, ◌||◌, Option, none, some, arith,
}
use libasdf.Prelude.{
  List, [], ◌∷◌, ◌++◌, map, length, get_elem?, get_or, set, take, drop, replicate, All,
}
use libasdf.Prelude.{ltb, leb, ◌==◌, if◌then◌else◌, Bool-cases, Option-cases, tests}
use libasdf.Prelude.{
  length-append, length-take, length-drop, length-replicate, take-append, drop-append, drop-drop,
  drop-nil, drop_all, take-append-drop,
}
use libasdf.Prelude.{M, pure, fault, ◌>>=◌, ◌>>◌, get, gets, modify, read, assert, >>=-eq-some}
use libasdf.Prelude.Bytes.{size_mod, add_size}
use libasdf.Datatype.{
  Scalar, unknown, Byteorder, big, little, invalid, default, Datatype, datatype, scalar_size,
  datatype_size,
}

-- `asdf_ndarray_err_t`
pub data NdarrayErr : Type 0 where
  ok out_of_bounds oom inval overflow conversion : NdarrayErr

-- What a read leaves in `*dst`: what was there, the tile, or the address of a tile that it freed.
pub data Target : Type 0 where
  kept : Target
  stored : List ℕ → Target
  dangling : Target

-- `asdf_ndarray_t`, with the data that `asdf_ndarray_data` returns; without data, none.
pub record Ndarray : Type 0 where
  pub shape : List ℕ
  pub datatype : Datatype
  pub byteorder : Byteorder
  pub bytes : List ℕ

-- `asdf_ndarray_convert_fn_t` on the source from a place on, and the number of elements: what it
-- writes and whether there was an overflow. It faults where it reads outside of the source.
abbrev pub Convert : Type 0
Convert = ℕ → List ℕ → Option (List ℕ × Bool)

abbrev pub times_size : ℕ → ℕ → ℕ
times_size a b = a * b % size_mod

-- `size *= shape[idx]` over all of the shape.
unfoldable pub product_from : ℕ → List ℕ → ℕ
product_from n [] = n
product_from n (k ∷ shape) = product_from (times_size n k) shape

-- `asdf_ndarray_size`
unfoldable pub size : Ndarray → ℕ
unfolding product_from
size nd = if length nd.shape == 0 then 0 else product_from 1 nd.shape

-- `asdf_ndarray_nbytes`
unfoldable pub nbytes : Ndarray → ℕ
unfolding size
nbytes nd = if size nd == 0 then 0 else times_size (size nd) (datatype_size nd.datatype).0

abbrev pub scalar_of : Datatype → Scalar
scalar_of (datatype t size name order shape fs) = t

-- `host_byteorder != byteorder`
unfoldable pub other_order : Byteorder → Byteorder → Bool
other_order big big = false
other_order little little = false
other_order invalid invalid = false
other_order default default = false
other_order a b = true

-- `should_byteswap`
unfoldable pub should_byteswap : Byteorder → ℕ → Byteorder → Bool
unfolding other_order
should_byteswap host elsize order = if leb elsize 1 then false else other_order host order

-- `asdf_ndarray_read_tile_init_strides`: the strides of an array in C order, or ERR_OUT_OF_BOUNDS.
-- It faults where the code divides by a stride of 0.
unfoldable pub init_strides : List ℕ → Option (Option (List ℕ))
init_strides [] = none
init_strides (n ∷ []) = some (some (1 ∷ []))
init_strides (n ∷ (k ∷ shape)) = elim (init_strides (k ∷ shape)) [
  | none ↦ none
  | some none ↦ some none
  | some (some []) ↦ none
  | some (some (s ∷ strides)) ↦
      if s == 0
      then none
      else if ltb ((2 ^ 63 - 1) / s) k
      then some none
      else some (some ((s * k) ∷ (s ∷ strides)))
]

-- One of the outer dimensions of a tile: `odometer[dim]`, `origin[dim]`, `shape[dim]` and
-- `strides[dim]`.
pub record Dim : Type 0 where
  pub odometer : ℕ
  pub origin : ℕ
  pub extent : ℕ
  pub stride : ℕ

-- The `do` loop of `asdf_ndarray_read_tile_main_loop` over the outer dimensions, the last of them
-- first: whether the tile is done, the odometer and the source. A tile of one dimension has none.
unfoldable pub advance : ℕ → List Dim → ℕ → Bool × List Dim × ℕ
advance e [] src = (true, [], src)
advance e (d ∷ []) src =
    let moved = record d { odometer = d.odometer + 1 } in
    (not (ltb (d.odometer + 1) (add_size d.origin d.extent)), moved ∷ [], src + d.stride * e)
advance e (d ∷ (d' ∷ ds)) src =
    let (done, ds', src') = advance e (d' ∷ ds) (src + d.stride * e - d.extent * d.stride * e) in
    if ltb (d.odometer + 1) (add_size d.origin d.extent)
    then (false, record d { odometer = d.odometer + 1 } ∷ (d' ∷ ds), src + d.stride * e)
    else (done, record d { odometer = d.origin } ∷ ds', src')

-- `asdf_ndarray_read_tile_main_loop` on fuel: what is written, and the overflow that it returns.
unfoldable pub main_loop : ℕ → Convert → ℕ → ℕ → List ℕ → List Dim → ℕ → Option (List ℕ × Bool)
main_loop zero convert n e bytes dims src = none
main_loop (suc f) convert n e bytes dims src = elim (convert n (drop src bytes)) [
  | none ↦ none
  | some (row, over) ↦
      let next = advance e dims src in
      let later = main_loop f convert n e bytes next.1 next.2 in
      if next.0
      then some (row, over)
      else elim later [ none ↦ none | some (rows, over') ↦ some (row ++ rows, over') ]
]

-- `check_bounds`
unfoldable pub check_bounds : List ℕ → List ℕ → List ℕ → Bool
check_bounds (k ∷ array_shape) (o ∷ origin) (n ∷ shape) =
    let rest = check_bounds array_shape origin shape in if ltb k (add_size o n) then false else rest
check_bounds array_shape origin shape = true

-- An array over the outer dimensions, and its element at the inner one.
abbrev pub outer : List ℕ → List ℕ
outer [] = []
outer (x ∷ []) = []
outer (x ∷ (y ∷ xs)) = x ∷ outer (y ∷ xs)

abbrev pub inner : List ℕ → ℕ
inner [] = 0
inner (x ∷ []) = x
inner (x ∷ (y ∷ xs)) = inner (y ∷ xs)

-- `offset += origin[dim] * strides[dim]`
unfoldable pub offset_from : ℕ → List ℕ → List ℕ → ℕ
offset_from offset (o ∷ origin) (s ∷ strides) =
    offset_from (add_size offset (times_size o s)) origin strides
offset_from offset origin strides = offset

-- `is_1d &= (shape[dim] == 1)`
unfoldable pub all_one : List ℕ → Bool
all_one [] = true
all_one (n ∷ shape) = n == 1 && all_one shape

-- The outer dimensions, the last of them first, before those given.
unfoldable pub dims_onto : List ℕ → List ℕ → List ℕ → List Dim → List Dim
dims_onto (o ∷ origin) (n ∷ shape) (s ∷ strides) dims =
    dims_onto origin shape strides
      (record { odometer = o; origin = o; extent = n; stride = s } ∷ dims)
dims_onto origin shape strides dims = dims

-- The number of rows of a tile, as fuel.
abbrev pub count : List ℕ → ℕ
count [] = 1
count (n ∷ shape) = n * count shape

-- The end of `asdf_ndarray_read_tile_ndim` after a conversion. The clean-up frees the buffer that
-- was allocated unless `overflow` is set, which the main loop does not set.
abbrev pub finish : Bool → Option (List ℕ × Bool) → Option (NdarrayErr × Target)
finish frees none = none
finish frees (some (tile, over)) =
    some (if over then overflow else ok, if frees && over then dangling else stored tile)

-- The copy of `asdf_ndarray_read_tile_ndim`, once the strides are known.
unfoldable pub copy_tile :
    Convert → ℕ → List ℕ → List ℕ → List ℕ → List ℕ → Bool → Option (NdarrayErr × Target)
copy_tile convert e bytes origin shape strides new_buf =
    let offset = times_size (offset_from (inner origin) (outer origin) strides) e in
    if all_one (outer shape)
    then finish false (convert (product_from 1 shape) (drop offset bytes))
    else finish new_buf (
        main_loop (count (outer shape)) convert (inner shape) e bytes
          (dims_onto (outer origin) (outer shape) strides []) offset)

-- What follows the checks of `asdf_ndarray_read_tile_ndim`.
unfoldable pub tile_of :
    Convert → ℕ → List ℕ → List ℕ → List ℕ → List ℕ → Bool → Option (NdarrayErr × Target)
tile_of convert e bytes array_shape origin shape new_buf = elim (init_strides array_shape) [
  | none ↦ none
  | some none ↦ some (out_of_bounds, kept)
  | some (some strides) ↦ copy_tile convert e bytes origin shape strides new_buf
]

-- `ASDF_DATATYPE_SOURCE` stands for the type of the source.
unfoldable pub destination : Scalar → Scalar → Scalar
destination unknown src_t = src_t
destination dst_t src_t = dst_t

unfoldable pub plane_of : ℕ → Option (List ℕ) → List ℕ
plane_of leading none = replicate leading 0
plane_of leading (some plane_origin) = take leading plane_origin

module _ (host : Byteorder) (convert_fn : Scalar → Scalar → Bool → Option Convert) where
  -- `asdf_ndarray_read_tile_ndim`, with what it leaves in `*dst`; `new_buf` is that `*dst` is NULL,
  -- so that the tile is allocated. `malloc` succeeds, and the conversion functions are those of the
  -- table.
  unfoldable pub read_tile :
      Ndarray → List ℕ → List ℕ → Scalar → Bool → Option (NdarrayErr × Target)
  read_tile nd origin shape dst_t new_buf =
      let src_t = scalar_of nd.datatype in
      let dst_t' = destination dst_t src_t in
      let e = scalar_size src_t in
      let nelems = if length nd.shape == 0 then 0 else product_from 1 shape in
      if ltb e 1 || ltb (scalar_size dst_t') 1
      then some (inval, kept)
      else if not (check_bounds nd.shape origin shape)
      then some (out_of_bounds, kept)
      else if ltb (length nd.bytes) (times_size e nelems) || ltb (length nd.bytes) (nbytes nd)
      then some (out_of_bounds, kept)
      else elim (convert_fn src_t dst_t' (should_byteswap host e nd.byteorder)) [
        | none ↦ some (conversion, kept)
        | some convert ↦
            if length nd.shape == 0 || times_size (scalar_size dst_t') nelems == 0
            then some (ok, stored [])
            else tile_of convert e nd.bytes nd.shape origin shape new_buf
      ]

  -- `asdf_ndarray_read_all`
  unfoldable pub read_all : Ndarray → Scalar → Bool → Option (NdarrayErr × Target)
  read_all nd dst_t new_buf = read_tile nd (replicate (length nd.shape) 0) nd.shape dst_t new_buf

  -- `asdf_ndarray_read_at`, into memory of the caller.
  unfoldable pub read_at : Ndarray → List ℕ → Scalar → Option (NdarrayErr × Target)
  read_at nd indices dst_t =
      if length nd.shape == 0
      then some (inval, kept)
      else read_tile nd indices (replicate (length nd.shape) 1) dst_t false

  -- `asdf_ndarray_read_tile_2d`; without `plane_origin` the leading dimensions are at 0.
  unfoldable pub read_tile_2d :
      Ndarray → ℕ → ℕ → ℕ → ℕ → Option (List ℕ) → Scalar → Bool → Option (NdarrayErr × Target)
  read_tile_2d nd x y width height plane_origin dst_t new_buf =
      let leading = length nd.shape - 2 in
      let plane = plane_of leading plane_origin in
      if ltb (length nd.shape) 2
      then some (out_of_bounds, kept)
      else read_tile nd (plane ++ (y ∷ (x ∷ []))) (replicate leading 1 ++ (height ∷ (width ∷ [])))
          dst_t new_buf
