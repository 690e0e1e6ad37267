-- ===== src/Ndarray/Integers.antt =====
-- src/core/ndarray_convert.c: the conversions between the integer types. A number of `n` bytes is
-- its bit pattern, below 256 ^ n.
pub mod Element
pub mod Numbers
pub mod Row
pub mod Table
pub mod Order
pub mod Joined
pub mod Tile
mod Tests
use libasdf.Prelude.{
  ℕ, zero, suc, ◌+◌, ◌-◌, ◌*◌, ◌/◌, ◌%◌, ◌^◌, ◌≤◌, ◌<◌, min, max, ◌≡◌, refl, sym, ap, ap₂, ◌∙◌,
}
use libasdf.Prelude.{
  ◌≢◌, ◌↔◌, ◌⊎◌, inl, inr, Bool, true, false, not, ◌&&◌, ◌||◌, Option, none, some, arith,
}
use libasdf.Prelude.{
  List, [], ◌∷◌, ◌++◌, map, length, get_elem?, get_or, set, take, drop, replicate, All,
}
use libasdf.Prelude.{ltb, leb, ◌==◌, if◌then◌else◌, Bool-cases, Option-cases, tests}
use libasdf.Prelude.{
  length-append, length-take, length-drop, length-replicate, take-append, drop-append, drop-drop,
  drop-nil, drop_all, take-append-drop,
}
use libasdf.Prelude.{M, pure, fault, ◌>>=◌, ◌>>◌, get, gets, modify, read, assert, >>=-eq-some}
use libasdf.Prelude.Bytes.{size_mod}
use libasdf.Prelude.Int.{ℤ, pos, negsuc, pos_part, neg_part, leb_ℤ}
use libasdf.Prelude.Endian.{be_value, to_be, le_value, to_le}
use libasdf.Datatype.{
  Scalar, int8, uint8, int16, uint16, int32, uint32, int64, uint64, Byteorder, big, little,
}
use libasdf.Ndarray.{Convert}

-- An integer type of C: its size in bytes, half the number of its patterns, and its sign.
pub record IntType : Type 0 where
  pub size : ℕ
  pub half : ℕ
  pub signed : Bool

abbrev pub int_type_of : ℕ → Bool → IntType
int_type_of n signed = record { size = n; half = 2 ^ (8 * n - 1); signed = signed }

-- The C types that the table pairs with the integer datatypes.
unfoldable pub int_type : Scalar → Option IntType
int_type int8 = some (int_type_of 1 true)
int_type uint8 = some (int_type_of 1 false)
int_type int16 = some (int_type_of 2 true)
int_type uint16 = some (int_type_of 2 false)
int_type int32 = some (int_type_of 4 true)
int_type uint32 = some (int_type_of 4 false)
int_type int64 = some (int_type_of 8 true)
int_type uint64 = some (int_type_of 8 false)
int_type t = none

abbrev pub patterns : IntType → ℕ
patterns t = 2 * t.half

-- The number that a pattern stands for, in a type with a sign or without.
unfoldable pub value_of : Bool → ℕ → ℕ → ℤ
value_of true half p = if ltb p half then pos p else negsuc (2 * half - 1 - p)
value_of false half p = pos p

abbrev pub value : IntType → ℕ → ℤ
value t p = value_of t.signed t.half p

-- The pattern of a number in a type: `(dst_t)val`, which wraps.
unfoldable pub cast_to : ℕ → ℤ → ℕ
cast_to half (pos n) = n % (2 * half)
cast_to half (negsuc n) = 2 * half - 1 - n % (2 * half)

abbrev pub cast : IntType → ℤ → ℕ
cast t v = cast_to t.half v

-- `INT8_MIN`, `INT8_MAX` and the like.
unfoldable pub min_of : Bool → ℕ → ℤ
min_of true half = negsuc (half - 1)
min_of false half = pos 0

unfoldable pub max_of : Bool → ℕ → ℤ
max_of true half = pos (half - 1)
max_of false half = pos (2 * half - 1)

abbrev pub int_min : IntType → ℤ
int_min t = min_of t.signed t.half

abbrev pub int_max : IntType → ℤ
int_max t = max_of t.signed t.half

-- `a < b` of C
abbrev pub less : ℤ → ℤ → Bool
less a b = not (leb_ℤ b a)

-- The macros that define the conversion functions.
pub data Kind : Type 0 where
  identity generic clamp clamp_max truncate : Kind

-- The macro that defines the conversion of a pair of integer types.
unfoldable pub int_kind : Scalar → Scalar → Option Kind
int_kind int8 int8 = some identity
int_kind int8 uint8 = some truncate
int_kind int8 int16 = some generic
int_kind int8 uint16 = some truncate
int_kind int8 int32 = some generic
int_kind int8 uint32 = some truncate
int_kind int8 int64 = some generic
int_kind int8 uint64 = some truncate
int_kind uint8 int8 = some clamp_max
int_kind uint8 uint8 = some identity
int_kind uint8 int16 = some generic
int_kind uint8 uint16 = some generic
int_kind uint8 int32 = some generic
int_kind uint8 uint32 = some generic
int_kind uint8 int64 = some generic
int_kind uint8 uint64 = some generic
int_kind int16 int8 = some clamp
int_kind int16 uint8 = some clamp
int_kind int16 int16 = some identity
int_kind int16 uint16 = some truncate
int_kind int16 int32 = some generic
int_kind int16 uint32 = some truncate
int_kind int16 int64 = some generic
int_kind int16 uint64 = some truncate
int_kind uint16 int8 = some clamp_max
int_kind uint16 uint8 = some clamp_max
int_kind uint16 int16 = some clamp_max
int_kind uint16 uint16 = some identity
int_kind uint16 int32 = some generic
int_kind uint16 uint32 = some generic
int_kind uint16 int64 = some generic
int_kind uint16 uint64 = some generic
int_kind int32 int8 = some clamp
int_kind int32 uint8 = some clamp
int_kind int32 int16 = some clamp
int_kind int32 uint16 = some clamp
int_kind int32 int32 = some identity
int_kind int32 uint32 = some truncate
int_kind int32 int64 = some generic
int_kind int32 uint64 = some truncate
int_kind uint32 int8 = some clamp_max
int_kind uint32 uint8 = some clamp_max
int_kind uint32 int16 = some clamp_max
int_kind uint32 uint16 = some clamp_max
int_kind uint32 int32 = some clamp_max
int_kind uint32 uint32 = some identity
int_kind uint32 int64 = some generic
int_kind uint32 uint64 = some generic
int_kind int64 int8 = some clamp
int_kind int64 uint8 = some clamp
int_kind int64 int16 = some clamp
int_kind int64 uint16 = some clamp
int_kind int64 int32 = some clamp
int_kind int64 uint32 = some clamp
int_kind int64 int64 = some identity
int_kind int64 uint64 = some truncate
int_kind uint64 int8 = some clamp_max
int_kind uint64 uint8 = some clamp_max
int_kind uint64 int16 = some clamp_max
int_kind uint64 uint16 = some clamp_max
int_kind uint64 int32 = some clamp_max
int_kind uint64 uint32 = some clamp_max
int_kind uint64 int64 = some clamp_max
int_kind uint64 uint64 = some identity
int_kind src dst = none

-- The body of the loop of a conversion function: the pattern that it stores, and whether it sets
-- `overflow`.
unfoldable pub convert_one : Kind → IntType → IntType → ℕ → ℕ × Bool
convert_one identity s d p = (cast d (value s p), false)
convert_one generic s d p = (cast d (value s p), false)
convert_one clamp s d p =
    let val = value s p in
    if less val (value s (cast s (int_min d)))
    then (cast d (int_min d), true)
    else if less (value s (cast s (int_max d))) val
    then (cast d (int_max d), true)
    else (cast d val, false)
convert_one clamp_max s d p =
    let val = value s p in
    if less (value s (cast s (int_max d))) val
    then (cast d (int_max d), true)
    else (cast d val, false)
convert_one truncate s d p =
    let val = value s p in
    if less val (value s (cast s (pos 0)))
    then (cast d (value s (cast s (pos 0))), true)
    else (cast d val, false)

-- The order of bytes is big-endian: that of the host, and that of a number to be swapped, which is
-- read in the other order.
unfoldable pub is_big : Byteorder → Bool
is_big big = true
is_big order = false

unfoldable pub source_big : Byteorder → Bool → Bool
source_big host bswap = if bswap then not (is_big host) else is_big host

-- `LOAD_UNALIGNED`, and the store of an element.
unfoldable pub load : Bool → List ℕ → ℕ
load order bs = if order then be_value bs else le_value bs

unfoldable pub store : Bool → ℕ → ℕ → List ℕ
store order n p = if order then to_be n p else to_le n p

-- The loop of a conversion function.
unfoldable pub convert_loop : Kind → IntType → IntType → Bool → Bool → Convert
convert_loop k s d from onto zero bs = some ([], false)
convert_loop k s d from onto (suc n) bs =
    let one = convert_one k s d (load from (take s.size bs)) in
    let rest = convert_loop k s d from onto n (drop s.size bs) in
    if ltb (length bs) s.size then none else elim rest [
      | none ↦ none
      | some (out, over) ↦ some (store onto d.size one.0 ++ out, one.1 || over)
    ]

-- A function of the table: the one for equal types, without a swap, is a `memcpy`.
unfoldable pub convert_fn_of : Kind → IntType → IntType → Byteorder → Bool → Convert
convert_fn_of identity s d host false n bs =
    if ltb (length bs) (n * s.size) then none else some (take (n * s.size) bs, false)
convert_fn_of k s d host bswap n bs = convert_loop k s d (source_big host bswap) (is_big host) n bs

abbrev pub pair_fn :
    Option IntType → Option IntType → Option Kind → Byteorder → Bool → Option Convert
pair_fn (some s) (some d) (some k) host bswap = some (convert_fn_of k s d host bswap)
pair_fn s d k host bswap = none

-- `asdf_ndarray_get_convert_fn` at the integer types.
unfoldable pub get_convert_fn : Byteorder → Scalar → Scalar → Bool → Option Convert
get_convert_fn host src dst bswap =
    pair_fn (int_type src) (int_type dst) (int_kind src dst) host bswap
