-- ===== src/Datatype.antt =====
-- src/core/datatype.c, src/core/datatype.h and include/asdf/core/datatype.h: the names and the
-- sizes of datatypes. A C string is the list of its bytes without the NUL.
pub mod Names
pub mod Size
mod Tests
use libasdf.Prelude.{
  ℕ, zero, suc, ◌+◌, ◌-◌, ◌*◌, ◌/◌, ◌%◌, ◌^◌, ◌≤◌, ◌<◌, min, max, ◌≡◌, refl, sym, ap, ap₂, ◌∙◌,
}
use libasdf.Prelude.{
  ◌≢◌, ◌↔◌, ◌⊎◌, inl, inr, Bool, true, false, not, ◌&&◌, ◌||◌, Option, none, some, arith,
}
use libasdf.Prelude.{
  List, [], ◌∷◌, ◌++◌, map, length, get_elem?, get_or, set, take, drop, replicate, All,
}
use libasdf.Prelude.{ltb, leb, ◌==◌, if◌then◌else◌, Bool-cases, Option-cases, tests}
use libasdf.Prelude.{
  length-append, length-take, length-drop, length-replicate, take-append, drop-append, drop-drop,
  drop-nil, drop_all, take-append-drop,
}
use libasdf.Prelude.{M, pure, fault, ◌>>=◌, ◌>>◌, get, gets, modify, read, assert, >>=-eq-some}
use libasdf.Prelude.Bytes.{codes, size_mod, starts_with}

-- `asdf_scalar_datatype_t`
pub data Scalar : Type 0 where
  unknown int8 uint8 int16 uint16 int32 uint32 int64 uint64 float16 float32 float64 : Scalar
  complex64 complex128 bool8 ascii ucs4 structured : Scalar

-- `asdf_byteorder_t`
pub data Byteorder : Type 0 where
  invalid default big little : Byteorder

-- `strcmp(a, b) == 0`
unfoldable pub strcmp_eq : List ℕ → List ℕ → Bool
strcmp_eq [] [] = true
strcmp_eq [] (b ∷ bs) = false
strcmp_eq (a ∷ as') [] = false
strcmp_eq (a ∷ as') (b ∷ bs) = a == b && strcmp_eq as' bs

-- `*p && strspn(p, set) == strlen(p)`
unfoldable pub one_of : ℕ → List ℕ → Bool
one_of c [] = false
one_of c (d ∷ ds) = c == d || one_of c ds

unfoldable pub spans : List ℕ → List ℕ → Bool
unfolding one_of
spans digits [] = true
spans digits (c ∷ cs) = one_of c digits && spans digits cs

-- The first of the names that `p` is, where `p` is not empty and has only these characters.
unfoldable pub first_of : List (List ℕ × Scalar) → List ℕ → Scalar
unfolding strcmp_eq
first_of [] p = unknown
first_of ((name, t) ∷ names) p =
    let later = first_of names p in if strcmp_eq p name then t else later

unfoldable pub numbered : List ℕ → List (List ℕ × Scalar) → List ℕ → Scalar
unfolding spans first_of
numbered digits names p =
    if not (length p == 0) && spans digits p then first_of names p else unknown

abbrev pub int_names : List (List ℕ × Scalar)
int_names = (codes "8", int8) ∷ (codes "16", int16) ∷ (codes "32", int32) ∷ (codes "64", int64) ∷ []

abbrev pub uint_names : List (List ℕ × Scalar)
uint_names =
    (codes "8", uint8) ∷ (codes "16", uint16) ∷ (codes "32", uint32) ∷ (codes "64", uint64) ∷ []

abbrev pub float_names : List (List ℕ × Scalar)
float_names = (codes "16", float16) ∷ (codes "32", float32) ∷ (codes "64", float64) ∷ []

abbrev pub complex_names : List (List ℕ × Scalar)
complex_names = (codes "64", complex64) ∷ (codes "128", complex128) ∷ []

-- `asdf_scalar_datatype_from_string`
unfoldable pub from_string : List ℕ → Scalar
unfolding numbered starts_with strcmp_eq
from_string s =
    if starts_with (codes "int") s
    then numbered (codes "123468") int_names (drop 3 s)
    else if starts_with (codes "uint") s
    then numbered (codes "123468") uint_names (drop 4 s)
    else if starts_with (codes "float") s
    then numbered (codes "12346") float_names (drop 5 s)
    else if starts_with (codes "complex") s
    then numbered (codes "12468") complex_names (drop 7 s)
    else if strcmp_eq s (codes "bool8")
    then bool8
    else unknown

-- `asdf_scalar_datatype_to_string`
unfoldable pub to_string : Scalar → List ℕ
to_string unknown = codes "<unknown>"
to_string int8 = codes "int8"
to_string uint8 = codes "uint8"
to_string int16 = codes "int16"
to_string uint16 = codes "uint16"
to_string int32 = codes "int32"
to_string uint32 = codes "uint32"
to_string int64 = codes "int64"
to_string uint64 = codes "uint64"
to_string float16 = codes "float16"
to_string float32 = codes "float32"
to_string float64 = codes "float64"
to_string complex64 = codes "complex64"
to_string complex128 = codes "complex128"
to_string bool8 = codes "bool8"
to_string ascii = codes "ascii"
to_string ucs4 = codes "ucs4"
to_string structured = codes "<structured>"

-- `asdf_scalar_datatype_size`
unfoldable pub scalar_size : Scalar → ℕ
scalar_size int8 = 1
scalar_size uint8 = 1
scalar_size bool8 = 1
scalar_size int16 = 2
scalar_size uint16 = 2
scalar_size float16 = 2
scalar_size int32 = 4
scalar_size uint32 = 4
scalar_size float32 = 4
scalar_size int64 = 8
scalar_size uint64 = 8
scalar_size float64 = 8
scalar_size complex64 = 8
scalar_size complex128 = 16
scalar_size ascii = 0
scalar_size ucs4 = 0
scalar_size structured = 0
scalar_size unknown = 0

-- `asdf_byteorder_from_string`, with NULL.
unfoldable pub byteorder_from_string : Option (List ℕ) → Byteorder
unfolding strcmp_eq
byteorder_from_string none = invalid
byteorder_from_string (some s) =
    if strcmp_eq s (codes "little")
    then little
    else if strcmp_eq s (codes "big")
    then big
    else invalid

-- `asdf_byteorder_to_string`
unfoldable pub byteorder_to_string : Byteorder → Option (List ℕ)
byteorder_to_string little = some (codes "little")
byteorder_to_string big = some (codes "big")
byteorder_to_string default = none
byteorder_to_string invalid = none

-- `struct asdf_datatype`; `ndim` and `nfields` are the lengths of the lists.
mutual
  pub data Datatype : Type 0 where
    datatype : Scalar → ℕ → Option (List ℕ) → Byteorder → List ℕ → Fields → Datatype

  pub data Fields : Type 0 where
    end : Fields
    field : Datatype → Fields → Fields

-- `asdf_datatype_is_string`
unfoldable pub is_string : Scalar → Bool
is_string ascii = true
is_string ucs4 = true
is_string t = false

-- `asdf_datatype_is_structured`
unfoldable pub is_structured : Scalar → Bool
is_structured structured = true
is_structured t = false

-- `size *= shape[idx]` over the shape, in 64 bits.
unfoldable pub times_shape : ℕ → List ℕ → ℕ
times_shape size [] = size
times_shape size (n ∷ shape) = times_shape (size * n % size_mod) shape

-- `asdf_datatype_size`, with the datatype as it is left: the size that is computed is kept in it.
unfoldable mutual
  pub datatype_size : Datatype → ℕ × Datatype
  datatype_size (datatype t size name order shape fs) =
      let r = if is_structured t then fields_size fs 0 else (scalar_size t, fs) in
      let n = if not (r.0 == 0) && ltb 0 (length shape) then times_shape r.0 shape else r.0 in
      if not (size == 0) || is_string t
      then (size, datatype t size name order shape fs)
      else (n, datatype t n name order shape r.1)

  pub fields_size : Fields → ℕ → ℕ × Fields
  fields_size end acc = (acc, end)
  fields_size (field d fs) acc =
      let a = datatype_size d in
      let b = fields_size fs ((acc + a.0) % size_mod) in (b.0, field a.1 b.1)
