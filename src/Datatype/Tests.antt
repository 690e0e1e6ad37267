-- ===== src/Datatype/Tests.antt =====
-- The names of datatypes, and the size of a structured one.
use libasdf.Prelude.{◌↔◌, ◌⊎◌}
use libasdf.Prelude.{◌<◌, ◌≡◌, refl}
use libasdf.Prelude.{inl, inr, none, some, arith}
use libasdf.Prelude.{[], ◌∷◌}
use libasdf.Prelude.Bytes.{codes, starts_with}
use libasdf.Datatype.{
  unknown, uint16, int32, float64, ascii, structured, little, big, Datatype, datatype, end, field,
  from_string, to_string, scalar_size, datatype_size, is_string, is_structured, times_shape,
  byteorder_from_string, byteorder_to_string, numbered, first_of, spans, one_of, strcmp_eq,
}
use libasdf.Datatype.Names.{from_string-to_string}
use libasdf.Datatype.Size.{full, IsConsistent, AreConsistent, datatype_size-full}

has_size : 0 < scalar_size float64
unfolding scalar_size
has_size = omega arith

read_uint : from_string (codes "uint16") ≡ uint16
unfolding from_string numbered first_of spans one_of strcmp_eq starts_with
read_uint = refl

from_string-to_string_example :
    ((from_string (codes "float64") ≡ float64) ↔ (codes "float64" ≡ to_string float64))
    × ((from_string (codes "float64") ≡ unknown)
        ⊎ (0 < scalar_size (from_string (codes "float64"))))
from_string-to_string_example = from_string-to_string float64 (codes "float64") has_size

orders : byteorder_from_string (byteorder_to_string big) ≡ big
unfolding byteorder_from_string byteorder_to_string strcmp_eq
orders = refl

-- Three pairs of a number of four bytes and a text of five.
abbrev pairs : Datatype
pairs = datatype structured 0 none little (3 ∷ []) (
    field (datatype int32 0 (some (codes "n")) little [] end)
      (field (datatype ascii 5 (some (codes "s")) little [] end) end))

pairs_size : (datatype_size pairs).0 ≡ 27
unfolding datatype_size is_string is_structured times_shape scalar_size
pairs_size = refl

ascii_size : 5 ≡ full (datatype ascii 5 (some (codes "s")) little [] end)
unfolding full is_string
ascii_size = refl

pairs-IsConsistent : IsConsistent pairs
unfolding IsConsistent AreConsistent
pairs-IsConsistent =
    (inl refl, omega arith, ((inl refl, omega arith, tt), ((inr ascii_size, omega arith, tt), tt)))

datatype_size-full_example :
    ((datatype_size pairs).0 ≡ full pairs)
    × IsConsistent (datatype_size pairs).1
    × ((datatype_size (datatype_size pairs).1).0 ≡ full pairs)
datatype_size-full_example = datatype_size-full pairs pairs-IsConsistent
