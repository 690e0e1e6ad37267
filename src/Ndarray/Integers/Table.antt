-- ===== src/Ndarray/Integers/Table.antt =====
-- The table of the conversions between integer types: each pair has a function, whose macro fits
-- the types.
use libasdf.Prelude.{ℕ, ◌+◌, ◌*◌, ◌^◌, ◌≤◌, ◌≡◌, refl, sym, ap₂, ◌∙◌}
use libasdf.Prelude.{Bool, true, false, not, ◌&&◌, Option, none, some, arith}
use libasdf.Prelude.{List, length, All}
use libasdf.Prelude.{ltb, ◌==◌}
use libasdf.Prelude.{leb→le}
use libasdf.Prelude.Bytes.{IsByte}
use libasdf.Prelude.Int.{ℤ, pos, pos_part, neg_part, leb_ℤ}
use libasdf.Datatype.{
  Scalar, unknown, int8, uint8, int16, uint16, int32, uint32, int64, uint64, float16, float32,
  float64, complex64, complex128, bool8, ascii, ucs4, structured, Byteorder,
}
use libasdf.Ndarray.{Convert}
use libasdf.Ndarray.Integers.{
  IntType, int_type, patterns, int_min, int_max, min_of, max_of, Kind, identity, generic, clamp,
  clamp_max, truncate, int_kind, is_big, source_big, convert_fn_of, get_convert_fn,
}
use libasdf.Ndarray.Integers.Element.{in_range, Suits}
use libasdf.Ndarray.Integers.Numbers.{IsType, numbers}
use libasdf.Ndarray.Integers.Row.{Nearest, convert_fn-Nearest}

same_sign : Bool → Bool → Bool
same_sign true true = true
same_sign false false = true
same_sign a b = false

-- A test for `Suits`, and for the types.
unfoldable suits : Kind → IntType → IntType → Bool
unfolding same_sign
suits identity s d = s.size == d.size && (s.half == d.half && same_sign s.signed d.signed)
suits generic s d = in_range d (int_min s) && in_range d (int_max s)
suits clamp s d = in_range s (int_min d) && in_range s (int_max d)
suits clamp_max s d = in_range s (int_max d) && leb_ℤ (int_min d) (int_min s)
suits truncate s d = in_range s (pos 0) && (not d.signed && leb_ℤ (int_max s) (int_max d))

unfoldable is_type : IntType → Bool
is_type t = ltb 0 t.half && patterns t == 256 ^ t.size

both : (a b : Bool) → (a && b) ≡ true → (a ≡ true) × (b ≡ true)
both true b h = (refl, h)
both false b h = cc

is_type-IsType : (t : IntType) → is_type t ≡ true → IsType t
unfolding is_type
is_type-IsType t h = record { some_half = ground (arith, h); fills = ground (arith, h) }

in_range-both :
    (t : IntType) (v : ℤ)
    → in_range t v ≡ true
    → (pos_part (int_min t) + neg_part v ≤ pos_part v + neg_part (int_min t))
      × (pos_part v + neg_part (int_max t) ≤ pos_part (int_max t) + neg_part v)
in_range-both t v h =
    let (low, high) = both (leb_ℤ (int_min t) v) (leb_ℤ v (int_max t)) h in
    (
      leb→le (pos_part (int_min t) + neg_part v) (pos_part v + neg_part (int_min t)) low,
      leb→le (pos_part v + neg_part (int_max t)) (pos_part (int_max t) + neg_part v) high,
    )

signs_agree : (a b : Bool) → same_sign a b ≡ true → a ≡ b
unfolding same_sign
signs_agree true true h = refl
signs_agree false false h = refl
signs_agree true false h = cc
signs_agree false true h = cc

suits-Suits : (k : Kind) (s d : IntType) → suits k s d ≡ true → Suits k s d
unfolding suits Suits min_of
suits-Suits identity s d h =
    let (sizes, same) =
      both (s.size == d.size) (s.half == d.half && same_sign s.signed d.signed) h in
    let (halves, signs) = both (s.half == d.half) (same_sign s.signed d.signed) same in
    (ground (arith, sizes), ground (arith, halves), signs_agree s.signed d.signed signs)
suits-Suits generic s d h =
    let (least, greatest) = both (in_range d (int_min s)) (in_range d (int_max s)) h in
    (in_range-both d (int_min s) least, in_range-both d (int_max s) greatest)
suits-Suits clamp s d h =
    let (least, greatest) = both (in_range s (int_min d)) (in_range s (int_max d)) h in
    (in_range-both s (int_min d) least, in_range-both s (int_max d) greatest)
suits-Suits clamp_max s d h =
    let (greatest, least) = both (in_range s (int_max d)) (leb_ℤ (int_min d) (int_min s)) h in
    (
      in_range-both s (int_max d) greatest,
      leb→le (pos_part (int_min d) + neg_part (int_min s))
          (pos_part (int_min s) + neg_part (int_min d)) least,
    )
suits-Suits truncate s d h =
    let (zero_in, more) =
      both (in_range s (pos 0)) (not d.signed && leb_ℤ (int_max s) (int_max d)) h in
    let (positive, greatest) = both (not d.signed) (leb_ℤ (int_max s) (int_max d)) more in
    (
      in_range-both s (pos 0) zero_in,
      unsigned d.signed d.half positive,
      leb→le (pos_part (int_max s) + neg_part (int_max d))
          (pos_part (int_max d) + neg_part (int_max s)) greatest,
    )
  where
    unsigned : (signed : Bool) (h : ℕ) → not signed ≡ true → min_of signed h ≡ pos 0
    unsigned false h e = refl
    unsigned true h e = cc

-- The pair has a function that is right for its types.
pair_test : Option IntType → Option IntType → Option Kind → Bool
pair_test (some s) (some d) (some k) = suits k s d && (is_type s && is_type d)
pair_test s d k = false

all_ints : (Scalar → Bool) → Bool
all_ints f =
    f int8
    && (f uint8 && (f int16 && (f uint16 && (f int32 && (f uint32 && (f int64 && f uint64))))))

table_test :
    all_ints (λ s. all_ints (λ d. pair_test (int_type s) (int_type d) (int_kind s d))) ≡ true
unfolding all_ints pair_test suits is_type same_sign int_type int_kind min_of max_of
table_test = refl

find :
    (f : Scalar → Bool) (t : Scalar) (s : IntType)
    → all_ints f ≡ true
    → int_type t ≡ some s
    → f t ≡ true
unfolding all_ints int_type
find f int8 s h e = ground (arith, h)
find f uint8 s h e = ground (arith, h)
find f int16 s h e = ground (arith, h)
find f uint16 s h e = ground (arith, h)
find f int32 s h e = ground (arith, h)
find f uint32 s h e = ground (arith, h)
find f int64 s h e = ground (arith, h)
find f uint64 s h e = ground (arith, h)
find f unknown s h e = cc
find f float16 s h e = cc
find f float32 s h e = cc
find f float64 s h e = cc
find f complex64 s h e = cc
find f complex128 s h e = cc
find f bool8 s h e = cc
find f ascii s h e = cc
find f ucs4 s h e = cc
find f structured s h e = cc

-- At the integer types the table has a function, and its macro fits them.
pub int_kind-Suits :
    (src dst : Scalar) (s d : IntType)
    → int_type src ≡ some s
    → int_type dst ≡ some d
    → (k : Kind) × (int_kind src dst ≡ some k) × Suits k s d × IsType s × IsType d
unfolding pair_test
int_kind-Suits src dst s d src_type dst_type =
    let row =
      find (λ t. all_ints (λ u. pair_test (int_type t) (int_type u) (int_kind t u))) src s
        table_test src_type in
    let pair =
      find (λ u. pair_test (int_type src) (int_type u) (int_kind src u)) dst d row dst_type in
    of_kind (int_kind src dst)
      (sym (ap₂ (λ x y. pair_test x y (int_kind src dst)) src_type dst_type) ∙ pair)
  where
    of_kind :
        (ks : Option Kind)
        → pair_test (some s) (some d) ks ≡ true
        → (k : Kind) × (ks ≡ some k) × Suits k s d × IsType s × IsType d
    of_kind none h = cc
    of_kind (some k) h =
        let (fits, types) = both (suits k s d) (is_type s && is_type d) h in
        let (s_type, d_type) = both (is_type s) (is_type d) types in
        (k, refl, suits-Suits k s d fits, is_type-IsType s s_type, is_type-IsType d d_type)

pub get_convert_fn_lem :
    (host : Byteorder) (src dst : Scalar) (bswap : Bool) (s d : IntType) (k : Kind)
    → int_type src ≡ some s
    → int_type dst ≡ some d
    → int_kind src dst ≡ some k
    → get_convert_fn host src dst bswap ≡ some (convert_fn_of k s d host bswap)
unfolding get_convert_fn
get_convert_fn_lem host src dst bswap s d k src_type dst_type kind =
    rw (src_type, dst_type, kind) refl

-- At the integer types the table has a conversion, and what it makes of any `n` elements are the
-- numbers of the destination that are nearest to theirs, in the byte order of the host; it tells of
-- an overflow just when one of them is not a number of the destination. The source is in the byte
-- order of the host, or in the other one if it is to be swapped.
pub get_convert_fn-Nearest :
    (host : Byteorder) (src dst : Scalar) (bswap : Bool) (s d : IntType) (n : ℕ) (bs : List ℕ)
    → int_type src ≡ some s
    → int_type dst ≡ some d
    → All IsByte bs
    → n * s.size ≤ length bs
    → (convert : Convert) × (get_convert_fn host src dst bswap ≡ some convert)
      × Nearest (is_big host) d n (numbers (source_big host bswap) s n bs) (convert n bs)
get_convert_fn-Nearest host src dst bswap s d n bs src_type dst_type bytes enough =
    let (k, kind, fits, s_type, d_type) = int_kind-Suits src dst s d src_type dst_type in
    (
      convert_fn_of k s d host bswap,
      get_convert_fn_lem host src dst bswap s d k src_type dst_type kind,
      convert_fn-Nearest k s d host bswap n bs s_type d_type fits bytes enough,
    )
