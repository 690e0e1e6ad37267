-- ===== src/Ndarray/Integers/Numbers.antt =====
-- The numbers that stand in bytes one after the other.
use libasdf.Prelude.{ℕ, zero, suc, ◌^◌, ◌≤◌, ◌<◌, ◌≡◌, ap, ap₂, ◌∙◌}
use libasdf.Prelude.{Bool, true, false, not, ◌||◌, arith}
use libasdf.Prelude.{List, [], ◌∷◌, ◌++◌, length, take, drop, All}
use libasdf.Prelude.{length-take}
use libasdf.Prelude.{take_exact, drop_exact}
use libasdf.Prelude.Bytes.{IsByte}
use libasdf.Prelude.Int.{ℤ}
use libasdf.Prelude.Endian.{
  length-to_be, length-to_le, be_value-to_be, le_value-to_le, be_value-fits, le_value-fits,
}
use libasdf.Ndarray.Integers.{IntType, patterns, value, load, store}
use libasdf.Ndarray.Integers.Element.{in_range}

-- The numbers of a type that stand one after the other.
unfoldable pub numbers : Bool → IntType → ℕ → List ℕ → List ℤ
numbers order t zero bs = []
numbers order t (suc n) bs =
    value t (load order (take t.size bs)) ∷ numbers order t n (drop t.size bs)

-- Some number is not one of the type.
unfoldable pub any_outside : IntType → List ℤ → Bool
any_outside t [] = false
any_outside t (v ∷ vs) = not (in_range t v) || any_outside t vs

-- The patterns of a type are those of its bytes.
pub record IsType (t : IntType) : Type 0 where
  pub some_half : 0 < t.half
  pub fills : patterns t ≡ 256 ^ t.size

pub length-store : (order : Bool) (n p : ℕ) → length (store order n p) ≡ n
unfolding store
length-store true n p = length-to_be n p
length-store false n p = length-to_le n p

pub load-store : (order : Bool) (n p : ℕ) → p < 256 ^ n → load order (store order n p) ≡ p
unfolding load store
load-store true n p h = be_value-to_be n p h
load-store false n p h = le_value-to_le n p h

pub load-fits : (order : Bool) (bs : List ℕ) → All IsByte bs → load order bs < 256 ^ length bs
unfolding load
load-fits true bs bytes = be_value-fits bs bytes
load-fits false bs bytes = le_value-fits bs bytes

pub All-take : (n : ℕ) (bs : List ℕ) → All IsByte bs → All IsByte (take n bs)
All-take zero bs bytes = tt
All-take (suc n) [] bytes = tt
All-take (suc n) (b ∷ bs) (byte, bytes) = (byte, All-take n bs bytes)

pub All-drop : (n : ℕ) (bs : List ℕ) → All IsByte bs → All IsByte (drop n bs)
All-drop zero bs bytes = bytes
All-drop (suc n) [] bytes = tt
All-drop (suc n) (b ∷ bs) (byte, bytes) = All-drop n bs bytes

pub load-pattern :
    (order : Bool) (t : IntType) (bs : List ℕ)
    → IsType t
    → All IsByte bs
    → t.size ≤ length bs
    → load order (take t.size bs) < patterns t
load-pattern order t bs type bytes enough =
    let width : length (take t.size bs) ≡ t.size = omega (arith, length-take t.size bs, enough) in
    let bound = load-fits order (take t.size bs) (All-take t.size bs bytes) in
    let width' : 256 ^ length (take t.size bs) ≡ 256 ^ t.size = ap (λ n. 256 ^ n) width in
    omega (arith, bound, width', type.fills)

-- Reading what a store and more of them wrote.
pub numbers-store :
    (order : Bool) (t : IntType) (p n : ℕ) (bs : List ℕ)
    → IsType t
    → p < patterns t
    → numbers order t (suc n) (store order t.size p ++ bs) ≡ value t p ∷ numbers order t n bs
unfolding numbers
numbers-store order t p n bs type h =
    let width = length-store order t.size p in
    let front : take t.size (store order t.size p ++ bs) ≡ store order t.size p =
      take_exact t.size (store order t.size p) bs width in
    let later : drop t.size (store order t.size p ++ bs) ≡ bs =
      drop_exact t.size (store order t.size p) bs width in
    ap₂ (λ x y. value t (load order x) ∷ numbers order t n y) front later
    ∙ ap (λ q. value t q ∷ numbers order t n bs)
        (load-store order t.size p (omega (arith, h, type.fills)))
