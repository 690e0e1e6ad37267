-- ===== src/Ndarray/Integers/Row.antt =====
-- The conversion of a run of elements, and the table: the numbers that are read from what a
-- conversion writes are the nearest of the destination to those of the source.
use libasdf.Prelude.{ℕ, zero, suc, ◌+◌, ◌-◌, ◌*◌, ◌≤◌, ◌≡◌, refl, sym, ap, ap₂, ◌∙◌}
use libasdf.Prelude.{Bool, true, false, not, ◌||◌, Option, none, some, arith}
use libasdf.Prelude.{List, [], ◌∷◌, ◌++◌, map, length, take, drop, All}
use libasdf.Prelude.{length-append, length-take, length-drop}
use libasdf.Prelude.{le→ltb}
use libasdf.Prelude.Bytes.{IsByte}
use libasdf.Prelude.Int.{ℤ}
use libasdf.FileStream.Valid.{drop-take}
use libasdf.FileStream.Readline.{take-take}
use libasdf.Datatype.{Byteorder}
use libasdf.Ndarray.Integers.{
  IntType, value, Kind, identity, generic, clamp, clamp_max, truncate, convert_one, is_big,
  source_big, load, store, convert_loop, convert_fn_of,
}
use libasdf.Ndarray.Integers.Element.{nearest, Converted, Suits, convert_one-Converted, copied}
use libasdf.Ndarray.Integers.Numbers.{
  numbers, any_outside, IsType, length-store, All-drop, load-pattern, numbers-store,
}

-- The result of a conversion of some numbers.
unfoldable pub Nearest : Bool → IntType → ℕ → List ℤ → Option (List ℕ × Bool) → Type 0
Nearest order d n vs none = ⊥
Nearest order d n vs (some (out, over)) =
    (length out ≡ n * d.size)
    × (numbers order d n out ≡ map (nearest d) vs)
    × (over ≡ any_outside d vs)

first_fits : (n size total : ℕ) → suc n * size ≤ total → size ≤ total
first_fits n size total h = grind (arith, h)

rest_fits : (n size : ℕ) (bs : List ℕ) → suc n * size ≤ length bs → n * size ≤ length (drop size bs)
rest_fits n size bs h =
    let next : suc n * size ≡ size + n * size = grind arith in
    omega (arith, h, next, length-drop size bs)

-- One more element before a result.
before :
    (order : Bool) (d : IntType) (n : ℕ) (v : ℤ) (vs : List ℤ) (one : ℕ × Bool)
    (rest : Option (List ℕ × Bool))
    → IsType d
    → Converted d v one
    → Nearest order d n vs rest
    → Nearest order d (suc n) (v ∷ vs) (elim rest [
      | none ↦ none
      | some (out, over) ↦ some (store order d.size one.0 ++ out, one.1 || over)
    ])
unfolding Nearest Converted any_outside
before order d n v vs (q, o) none type one h = h
before order d n v vs (q, o) (some (out, over)) type (number, flag, fits) (len, same, flags) = (
  omega (arith, length-append (store order d.size q) out, length-store order d.size q, len),
  numbers-store order d q n out type fits ∙ ap₂ ◌∷◌ number same,
  ap₂ ◌||◌ flag flags,
)

no_numbers : (order : Bool) (d : IntType) → Nearest order d 0 [] (some ([], false))
unfolding Nearest any_outside numbers
no_numbers order d = (omega arith, refl, refl)

pub convert_loop-Nearest :
    (k : Kind) (s d : IntType) (from onto : Bool) (n : ℕ) (bs : List ℕ)
    → IsType s
    → IsType d
    → Suits k s d
    → All IsByte bs
    → n * s.size ≤ length bs
    → Nearest onto d n (numbers from s n bs) (convert_loop k s d from onto n bs)
unfolding convert_loop numbers
convert_loop-Nearest k s d from onto zero bs s_type d_type suits bytes enough = no_numbers onto d
convert_loop-Nearest k s d from onto (suc n) bs s_type d_type suits bytes enough =
    let some_left : s.size ≤ length bs = first_fits n s.size (length bs) enough in
    let small = load-pattern from s bs s_type bytes some_left in
    let one =
      convert_one-Converted k s d (load from (take s.size bs)) s_type.some_half d_type.some_half
        suits small in
    let later =
      convert_loop-Nearest k s d from onto n (drop s.size bs) s_type d_type suits
        (All-drop s.size bs bytes) (rest_fits n s.size bs enough) in
    rw (le→ltb (length bs) s.size some_left) (
      before onto d n (value s (load from (take s.size bs))) (numbers from s n (drop s.size bs))
        (convert_one k s d (load from (take s.size bs)))
        (convert_loop k s d from onto n (drop s.size bs)) d_type one later)

same_size : (s d : IntType) → Suits identity s d → s.size ≡ d.size
unfolding Suits
same_size s d (sizes, halves, signs) = sizes

-- A copy to a type like its own.
copied_numbers :
    (s d : IntType) (order : Bool) (n : ℕ) (bs : List ℕ)
    → IsType s
    → Suits identity s d
    → All IsByte bs
    → n * s.size ≤ length bs
    → (numbers order d n (take (n * s.size) bs) ≡ map (nearest d) (numbers order s n bs))
      × (any_outside d (numbers order s n bs) ≡ false)
unfolding numbers any_outside
copied_numbers s d order zero bs type suits bytes enough = (refl, refl)
copied_numbers s d order (suc n) bs type suits bytes enough =
    let some_left : s.size ≤ length bs = first_fits n s.size (length bs) enough in
    let sizes = same_size s d suits in
    let front : take d.size (take (suc n * s.size) bs) ≡ take s.size bs =
      ap (λ k. take k (take (suc n * s.size) bs)) (sym sizes)
      ∙ take-take s.size (suc n * s.size) bs (first_fits n s.size (suc n * s.size) (omega arith)) in
    let later : drop d.size (take (suc n * s.size) bs) ≡ take (n * s.size) (drop s.size bs) =
      ap (λ k. drop k (take (suc n * s.size) bs)) (sym sizes)
      ∙ drop-take s.size (suc n * s.size) bs
      ∙ ap (λ k. take k (drop s.size bs)) (rest_of n s.size) in
    let (number, inside) =
      copied s d (load order (take s.size bs)) type.some_half suits
        (load-pattern order s bs type bytes some_left) in
    let (numbers', inside') =
      copied_numbers s d order n (drop s.size bs) type suits (All-drop s.size bs bytes)
        (rest_fits n s.size bs enough) in
    (
      ap₂ (λ x y. value d (load order x) ∷ numbers order d n y) front later
          ∙ ap₂ ◌∷◌ number numbers',
      ap₂ (λ x y. not x || y) inside inside',
    )
  where
    rest_of : (n size : ℕ) → suc n * size - size ≡ n * size
    rest_of n size = grind arith

memcpy-Nearest :
    (s d : IntType) (order : Bool) (n : ℕ) (bs : List ℕ)
    → IsType s
    → Suits identity s d
    → All IsByte bs
    → n * s.size ≤ length bs
    → Nearest order d n (numbers order s n bs) (some (take (n * s.size) bs, false))
unfolding Nearest
memcpy-Nearest s d order n bs type suits bytes enough =
    let (same, inside) = copied_numbers s d order n bs type suits bytes enough in
    let width : n * s.size ≡ n * d.size = ap (λ k. n * k) (same_size s d suits) in
    (omega (arith, length-take (n * s.size) bs, enough, width), same, sym inside)

-- A function of the table, where its macro fits the types.
pub convert_fn-Nearest :
    (k : Kind) (s d : IntType) (host : Byteorder) (bswap : Bool) (n : ℕ) (bs : List ℕ)
    → IsType s
    → IsType d
    → Suits k s d
    → All IsByte bs
    → n * s.size ≤ length bs
    → Nearest
        (is_big host)
        d
        n
        (numbers (source_big host bswap) s n bs)
        (convert_fn_of k s d host bswap n bs)
unfolding convert_fn_of source_big
convert_fn-Nearest identity s d host false n bs s_type d_type suits bytes enough =
    rw (le→ltb (length bs) (n * s.size) enough)
      (memcpy-Nearest s d (is_big host) n bs s_type suits bytes enough)
convert_fn-Nearest identity s d host true n bs s_type d_type suits bytes enough =
    convert_loop-Nearest identity s d (source_big host true) (is_big host) n bs s_type d_type suits
      bytes enough
convert_fn-Nearest generic s d host bswap n bs s_type d_type suits bytes enough =
    convert_loop-Nearest generic s d (source_big host bswap) (is_big host) n bs s_type d_type suits
      bytes enough
convert_fn-Nearest clamp s d host bswap n bs s_type d_type suits bytes enough =
    convert_loop-Nearest clamp s d (source_big host bswap) (is_big host) n bs s_type d_type suits
      bytes enough
convert_fn-Nearest clamp_max s d host bswap n bs s_type d_type suits bytes enough =
    convert_loop-Nearest clamp_max s d (source_big host bswap) (is_big host) n bs s_type d_type
      suits bytes enough
convert_fn-Nearest truncate s d host bswap n bs s_type d_type suits bytes enough =
    convert_loop-Nearest truncate s d (source_big host bswap) (is_big host) n bs s_type d_type suits
      bytes enough
