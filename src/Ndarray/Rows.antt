-- ===== src/Ndarray/Rows.antt =====
-- The rows of a tile: where the odometer of the main loop takes the source.
pub mod Loop
pub mod Within
use libasdf.Prelude.{
  ℕ, zero, suc, ◌+◌, ◌-◌, ◌*◌, ◌/◌, ◌%◌, ◌^◌, ◌≤◌, ◌<◌, min, max, ◌≡◌, refl, sym, ap, ap₂, ◌∙◌,
}
use libasdf.Prelude.{
  ◌≢◌, ◌↔◌, ◌⊎◌, inl, inr, Bool, true, false, not, ◌&&◌, ◌||◌, Option, none, some, arith,
}
use libasdf.Prelude.{
  List, [], ◌∷◌, ◌++◌, map, length, get_elem?, get_or, set, take, drop, replicate, All,
}
use libasdf.Prelude.{ltb, leb, ◌==◌, if◌then◌else◌, Bool-cases, Option-cases, tests}
use libasdf.Prelude.{
  length-append, length-take, length-drop, length-replicate, take-append, drop-append, drop-drop,
  drop-nil, drop_all, take-append-drop,
}
use libasdf.Prelude.{M, pure, fault, ◌>>=◌, ◌>>◌, get, gets, modify, read, assert, >>=-eq-some}
use libasdf.Prelude.{concat, lt→ltb, le→ltb, ltb→lt}
use libasdf.Prelude.Bytes.{size_mod, add_size}
use libasdf.Ndarray.{Dim, Convert, advance, main_loop}
use native.Mathlib.Nat.{add_assoc, mul_assoc}
use mathlib.Core.List.{append_assoc, append-nil}

-- The numbers `start`, `start + step`, and so on.
abbrev pub seq : ℕ → ℕ → ℕ → List ℕ
seq start step zero = []
seq start step (suc n) = start ∷ seq (start + step) step n

-- Each row, stepped through along one more dimension.
abbrev pub expand : ℕ → ℕ → List ℕ → List ℕ
expand step n [] = []
expand step n (o ∷ rows) = seq o step n ++ expand step n rows

-- Where the rows of a tile begin, in C order: nested loops over the outer dimensions, of which the
-- last, which varies fastest, is the first of the list. `e` is the size of an element.
abbrev pub rows : ℕ → List Dim → ℕ → List ℕ
rows e [] base = base ∷ []
rows e (d ∷ ds) base = expand (d.stride * e) d.extent (rows e ds base)

abbrev pub tail : List ℕ → List ℕ
tail [] = []
tail (x ∷ xs) = xs

-- How far the odometer is along a dimension.
abbrev pub along : Dim → ℕ
along d = d.odometer - d.origin

-- How far the source is from that of the first row.
abbrev pub gone : ℕ → List Dim → ℕ
gone e [] = 0
gone e (d ∷ ds) = gone e ds + along d * (d.stride * e)

-- The rows from where the odometer stands.
abbrev pub left : ℕ → List Dim → ℕ → List ℕ
left e [] base = base ∷ []
left e (d ∷ ds) base =
    seq (base + gone e ds + along d * (d.stride * e)) (d.stride * e) (d.extent - along d)
    ++ expand (d.stride * e) d.extent (tail (left e ds base))

-- The odometer is inside of the tile, and the tile inside of what a number holds.
pub record InTile (d : Dim) : Type 0 where
  pub low : d.origin ≤ d.odometer
  pub high : d.odometer < d.origin + d.extent
  pub fits : d.origin + d.extent < size_mod

pub left_first :
    (e : ℕ) (dims : List Dim) (base : ℕ)
    → All InTile dims
    → left e dims base ≡ (base + gone e dims) ∷ tail (left e dims base)
left_first e [] base h = ap (λ b. b ∷ []) (omega arith)
left_first e (d ∷ ds) base (h, hs) = first (d.extent - along d) (omega (arith, h.low, h.high))
  where
    first :
        (n : ℕ)
        → 0 < n
        → seq (base + gone e ds + along d * (d.stride * e)) (d.stride * e) n
            ++ expand (d.stride * e) d.extent (tail (left e ds base))
          ≡ (base + (gone e ds + along d * (d.stride * e)))
            ∷ tail (
                seq (base + gone e ds + along d * (d.stride * e)) (d.stride * e) n
                ++ expand (d.stride * e) d.extent (tail (left e ds base)))
    first zero p = absurd (omega arith)
    first (suc n) p =
        ap
          (λ b.
            b
            ∷ (seq (base + gone e ds + along d * (d.stride * e) + d.stride * e) (d.stride * e) n
                ++ expand (d.stride * e) d.extent (tail (left e ds base))))
          (add_assoc base (gone e ds) (along d * (d.stride * e)))

-- What one turn of the odometer does to the rows that are left.
abbrev pub Turned : ℕ → List Dim → ℕ → Bool × List Dim × ℕ → Type 0
Turned e dims base (true, dims', src) = tail (left e dims base) ≡ []
Turned e dims base (false, dims', src) =
    (tail (left e dims base) ≡ left e dims' base) × (src ≡ base + gone e dims') × All InTile dims'

-- One more step along a dimension, and the last one.
step_along :
    (b s k n : ℕ) (rest : List ℕ)
    → 1 < n
    → tail (seq (b + k * s) s n ++ rest) ≡ seq (b + (k + 1) * s) s (n - 1) ++ rest
step_along b s k zero rest h = absurd (omega arith)
step_along b s k (suc n) rest h =
    let next : b + k * s + s ≡ b + (k + 1) * s = grind arith in
    let count : n ≡ suc n - 1 = omega arith in ap₂ (λ c m. seq c s m ++ rest) next count

step_last : (b s n : ℕ) (rest : List ℕ) → n ≡ 1 → tail (seq b s n ++ rest) ≡ rest
step_last b s zero rest h = absurd (omega arith)
step_last b s (suc zero) rest h = refl
step_last b s (suc (suc n)) rest h = absurd (omega arith)

unfoldable pub step_over : Dim → Dim
step_over d = record d { odometer = d.odometer + 1 }

unfoldable pub reset : Dim → Dim
reset d = record d { odometer = d.origin }

-- A turn that moves on along the first dimension.
pub inside_dim :
    (e : ℕ) (d : Dim) (ds : List Dim) (base : ℕ)
    → InTile d
    → d.odometer + 1 < d.origin + d.extent
    → (tail (left e (d ∷ ds) base) ≡ left e (step_over d ∷ ds) base)
      × (base + gone e (d ∷ ds) + d.stride * e ≡ base + gone e (step_over d ∷ ds))
      × InTile (step_over d)
unfolding step_over
inside_dim e d ds base h l =
    let k : along d + 1 ≡ d.odometer + 1 - d.origin = omega (arith, h.low) in
    let n : d.extent - along d - 1 ≡ d.extent - (d.odometer + 1 - d.origin) =
      omega (arith, h.low) in
    let s : ℕ = d.stride * e in
    let more : along d * s + s ≡ (along d + 1) * s = grind arith in
    (
      step_along (base + gone e ds) s (along d) (d.extent - along d)
            (expand s d.extent (tail (left e ds base))) (omega (arith, h.low))
          ∙ ap₂
              (λ j m.
                seq (base + gone e ds + j * s) s m ++ expand s d.extent (tail (left e ds base)))
              k n,
      add_assoc base (gone e ds + along d * s) s
          ∙ ap (λ x. base + x)
              (add_assoc (gone e ds) (along d * s) s
                ∙ ap (λ x. gone e ds + x) (more ∙ ap (λ j. j * s) k)),
      record { low = omega (arith, h.low); high = l; fits = h.fits },
    )

-- A turn that ends the first dimension.
pub last_of_dim :
    (e : ℕ) (d : Dim) (ds : List Dim) (base : ℕ)
    → InTile d
    → d.origin + d.extent ≤ d.odometer + 1
    → tail (left e (d ∷ ds) base) ≡ expand (d.stride * e) d.extent (tail (left e ds base))
last_of_dim e d ds base h l =
    step_last (base + gone e ds + along d * (d.stride * e)) (d.stride * e) (d.extent - along d)
      (expand (d.stride * e) d.extent (tail (left e ds base))) (omega (arith, h.low, h.high))

pub back_up :
    (e : ℕ) (d : Dim) (g base : ℕ)
    → InTile d
    → d.origin + d.extent ≤ d.odometer + 1
    → base + (g + along d * (d.stride * e)) + d.stride * e - d.extent * d.stride * e ≡ base + g
back_up e d g base h l =
    let k : along d + 1 ≡ d.extent = omega (arith, h.low, h.high) in
    let s : ℕ = d.stride * e in
    let whole : d.extent * d.stride * e ≡ along d * s + s =
      mul_assoc d.extent d.stride e ∙ ap (λ j. j * s) (sym k) ∙ step (along d) s in
    omega (arith, whole)
  where
    step : (k s : ℕ) → (k + 1) * s ≡ k * s + s
    step k s = grind arith

-- The turn of the outer dimensions, when the first one has ended.
pub carried :
    (e : ℕ) (d : Dim) (ds : List Dim) (base : ℕ) (r : Bool × List Dim × ℕ)
    → InTile d
    → Turned e ds base r
    → tail (left e (d ∷ ds) base) ≡ expand (d.stride * e) d.extent (tail (left e ds base))
    → Turned e (d ∷ ds) base (r.0, reset d ∷ r.1, r.2)
unfolding reset
carried e d ds base (true, ds', src) h t q = q ∙ ap (expand (d.stride * e) d.extent) t
carried e d ds base (false, ds', src) h (t, at, hs) q =
    let s : ℕ = d.stride * e in
    let none_gone : d.origin - d.origin ≡ 0 = omega arith in
    (
      q
          ∙ ap (expand s d.extent) (t ∙ left_first e ds' base hs)
          ∙ ap₂ (λ b n. seq b s n ++ expand s d.extent (tail (left e ds' base)))
              (start (base + gone e ds') s none_gone) (whole none_gone),
      at ∙ ap (λ x. base + x) (start (gone e ds') s none_gone),
      (record { low = omega arith; high = omega (arith, h.low, h.high); fits = h.fits }, hs),
    )
  where
    start : (b s : ℕ) → d.origin - d.origin ≡ 0 → b ≡ b + (d.origin - d.origin) * s
    start b s z = rw z (zero_times b s)
      where
        zero_times : (b s : ℕ) → b ≡ b + 0 * s
        zero_times b s = omega arith

    whole : d.origin - d.origin ≡ 0 → d.extent ≡ d.extent - (d.origin - d.origin)
    whole z = omega arith
