-- ===== src/Ndarray/Strides.antt =====
-- The strides of an array in C order, and the places of a tile that lies inside of it.
use libasdf.Prelude.{ℕ, zero, suc, ◌+◌, ◌-◌, ◌*◌, ◌/◌, ◌^◌, ◌≤◌, ◌<◌, ◌≡◌, refl, ap, ◌∙◌}
use libasdf.Prelude.{true, some, arith}
use libasdf.Prelude.{List, [], ◌∷◌}
use libasdf.Prelude.{le→ltb, ==_ne}
use native.Mathlib.Nat.{add_assoc, mul_comm, mul-le-mul_right, le-div_iff_mul-le}
use libasdf.Prelude.Bytes.{size_mod, add_size}
use libasdf.Ndarray.{init_strides, check_bounds, outer, inner, offset_from, times_size, count}

-- How many elements lie between neighbours along each dimension.
abbrev pub strides_of : List ℕ → List ℕ
strides_of [] = []
strides_of (k ∷ shape) = count shape ∷ strides_of shape

-- A tile of at least one element, inside of an array with as many dimensions, at least one.
pub data Inside : List ℕ → List ℕ → List ℕ → Type 0 where
  last_dim : (k o n : ℕ) → 0 < n → o + n ≤ k → Inside (k ∷ []) (o ∷ []) (n ∷ [])
  more_dims :
      (k o n k' o' n' : ℕ) (ks os ns : List ℕ)
      → 0 < n
      → o + n ≤ k
      → Inside (k' ∷ ks) (o' ∷ os) (n' ∷ ns)
      → Inside (k ∷ (k' ∷ ks)) (o ∷ (o' ∷ os)) (n ∷ (n' ∷ ns))

-- The place of an element, counted in elements, without its last index.
abbrev pub place : List ℕ → List ℕ → ℕ
place (k ∷ (k' ∷ ks)) (o ∷ (o' ∷ os)) = o * count (k' ∷ ks) + place (k' ∷ ks) (o' ∷ os)
place ks os = 0

-- How far the last row of a tile is from the first.
abbrev pub span : List ℕ → List ℕ → ℕ
span (k ∷ (k' ∷ ks)) (n ∷ (n' ∷ ns)) = (n - 1) * count (k' ∷ ks) + span (k' ∷ ks) (n' ∷ ns)
span ks ns = 0

positive : (a b : ℕ) → 0 < a → 0 < b → 0 < a * b
positive a b h k = grind arith

pub count_positive : {ks os ns : List ℕ} → Inside ks os ns → 0 < count ks
count_positive (last_dim k o n h l) = omega arith
count_positive (more_dims k o n k' o' n' ks os ns h l i) =
    positive k (count (k' ∷ ks)) (omega arith) (count_positive i)

spread : (o m k p x : ℕ) → o + suc m ≤ k → x ≤ p → o * p + m * p + x ≤ k * p
spread o m k p x l h =
    let within : (o + suc m) * p ≤ k * p = mul-le-mul_right p l in
    let parts : (o + suc m) * p ≡ o * p + m * p + p = grind arith in omega (arith, within, parts)

-- The end of the last row of a tile is inside of the array.
pub tile_end :
    {ks os ns : List ℕ}
    → Inside ks os ns
    → place ks os + inner os + span ks ns + inner ns ≤ count ks
tile_end (last_dim k o n h l) = omega arith
tile_end (more_dims k o zero k' o' n' ks os ns h l i) = absurd (omega arith)
tile_end (more_dims k o (suc m) k' o' n' ks os ns h l i) =
    let less : suc m - 1 ≡ m = omega arith in
    rw less (
      omega (
        arith,
        spread o m k (count (k' ∷ ks))
            (place (k' ∷ ks) (o' ∷ os)
              + inner (o' ∷ os)
              + span (k' ∷ ks) (n' ∷ ns)
              + inner (n' ∷ ns))
            l (tile_end i),
      ))

positive_right : (a b : ℕ) → 0 < a * b → 0 < b
positive_right a zero h = absurd (omega arith)
positive_right a (suc b) h = omega arith

pub le_times_right : (a b : ℕ) → 0 < b → a ≤ a * b
le_times_right a b h = grind arith

pub le_times : (a b : ℕ) → 0 < a → b ≤ a * b
le_times a b h = grind arith

-- The strides of an array with all extents positive, whose elements an `int64_t` can count.
pub init_strides_lem :
    {ks os ns : List ℕ}
    → Inside ks os ns
    → count ks < 2 ^ 63
    → init_strides ks ≡ some (some (strides_of ks))
unfolding init_strides
init_strides_lem (last_dim k o n p l) h = refl
init_strides_lem (more_dims k o n k' o' n' ks os ns p l i) h =
    let some_rest = count_positive i in
    let rest : count (k' ∷ ks) < 2 ^ 63 =
      omega (arith, le_times k (count (k' ∷ ks)) (omega arith)) in
    let s : ℕ = count ks in
    let some_stride : 0 < s = positive_right k' s some_rest in
    let fits : k' ≤ (2 ^ 63 - 1) / s = (le-div_iff_mul-le some_stride).1 (omega arith) in
    rw (init_strides_lem i rest) (
      rw (==_ne s 0 (λ z. omega arith)) (
        rw (le→ltb ((2 ^ 63 - 1) / s) k' fits)
          (ap (λ x. some (some (x ∷ (s ∷ strides_of ks)))) (mul_comm s k'))))

-- `check_bounds` accepts such a tile.
pub check_bounds-Inside :
    {ks os ns : List ℕ} → Inside ks os ns → count ks < 2 ^ 63 → check_bounds ks os ns ≡ true
unfolding check_bounds
check_bounds-Inside (last_dim k o n p l) h = rw (le→ltb k (add_size o n) (omega arith)) refl
check_bounds-Inside (more_dims k o n k' o' n' ks os ns p l i) h =
    let some_rest = count_positive i in
    let rest = le_times k (count (k' ∷ ks)) (omega arith) in
    let here : k ≤ k * count (k' ∷ ks) = le_times_right k (count (k' ∷ ks)) some_rest in
    rw (le→ltb k (add_size o n) (omega arith)) (check_bounds-Inside i (omega arith))

-- The offset that the code adds up is the place of the tile's first element.
pub offset_from-place :
    {ks os ns : List ℕ} (acc : ℕ)
    → Inside ks os ns
    → acc + place ks os < size_mod
    → offset_from acc (outer os) (strides_of ks) ≡ acc + place ks os
unfolding offset_from
offset_from-place acc (last_dim k o n p l) h = omega arith
offset_from-place acc (more_dims k o n k' o' n' ks os ns p l i) h =
    let here : add_size acc (times_size o (count (k' ∷ ks))) ≡ acc + o * count (k' ∷ ks) =
      omega arith in
    ap (λ a. offset_from a (outer (o' ∷ os)) (strides_of (k' ∷ ks))) here
    ∙ offset_from-place (acc + o * count (k' ∷ ks)) i (omega arith)
    ∙ add_assoc acc (o * count (k' ∷ ks)) (place (k' ∷ ks) (o' ∷ os))
