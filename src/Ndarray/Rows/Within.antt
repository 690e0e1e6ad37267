-- ===== src/Ndarray/Rows/Within.antt =====
-- The rows of a tile before the main loop: how many they are, and where the last one is.
use libasdf.Prelude.{ℕ, zero, suc, ◌+◌, ◌-◌, ◌*◌, ◌≤◌, ◌<◌, ◌≡◌, refl, sym, ap, ap₂, ◌∙◌}
use libasdf.Prelude.{arith}
use libasdf.Prelude.{List, [], ◌∷◌, ◌++◌, length, All}
use libasdf.Prelude.{length-append}
use libasdf.Prelude.Bytes.{size_mod}
use native.Mathlib.Nat.{add_assoc, mul_assoc}
use libasdf.Ndarray.{Dim, outer, dims_onto, count}
use libasdf.Ndarray.Strides.{count_positive, le_times, le_times_right}
use libasdf.Ndarray.Strides.{Inside, last_dim, more_dims, strides_of, span}
use libasdf.Ndarray.Rows.{seq, expand, rows, tail, along, gone, left, InTile, left_first}

-- The odometer stands at the tile's first row.
abbrev pub AtStart : Dim → Type 0
AtStart d = d.odometer ≡ d.origin

abbrev pub Starts : Dim → Type 0
Starts d = InTile d × AtStart d

pub Starts-InTile : (dims : List Dim) → All Starts dims → All InTile dims
Starts-InTile [] h = tt
Starts-InTile (d ∷ dims) ((h, s), hs) = (h, Starts-InTile dims hs)

pub gone_start : (e : ℕ) (dims : List Dim) → All Starts dims → gone e dims ≡ 0
gone_start e [] h = refl
gone_start e (d ∷ ds) ((h, s), hs) =
    let none_along : along d ≡ 0 = omega arith in rw none_along (omega (arith, gone_start e ds hs))

pub left_start :
    (e : ℕ) (dims : List Dim) (base : ℕ) → All Starts dims → left e dims base ≡ rows e dims base
left_start e [] base h = refl
left_start e (d ∷ ds) base ((h, s), hs) =
    let none_along : along d ≡ 0 = omega arith in
    let S : ℕ = d.stride * e in
    let start : base + gone e ds + along d * S ≡ base + gone e ds = rw none_along (omega arith) in
    let all : d.extent - along d ≡ d.extent = omega arith in
    ap₂ (λ b n. seq b S n ++ expand S d.extent (tail (left e ds base))) start all
    ∙ ap (expand S d.extent)
        (sym (left_first e ds base (Starts-InTile ds hs)) ∙ left_start e ds base hs)

abbrev pub rounds : List Dim → ℕ
rounds [] = 1
rounds (d ∷ ds) = rounds ds * d.extent

length-seq : (b s n : ℕ) → length (seq b s n) ≡ n
length-seq b s zero = refl
length-seq b s (suc n) = ap suc (length-seq (b + s) s n)

length-expand : (s n : ℕ) (xs : List ℕ) → length (expand s n xs) ≡ length xs * n
length-expand s n [] = omega arith
length-expand s n (x ∷ xs) =
    length-append (seq x s n) (expand s n xs)
    ∙ ap₂ (λ a b. a + b) (length-seq x s n) (length-expand s n xs)
    ∙ step (length xs) n
  where
    step : (a n : ℕ) → n + a * n ≡ suc a * n
    step a n = grind arith

pub length-rows : (e : ℕ) (dims : List Dim) (base : ℕ) → length (rows e dims base) ≡ rounds dims
length-rows e [] base = refl
length-rows e (d ∷ ds) base =
    length-expand (d.stride * e) d.extent (rows e ds base)
    ∙ ap (λ k. k * d.extent) (length-rows e ds base)

-- How far the last row is from the first, in bytes.
abbrev pub top : ℕ → List Dim → ℕ
top e [] = 0
top e (d ∷ ds) = top e ds + (d.extent - 1) * (d.stride * e)

All-append :
    (m : ℕ) (xs ys : List ℕ)
    → All (λ r. r ≤ m) xs
    → All (λ r. r ≤ m) ys
    → All (λ r. r ≤ m) (xs ++ ys)
All-append m [] ys h k = k
All-append m (x ∷ xs) ys (h, hs) k = (h, All-append m xs ys hs k)

seq-le : (b s n m : ℕ) → b + (n - 1) * s ≤ m → All (λ r. r ≤ m) (seq b s n)
seq-le b s zero m h = tt
seq-le b s (suc zero) m h = (omega arith, tt)
seq-le b s (suc (suc n)) m h =
    let less : suc (suc n) - 1 ≡ suc n = omega arith in
    let less' : suc n - 1 ≡ n = omega arith in
    let step : suc n * s ≡ s + n * s = grind arith in
    (
      omega (arith, rw less at h, step),
      seq-le (b + s) s (suc n) m (rw less' (omega (arith, rw less at h, step))),
    )

expand-le :
    (s n m : ℕ) (xs : List ℕ) → All (λ r. r ≤ m) xs → All (λ r. r ≤ m + (n - 1) * s) (expand s n xs)
expand-le s n m [] h = tt
expand-le s n m (x ∷ xs) (h, hs) =
    All-append (m + (n - 1) * s) (seq x s n) (expand s n xs)
      (seq-le x s n (m + (n - 1) * s) (omega arith)) (expand-le s n m xs hs)

pub rows-le :
    (e : ℕ) (dims : List Dim) (base : ℕ) → All (λ r. r ≤ base + top e dims) (rows e dims base)
rows-le e [] base = (omega arith, tt)
rows-le e (d ∷ ds) base =
    rw (← add_assoc base (top e ds) ((d.extent - 1) * (d.stride * e)))
      (expand-le (d.stride * e) d.extent (base + top e ds) (rows e ds base) (rows-le e ds base))

-- The outer dimensions of a tile that lies inside of an array, before those given.
pub dims_onto-Starts :
    {ks os ns : List ℕ} (acc : List Dim)
    → Inside ks os ns
    → count ks < size_mod
    → All Starts acc
    → All Starts (dims_onto (outer os) (outer ns) (strides_of ks) acc)
unfolding dims_onto
dims_onto-Starts acc (last_dim k o n p l) b h = h
dims_onto-Starts acc (more_dims k o n k' o' n' ks os ns p l i) b h =
    let some_rest = count_positive i in
    let here : k ≤ k * count (k' ∷ ks) = le_times_right k (count (k' ∷ ks)) some_rest in
    let rest = le_times k (count (k' ∷ ks)) (omega arith) in
    dims_onto-Starts
      (record { odometer = o; origin = o; extent = n; stride = count (k' ∷ ks) } ∷ acc) i
      (omega arith)
      ((record { low = omega arith; high = omega arith; fits = omega arith }, refl), h)

pub rounds-dims_onto :
    {ks os ns : List ℕ} (acc : List Dim)
    → Inside ks os ns
    → rounds (dims_onto (outer os) (outer ns) (strides_of ks) acc) ≡ rounds acc * count (outer ns)
unfolding dims_onto
rounds-dims_onto acc (last_dim k o n p l) = omega arith
rounds-dims_onto acc (more_dims k o n k' o' n' ks os ns p l i) =
    rounds-dims_onto
      (record { odometer = o; origin = o; extent = n; stride = count (k' ∷ ks) } ∷ acc) i
    ∙ mul_assoc (rounds acc) n (count (outer (n' ∷ ns)))

pub top-dims_onto :
    (e : ℕ) {ks os ns : List ℕ} (acc : List Dim)
    → Inside ks os ns
    → top e (dims_onto (outer os) (outer ns) (strides_of ks) acc) ≡ top e acc + span ks ns * e
unfolding dims_onto
top-dims_onto e acc (last_dim k o n p l) = omega arith
top-dims_onto e acc (more_dims k o n k' o' n' ks os ns p l i) =
    top-dims_onto e
      (record { odometer = o; origin = o; extent = n; stride = count (k' ∷ ks) } ∷ acc) i
    ∙ together (top e acc) (n - 1) (count (k' ∷ ks)) (span (k' ∷ ks) (n' ∷ ns)) e
  where
    together : (t m c s e : ℕ) → t + m * (c * e) + s * e ≡ t + (m * c + s) * e
    together t m c s e = grind arith
