-- ===== src/Ndarray/Tile.antt =====
-- Reading a tile that lies inside of an array: the rows of the tile, converted one after the other.
pub mod Products
pub mod Read
pub mod Whole
pub mod Wrapped
use libasdf.Prelude.{
  ℕ, zero, suc, ◌+◌, ◌-◌, ◌*◌, ◌/◌, ◌%◌, ◌^◌, ◌≤◌, ◌<◌, min, max, ◌≡◌, refl, sym, ap, ap₂, ◌∙◌,
}
use libasdf.Prelude.{
  ◌≢◌, ◌↔◌, ◌⊎◌, inl, inr, Bool, true, false, not, ◌&&◌, ◌||◌, Option, none, some, arith,
}
use libasdf.Prelude.{
  List, [], ◌∷◌, ◌++◌, map, length, get_elem?, get_or, set, take, drop, replicate, All,
}
use libasdf.Prelude.{ltb, leb, ◌==◌, if◌then◌else◌, Bool-cases, Option-cases, tests}
use libasdf.Prelude.{
  length-append, length-take, length-drop, length-replicate, take-append, drop-append, drop-drop,
  drop-nil, drop_all, take-append-drop,
}
use libasdf.Prelude.{M, pure, fault, ◌>>=◌, ◌>>◌, get, gets, modify, read, assert, >>=-eq-some}
use libasdf.Prelude.{concat, and_false, and_true}
use libasdf.Prelude.Bytes.{size_mod, add_size}
use native.Mathlib.Nat.{mul-le-mul_right, add_comm}
use mathlib.Core.List.{append-nil}
use libasdf.Ndarray.{
  Dim, Convert, outer, inner, dims_onto, count, init_strides, offset_from, times_size, all_one,
  product_from, copy_tile, tile_of, finish, main_loop,
}
use libasdf.Ndarray.Strides.{
  Inside, last_dim, more_dims, strides_of, place, span, tile_end, init_strides_lem,
  offset_from-place, count_positive, le_times, le_times_right,
}
use libasdf.Ndarray.Rows.{seq, expand, rows, left, gone}
use libasdf.Ndarray.Rows.Loop.{over_last, Converts, main_loop_rows}
use libasdf.Ndarray.Rows.Within.{
  Starts, Starts-InTile, gone_start, left_start, length-rows, rows-le, rounds, top,
  dims_onto-Starts, rounds-dims_onto, top-dims_onto,
}

-- Where the rows of a tile begin in the data of the array, in C order.
abbrev pub tile_rows : ℕ → List ℕ → List ℕ → List ℕ → List ℕ
tile_rows e ks os ns =
    rows e (dims_onto (outer os) (outer ns) (strides_of ks) []) ((place ks os + inner os) * e)

All-le :
    {P : ℕ → Type 0} (m : ℕ) (xs : List ℕ)
    → All (λ r. r ≤ m) xs
    → ((r : ℕ) → r ≤ m → P r)
    → All P xs
All-le m [] h f = tt
All-le m (x ∷ xs) (h, hs) f = (f x h, All-le m xs hs f)

pub expand_one : (s : ℕ) (xs : List ℕ) → expand s 1 xs ≡ xs
expand_one s [] = refl
expand_one s (x ∷ xs) = ap (λ t. x ∷ t) (expand_one s xs)

-- With extents of 1 in all the outer dimensions there is one row.
pub rows_one :
    (e : ℕ) {ks os ns : List ℕ} (acc : List Dim) (base : ℕ)
    → Inside ks os ns
    → all_one (outer ns) ≡ true
    → rows e (dims_onto (outer os) (outer ns) (strides_of ks) acc) base ≡ rows e acc base
unfolding dims_onto all_one
rows_one e acc base (last_dim k o n p l) h = refl
rows_one e acc base (more_dims k o n k' o' n' ks os ns p l i) h =
    let d : Dim = record { odometer = o; origin = o; extent = n; stride = count (k' ∷ ks) } in
    let one : n ≡ 1 = ground (arith, h) in
    rows_one e (d ∷ acc) base i (ground (arith, h))
    ∙ ap (λ m. expand (count (k' ∷ ks) * e) m (rows e acc base)) one
    ∙ expand_one (count (k' ∷ ks) * e) (rows e acc base)

product_one :
    {ks os ns : List ℕ}
    → Inside ks os ns
    → count ks < size_mod
    → all_one (outer ns) ≡ true
    → product_from 1 ns ≡ inner ns
unfolding product_from all_one
product_one (last_dim k o n p l) b h = omega arith
product_one (more_dims k o n k' o' n' ks os ns p l i) b h =
    let one : times_size 1 n ≡ 1 = ground (arith, h) in
    ap (λ m. product_from m (n' ∷ ns)) one
    ∙ product_one i (omega (arith, le_times k (count (k' ∷ ks)) (omega arith))) (ground (arith, h))

place_bytes : (p s n c e l : ℕ) → p + s + n ≤ c → c * e ≤ l → p * e + s * e + n * e ≤ l
place_bytes p s n c e l h k =
    let within : (p + s + n) * e ≤ c * e = mul-le-mul_right e h in
    let parts : (p + s + n) * e ≡ p * e + s * e + n * e = grind arith in
    omega (arith, within, parts)

module _ (convert : Convert) (e : ℕ) (bytes : List ℕ) (out : ℕ → List ℕ) (over : ℕ → Bool)
    (ks os ns : List ℕ) where
  -- Every row lies inside of the data.
  rows-Inside :
      Inside ks os ns
      → count ks * e ≤ length bytes
      → All (λ o. o + inner ns * e ≤ length bytes) (tile_rows e ks os ns)
  rows-Inside i l =
      let dims : List Dim = dims_onto (outer os) (outer ns) (strides_of ks) [] in
      let base : ℕ = (place ks os + inner os) * e in
      let far : top e dims ≡ 0 + span ks ns * e = top-dims_onto e [] i in
      let all =
        place_bytes (place ks os + inner os) (span ks ns) (inner ns) (count ks) e (length bytes)
          (tile_end i) l in
      All-le (base + top e dims) (rows e dims base) (rows-le e dims base)
        (λ r h. omega (arith, h, far, all))

  place_right :
      Inside ks os ns
      → count ks < 2 ^ 63
      → count ks * e ≤ length bytes
      → length bytes < 2 ^ 63
      → times_size (offset_from (inner os) (outer os) (strides_of ks)) e
        ≡ (place ks os + inner os) * e
  place_right i h l b =
      let all =
        place_bytes (place ks os + inner os) (span ks ns) (inner ns) (count ks) e (length bytes)
          (tile_end i) l in
      let sum : offset_from (inner os) (outer os) (strides_of ks) ≡ place ks os + inner os =
        offset_from-place (inner os) i (omega (arith, tile_end i))
        ∙ add_comm (inner os) (place ks os) in
      ap (λ k. times_size k e) sum ∙ small ((place ks os + inner os) * e) (omega (arith, all))
    where
      small : (a : ℕ) → a < 2 ^ 63 → a % size_mod ≡ a
      small a h = omega arith

  copy_one :
      (new_buf : Bool) (strides : List ℕ) (offset : ℕ)
      → all_one (outer ns) ≡ true
      → times_size (offset_from (inner os) (outer os) strides) e ≡ offset
      → product_from 1 ns ≡ inner ns
      → convert (inner ns) (drop offset bytes) ≡ some (out offset, over offset)
      → copy_tile convert e bytes os ns strides new_buf
        ≡ finish false (some (out offset, over offset))
  unfolding copy_tile
  copy_one new_buf strides offset one at n c =
      rw one (ap₂ (λ m k. finish false (convert m (drop k bytes))) n at ∙ ap (finish false) c)

  copy_rows :
      (new_buf : Bool) (strides : List ℕ) (offset : ℕ)
      → all_one (outer ns) ≡ false
      → times_size (offset_from (inner os) (outer os) strides) e ≡ offset
      → copy_tile convert e bytes os ns strides new_buf
        ≡ finish new_buf (
            main_loop
              (count (outer ns))
              convert
              (inner ns)
              e
              bytes
              (dims_onto (outer os) (outer ns) strides [])
              offset)
  unfolding copy_tile
  copy_rows new_buf strides offset many at = rw many (
      ap
        (λ k. finish new_buf (
          main_loop (count (outer ns)) convert (inner ns) e bytes
            (dims_onto (outer os) (outer ns) strides []) k))
        at)

  -- The main loop over the whole tile.
  loop_tile :
      (offset : ℕ)
      → Inside ks os ns
      → count ks < 2 ^ 63
      → All
          (Converts convert (inner ns) e bytes out over)
          (rows e (dims_onto (outer os) (outer ns) (strides_of ks) []) offset)
      → main_loop
          (count (outer ns))
          convert
          (inner ns)
          e
          bytes
          (dims_onto (outer os) (outer ns) (strides_of ks) [])
          offset
        ≡ some (
          concat (map out (rows e (dims_onto (outer os) (outer ns) (strides_of ks) []) offset)),
          over_last over (rows e (dims_onto (outer os) (outer ns) (strides_of ks) []) offset),
        )
  loop_tile offset i h c =
      let dims : List Dim = dims_onto (outer os) (outer ns) (strides_of ks) [] in
      let starts : All Starts dims = dims_onto-Starts [] i (omega arith) tt in
      let whole : left e dims offset ≡ rows e dims offset = left_start e dims offset starts in
      let rounds_right : length (left e dims offset) ≡ rounds [] * count (outer ns) =
        ap length whole ∙ length-rows e dims offset ∙ rounds-dims_onto [] i in
      let first : offset ≡ offset + gone e dims = omega (arith, gone_start e dims starts) in
      ap (main_loop (count (outer ns)) convert (inner ns) e bytes dims) first
      ∙ main_loop_rows convert (inner ns) e bytes out over (count (outer ns)) dims offset
          (Starts-InTile dims starts) (omega (arith, rounds_right)) (rw whole c)
      ∙ ap (λ os. some (concat (map out os), over_last over os)) whole

  -- The copy of a tile of at least one element that lies inside of the array, whose data are there:
  -- the source never leaves the data; the rows of the tile, in C order, are converted one after the
  -- other, and the overflow that is reported is that of the last row alone; it frees a tile that was
  -- allocated if that has several rows.
  pub tile_of_rows :
      (new_buf : Bool)
      → Inside ks os ns
      → count ks < 2 ^ 63
      → count ks * e ≤ length bytes
      → length bytes < 2 ^ 63
      → ((o : ℕ)
          → o + inner ns * e ≤ length bytes
          → convert (inner ns) (drop o bytes) ≡ some (out o, over o))
      → All (λ o. o + inner ns * e ≤ length bytes) (tile_rows e ks os ns)
        × (tile_of convert e bytes ks os ns new_buf
            ≡ finish (new_buf && not (all_one (outer ns))) (
                some
                  (concat (map out (tile_rows e ks os ns)), over_last over (tile_rows e ks os ns))))
  unfolding tile_of
  tile_of_rows new_buf i h l b c =
      let offset : ℕ = (place ks os + inner os) * e in
      let at = place_right i h l b in
      let within = rows-Inside i l in
      (
        within,
        rw (init_strides_lem i h, tile_of)
            (elim (Bool-cases (all_one (outer ns))) [
              | inl y ↦
                  let one : tile_rows e ks os ns ≡ offset ∷ [] = rows_one e [] offset i y in
                  let inside : offset + inner ns * e ≤ length bytes = omega (
                    arith,
                    place_bytes (place ks os + inner os) (span ks ns) (inner ns) (count ks) e
                        (length bytes) (tile_end i) l,
                  ) in
                  rw (y, and_false new_buf)
                    (copy_one new_buf (strides_of ks) offset y at (product_one i (omega arith) y)
                        (c offset inside)
                      ∙ ap (λ t. finish false (some (t, over offset)))
                          (sym (append-nil (out offset)))
                      ∙ ap (λ os. finish false (some (concat (map out os), over_last over os)))
                          (sym one))
              | inr n ↦
                  rw (n, and_true new_buf)
                    (copy_rows new_buf (strides_of ks) offset n at
                      ∙ ap (finish new_buf)
                          (loop_tile offset i h (All-le-rows (tile_rows e ks os ns) within c)))
            ]),
      )
    where
      All-le-rows :
          (xs : List ℕ)
          → All (λ o. o + inner ns * e ≤ length bytes) xs
          → ((o : ℕ)
              → o + inner ns * e ≤ length bytes
              → convert (inner ns) (drop o bytes) ≡ some (out o, over o))
          → All (Converts convert (inner ns) e bytes out over) xs
      All-le-rows [] h f = tt
      All-le-rows (x ∷ xs) (h, hs) f = (f x h, All-le-rows xs hs f)
