-- ===== src/Ndarray/Tile/Whole.antt =====
-- Reading the whole of an array, and a single element.
use libasdf.Prelude.{ℕ, zero, suc, ◌+◌, ◌*◌, ◌≤◌, ◌<◌, ◌≡◌, refl, sym, ap, ap₂, ◌∙◌}
use libasdf.Prelude.{Bool, true, false, Option, some, arith}
use libasdf.Prelude.{List, [], ◌∷◌, ◌++◌, map, length, take, drop, replicate, All}
use libasdf.Prelude.{length-drop, drop-drop}
use libasdf.Prelude.{not, ◌&&◌, if◌then◌else◌, and_false, concat, ==_iff}
use mathlib.Core.List.{append-nil}
use native.Mathlib.Nat.{mul_assoc}
use libasdf.Datatype.{Scalar, Byteorder, scalar_size}
use libasdf.Ndarray.{
  Ndarray, Convert, Dim, ok, inner, outer, count, dims_onto, scalar_of, all_one, should_byteswap,
  stored, dangling, finish, read_all, read_at,
}
use libasdf.Ndarray.Strides.{Inside, last_dim, more_dims, place, strides_of}
use libasdf.Ndarray.Rows.{seq, expand, rows}
use libasdf.Ndarray.Rows.Loop.{over_last}
use libasdf.Ndarray.Tile.{tile_rows, rows_one}
use libasdf.Ndarray.Tile.Products.{has_dims}
use libasdf.Ndarray.Tile.Read.{HasData, src_size, dst_of, read_tile_rows}

seq-append : (b s m n : ℕ) → seq b s m ++ seq (b + m * s) s n ≡ seq b s (m + n)
seq-append b s zero n = ap₂ (λ c k. seq c s k) (zero_part b s) (zero_plus n)
  where
    zero_part : (b s : ℕ) → b + 0 * s ≡ b
    zero_part b s = omega arith

    zero_plus : (n : ℕ) → n ≡ 0 + n
    zero_plus n = omega arith
seq-append b s (suc m) n =
    ap (λ t. b ∷ t)
      (ap (λ c. seq (b + s) s m ++ seq c s n) (regroup b s m) ∙ seq-append (b + s) s m n)
    ∙ ap (seq b s) (suc_shift m n)
  where
    regroup : (b s m : ℕ) → b + suc m * s ≡ b + s + m * s
    regroup b s m = grind arith

    suc_shift : (m n : ℕ) → suc (m + n) ≡ suc m + n
    suc_shift m n = omega arith

expand-seq : (b s n m : ℕ) → expand s n (seq b (n * s) m) ≡ seq b s (m * n)
expand-seq b s n zero = ap (seq b s) (zero_times n)
  where
    zero_times : (n : ℕ) → 0 ≡ 0 * n
    zero_times n = omega arith
expand-seq b s n (suc m) =
    ap (λ t. seq b s n ++ t) (expand-seq (b + n * s) s n m)
    ∙ seq-append b s n (m * n)
    ∙ ap (seq b s) (step m n)
  where
    step : (m n : ℕ) → n + m * n ≡ suc m * n
    step m n = grind arith

-- The whole array, as a tile of it, from the first element on.
abbrev zeros : List ℕ → List ℕ
zeros ks = replicate (length ks) 0

whole_rows :
    (e m : ℕ) {ks os ns : List ℕ} (acc : List Dim)
    → Inside ks os ns
    → rows e acc 0 ≡ seq 0 (count ks * e) m
    → rows e (dims_onto (outer (zeros ks)) (outer ks) (strides_of ks) acc) 0
      ≡ seq 0 (inner ks * e) (m * count (outer ks))
unfolding dims_onto
whole_rows e m acc (last_dim k o n p l) h = h ∙ ap₂ (λ a b. seq 0 (a * e) b) (one k) (one' m)
  where
    one : (k : ℕ) → k * 1 ≡ k
    one k = omega arith

    one' : (m : ℕ) → m ≡ m * 1
    one' m = omega arith
whole_rows e m acc (more_dims k o n k' o' n' ks os ns p l i) h =
    let c : ℕ = count (k' ∷ ks) in
    whole_rows e (m * k) (record { odometer = 0; origin = 0; extent = k; stride = c } ∷ acc) i
      (ap (expand (c * e) k) (h ∙ ap (λ s. seq 0 s m) (mul_assoc k c e)) ∙ expand-seq 0 (c * e) k m)
    ∙ ap (seq 0 (inner (k' ∷ ks) * e)) (mul_assoc m k (count (outer (k' ∷ ks))))

place_zeros : {ks os ns : List ℕ} → Inside ks os ns → place ks (zeros ks) + inner (zeros ks) ≡ 0
place_zeros (last_dim k o n p l) = refl
place_zeros (more_dims k o n k' o' n' ks os ns p l i) = omega (arith, place_zeros i)

Inside-zeros : {ks os ns : List ℕ} → Inside ks os ns → Inside ks (zeros ks) ks
Inside-zeros (last_dim k o n p l) = last_dim k 0 k (omega arith) (omega arith)
Inside-zeros (more_dims k o n k' o' n' ks os ns p l i) =
    more_dims k 0 k k' 0 k' ks (zeros ks) ks (omega arith) (omega arith) (Inside-zeros i)

take-take-drop : (w n : ℕ) (xs : List ℕ) → take w xs ++ take n (drop w xs) ≡ take (w + n) xs
take-take-drop zero n xs = ap (λ k. take k xs) (zero_plus n)
  where
    zero_plus : (n : ℕ) → n ≡ 0 + n
    zero_plus n = omega arith
take-take-drop (suc w) n [] = none_left n (suc w + n)
  where
    none_left : (n m : ℕ) → take {A = ℕ} n [] ≡ take m []
    none_left zero zero = refl
    none_left zero (suc m) = refl
    none_left (suc n) zero = refl
    none_left (suc n) (suc m) = refl
take-take-drop (suc w) n (x ∷ xs) =
    ap (λ t. x ∷ t) (take-take-drop w n xs) ∙ ap (λ k. take k (x ∷ xs)) (suc_shift w n)
  where
    suc_shift : (m n : ℕ) → suc (m + n) ≡ suc m + n
    suc_shift m n = omega arith

-- Consecutive pieces of the data are the data.
pieces :
    (w m b : ℕ) (bytes : List ℕ)
    → concat (map (λ o. take w (drop o bytes)) (seq b w m)) ≡ take (m * w) (drop b bytes)
pieces w zero b bytes = ap (λ k. take k (drop b bytes)) (zero_times w)
  where
    zero_times : (w : ℕ) → 0 ≡ 0 * w
    zero_times w = omega arith
pieces w (suc m) b bytes =
    ap (λ t. take w (drop b bytes) ++ t)
      (pieces w m (b + w) bytes ∙ ap (take (m * w)) (sym (drop-drop w b bytes)))
    ∙ take-take-drop w (m * w) (drop b bytes)
    ∙ ap (λ k. take k (drop b bytes)) (step m w)
  where
    step : (m w : ℕ) → w + m * w ≡ suc m * w
    step m w = grind arith

never_over : (os : List ℕ) → over_last (λ o. false) os ≡ false
never_over [] = refl
never_over (o ∷ []) = refl
never_over (o ∷ (o' ∷ os)) = never_over (o' ∷ os)

count_outer : {ks os ns : List ℕ} → Inside ks os ns → count (outer ks) * inner ks ≡ count ks
count_outer (last_dim k o n p l) = omega arith
count_outer (more_dims k o n k' o' n' ks os ns p l i) =
    mul_assoc k (count (outer (k' ∷ ks))) (inner (k' ∷ ks)) ∙ ap (λ c. k * c) (count_outer i)

whole_tile :
    (e : ℕ) (bytes : List ℕ) {ks os ns : List ℕ}
    → Inside ks os ns
    → concat (map (λ o. take (inner ks * e) (drop o bytes)) (tile_rows e ks (zeros ks) ks))
      ≡ take (count ks * e) bytes
whole_tile e bytes {ks} i =
    let start : (place ks (zeros ks) + inner (zeros ks)) * e ≡ 0 =
      ap (λ k. k * e) (place_zeros i) ∙ zero_times e in
    let one : rows e [] 0 ≡ seq 0 (count ks * e) 1 = refl in
    let evenly : tile_rows e ks (zeros ks) ks ≡ seq 0 (inner ks * e) (1 * count (outer ks)) =
      ap (rows e (dims_onto (outer (zeros ks)) (outer ks) (strides_of ks) [])) start
      ∙ whole_rows e 1 [] i one in
    let size : 1 * count (outer ks) * (inner ks * e) ≡ count ks * e =
      regroup (count (outer ks)) (inner ks) e ∙ ap (λ c. c * e) (count_outer i) in
    ap (λ os. concat (map (λ o. take (inner ks * e) (drop o bytes)) os)) evenly
    ∙ pieces (inner ks * e) (1 * count (outer ks)) 0 bytes
    ∙ ap (λ k. take k bytes) size
  where
    regroup : (a b c : ℕ) → 1 * a * (b * c) ≡ a * b * c
    regroup a b c = grind arith

    zero_times : (e : ℕ) → 0 * e ≡ 0
    zero_times e = omega arith

unit_shape :
    {ks os ns : List ℕ}
    → Inside ks os ns
    → All (λ n. n ≡ 1) ns
    → (inner ns ≡ 1) × (all_one (outer ns) ≡ true)
unfolding all_one
unit_shape (last_dim k o n p l) (e, h) = (e, refl)
unit_shape (more_dims k o n k' o' n' ks os ns p l i) (e, h) =
    let (one, all) = unit_shape i h in (one, rw ((==_iff n 1).1 e) all)

All-replicate : (n : ℕ) → All {A = ℕ} (λ m. m ≡ 1) (replicate n 1)
All-replicate zero = tt
All-replicate (suc n) = (refl, All-replicate n)

module _ (host : Byteorder) (convert_fn : Scalar → Scalar → Bool → Option Convert) (nd : Ndarray)
    (dst_t : Scalar) (convert : Convert) where
  -- Reading all of an array of scalars whose data are there, with extents of at least 1, through a
  -- conversion that copies, gives the first bytes of the data, as many as the array has.
  pub read_all_copy :
      {os ns : List ℕ} (new_buf : Bool)
      → Inside nd.shape os ns
      → HasData nd
      → 0 < scalar_size (dst_of dst_t nd)
      → convert_fn
          (scalar_of nd.datatype)
          (dst_of dst_t nd)
          (should_byteswap host (src_size nd) nd.byteorder)
        ≡ some convert
      → ((n : ℕ) (bs : List ℕ)
          → n * src_size nd ≤ length bs
          → convert n bs ≡ some (take (n * src_size nd) bs, false))
      → read_all host convert_fn nd dst_t new_buf
        ≡ some (ok, stored (take (count nd.shape * src_size nd) nd.bytes))
  unfolding read_all
  read_all_copy {os} {ns} new_buf i v d c copies =
      let e : ℕ = src_size nd in
      let w : ℕ = inner nd.shape * e in
      let rs : List ℕ = tile_rows e nd.shape (zeros nd.shape) nd.shape in
      let (within, copied) =
        read_tile_rows host convert_fn nd dst_t new_buf convert (λ o. take w (drop o nd.bytes))
          (λ o. false) (Inside-zeros i) v d c
          (λ o h.
            copies (inner nd.shape) (drop o nd.bytes) (omega (arith, h, length-drop o nd.bytes))) in
      copied
      ∙ ap
          (λ b.
            finish (new_buf && not (all_one (outer nd.shape)))
              (some (concat (map (λ o. take w (drop o nd.bytes)) rs), b)))
          (never_over rs)
      ∙ ap
          (λ b.
            some (
              ok,
              if b then dangling else stored (concat (map (λ o. take w (drop o nd.bytes)) rs)),
            ))
          (and_false (new_buf && not (all_one (outer nd.shape))))
      ∙ ap (λ t. some (ok, stored t)) (whole_tile e nd.bytes i)

  -- Reading one element of such an array converts the bytes at its place in C order, and no others.
  pub read_at_element :
      (indices : List ℕ) (out : ℕ → List ℕ) (over : ℕ → Bool)
      → Inside nd.shape indices (replicate (length nd.shape) 1)
      → HasData nd
      → 0 < scalar_size (dst_of dst_t nd)
      → convert_fn
          (scalar_of nd.datatype)
          (dst_of dst_t nd)
          (should_byteswap host (src_size nd) nd.byteorder)
        ≡ some convert
      → ((o : ℕ)
          → o + src_size nd ≤ length nd.bytes
          → convert 1 (drop o nd.bytes) ≡ some (out o, over o))
      → ((place nd.shape indices + inner indices) * src_size nd + src_size nd ≤ length nd.bytes)
        × (read_at host convert_fn nd indices dst_t
            ≡ finish false (
                some (
                  out ((place nd.shape indices + inner indices) * src_size nd),
                  over ((place nd.shape indices + inner indices) * src_size nd),
                )))
  unfolding read_at
  read_at_element indices out over i v d c f =
      let e : ℕ = src_size nd in
      let ones : List ℕ = replicate (length nd.shape) 1 in
      let (one, all) = unit_shape i (All-replicate (length nd.shape)) in
      let offset : ℕ = (place nd.shape indices + inner indices) * e in
      let width : inner ones * e ≡ e = ap (λ k. k * e) one ∙ one_times e in
      let (within, copied) =
        read_tile_rows host convert_fn nd dst_t false convert out over i v d c
          (λ o h. ap (λ k. convert k (drop o nd.bytes)) one ∙ f o (omega (arith, h, width))) in
      let single : tile_rows e nd.shape indices ones ≡ offset ∷ [] = rows_one e [] offset i all in
      let (here, _) = rw single at within in
      (
        omega (arith, here, width),
        rw (has_dims i) (
            copied
            ∙ ap (λ os. finish false (some (concat (map out os), over_last over os))) single
            ∙ ap (λ t. finish false (some (t, over offset))) (append-nil (out offset))),
      )
    where
      one_times : (e : ℕ) → 1 * e ≡ e
      one_times e = omega arith
