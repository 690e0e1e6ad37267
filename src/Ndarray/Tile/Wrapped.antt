-- ===== src/Ndarray/Tile/Wrapped.antt =====
-- The bounds check of a tile adds in 64 bits, and lets an origin pass for which the sum wraps.
use libasdf.Prelude.{ℕ, ◌+◌, ◌*◌, ◌%◌, ◌^◌, ◌≤◌, ◌<◌, ◌≡◌, refl, ap, ap₂, ◌∙◌}
use libasdf.Prelude.{◌≢◌, Bool, true, false, Option, none, some, arith}
use libasdf.Prelude.{List, [], ◌∷◌, length, drop}
use libasdf.Prelude.{drop_all}
use libasdf.Prelude.{le→ltb, ==_ne}
use libasdf.Prelude.Bytes.{size_mod, add_size}
use libasdf.Datatype.{Datatype, Scalar, Byteorder, scalar_size, datatype_size}
use libasdf.Ndarray.{
  Ndarray, Convert, check_bounds, nbytes, scalar_of, destination, should_byteswap, tile_of,
  copy_tile, finish, read_tile, product_from, times_size, size, init_strides, all_one, offset_from,
}
use native.Mathlib.Nat.{mul-le-mul_left, mul_comm}
use libasdf.Ndarray.Tile.Read.{scalar_size-le, positive}

-- The copy, from a place behind the data.
copy_outside :
    (convert : Convert) (bytes : List ℕ) (k o n : ℕ) (new_buf : Bool)
    → length bytes ≤ o
    → o < size_mod
    → n < size_mod
    → convert n [] ≡ none
    → tile_of convert 1 bytes (k ∷ []) (o ∷ []) (n ∷ []) new_buf ≡ none
unfolding tile_of copy_tile init_strides all_one offset_from product_from
copy_outside convert bytes k o n new_buf l w h faults =
    let at : o * 1 % size_mod ≡ o = omega arith in
    let count : 1 * n % size_mod ≡ n = omega arith in
    ap₂ (λ m b. finish false (convert m (drop b bytes))) count at
    ∙ ap (λ bs. finish false (convert n bs)) (drop_all o bytes l)
    ∙ ap (finish false) faults

wrapped_check :
    (k o n : ℕ)
    → o < size_mod
    → size_mod ≤ o + n
    → n ≤ k
    → n < size_mod
    → check_bounds (k ∷ []) (o ∷ []) (n ∷ []) ≡ true
unfolding check_bounds
wrapped_check k o n w wraps l h = rw (le→ltb k (add_size o n) (omega arith)) refl

-- An array of one dimension.
abbrev pub array_1d : ℕ → Datatype → Byteorder → List ℕ → Ndarray
array_1d k t order bytes = record { shape = k ∷ []; datatype = t; byteorder = order; bytes = bytes }

nbytes_one :
    (k : ℕ) (t : Datatype) (order : Byteorder) (bytes : List ℕ)
    → (datatype_size t).0 ≡ 1
    → 0 < k
    → k < 2 ^ 63
    → nbytes (array_1d k t order bytes) ≡ k
unfolding nbytes size product_from
nbytes_one k t order bytes sized p h =
    let count : 1 * k % size_mod ≡ k = omega arith in
    let all : k * 1 % size_mod ≡ k = omega arith in
    rw count (rw (==_ne k 0 (λ z. omega arith)) (rw sized all))

module _ (host : Byteorder) (convert_fn : Scalar → Scalar → Bool → Option Convert) (t : Datatype)
    (order : Byteorder) (bytes : List ℕ) (dst_t : Scalar) (convert : Convert) where
  -- An array of one dimension, of scalars of one byte, with its data; a read of at most as many
  -- elements as it has, at an origin so large that the sum with their number wraps: the check of
  -- the bounds passes, and the conversion begins outside of the data.
  pub read_tile_wrapped :
      (k o n : ℕ) (new_buf : Bool)
      → scalar_size (scalar_of t) ≡ 1
      → (datatype_size t).0 ≡ 1
      → length bytes ≡ k
      → k * 16 < 2 ^ 63
      → 0 < n
      → n ≤ k
      → 0 < scalar_size (destination dst_t (scalar_of t))
      → o < size_mod
      → size_mod ≤ o + n
      → convert_fn (scalar_of t) (destination dst_t (scalar_of t)) (should_byteswap host 1 order)
        ≡ some convert
      → convert n [] ≡ none
      → read_tile host convert_fn (array_1d k t order bytes) (o ∷ []) (n ∷ []) dst_t new_buf ≡ none
  unfolding read_tile product_from
  read_tile_wrapped k o n new_buf one sized long small p l d w wraps c faults =
      let e : ℕ = scalar_size (destination dst_t (scalar_of t)) in
      let count : 1 * n % size_mod ≡ n = omega arith in
      let src_fits : times_size 1 n ≤ length bytes = omega arith in
      let nbytes_fit : nbytes (array_1d k t order bytes) ≤ length bytes =
        omega (arith, nbytes_one k t order bytes sized (omega arith) (omega arith)) in
      let most : n * e ≤ n * 16 =
        mul-le-mul_left n (scalar_size-le (destination dst_t (scalar_of t))) in
      let some_bytes : 0 < e * n = positive e n d p in
      let dst_fits : times_size e n ≢ 0 = λ z. omega (arith, most, some_bytes, z, mul_comm e n) in
      rw one (
        rw (le→ltb e 1 d) (
          rw (wrapped_check k o n w wraps l (omega arith)) (
            rw count (
              rw (le→ltb (length bytes) (times_size 1 n) src_fits) (
                rw (le→ltb (length bytes) (nbytes (array_1d k t order bytes)) nbytes_fit) (
                  rw c (
                    rw count (
                      rw (==_ne (times_size e n) 0 dst_fits) (
                        rw one (
                          copy_outside convert bytes k o n new_buf (omega arith) w (omega arith)
                            faults))))))))))
