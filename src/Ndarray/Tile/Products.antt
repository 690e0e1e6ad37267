-- ===== src/Ndarray/Tile/Products.antt =====
-- The numbers of elements and bytes that the checks of a tile compare.
use libasdf.Prelude.{ℕ, ◌*◌, ◌%◌, ◌≤◌, ◌<◌, ◌≡◌, refl, ap, ◌∙◌}
use libasdf.Prelude.{false, arith}
use libasdf.Prelude.{List, [], ◌∷◌, length, All}
use libasdf.Prelude.{◌==◌}
use libasdf.Prelude.{==_ne}
use libasdf.Prelude.Bytes.{size_mod}
use native.Mathlib.Nat.{mul_assoc, mul-le-mul_right, mul_comm}
use libasdf.Datatype.{datatype_size}
use libasdf.Ndarray.{Ndarray, count, product_from, times_size, size, nbytes}
use libasdf.Ndarray.Strides.{Inside, last_dim, more_dims, le_times_right, count_positive}

abbrev ArePositive : List ℕ → Type 0
ArePositive xs = All (λ x. 0 < x) xs

positive-tile : {ks os ns : List ℕ} → Inside ks os ns → ArePositive ns
positive-tile (last_dim k o n p l) = (p, tt)
positive-tile (more_dims k o n k' o' n' ks os ns p l i) = (p, positive-tile i)

positive-array : {ks os ns : List ℕ} → Inside ks os ns → ArePositive ks
positive-array (last_dim k o n p l) = (omega arith, tt)
positive-array (more_dims k o n k' o' n' ks os ns p l i) = (omega arith, positive-array i)

ArePositive-count : (xs : List ℕ) → ArePositive xs → 0 < count xs
ArePositive-count [] h = omega arith
ArePositive-count (x ∷ xs) (h, hs) = both x (count xs) h (ArePositive-count xs hs)
  where
    both : (a b : ℕ) → 0 < a → 0 < b → 0 < a * b
    both a b h k = grind arith

product_from-count :
    (acc : ℕ) (xs : List ℕ)
    → ArePositive xs
    → acc * count xs < size_mod
    → product_from acc xs ≡ acc * count xs
unfolding product_from
product_from-count acc [] h l = omega arith
product_from-count acc (x ∷ xs) (h, hs) l =
    let regroup : acc * x * count xs ≡ acc * (x * count xs) = mul_assoc acc x (count xs) in
    let more = le_times_right (acc * x) (count xs) (ArePositive-count xs hs) in
    let small : times_size acc x ≡ acc * x = omega (arith, regroup, more) in
    ap (λ k. product_from k xs) small
    ∙ product_from-count (acc * x) xs hs (omega (arith, regroup))
    ∙ regroup

pub count-le : {ks os ns : List ℕ} → Inside ks os ns → count ns ≤ count ks
count-le (last_dim k o n p l) = omega arith
count-le (more_dims k o n k' o' n' ks os ns p l i) =
    product-le n k (count (n' ∷ ns)) (count (k' ∷ ks)) (omega arith) (count-le i)
  where
    product-le : (a b c d : ℕ) → a ≤ b → c ≤ d → a * c ≤ b * d
    product-le a b c d h k =
        let first : a * c ≤ b * c = mul-le-mul_right c h in
        let second : c * b ≤ d * b = mul-le-mul_right b k in
        omega (arith, first, second, mul_comm c b, mul_comm d b)

pub count_positive-tile : {ks os ns : List ℕ} → Inside ks os ns → 0 < count ns
count_positive-tile {ks} {os} {ns} i = ArePositive-count ns (positive-tile i)

one_times : (n : ℕ) → 1 * n ≡ n
one_times n = omega arith

pub product_from-tile :
    {ks os ns : List ℕ} → Inside ks os ns → count ks < size_mod → product_from 1 ns ≡ count ns
product_from-tile {ks} {os} {ns} i h =
    product_from-count 1 ns (positive-tile i) (omega (arith, count-le i)) ∙ one_times (count ns)

pub product_from-array :
    {ks os ns : List ℕ} → Inside ks os ns → count ks < size_mod → product_from 1 ks ≡ count ks
product_from-array {ks} {os} {ns} i h =
    product_from-count 1 ks (positive-array i) (omega arith) ∙ one_times (count ks)

pub has_dims : {ks os ns : List ℕ} → Inside ks os ns → (length ks == 0) ≡ false
has_dims (last_dim k o n p l) = refl
has_dims (more_dims k o n k' o' n' ks os ns p l i) = ground arith

pub nbytes_lem :
    (nd : Ndarray) {os ns : List ℕ} (e : ℕ)
    → Inside nd.shape os ns
    → (datatype_size nd.datatype).0 ≡ e
    → count nd.shape < size_mod
    → count nd.shape * e < size_mod
    → nbytes nd ≡ count nd.shape * e
unfolding nbytes size
nbytes_lem nd e i s h b =
    let whole = product_from-array i h in
    let some_elements : 0 < count nd.shape = count_positive i in
    rw (has_dims i) (
      rw whole (
        rw (==_ne (count nd.shape) 0 (λ z. omega arith))
          (ap (λ k. times_size (count nd.shape) k) s ∙ small (count nd.shape * e) b)))
  where
    small : (a : ℕ) → a < size_mod → a % size_mod ≡ a
    small a h = omega arith
