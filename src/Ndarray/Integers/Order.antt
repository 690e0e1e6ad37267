-- ===== src/Ndarray/Integers/Order.antt =====
-- The byte orders: reading in the order of the host, after a swap where `should_byteswap` asks for
-- one, is reading in the order of the data.
use libasdf.Prelude.{ℕ, zero, suc, ◌<◌, ◌≡◌, refl, sym, ap, ap₂, ◌∙◌}
use libasdf.Prelude.{inl, inr, Bool, true, false, arith}
use libasdf.Prelude.{List, [], ◌∷◌, take, drop}
use libasdf.Prelude.{leb, Bool-cases}
use libasdf.Prelude.Endian.{be_from, le_value}
use libasdf.Datatype.{Byteorder, big, little}
use libasdf.Ndarray.{should_byteswap, other_order}
use libasdf.Ndarray.Integers.{IntType, value, is_big, source_big, load}
use libasdf.Ndarray.Integers.Numbers.{numbers}

-- An order that data can be in.
pub data IsEndian : Byteorder → Type 0 where
  big_endian : IsEndian big
  little_endian : IsEndian little

no_byte : (a : Bool) → load a [] ≡ 0
unfolding load be_from le_value
no_byte true = refl
no_byte false = refl

single_byte : (a : Bool) (b : ℕ) → load a (b ∷ []) ≡ b
unfolding load be_from le_value
single_byte true b = omega arith
single_byte false b = omega arith

one_byte : (a b : Bool) (bs : List ℕ) → load a (take 1 bs) ≡ load b (take 1 bs)
one_byte a b [] = no_byte a ∙ sym (no_byte b)
one_byte a b (x ∷ bs) = single_byte a x ∙ sym (single_byte b x)

order_any :
    (a b : Bool) (t : IntType) (n : ℕ) (bs : List ℕ)
    → t.size ≡ 1
    → numbers a t n bs ≡ numbers b t n bs
unfolding numbers
order_any a b t zero bs one = refl
order_any a b t (suc n) bs one =
    ap₂ (λ x y. value t x ∷ y)
      (ap (λ k. load a (take k bs)) one ∙ one_byte a b bs ∙ ap (λ k. load b (take k bs)) (sym one))
      (order_any a b t n (drop t.size bs) one)

swapped :
    (host order : Byteorder)
    → IsEndian host
    → IsEndian order
    → source_big host (other_order host order) ≡ is_big order
unfolding source_big is_big other_order
swapped host order big_endian big_endian = refl
swapped host order big_endian little_endian = refl
swapped host order little_endian big_endian = refl
swapped host order little_endian little_endian = refl

-- The swap is the one that the two orders ask for.
pub swapped_numbers :
    (host order : Byteorder) (t : IntType) (n : ℕ) (bs : List ℕ)
    → IsEndian host
    → IsEndian order
    → 0 < t.size
    → numbers (source_big host (should_byteswap host t.size order)) t n bs
      ≡ numbers (is_big order) t n bs
unfolding should_byteswap
swapped_numbers host order t n bs host_end order_end some_size = elim (Bool-cases (leb t.size 1)) [
  | inl small ↦
      rw small (order_any (source_big host false) (is_big order) t n bs (ground (arith, small)))
  | inr large ↦ rw large (ap (λ o. numbers o t n bs) (swapped host order host_end order_end))
]
