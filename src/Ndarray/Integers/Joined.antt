-- ===== src/Ndarray/Integers/Joined.antt =====
-- The numbers of rows that stand one after the other.
use libasdf.Prelude.{ℕ, zero, suc, ◌+◌, ◌-◌, ◌*◌, ◌≤◌, ◌≡◌, refl, sym, ap, ap₂, ◌∙◌}
use libasdf.Prelude.{Bool, arith}
use libasdf.Prelude.{List, [], ◌∷◌, ◌++◌, map, length, take, drop, All}
use libasdf.Prelude.{length-take, length-drop, take-append-drop}
use libasdf.Prelude.{concat}
use libasdf.Prelude.{take_exact, drop_exact}
use libasdf.Prelude.Int.{ℤ}
use mathlib.Core.List.{append_assoc}
use libasdf.Ndarray.Rows.Loop.{over_last}
use libasdf.Ndarray.Integers.{IntType, value, load}
use libasdf.Ndarray.Integers.Element.{nearest}
use libasdf.Ndarray.Integers.Numbers.{numbers}

numbers-append :
    (order : Bool) (t : IntType) (a b : ℕ) (xs ys : List ℕ)
    → length xs ≡ a * t.size
    → numbers order t (a + b) (xs ++ ys) ≡ numbers order t a xs ++ numbers order t b ys
unfolding numbers
numbers-append order t zero b [] ys len =
    let count : 0 + b ≡ b = omega arith in ap (λ k. numbers order t k ys) count
numbers-append order t zero b (x ∷ xs) ys len = absurd (no_bytes (length xs) t.size len)
  where
    no_bytes : (m n : ℕ) → suc m ≡ 0 * n → ⊥
    no_bytes m n h = omega (arith, h)
numbers-append order t (suc a) b xs ys len =
    let (enough, left) = first_of a t.size (length xs) len in
    let width : length (take t.size xs) ≡ t.size = omega (arith, length-take t.size xs, enough) in
    let split : xs ++ ys ≡ take t.size xs ++ (drop t.size xs ++ ys) =
      ap (λ l. l ++ ys) (sym (take-append-drop t.size xs))
      ∙ append_assoc (take t.size xs) (drop t.size xs) ys in
    let front =
      ap (take t.size) split ∙ take_exact t.size (take t.size xs) (drop t.size xs ++ ys) width in
    let later =
      ap (drop t.size) split ∙ drop_exact t.size (take t.size xs) (drop t.size xs ++ ys) width in
    let count : suc a + b ≡ suc (a + b) = omega arith in
    ap (λ k. numbers order t k (xs ++ ys)) count
    ∙ ap₂ (λ x y. value t (load order x) ∷ numbers order t (a + b) y) front later
    ∙ ap (λ l. value t (load order (take t.size xs)) ∷ l)
        (numbers-append order t a b (drop t.size xs) ys
          (omega (arith, length-drop t.size xs, left)))
  where
    first_of : (a n total : ℕ) → total ≡ suc a * n → (n ≤ total) × (total - n ≡ a * n)
    first_of a n total h =
        let next : suc a * n ≡ n + a * n = grind arith in
        (omega (arith, h, next), omega (arith, h, next))

map-append : {A B : Type 0} (f : A → B) (xs ys : List A) → map f (xs ++ ys) ≡ map f xs ++ map f ys
map-append f [] ys = refl
map-append f (x ∷ xs) ys = ap (λ l. f x ∷ l) (map-append f xs ys)

-- Rows that are each right, one after the other.
module _ (order : Bool) (d : IntType) (n : ℕ) (out : ℕ → List ℕ) (vs : ℕ → List ℤ) (P : ℕ → Type 0)
    (sized : (o : ℕ) → P o → length (out o) ≡ n * d.size)
    (right : (o : ℕ) → P o → numbers order d n (out o) ≡ map (nearest d) (vs o)) where
  pub rows_right :
      (os : List ℕ)
      → All P os
      → numbers order d (length os * n) (concat (map out os)) ≡ map (nearest d) (concat (map vs os))
  unfolding numbers
  rows_right [] all =
      let none_left : 0 * n ≡ 0 = omega arith in ap (λ k. numbers order d k []) none_left
  rows_right (o ∷ os) (h, all) =
      let next : suc (length os) * n ≡ n + length os * n = grind arith in
      ap (λ k. numbers order d k (out o ++ concat (map out os))) next
      ∙ numbers-append order d n (length os * n) (out o) (concat (map out os)) (sized o h)
      ∙ ap₂ ◌++◌ (right o h) (rows_right os all)
      ∙ sym (map-append (nearest d) (vs o) (concat (map vs os)))

pub over_last-same :
    (f g : ℕ → Bool) (P : ℕ → Type 0) (os : List ℕ)
    → All P os
    → ((o : ℕ) → P o → f o ≡ g o)
    → over_last f os ≡ over_last g os
over_last-same f g P [] all same = refl
over_last-same f g P (o ∷ []) (h, all) same = same o h
over_last-same f g P (o ∷ (o' ∷ os)) (h, all) same = over_last-same f g P (o' ∷ os) all same
