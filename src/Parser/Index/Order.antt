-- ===== src/Parser/Index/Order.antt =====
-- What the order test of the block index promises, and where the search for it begins.
use libasdf.Prelude.{ℕ, zero, suc, ◌+◌, ◌-◌, ◌*◌, ◌/◌, ◌%◌, ◌≤◌, ◌<◌, ◌≡◌, sym, ap, ◌∙◌}
use libasdf.Prelude.{inl, inr, true, some, arith}
use libasdf.Prelude.{List, [], ◌∷◌, get_elem?}
use libasdf.Prelude.{ltb, Bool-cases, tests}
use mathlib.Core.Path.{subst}
use native.Mathlib.Nat.{mul-suc, mul-mod_right, mod-add-div, mod-lt, zero-mod}
use libasdf.Prelude.Int.{ℤ, pos_part, neg_part}
use libasdf.Parser.Index.{in_order, aligned_offset, header_full_size}

-- `Apart n a b`: a + n ≤ b, for signed numbers.
abbrev pub Apart : ℕ → ℤ → ℤ → Type 0
Apart n a b = pos_part a + neg_part b + n ≤ pos_part b + neg_part a

in_order-head :
    (a b : ℤ) (xs : List ℤ)
    → in_order (a ∷ (b ∷ xs)) ≡ true
    → Apart header_full_size a b × (in_order (b ∷ xs) ≡ true)
unfolding in_order
in_order-head a b xs h = ground (arith, h)

in_order-from :
    (a b : ℤ) (xs : List ℤ) (j : ℕ)
    → in_order (a ∷ xs) ≡ true
    → get_elem? xs j ≡ some b
    → Apart (header_full_size * (j + 1)) a b
in_order-from a b [] j h e = absurd (grind (arith, e))
in_order-from a b (x ∷ xs) zero h e =
    let (apart, later) = in_order-head a x xs h in grind (arith, apart, e)
in_order-from a b (x ∷ xs) (suc j) h e =
    let (apart, later) = in_order-head a x xs h in
    omega (arith, apart, in_order-from x b xs j later e)

-- In a block index that passes the order test, the entry that stands `j + 1` places behind another
-- is larger by `j + 1` times the size of a block header at least.
pub in_order-Apart :
    (xs : List ℤ) (i j : ℕ) {a b : ℤ}
    → in_order xs ≡ true
    → get_elem? xs i ≡ some a
    → get_elem? xs (i + (j + 1)) ≡ some b
    → Apart (header_full_size * (j + 1)) a b
in_order-Apart [] i j h ea eb = absurd (grind (arith, ea))
in_order-Apart (x ∷ xs) zero j {a} {b} h ea eb =
    let next : suc j ≡ 0 + (j + 1) = omega arith in
    let same : x ≡ a = grind (arith, ea) in
    in_order-from a b xs j (subst (λ c. in_order (c ∷ xs) ≡ true) same h)
      (ap (get_elem? (x ∷ xs)) next ∙ eb)
in_order-Apart (x ∷ []) (suc i) j h ea eb = absurd (grind (arith, ea))
in_order-Apart (x ∷ (y ∷ xs)) (suc i) j {a} {b} h ea eb =
    let next : suc (i + (j + 1)) ≡ suc i + (j + 1) = omega arith in
    in_order-Apart (y ∷ xs) i j (in_order-head x y xs h).1 ea
      (ap (get_elem? (x ∷ (y ∷ xs))) next ∙ eb)

page_start :
    (page q r n : ℕ)
    → n ≡ r + page * q
    → r < page
    → page < n
    → ((n - page - r) % page ≡ 0) × (n < n - page - r + 2 * page)
page_start page zero r n e l m = absurd (omega (arith, e, l, m))
page_start page (suc k) r n e l m =
    let step : page * suc k ≡ page * k + page = mul-suc page k in
    let start : n - page - r ≡ page * k = omega (arith, e, step) in
    (ap (λ a. a % page) start ∙ mul-mod_right page k, omega (arith, e, step, l))

-- With a positive page size, the search for the block index begins at a page boundary inside of the
-- file, and leaves less than two pages to search.
pub aligned_offset_lem :
    (page_size file_size : ℕ)
    → 0 < page_size
    → (aligned_offset page_size file_size % page_size ≡ 0)
      × (aligned_offset page_size file_size ≤ file_size)
      × (file_size < aligned_offset page_size file_size + 2 * page_size)
unfolding aligned_offset
aligned_offset_lem page_size file_size l = elim (Bool-cases (ltb page_size file_size)) [
  | inl y ↦
      let (aligned, near) =
        page_start page_size (file_size / page_size) (file_size % page_size) file_size
          (sym (mod-add-div file_size page_size)) (mod-lt file_size l) (omega (tests, y)) in
      rw y (aligned, omega arith, near)
  | inr n ↦
      let le : file_size ≤ page_size = ground (arith, n) in
      rw n (zero-mod page_size, omega arith, omega (arith, le, l))
]
