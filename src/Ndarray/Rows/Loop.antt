-- ===== src/Ndarray/Rows/Loop.antt =====
-- The main loop of a tile writes the rows, one after the other.
use libasdf.Prelude.{ℕ, zero, suc, ◌+◌, ◌-◌, ◌*◌, ◌≤◌, ◌<◌, ◌≡◌, refl, sym, ap, ◌∙◌}
use libasdf.Prelude.{inl, inr, Bool, true, false, some, arith}
use libasdf.Prelude.{List, [], ◌∷◌, ◌++◌, map, length, drop, All}
use libasdf.Prelude.{ltb, Bool-cases}
use libasdf.Prelude.{concat, lt→ltb, le→ltb, ltb→lt}
use libasdf.Prelude.Bytes.{add_size}
use libasdf.Ndarray.{Dim, Convert, advance, main_loop}
use mathlib.Core.List.{append-nil}
use libasdf.Ndarray.Rows.{
  tail, gone, left, InTile, left_first, Turned, step_over, reset, inside_dim, last_of_dim, back_up,
  carried,
}

-- The turns of the odometer, in the order of the code's tests.
advance_in :
    (e : ℕ) (d : Dim) (ds : List Dim) (src : ℕ)
    → InTile d
    → d.odometer + 1 < d.origin + d.extent
    → advance e (d ∷ ds) src ≡ (false, step_over d ∷ ds, src + d.stride * e)
unfolding advance step_over
advance_in e d [] src h l =
    rw (lt→ltb (d.odometer + 1) (add_size d.origin d.extent) (omega (arith, h.fits))) refl
advance_in e d (d' ∷ ds) src h l =
    rw (lt→ltb (d.odometer + 1) (add_size d.origin d.extent) (omega (arith, h.fits))) refl

advance_done :
    (e : ℕ) (d : Dim) (src : ℕ)
    → InTile d
    → d.origin + d.extent ≤ d.odometer + 1
    → advance e (d ∷ []) src ≡ (true, step_over d ∷ [], src + d.stride * e)
unfolding advance step_over
advance_done e d src h l =
    rw (le→ltb (d.odometer + 1) (add_size d.origin d.extent) (omega (arith, h.fits))) refl

advance_carry :
    (e : ℕ) (d d' : Dim) (ds : List Dim) (src src' : ℕ)
    → InTile d
    → d.origin + d.extent ≤ d.odometer + 1
    → src + d.stride * e - d.extent * d.stride * e ≡ src'
    → advance e (d ∷ (d' ∷ ds)) src ≡ (
      (advance e (d' ∷ ds) src').0,
      reset d ∷ (advance e (d' ∷ ds) src').1,
      (advance e (d' ∷ ds) src').2,
    )
unfolding advance reset
advance_carry e d d' ds src src' h l back =
    rw (le→ltb (d.odometer + 1) (add_size d.origin d.extent) (omega (arith, h.fits))) (
      ap
        (λ x. (
          (advance e (d' ∷ ds) x).0,
          reset d ∷ (advance e (d' ∷ ds) x).1,
          (advance e (d' ∷ ds) x).2,
        ))
        back)

advance_none : (e base src : ℕ) → Turned e [] base (advance e [] src)
unfolding advance
advance_none e base src = refl

-- A turn of the odometer goes to the next row, and is done after the last one.
advance-Turned :
    (e : ℕ) (dims : List Dim) (base : ℕ)
    → All InTile dims
    → Turned e dims base (advance e dims (base + gone e dims))
advance-Turned e [] base h = advance_none e base (base + gone e [])
advance-Turned e (d ∷ ds) base (h, hs) =
    elim (Bool-cases (ltb (d.odometer + 1) (d.origin + d.extent))) [
      | inl y ↦
          let l = ltb→lt (d.odometer + 1) (d.origin + d.extent) y in
          let (rest, at, h') = inside_dim e d ds base h l in
          rw (advance_in e d ds (base + gone e (d ∷ ds)) h l) (rest, at, (h', hs))
      | inr n ↦ ended ds (ground (arith, n)) (advance-Turned e ds base hs)
    ]
  where
    ended :
        (ds : List Dim)
        → d.origin + d.extent ≤ d.odometer + 1
        → Turned e ds base (advance e ds (base + gone e ds))
        → Turned e (d ∷ ds) base (advance e (d ∷ ds) (base + gone e (d ∷ ds)))
    ended [] l later =
        rw (advance_done e d (base + gone e (d ∷ [])) h l) (last_of_dim e d [] base h l)
    ended (d' ∷ ds) l later =
        rw
          (advance_carry e d d' ds (base + gone e (d ∷ (d' ∷ ds))) (base + gone e (d' ∷ ds)) h l
            (back_up e d (gone e (d' ∷ ds)) base h l))
          (carried e d (d' ∷ ds) base (advance e (d' ∷ ds) (base + gone e (d' ∷ ds))) h later
            (last_of_dim e d (d' ∷ ds) base h l))

-- Whether the last row had an overflow.
abbrev pub over_last : (ℕ → Bool) → List ℕ → Bool
over_last over [] = false
over_last over (o ∷ []) = over o
over_last over (o ∷ (o' ∷ os)) = over_last over (o' ∷ os)

module _ (convert : Convert) (n e : ℕ) (bytes : List ℕ) (out : ℕ → List ℕ) (over : ℕ → Bool) where
  -- The conversion of a row that begins at `o`.
  abbrev pub Converts : ℕ → Type 0
  Converts o = convert n (drop o bytes) ≡ some (out o, over o)

  abbrev pub written : List ℕ → List ℕ × Bool
  written os = (concat (map out os), over_last over os)

  loop_last :
      (f : ℕ) (dims : List Dim) (src : ℕ) (r : Bool × List Dim × ℕ)
      → Converts src
      → advance e dims src ≡ r
      → r.0 ≡ true
      → main_loop (suc f) convert n e bytes dims src ≡ some (out src, over src)
  unfolding main_loop
  loop_last f dims src r c a t = rw (c, main_loop) (rw a (rw t refl))

  loop_more :
      (f : ℕ) (dims : List Dim) (src : ℕ) (r : Bool × List Dim × ℕ) {rest : List ℕ × Bool}
      → Converts src
      → advance e dims src ≡ r
      → r.0 ≡ false
      → main_loop f convert n e bytes r.1 r.2 ≡ some rest
      → main_loop (suc f) convert n e bytes dims src ≡ some (out src ++ rest.0, rest.1)
  unfolding main_loop
  loop_more f dims src r c a t later = rw (c, main_loop) (rw a (rw t (rw later refl)))

  over_more :
      (src : ℕ) (os : List ℕ) (o : ℕ) (tail : List ℕ)
      → os ≡ o ∷ tail
      → over_last over (src ∷ os) ≡ over_last over os
  over_more src [] o tail e = cc
  over_more src (x ∷ xs) o tail e = refl

  first_and_rest :
      (os : List ℕ) (o : ℕ)
      → os ≡ o ∷ tail os
      → All Converts os
      → Converts o × All Converts (tail os)
  first_and_rest [] o e c = cc
  first_and_rest (x ∷ xs) o e (c, cs) = let head : x ≡ o = ground (arith, e) in (rw (← head) c, cs)

  -- One row, with the turn of the odometer, and what the later turns write.
  turn :
      (f : ℕ) (dims : List Dim) (base : ℕ) (r : Bool × List Dim × ℕ)
      → advance e dims (base + gone e dims) ≡ r
      → Turned e dims base r
      → Converts (base + gone e dims)
      → All Converts (tail (left e dims base))
      → length (tail (left e dims base)) ≤ f
      → ((dims' : List Dim)
          → All InTile dims'
          → length (left e dims' base) ≤ f
          → All Converts (left e dims' base)
          → main_loop f convert n e bytes dims' (base + gone e dims')
            ≡ some (written (left e dims' base)))
      → main_loop (suc f) convert n e bytes dims (base + gone e dims)
        ≡ some (written ((base + gone e dims) ∷ tail (left e dims base)))
  turn f dims base (true, dims', src') a t c cs l later =
      loop_last f dims (base + gone e dims) (true, dims', src') c a refl
      ∙ ap (λ x. some (x, over (base + gone e dims))) (sym (append-nil (out (base + gone e dims))))
      ∙ ap (λ os. some (written ((base + gone e dims) ∷ os))) (sym t)
  turn f dims base (false, dims', src') a (t, at, hs) c cs l later =
      let rest = later dims' hs (omega (arith, ap length t)) (rw (← t) cs) in
      loop_more f dims (base + gone e dims) (false, dims', src') c a refl
        (ap (main_loop f convert n e bytes dims') at ∙ rest)
      ∙ ap (λ b. some (out (base + gone e dims) ++ concat (map out (left e dims' base)), b))
          (sym (
            over_more (base + gone e dims) (left e dims' base) (base + gone e dims')
              (tail (left e dims' base)) (left_first e dims' base hs)))
      ∙ ap (λ os. some (written ((base + gone e dims) ∷ os))) (sym t)

  pub main_loop_rows :
      (f : ℕ) (dims : List Dim) (base : ℕ)
      → All InTile dims
      → length (left e dims base) ≤ f
      → All Converts (left e dims base)
      → main_loop f convert n e bytes dims (base + gone e dims) ≡ some (written (left e dims base))
  main_loop_rows zero dims base h l c = absurd (omega (arith, ap length (left_first e dims base h)))
  main_loop_rows (suc f) dims base h l c =
      let first = left_first e dims base h in
      let (c', cs) = first_and_rest (left e dims base) (base + gone e dims) first c in
      turn f dims base (advance e dims (base + gone e dims)) refl (advance-Turned e dims base h) c'
        cs (omega (arith, ap length first))
        (λ dims' h' l' cs'. main_loop_rows f dims' base h' l' cs')
      ∙ ap (λ os. some (written os)) (sym first)
