-- ===== src/Ndarray/Integers/Element.antt =====
-- One conversion, against the number of the destination that is nearest to the source's.
use libasdf.Prelude.{ℕ, ◌+◌, ◌-◌, ◌*◌, ◌%◌, ◌≤◌, ◌<◌, ◌≡◌, refl, sym, ap, ap₂, ◌∙◌}
use libasdf.Prelude.{◌⊎◌, inl, inr, Bool, true, false, not, ◌&&◌, arith}
use libasdf.Prelude.{ltb, if◌then◌else◌, Bool-cases}
use native.Mathlib.Nat.{mod-eq_of_lt}
use libasdf.Prelude.{lt→ltb, le→ltb, lt→leb, le→leb, leb→le}
use libasdf.Prelude.Int.{ℤ, pos, negsuc, pos_part, neg_part, leb_ℤ}
use libasdf.Ndarray.Integers.{
  IntType, patterns, value, value_of, cast, cast_to, int_min, int_max, min_of, max_of, less, Kind,
  identity, generic, clamp, clamp_max, truncate, convert_one,
}

-- A number is one of those of a type.
abbrev pub in_range : IntType → ℤ → Bool
in_range t v = leb_ℤ (int_min t) v && leb_ℤ v (int_max t)

-- The number of a type that is nearest to a number.
abbrev pub nearest : IntType → ℤ → ℤ
nearest t v = if less v (int_min t) then int_min t else if less (int_max t) v then int_max t else v

abbrev AtMost : ℤ → ℤ → Type 0
AtMost a b = pos_part a + neg_part b ≤ pos_part b + neg_part a

abbrev Below : ℤ → ℤ → Type 0
Below a b = pos_part a + neg_part b < pos_part b + neg_part a

abbrev InRange : IntType → ℤ → Type 0
InRange t v = AtMost (int_min t) v × AtMost v (int_max t)

value_of-range :
    (signed : Bool) (h p : ℕ)
    → 0 < h
    → p < 2 * h
    → AtMost (min_of signed h) (value_of signed h p)
      × AtMost (value_of signed h p) (max_of signed h)
unfolding value_of min_of max_of
value_of-range true h p some_half small = elim (Bool-cases (ltb p h)) [
  | inl low ↦ rw low (ground (arith, low), ground (arith, low))
  | inr high ↦ rw high (ground (arith, high), ground (arith, high))
]
value_of-range false h p some_half small = (omega arith, omega arith)

value_of-cast_to :
    (signed : Bool) (h : ℕ) (v : ℤ)
    → 0 < h
    → AtMost (min_of signed h) v
    → AtMost v (max_of signed h)
    → value_of signed h (cast_to h v) ≡ v
unfolding value_of cast_to min_of max_of
value_of-cast_to true h (pos k) some_half low high =
    let fits : k % (2 * h) ≡ k = mod-eq_of_lt (omega arith) in
    rw (fits, lt→ltb k h (omega arith)) refl
value_of-cast_to true h (negsuc k) some_half low high =
    let fits : k % (2 * h) ≡ k = mod-eq_of_lt (omega arith) in
    let above : ltb (2 * h - 1 - k) h ≡ false = le→ltb (2 * h - 1 - k) h (omega arith) in
    rw (fits, above) (ap negsuc (omega arith))
value_of-cast_to false h (pos k) some_half low high = ap pos (mod-eq_of_lt (omega arith))
value_of-cast_to false h (negsuc k) some_half low high = ground (arith, low)

cast_to-fits : (h : ℕ) (v : ℤ) → 0 < h → cast_to h v < 2 * h
unfolding cast_to
cast_to-fits h (pos k) some_half = omega arith
cast_to-fits h (negsuc k) some_half = omega arith

min_of-max_of : (signed : Bool) (h : ℕ) → 0 < h → AtMost (min_of signed h) (max_of signed h)
unfolding min_of max_of
min_of-max_of true h some_half = omega arith
min_of-max_of false h some_half = omega arith

-- A pattern of the type and an overflow are right for a number.
unfoldable pub Converted : IntType → ℤ → ℕ × Bool → Type 0
Converted d v (q, over) = (value d q ≡ nearest d v) × (over ≡ not (in_range d v)) × (q < patterns d)

module _ (d : IntType) (v : ℤ) (some_half : 0 < d.half) where
  within : InRange d v → Converted d v (cast d v, false)
  unfolding Converted
  within (low, high) =
      let below =
        le→leb (pos_part (int_min d) + neg_part v) (pos_part v + neg_part (int_min d)) low in
      let above =
        le→leb (pos_part v + neg_part (int_max d)) (pos_part (int_max d) + neg_part v) high in
      (
        value_of-cast_to d.signed d.half v some_half low high ∙ rw (below, above) refl,
        rw (below, above) refl,
        cast_to-fits d.half v some_half,
      )

  too_small : Below v (int_min d) → Converted d v (cast d (int_min d), true)
  unfolding Converted
  too_small h =
      let ordered = min_of-max_of d.signed d.half some_half in
      let out = lt→leb (pos_part (int_min d) + neg_part v) (pos_part v + neg_part (int_min d)) h in
      (
        value_of-cast_to d.signed d.half (int_min d) some_half (omega arith) ordered ∙ rw out refl,
        rw out refl,
        cast_to-fits d.half (int_min d) some_half,
      )

  too_large : Below (int_max d) v → Converted d v (cast d (int_max d), true)
  unfolding Converted
  too_large h =
      let ordered = min_of-max_of d.signed d.half some_half in
      let least =
        le→leb (pos_part (int_min d) + neg_part v) (pos_part v + neg_part (int_min d))
          (omega (arith, h, ordered)) in
      let out = lt→leb (pos_part v + neg_part (int_max d)) (pos_part (int_max d) + neg_part v) h in
      (
        value_of-cast_to d.signed d.half (int_max d) some_half ordered (omega arith)
            ∙ rw (least, out) refl,
        rw (least, out) refl,
        cast_to-fits d.half (int_max d) some_half,
      )

-- The macro fits the pair of types: the bounds of the destination are numbers of the source where
-- the source is compared with them, and what is not compared cannot be out of range.
unfoldable pub Suits : Kind → IntType → IntType → Type 0
Suits identity s d = (s.size ≡ d.size) × (s.half ≡ d.half) × (s.signed ≡ d.signed)
Suits generic s d = InRange d (int_min s) × InRange d (int_max s)
Suits clamp s d = InRange s (int_min d) × InRange s (int_max d)
Suits clamp_max s d = InRange s (int_max d) × AtMost (int_min d) (int_min s)
Suits truncate s d = InRange s (pos 0) × (int_min d ≡ pos 0) × AtMost (int_max s) (int_max d)

same_range :
    (s d : IntType) (v : ℤ) → s.half ≡ d.half → s.signed ≡ d.signed → InRange s v → InRange d v
same_range s d v halves signs (low, high) =
    let least = ap₂ min_of signs halves in
    let greatest = ap₂ max_of signs halves in
    (
      omega (arith, low, ap pos_part least, ap neg_part least),
      omega (arith, high, ap pos_part greatest, ap neg_part greatest),
    )

less-cases : (a b : ℤ) → ((less a b ≡ true) × Below a b) ⊎ ((less a b ≡ false) × AtMost b a)
less-cases a b = elim (Bool-cases (leb_ℤ b a)) [
  | inl le ↦ inr (ap not le, leb→le (pos_part b + neg_part a) (pos_part a + neg_part b) le)
  | inr gt ↦ inl (ap not gt, ground (arith, gt))
]

module _ (d : IntType) (v : ℤ) (some_half : 0 < d.half) where
  -- The comparison with the greatest number of the destination.
  capped :
      AtMost (int_min d) v
      → Converted d v (if less (int_max d) v then (cast d (int_max d), true) else (cast d v, false))
  capped low = elim (less-cases (int_max d) v) [
    | inl (over, h) ↦ rw over (too_large d v some_half h)
    | inr (fits, h) ↦ rw fits (within d v some_half (low, h))
  ]

  clamped : Converted d v (
      if less v (int_min d)
      then (cast d (int_min d), true)
      else if less (int_max d) v
      then (cast d (int_max d), true)
      else (cast d v, false))
  clamped = elim (less-cases v (int_min d)) [
    | inl (over, h) ↦ rw over (too_small d v some_half h)
    | inr (fits, h) ↦ rw fits (capped h)
  ]

  floored :
      (least : ℤ)
      → least ≡ int_min d
      → AtMost v (int_max d)
      → Converted d v (if less v least then (cast d least, true) else (cast d v, false))
  floored least e high = rw e (elim (less-cases v (int_min d)) [
    | inl (over, h) ↦ rw over (too_small d v some_half h)
    | inr (fits, h) ↦ rw fits (within d v some_half (h, high))
  ])

pub convert_one-Converted :
    (k : Kind) (s d : IntType) (p : ℕ)
    → 0 < s.half
    → 0 < d.half
    → Suits k s d
    → p < patterns s
    → Converted d (value s p) (convert_one k s d p)
unfolding convert_one Suits
convert_one-Converted identity s d p some_s some_d (sizes, halves, signs) small =
    let v = value_of-range s.signed s.half p some_s small in
    within d (value s p) some_d (same_range s d (value s p) halves signs v)
convert_one-Converted generic s d p some_s some_d suits small =
    let v = value_of-range s.signed s.half p some_s small in
    within d (value s p) some_d (omega (arith, v, suits), omega (arith, v, suits))
convert_one-Converted clamp s d p some_s some_d ((a, b), (a', b')) small =
    rw
      (
        value_of-cast_to s.signed s.half (int_min d) some_s a b,
        value_of-cast_to s.signed s.half (int_max d) some_s a' b',
      )
      (clamped d (value s p) some_d)
convert_one-Converted clamp_max s d p some_s some_d ((a, b), least) small =
    let v = value_of-range s.signed s.half p some_s small in
    rw (value_of-cast_to s.signed s.half (int_max d) some_s a b)
      (capped d (value s p) some_d (omega (arith, v, least)))
convert_one-Converted truncate s d p some_s some_d ((a, b), zero_min, greatest) small =
    let v = value_of-range s.signed s.half p some_s small in
    rw (value_of-cast_to s.signed s.half (pos 0) some_s a b)
      (floored d (value s p) some_d (pos 0) (sym zero_min) (omega (arith, v, greatest)))

-- A pattern that is copied to a type like its own.
pub copied :
    (s d : IntType) (p : ℕ)
    → 0 < s.half
    → Suits identity s d
    → p < patterns s
    → (value d p ≡ nearest d (value s p)) × (in_range d (value s p) ≡ true)
unfolding Suits
copied s d p some_half (sizes, halves, signs) small =
    let v = value_of-range s.signed s.half p some_half small in
    let (low, high) = same_range s d (value s p) halves signs v in
    let below =
      le→leb (pos_part (int_min d) + neg_part (value s p))
        (pos_part (value s p) + neg_part (int_min d)) low in
    let above =
      le→leb (pos_part (value s p) + neg_part (int_max d))
        (pos_part (int_max d) + neg_part (value s p)) high in
    (
      ap₂ (λ sg h. value_of sg h p) (sym signs) (sym halves) ∙ rw (below, above) refl,
      rw (below, above) refl,
    )
