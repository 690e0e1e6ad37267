-- ===== src/Prelude/Endian.antt =====
-- Big-endian numbers, as `htobe16` to `htobe64` and `be64toh` with `memcpy` lay them out.
use Prim.Native.Nat.{ℕ, zero, suc, ◌+◌, ◌*◌, ◌/◌, ◌%◌, ◌^◌, ◌<◌}
use mathlib.Core.List.{List, [], ◌∷◌, ◌++◌}
use mathlib.Core.Path.{◌≡◌, refl, ap, ◌∙◌}
use native.Mathlib.Omega.{arith}
use native.Mathlib.Nat.{pow-suc}
use libasdf.Prelude.Lists.{length, length-append, All}
use libasdf.Prelude.Bytes.{IsByte}

-- The number that bytes stand for, the most significant first.
unfoldable pub be_from : ℕ → List ℕ → ℕ
be_from acc [] = acc
be_from acc (b ∷ bs) = be_from (acc * 256 + b) bs

abbrev pub be_value : List ℕ → ℕ
be_value bs = be_from 0 bs

-- The lowest `w` bytes of a number.
unfoldable pub to_be : ℕ → ℕ → List ℕ
to_be zero n = []
to_be (suc w) n = to_be w (n / 256) ++ ((n % 256) ∷ [])

pub length-to_be : (w n : ℕ) → length (to_be w n) ≡ w
unfolding to_be
length-to_be zero n = refl
length-to_be (suc w) n =
    omega (arith, length-append (to_be w (n / 256)) ((n % 256) ∷ []), length-to_be w (n / 256))

be_from-append :
    (acc : ℕ) (bs : List ℕ) (b : ℕ) → be_from acc (bs ++ (b ∷ [])) ≡ be_from acc bs * 256 + b
unfolding be_from
be_from-append acc [] b = refl
be_from-append acc (x ∷ bs) b = be_from-append (acc * 256 + x) bs b

quotient_fits : (w n : ℕ) → n < 256 ^ suc w → n / 256 < 256 ^ w
quotient_fits w n h = omega (arith, pow-suc 256 w)

be_nil : be_value [] ≡ 0
unfolding be_from
be_nil = refl

-- Reading back a number that `w` bytes can hold.
pub be_value-to_be : (w n : ℕ) → n < 256 ^ w → be_value (to_be w n) ≡ n
unfolding to_be
be_value-to_be zero n h = zero_value n h
  where
    zero_value : (n : ℕ) → n < 256 ^ 0 → be_value [] ≡ n
    zero_value n h = be_nil ∙ omega arith
be_value-to_be (suc w) n h =
    be_from-append 0 (to_be w (n / 256)) (n % 256)
    ∙ omega (arith, be_value-to_be w (n / 256) (quotient_fits w n h))

-- The same with the least significant byte first.
unfoldable pub le_value : List ℕ → ℕ
le_value [] = 0
le_value (b ∷ bs) = b + 256 * le_value bs

unfoldable pub to_le : ℕ → ℕ → List ℕ
to_le zero n = []
to_le (suc w) n = (n % 256) ∷ to_le w (n / 256)

pub length-to_le : (w n : ℕ) → length (to_le w n) ≡ w
unfolding to_le
length-to_le zero n = refl
length-to_le (suc w) n = ap suc (length-to_le w (n / 256))

pub le_value-to_le : (w n : ℕ) → n < 256 ^ w → le_value (to_le w n) ≡ n
unfolding le_value to_le
le_value-to_le zero n h = omega arith
le_value-to_le (suc w) n h = omega (arith, le_value-to_le w (n / 256) (quotient_fits w n h))

pub le_value-fits : (bs : List ℕ) → All IsByte bs → le_value bs < 256 ^ length bs
unfolding le_value
le_value-fits [] bytes = omega arith
le_value-fits (b ∷ bs) (h, bytes) =
    omega (arith, h, le_value-fits bs bytes, pow-suc 256 (length bs))

times_byte : (m p : ℕ) → m * 256 * p ≡ m * (256 * p)
times_byte m p = grind arith

be_from-fits :
    (acc m : ℕ) (bs : List ℕ) → All IsByte bs → acc < m → be_from acc bs < m * 256 ^ length bs
unfolding be_from
be_from-fits acc m [] bytes h = omega (arith, h)
be_from-fits acc m (b ∷ bs) (byte, bytes) h =
    let step = be_from-fits (acc * 256 + b) (m * 256) bs bytes (omega (arith, byte, h)) in
    let shift = ap (λ p. m * p) (pow-suc 256 (length bs)) in
    omega (arith, step, shift, times_byte m (256 ^ length bs))

pub be_value-fits : (bs : List ℕ) → All IsByte bs → be_value bs < 256 ^ length bs
be_value-fits bs bytes = omega (arith, be_from-fits 0 1 bs bytes (omega arith))
