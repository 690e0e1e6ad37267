-- ===== src/Prelude/Bytes.antt =====
-- Bytes, text as bytes, and the routines of the C library that read them.
use Prim.Native.Nat.{ℕ, zero, suc, ◌+◌, ◌-◌, ◌*◌, ◌^◌, ◌%◌, ◌<◌, min}
use Prim.Native.Char.{code}
use Prim.Native.String.{String}
use mathlib.Core.Bool.{Bool, true, false, ◌&&◌}
use mathlib.Core.List.{List, [], ◌∷◌, ◌++◌}
use mathlib.Core.Option.{Option, none, some}
use mathlib.Core.Option
use mathlib.Core.Path.{◌≡◌, refl}
use native.Mathlib.Omega.{arith}
use libasdf.Prelude.Tests.{leb, ◌==◌, if◌then◌else◌}
use libasdf.Prelude.Lists.{All}

abbrev pub IsByte : ℕ → Type 0
IsByte b = b < 256

-- `size_t`, `uint64_t`
abbrev pub size_mod : ℕ
size_mod = 2 ^ 64

abbrev pub add_size : ℕ → ℕ → ℕ
add_size a b = (a + b) % size_mod

-- The bytes of an ASCII text.
abbrev pub codes : String → List ℕ
codes String.[] = []
codes (String.◌∷◌ c s) = code c ∷ codes s

-- `isdigit`
unfoldable pub is_digit : ℕ → Bool
is_digit c = leb b'0' c && leb c b'9'

-- The character that `*p` reads in a string: its end reads as NUL.
abbrev pub head_char : List ℕ → ℕ
head_char [] = 0
head_char (c ∷ cs) = c

-- `memcmp(buf, tok, strlen(tok)) == 0`, where the bytes are available.
unfoldable pub starts_with : List ℕ → List ℕ → Bool
starts_with [] bs = true
starts_with (t ∷ ts) [] = false
starts_with (t ∷ ts) (b ∷ bs) = b == t && starts_with ts bs

-- `strncmp(buf, str, strlen(str)) == 0`: it reads on while the bytes agree, and faults at the end
-- of the buffer.
unfoldable pub strncmp_eq : List ℕ → List ℕ → Option Bool
strncmp_eq [] bs = some true
strncmp_eq (t ∷ ts) [] = none
strncmp_eq (t ∷ ts) (b ∷ bs) = let rest = strncmp_eq ts bs in if b == t then rest else some false

-- `strndup(buf, n)`: at most `n` bytes, up to a NUL; it faults at the end of the buffer.
unfoldable pub strndup : ℕ → List ℕ → Option (List ℕ)
strndup zero bs = some []
strndup (suc n) [] = none
strndup (suc n) (b ∷ bs) =
    let rest = strndup n bs in if b == 0 then some [] else Option.map (λ cs. b ∷ cs) rest

-- The digits at the front of a string, and what follows them.
unfoldable pub span_digits : List ℕ → List ℕ × List ℕ
unfolding is_digit
span_digits [] = ([], [])
span_digits (c ∷ cs) =
    let rest = span_digits cs in if is_digit c then (c ∷ rest.0, rest.1) else ([], c ∷ cs)

-- The number that decimal digits stand for.
unfoldable pub decimal_from : ℕ → List ℕ → ℕ
decimal_from acc [] = acc
decimal_from acc (c ∷ cs) = decimal_from (acc * 10 + (c - b'0')) cs

abbrev pub decimal : List ℕ → ℕ
decimal cs = decimal_from 0 cs

-- `strtoul(chr, &end, 10)` at a digit, with a 64-bit `unsigned long`: it saturates.
unfoldable pub strtoul : List ℕ → ℕ × List ℕ
unfolding span_digits decimal_from
strtoul cs = let (ds, end) = span_digits cs in (min (decimal ds) (size_mod - 1), end)

pub span_digits-append :
    (ds cs : List ℕ)
    → All (λ d. is_digit d ≡ true) ds
    → is_digit (head_char cs) ≡ false
    → span_digits (ds ++ cs) ≡ (ds, cs)
unfolding span_digits
span_digits-append [] [] h e = refl
span_digits-append [] (c ∷ cs) h e = rw e
span_digits-append (d ∷ ds) cs (hd, hds) e = rw (hd, span_digits-append ds cs hds e)

pub strtoul-append :
    (ds cs : List ℕ)
    → All (λ d. is_digit d ≡ true) ds
    → is_digit (head_char cs) ≡ false
    → decimal ds < size_mod
    → strtoul (ds ++ cs) ≡ (decimal ds, cs)
unfolding strtoul
strtoul-append ds cs h e lt = ground (arith, span_digits-append ds cs h e)
