-- ===== src/Prelude/Fault.antt =====
-- C code over a state, which may fault: `none` is a failed `assert`, or an access outside of a
-- buffer or of a table, after which C gives the program no meaning.
use mathlib.Core.Bool.{Bool, true, false}
use mathlib.Core.Option.{Option, none, some}
use mathlib.Core.Path.{◌≡◌, refl}

abbrev pub M : Type 0 → Type 0 → Type 0
M S A = S → Option (A × S)

abbrev pub pure : {S A : Type 0} → A → M S A
pure a s = some (a, s)

abbrev pub fault : {S A : Type 0} → M S A
fault s = none

infixl 5 ◌>>=◌ ◌>>◌
abbrev pub ◌>>=◌ : {S A B : Type 0} → M S A → (A → M S B) → M S B
◌>>=◌ m f s = elim (m s) [ none ↦ none | some (a, s') ↦ f a s' ]

abbrev pub ◌>>◌ : {S B : Type 0} → M S (Unit {0}) → M S B → M S B
m >> k = m >>= λ _. k

abbrev pub get : {S : Type 0} → M S S
get s = some (s, s)

abbrev pub gets : {S A : Type 0} → (S → A) → M S A
gets f s = some (f s, s)

abbrev pub modify : {S : Type 0} → (S → S) → M S (Unit {0})
modify f s = some (tt, f s)

-- A computation that only reads the memory, and may fault.
abbrev pub read : {S A : Type 0} → Option A → M S A
read (some a) s = some (a, s)
read none s = none

abbrev pub assert : {S : Type 0} → Bool → M S (Unit {0})
assert true s = some (tt, s)
assert false s = none

-- Inversion of a bind that did not fault.
pub >>=-eq-some :
    {S A B : Type 0} (m : M S A) (f : A → M S B) (s : S) {b : B} {t : S}
    → (m >>= f) s ≡ some (b, t)
    → (a : A) × (s' : S) × (m s ≡ some (a, s')) × (f a s' ≡ some (b, t))
>>=-eq-some {S = S} {A = A} m f s {b = b} {t = t} h = go (m s) refl h
  where
    go :
        (r : Option (A × S))
        → m s ≡ r
        → (elim r [ none ↦ none | some (a, s') ↦ f a s' ]) ≡ some (b, t)
        → (a : A) × (s' : S) × (m s ≡ some (a, s')) × (f a s' ≡ some (b, t))
    go none e h = cc
    go (some (a, s')) e h = (a, s', e, h)
