-- ===== src/Datatype/Names.antt =====
-- The names of the numeric datatypes, read and written.
use libasdf.Prelude.{ℕ, ◌<◌, ◌≡◌, refl, sym, ap, ap₂, ◌∙◌}
use libasdf.Prelude.{◌≢◌, ◌↔◌, ◌⊎◌, inl, inr, Bool, true, false, not, ◌&&◌, arith}
use libasdf.Prelude.{List, [], ◌∷◌, ◌++◌, length, drop, All}
use libasdf.Prelude.{◌==◌, if◌then◌else◌, Bool-cases}
use libasdf.Prelude.{drop-append}
use libasdf.Prelude.Bytes.{codes, starts_with}
use libasdf.Stream.Tokens.{starts_with_rest}
use libasdf.Datatype.{
  Scalar, unknown, int8, uint8, int16, uint16, int32, uint32, int64, uint64, float16, float32,
  float64, complex64, complex128, bool8, ascii, ucs4, structured, strcmp_eq, spans, first_of,
  numbered, int_names, uint_names, float_names, complex_names, from_string, to_string, scalar_size,
}

strcmp_eq-same : (xs ys : List ℕ) → strcmp_eq xs ys ≡ true → xs ≡ ys
unfolding strcmp_eq
strcmp_eq-same [] [] h = refl
strcmp_eq-same [] (y ∷ ys) h = cc
strcmp_eq-same (x ∷ xs) [] h = cc
strcmp_eq-same (x ∷ xs) (y ∷ ys) h =
    let same : xs ≡ ys = strcmp_eq-same xs ys (ground arith) in
    let head : x ≡ y = ground arith in ap₂ (λ c cs. c ∷ cs) head same

-- Each name, behind the prefix, is that of its datatype.
abbrev AreNames : List ℕ → List (List ℕ × Scalar) → Type 0
AreNames prefix names = All (λ n. to_string n.1 ≡ prefix ++ n.0) names

first_of-names :
    (prefix : List ℕ) (names : List (List ℕ × Scalar)) (p : List ℕ)
    → AreNames prefix names
    → first_of names p ≢ unknown
    → to_string (first_of names p) ≡ prefix ++ p
unfolding first_of
first_of-names prefix [] p h ne = absurd (ne refl)
first_of-names prefix ((name, t) ∷ names) p (e, h) ne = elim (Bool-cases (strcmp_eq p name)) [
  | inl y ↦ rw y (e ∙ ap (λ n. prefix ++ n) (sym (strcmp_eq-same p name y)))
  | inr n ↦ rw n (first_of-names prefix names p h (rw n at ne))
]

numbered-names :
    (prefix digits : List ℕ) (names : List (List ℕ × Scalar)) (p : List ℕ)
    → AreNames prefix names
    → numbered digits names p ≢ unknown
    → to_string (numbered digits names p) ≡ prefix ++ p
unfolding numbered
numbered-names prefix digits names p h ne =
    elim (Bool-cases (not (length p == 0) && spans digits p)) [
      | inl y ↦ rw y (first_of-names prefix names p h (rw y at ne))
      | inr n ↦ absurd (ne (rw n refl))
    ]

-- A branch of `from_string`, for names that begin with a prefix.
branch :
    (prefix digits s : List ℕ) (names : List (List ℕ × Scalar))
    → AreNames prefix names
    → starts_with prefix s ≡ true
    → numbered digits names (drop (length prefix) s) ≢ unknown
    → to_string (numbered digits names (drop (length prefix) s)) ≡ s
branch prefix digits s names h y ne =
    let (r, e) = starts_with_rest prefix s y in
    let d : drop (length prefix) s ≡ r = ap (drop (length prefix)) e ∙ drop-append prefix r in
    rw d (numbered-names prefix digits names r h (rw d at ne)) ∙ sym e

int_names-right : AreNames (codes "int") int_names
unfolding to_string
int_names-right = (refl, (refl, (refl, (refl, tt))))

uint_names-right : AreNames (codes "uint") uint_names
unfolding to_string
uint_names-right = (refl, (refl, (refl, (refl, tt))))

float_names-right : AreNames (codes "float") float_names
unfolding to_string
float_names-right = (refl, (refl, (refl, tt)))

complex_names-right : AreNames (codes "complex") complex_names
unfolding to_string
complex_names-right = (refl, (refl, tt))

numeric : (t : Scalar) → 0 < scalar_size t → from_string (to_string t) ≡ t
unfolding from_string to_string scalar_size
numeric int8 h = refl
numeric uint8 h = refl
numeric int16 h = refl
numeric uint16 h = refl
numeric int32 h = refl
numeric uint32 h = refl
numeric int64 h = refl
numeric uint64 h = refl
numeric float16 h = refl
numeric float32 h = refl
numeric float64 h = refl
numeric complex64 h = refl
numeric complex128 h = refl
numeric bool8 h = refl
numeric unknown h = absurd (omega arith)
numeric ascii h = absurd (omega arith)
numeric ucs4 h = absurd (omega arith)
numeric structured h = absurd (omega arith)

pick :
    (b : Bool) (x y : Scalar) (s : List ℕ)
    → (b ≡ true → x ≢ unknown → to_string x ≡ s)
    → (y ≢ unknown → to_string y ≡ s)
    → (if b then x else y) ≢ unknown
    → to_string (if b then x else y) ≡ s
pick true x y s h k ne = h refl ne
pick false x y s h k ne = k ne

bool8-named : (s : List ℕ) → strcmp_eq s (codes "bool8") ≡ true → to_string bool8 ≡ s
unfolding to_string
bool8-named s y = sym (strcmp_eq-same s (codes "bool8") y)

named : (s : List ℕ) → from_string s ≢ unknown → to_string (from_string s) ≡ s
unfolding from_string
named s =
    pick (starts_with (codes "int") s) _ _ s
      (branch (codes "int") (codes "123468") s int_names int_names-right)
      (pick (starts_with (codes "uint") s) _ _ s
        (branch (codes "uint") (codes "123468") s uint_names uint_names-right)
        (pick (starts_with (codes "float") s) _ _ s
          (branch (codes "float") (codes "12346") s float_names float_names-right)
          (pick (starts_with (codes "complex") s) _ _ s
            (branch (codes "complex") (codes "12468") s complex_names complex_names-right)
            (pick (strcmp_eq s (codes "bool8")) _ _ s (λ y ne. bool8-named s y)
              (λ ne. absurd (ne refl))))))

-- A name that is read as another one than these is read as unknown.
never_read :
    (u : Scalar) (s name : List ℕ)
    → from_string s ≡ u
    → u ≢ unknown
    → to_string u ≡ name
    → from_string name ≡ unknown
    → ⊥
never_read u s name e ne named_u unread =
    let known : from_string s ≢ unknown = λ z. ne (sym e ∙ z) in
    let same : name ≡ s = sym named_u ∙ ap to_string (sym e) ∙ named s known in
    known (ap from_string (sym same) ∙ unread)

unsized_names :
    (from_string (codes "ascii") ≡ unknown)
    × (from_string (codes "ucs4") ≡ unknown)
    × (from_string (codes "<structured>") ≡ unknown)
unfolding from_string
unsized_names = (refl, refl, refl)

sized_or_unknown :
    (u : Scalar) (s : List ℕ) → from_string s ≡ u → (u ≡ unknown) ⊎ (0 < scalar_size u)
unfolding scalar_size to_string
sized_or_unknown unknown s e = inl refl
sized_or_unknown ascii s e =
    absurd (never_read ascii s (codes "ascii") e (λ z. cc) refl unsized_names.0)
sized_or_unknown ucs4 s e =
    absurd (never_read ucs4 s (codes "ucs4") e (λ z. cc) refl unsized_names.1)
sized_or_unknown structured s e =
    absurd (never_read structured s (codes "<structured>") e (λ z. cc) refl unsized_names.2)
sized_or_unknown int8 s e = inr (omega arith)
sized_or_unknown uint8 s e = inr (omega arith)
sized_or_unknown int16 s e = inr (omega arith)
sized_or_unknown uint16 s e = inr (omega arith)
sized_or_unknown int32 s e = inr (omega arith)
sized_or_unknown uint32 s e = inr (omega arith)
sized_or_unknown int64 s e = inr (omega arith)
sized_or_unknown uint64 s e = inr (omega arith)
sized_or_unknown float16 s e = inr (omega arith)
sized_or_unknown float32 s e = inr (omega arith)
sized_or_unknown float64 s e = inr (omega arith)
sized_or_unknown complex64 s e = inr (omega arith)
sized_or_unknown complex128 s e = inr (omega arith)
sized_or_unknown bool8 s e = inr (omega arith)

sized_known : (t : Scalar) → 0 < scalar_size t → t ≢ unknown
unfolding scalar_size
sized_known t h z =
    let none_left : scalar_size unknown ≡ 0 = refl in omega (arith, h, ap scalar_size z, none_left)

-- For each datatype with a size: a string is read as that datatype just when it is its name, byte
-- for byte. Every string is read as such a datatype or as unknown, so the names of the strings and
-- of the structured datatype are read as unknown too.
pub from_string-to_string :
    (t : Scalar) (s : List ℕ)
    → 0 < scalar_size t
    → ((from_string s ≡ t) ↔ (s ≡ to_string t))
      × ((from_string s ≡ unknown) ⊎ (0 < scalar_size (from_string s)))
from_string-to_string t s h = (
  (
    λ e. sym (named s (λ z. sized_known t h (sym e ∙ z))) ∙ ap to_string e,
    λ e. ap from_string e ∙ numeric t h,
  ),
  sized_or_unknown (from_string s) s refl,
)
