-- ===== src/Token/Line.antt =====
-- A token is accepted exactly if a line ending follows it.
use libasdf.Prelude.{ℕ, zero, suc, ◌+◌, ◌≤◌, ◌≡◌, refl, ap, ap₂, ◌∙◌}
use libasdf.Prelude.{◌≢◌, ◌⊎◌, inl, inr, true, arith}
use libasdf.Prelude.{List, [], ◌∷◌, ◌++◌, length, get_or}
use libasdf.Prelude.{length-append}
use libasdf.Prelude.Bytes.{starts_with}
use libasdf.Stream.Tokens.{starts_with-append, starts_with_rest}
use libasdf.Token.{char_at, is_string_with_newline}

-- The text begins with one of the two line endings, and `more` follows it.
abbrev pub LineEnd : List ℕ → List ℕ → Type 0
LineEnd more end = (end ≡ b'\n' ∷ more) ⊎ (end ≡ b'\r' ∷ b'\n' ∷ more)

get_or-append : (t r : List ℕ) (n i : ℕ) → n ≡ length t + i → get_or (t ++ r) n 0 ≡ get_or r i 0
get_or-append [] r n i e = ap (λ k. get_or r k 0) (omega arith)
get_or-append (c ∷ t) r zero i e = absurd (omega arith)
get_or-append (c ∷ t) r (suc n) i e = get_or-append t r n i (omega arith)

-- `is_string_with_newline` accepts a non-empty string that stands at the front of the buffer
-- and has either line ending behind it.
pub is_string_with_newline_complete :
    (str end more : List ℕ)
    → str ≢ []
    → LineEnd more end
    → is_string_with_newline (str ++ end) str ≡ true
unfolding is_string_with_newline
is_string_with_newline_complete [] end more ne e = absurd (ne refl)
is_string_with_newline_complete (c ∷ str) end more ne (inl e) = ground (
  arith,
  e,
  length-append (c ∷ str) end,
  starts_with-append (c ∷ str) end,
  get_or-append (c ∷ str) end (length (c ∷ str)) 0 (omega arith),
)
is_string_with_newline_complete (c ∷ str) end more ne (inr e) = ground (
  arith,
  e,
  length-append (c ∷ str) end,
  starts_with-append (c ∷ str) end,
  get_or-append (c ∷ str) end (length (c ∷ str)) 0 (omega arith),
  get_or-append (c ∷ str) end (length (c ∷ str) + 1) 1 (omega arith),
)

line_end :
    (end : List ℕ)
    → 1 ≤ length end
    → ((get_or end 0 0 ≡ b'\n')
        ⊎ ((get_or end 0 0 ≡ b'\r') × (2 ≤ length end) × (get_or end 1 0 ≡ b'\n')))
    → (more : List ℕ) × LineEnd more end
line_end [] l h = absurd (omega arith)
line_end (c ∷ cs) l (inl h) = (cs, inl (ap (λ d. d ∷ cs) h))
line_end (c ∷ []) l (inr h) = absurd (omega (arith, h.1))
line_end (c ∷ d ∷ cs) l (inr h) = (cs, inr (ap₂ (λ a b. a ∷ b ∷ cs) h.0 h.2))

-- Whatever `is_string_with_newline` accepts begins with the string and a line ending.
pub is_string_with_newline_sound :
    (buf str : List ℕ)
    → is_string_with_newline buf str ≡ true
    → (end : List ℕ) × (more : List ℕ) × (buf ≡ str ++ end) × LineEnd more end
unfolding is_string_with_newline
is_string_with_newline_sound buf str h =
    let front : starts_with str buf ≡ true = ground arith in
    let (end, e) = starts_with_rest str buf front in
    let total : length buf ≡ length str + length end =
      omega (arith, ap length e, length-append str end) in
    let first : char_at buf (length str) ≡ get_or end 0 0 =
      ap (λ b. char_at b (length str)) e ∙ get_or-append str end (length str) 0 (omega arith) in
    let second : char_at buf (length str + 1) ≡ get_or end 1 0 =
      ap (λ b. char_at b (length str + 1)) e
      ∙ get_or-append str end (length str + 1) 1 (omega arith) in
    let (more, l) = line_end end (ground (arith, total)) (ground (arith, total, first, second)) in
    (end, more, e, l)
