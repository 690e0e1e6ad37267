-- ===== src/Stream/Tokens.antt =====
-- `asdf_scan_tokens` finds the first place at which a token stands, and the first such token.
use libasdf.Prelude.{ℕ, zero, suc, ◌+◌, ◌≤◌, ◌<◌, ◌≡◌, refl, ap, ◌∙◌}
use libasdf.Prelude.{◌⊎◌, inl, inr, true, ◌&&◌, some, arith}
use libasdf.Prelude.{List, [], ◌∷◌, ◌++◌, length, get_elem?, drop}
use libasdf.Prelude.{leb, Bool-cases, Option-cases}
use libasdf.Prelude.{length-append}
use libasdf.Prelude.Bytes.{starts_with}
use libasdf.Stream.{match_token, scan_from, scan_tokens}

pub starts_with-append : (t r : List ℕ) → starts_with t (t ++ r) ≡ true
unfolding starts_with
starts_with-append [] r = refl
starts_with-append (c ∷ t) r = ground (arith, starts_with-append t r)

pub starts_with_rest : (t bs : List ℕ) → starts_with t bs ≡ true → (r : List ℕ) × (bs ≡ t ++ r)
unfolding starts_with
starts_with_rest [] bs h = (bs, refl)
starts_with_rest (c ∷ t) [] h = cc
starts_with_rest (c ∷ t) (b ∷ bs) h =
    let (r, e) = starts_with_rest t bs (ground arith) in (r, ground (arith, e))

module _ (bs : List ℕ) where
  match_token_found :
      (ts : List (List ℕ)) (k i : ℕ)
      → match_token ts k bs ≡ some i
      → (j : ℕ) × (t : List ℕ) × (r : List ℕ) × (i ≡ k + j)
        × (get_elem? ts j ≡ some t)
        × (bs ≡ t ++ r)
  unfolding match_token
  match_token_found [] k i h = cc
  match_token_found (t ∷ ts) k i h =
      elim (Bool-cases (leb (length t) (length bs) && starts_with t bs)) [
        | inl y ↦
            let (r, e) = starts_with_rest t bs (ground arith) in (0, t, r, ground arith, refl, e)
        | inr n ↦
            let (j, u, r, a, b, c) = match_token_found ts (k + 1) i (rw n at h) in
            (suc j, u, r, omega arith, b, c)
      ]

  match_token_first :
      (ts : List (List ℕ)) (k j : ℕ) (t r : List ℕ)
      → get_elem? ts j ≡ some t
      → bs ≡ t ++ r
      → (i : ℕ) × (match_token ts k bs ≡ some i) × (i ≤ k + j)
  unfolding match_token
  match_token_first [] k j t r g e = cc
  match_token_first (u ∷ ts) k zero t r g e = (k, ground (arith, fits), omega arith)
    where
      fits : leb (length u) (length bs) && starts_with u bs ≡ true
      fits = ground (arith, length-append t r, starts_with-append t r)
  match_token_first (u ∷ ts) k (suc j) t r g e =
      let (i, m, l) = match_token_first ts (k + 1) j t r g e in
      elim (Bool-cases (leb (length u) (length bs) && starts_with u bs)) [
        | inl y ↦ (k, ground (arith, y), omega arith)
        | inr n ↦ (i, ground (arith, n, m), omega arith)
      ]

module _ (tokens : List (List ℕ)) where
  scan_from_found :
      (buf : List ℕ) (idx o i : ℕ)
      → scan_from tokens idx buf ≡ some (o, i)
      → (p : ℕ) × (t : List ℕ) × (r : List ℕ) × (o ≡ idx + p)
        × (p < length buf)
        × (get_elem? tokens i ≡ some t)
        × (drop p buf ≡ t ++ r)
  unfolding scan_from
  scan_from_found [] idx o i h = cc
  scan_from_found (b ∷ bs) idx o i h = elim (Option-cases (match_token tokens 0 (b ∷ bs))) [
    | inl n ↦
        let (p, t, r, a, l, c, d) = scan_from_found bs (idx + 1) o i (ground (arith, n)) in
        (suc p, t, r, omega arith, omega arith, c, d)
    | inr (k, m) ↦
        let (j, t, r, a, c, d) = match_token_found (b ∷ bs) tokens 0 k m in
        (0, t, r, ground (arith, m), omega arith, ground (arith, m, a, c), d)
  ]

  scan_from_first :
      (buf : List ℕ) (idx p j : ℕ) (t r : List ℕ)
      → get_elem? tokens j ≡ some t
      → drop p buf ≡ t ++ r
      → p < length buf
      → (o : ℕ) × (i : ℕ) × (scan_from tokens idx buf ≡ some (o, i))
        × ((o < idx + p) ⊎ ((o ≡ idx + p) × (i ≤ j)))
  unfolding scan_from
  scan_from_first [] idx p j t r g e l = absurd (omega arith)
  scan_from_first (b ∷ bs) idx zero j t r g e l =
      let (i, m, le) = match_token_first (b ∷ bs) tokens 0 j t r g e in
      (idx, i, ground (arith, m), inr (omega arith, omega arith))
  scan_from_first (b ∷ bs) idx (suc p) j t r g e l =
      let (o, i, m, le) = scan_from_first bs (idx + 1) p j t r g e (omega arith) in
      elim (Option-cases (match_token tokens 0 (b ∷ bs))) [
        | inl n ↦ (o, i, ground (arith, n, m), ground arith)
        | inr (k, x) ↦ (idx, k, ground (arith, x), inl (omega arith))
      ]

-- A result of `asdf_scan_tokens` is an offset inside the buffer and a token that stands there.
pub scan_tokens_sound :
    (buf : List ℕ) (tokens : List (List ℕ)) (o i : ℕ)
    → scan_tokens buf tokens ≡ some (o, i)
    → (o < length buf)
      × (t : List ℕ) × (r : List ℕ) × (get_elem? tokens i ≡ some t)
      × (drop o buf ≡ t ++ r)
unfolding scan_tokens
scan_tokens_sound buf tokens o i h =
    let (p, t, r, a, l, c, d) = scan_from_found tokens buf 0 o i h in
    (omega arith, t, r, c, ap (λ k. drop k buf) (omega arith) ∙ d)

-- If some token stands at an offset inside the buffer, `asdf_scan_tokens` succeeds, and its result
-- comes no later: at a smaller offset, or at the same one with this token or one listed before it.
pub scan_tokens_first :
    (buf : List ℕ) (tokens : List (List ℕ)) (p j : ℕ) (t r : List ℕ)
    → get_elem? tokens j ≡ some t
    → drop p buf ≡ t ++ r
    → p < length buf
    → (o : ℕ) × (i : ℕ) × (scan_tokens buf tokens ≡ some (o, i)) × ((o < p) ⊎ ((o ≡ p) × (i ≤ j)))
unfolding scan_tokens
scan_tokens_first buf tokens p j t r g e l =
    let (o, i, m, le) = scan_from_first tokens buf 0 p j t r g e l in (o, i, m, ground arith)
