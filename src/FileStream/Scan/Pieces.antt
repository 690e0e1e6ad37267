-- ===== src/FileStream/Scan/Pieces.antt =====
-- Scanning for tokens of one length in pieces, each with the last bytes of the one before.
use libasdf.Prelude.{ℕ, zero, suc, ◌+◌, ◌≤◌, ◌<◌, ◌≡◌, refl, sym, ap, ◌∙◌}
use libasdf.Prelude.{◌⊎◌, inl, inr, ◌&&◌, none, some, arith}
use libasdf.Prelude.{List, [], ◌∷◌, ◌++◌, length, drop, All}
use libasdf.Prelude.{ltb, ◌==◌, Bool-cases, Option-cases}
use libasdf.Prelude.{length-append}
use libasdf.Prelude.{le→leb, lt→leb, ltb→lt}
use libasdf.Prelude.Bytes.{starts_with}
use mathlib.Core.Option
use libasdf.Stream.{match_token, scan_from}

-- All the tokens have `m` bytes.
abbrev pub SameLength : ℕ → List (List ℕ) → Type 0
SameLength m tokens = All (λ t. length t ≡ m) tokens

starts_with-append :
    (t w rest : List ℕ) → length t ≤ length w → starts_with t (w ++ rest) ≡ starts_with t w
unfolding starts_with
starts_with-append [] w rest h = refl
starts_with-append (x ∷ t) [] rest h = absurd (omega arith)
starts_with-append (x ∷ t) (b ∷ w) rest h =
    ap (λ k. b == x && k) (starts_with-append t w rest (omega arith))

match_token-append :
    (m : ℕ) (tokens : List (List ℕ)) (k : ℕ) (w rest : List ℕ)
    → SameLength m tokens
    → m ≤ length w
    → match_token tokens k (w ++ rest) ≡ match_token tokens k w
unfolding match_token
match_token-append m [] k w rest h l = refl
match_token-append m (t ∷ ts) k w rest (e, h) l =
    rw (le→leb (length t) (length (w ++ rest)) (omega (arith, length-append w rest))) (
      rw (le→leb (length t) (length w) (omega arith)) (
        rw (starts_with-append t w rest (omega arith))
          (rw (match_token-append m ts (k + 1) w rest h l) refl)))

match_token_short :
    (m : ℕ) (tokens : List (List ℕ)) (k : ℕ) (w : List ℕ)
    → SameLength m tokens
    → length w < m
    → match_token tokens k w ≡ none
unfolding match_token
match_token_short m [] k w h l = refl
match_token_short m (t ∷ ts) k w (e, h) l =
    rw (lt→leb (length t) (length w) (omega arith)) (match_token_short m ts (k + 1) w h l)

-- A text that is shorter than the tokens has none of them.
-- One place of the scan.
scan_from-none :
    (tokens : List (List ℕ)) (idx b : ℕ) (w : List ℕ)
    → match_token tokens 0 (b ∷ w) ≡ none
    → scan_from tokens idx (b ∷ w) ≡ scan_from tokens (idx + 1) w
unfolding scan_from
scan_from-none tokens idx b w e = rw (e, scan_from) refl

scan_from-some :
    (tokens : List (List ℕ)) (idx b k : ℕ) (w : List ℕ)
    → match_token tokens 0 (b ∷ w) ≡ some k
    → scan_from tokens idx (b ∷ w) ≡ some (idx, k)
unfolding scan_from
scan_from-some tokens idx b k w e = rw (e, scan_from) refl

pub scan_from_short :
    (m : ℕ) (tokens : List (List ℕ)) (idx : ℕ) (w : List ℕ)
    → SameLength m tokens
    → length w < m
    → scan_from tokens idx w ≡ none
unfolding scan_from
scan_from_short m tokens idx [] h l = refl
scan_from_short m tokens idx (b ∷ w) h l =
    scan_from-none tokens idx b w (match_token_short m tokens 0 (b ∷ w) h l)
    ∙ scan_from_short m tokens (idx + 1) w h (omega arith)

-- What is found in the first piece is found in the whole.
pub scan_from-append_found :
    (m : ℕ) (tokens : List (List ℕ)) (idx : ℕ) (w rest : List ℕ) {r : ℕ × ℕ}
    → SameLength m tokens
    → scan_from tokens idx w ≡ some r
    → scan_from tokens idx (w ++ rest) ≡ some r
unfolding scan_from
scan_from-append_found m tokens idx [] rest h e = cc
scan_from-append_found m tokens idx (b ∷ w) rest {r = r} h e =
    elim (Bool-cases (ltb (length (b ∷ w)) m)) [
      | inl y ↦
          let none_there = scan_from_short m tokens idx (b ∷ w) h (ltb→lt (length (b ∷ w)) m y) in
          cc
      | inr n ↦
          let same = match_token-append m tokens 0 (b ∷ w) rest h (ground (arith, n)) in
          elim (Option-cases (match_token tokens 0 (b ∷ w))) [
            | inl z ↦
                scan_from-none tokens idx b (w ++ rest) (same ∙ z)
                ∙ scan_from-append_found m tokens (idx + 1) w rest h
                    (sym (scan_from-none tokens idx b w z) ∙ e)
            | inr (k, z) ↦
                scan_from-some tokens idx b k (w ++ rest) (same ∙ z)
                ∙ sym (scan_from-some tokens idx b k w z)
                ∙ e
          ]
    ]

-- Where nothing is found in the first piece, the scan of the whole begins anew at any place before
-- the last bytes of it, of which there are fewer than a token has.
pub scan_from-append_none :
    (m : ℕ) (tokens : List (List ℕ)) (idx k : ℕ) (w rest : List ℕ)
    → SameLength m tokens
    → scan_from tokens idx w ≡ none
    → 0 < m
    → (k ≡ 0) ⊎ (k + m ≤ length w + 1)
    → scan_from tokens idx (w ++ rest) ≡ scan_from tokens (idx + k) (drop k w ++ rest)
scan_from-append_none m tokens idx zero w rest h e p l =
    ap (λ i. scan_from tokens i (w ++ rest)) (plus_zero idx)
  where
    plus_zero : (n : ℕ) → n ≡ n + 0
    plus_zero n = omega arith
scan_from-append_none m tokens idx (suc k) [] rest h e p l = absurd (ground (arith, l))
scan_from-append_none m tokens idx (suc k) (b ∷ w) rest h e p l =
    elim (Option-cases (match_token tokens 0 (b ∷ w))) [
      | inl z ↦
          let same = match_token-append m tokens 0 (b ∷ w) rest h (ground arith) in
          scan_from-none tokens idx b (w ++ rest) (same ∙ z)
          ∙ scan_from-append_none m tokens (idx + 1) k w rest h
              (sym (scan_from-none tokens idx b w z) ∙ e) p (inr (ground arith))
          ∙ ap (λ i. scan_from tokens i (drop k w ++ rest)) (suc_shift idx k)
      | inr (j, z) ↦ let found = scan_from-some tokens idx b j w z in absurd cc
    ]
  where
    suc_shift : (n k : ℕ) → n + 1 + k ≡ n + suc k
    suc_shift n k = omega arith

-- The place from which the bytes are counted.
pub scan_from_shift :
    (tokens : List (List ℕ)) (idx k : ℕ) (w : List ℕ)
    → scan_from tokens (k + idx) w ≡ Option.map (λ r. (k + r.0, r.1)) (scan_from tokens idx w)
unfolding scan_from
scan_from_shift tokens idx k [] = refl
scan_from_shift tokens idx k (b ∷ w) = elim (Option-cases (match_token tokens 0 (b ∷ w))) [
  | inl z ↦
      scan_from-none tokens (k + idx) b w z
      ∙ ap (λ i. scan_from tokens i w) (plus_assoc k idx)
      ∙ scan_from_shift tokens (idx + 1) k w
      ∙ ap (Option.map (λ r. (k + r.0, r.1))) (sym (scan_from-none tokens idx b w z))
  | inr (j, z) ↦
      scan_from-some tokens (k + idx) b j w z
      ∙ ap (Option.map (λ r. (k + r.0, r.1))) (sym (scan_from-some tokens idx b j w z))
]
  where
    plus_assoc : (k n : ℕ) → k + n + 1 ≡ k + (n + 1)
    plus_assoc k n = omega arith
