-- ===== src/Parser/Tree/Scan.antt =====
-- The search for the end of the tree: where it ends, and when it does not.
use libasdf.Prelude.{ℕ, zero, suc, ◌+◌, ◌≤◌, ◌<◌, ◌≡◌, refl, sym, ap, ap₂, ◌∙◌}
use libasdf.Prelude.{◌≢◌, true, false, none, some, arith}
use libasdf.Prelude.{List, [], ◌∷◌, ◌++◌, length, get_elem?, drop, All}
use libasdf.Prelude.{length-drop, drop-drop}
use libasdf.Prelude.{◌>>=◌}
use native.Mathlib.Nat.{add-zero}
use libasdf.Prelude.Int.{to_off}
use libasdf.Stream.{Stream, rest, scan_tokens, mem_next, mem_readline, mem_tell}
use libasdf.Stream.Tokens.{scan_tokens_sound, scan_tokens_first}
use libasdf.Stream.Valid.{IsValid, mem_scan-some, mem_readline_moves, rest-moved, length-rest}
use libasdf.Stream.Captured.{mem_consume-plain}
use libasdf.Token.{document_end_tok, block_magic_tok, document_end_marker, block_magic, scan_for}
use libasdf.Token.{is_yaml_document_end_marker}
use libasdf.Parser.{Parser, has_error}
use libasdf.Parser.Tree.{fast_loop, note_end, parse_tree_fast, consume_marker, end_at, fast_running}

-- The tokens that may end the tree.
abbrev pub end_tokens : List (List ℕ)
end_tokens = document_end_marker ∷ block_magic ∷ []

abbrev pub at : ℕ → Parser → Parser
at n p = record p { stream = record (p.stream) { offset = n } }

-- One round of the loop, on a token that is found.
scan_for_end :
    (p : Parser) (o i : ℕ)
    → IsValid p.stream
    → scan_tokens (rest p.stream) end_tokens ≡ some (o, i)
    → scan_for (document_end_tok ∷ block_magic_tok ∷ []) p.stream
      ≡ some (
        get_elem? (document_end_tok ∷ block_magic_tok ∷ []) i,
        record (p.stream) { offset = p.stream.offset + o },
      )
unfolding scan_for
scan_for_end p o i v e = rw (mem_scan-some end_tokens o i v e, ◌>>=◌)

rest-at : (p : Parser) (o : ℕ) → rest (at (p.stream.offset + o) p).stream ≡ drop o (rest p.stream)
rest-at p o = sym (rest-moved p.stream o)

pub at-IsValid :
    (p : Parser) (o : ℕ)
    → IsValid p.stream
    → o ≤ length (rest p.stream)
    → IsValid (at (p.stream.offset + o) p).stream
at-IsValid p o v l = record {
  within = omega (arith, v.within, length-rest p.stream);
  small = v.small;
  plain = v.plain;
}

pub next-at : (s : Stream) → IsValid s → 1 ≤ length (rest s) → mem_next s ≡ some (some (rest s), s)
unfolding mem_next
next-at s v l = ground (arith, length-rest s, v.within)

found_inside : (bs : List ℕ) (o i : ℕ) → scan_tokens bs end_tokens ≡ some (o, i) → o < length bs
found_inside bs o i e = (scan_tokens_sound bs end_tokens o i e).0

-- A round that finds an end marker with no line ending behind it only moves to the marker.
fast_loop_again :
    (p : Parser) (o f : ℕ)
    → IsValid p.stream
    → scan_tokens (rest p.stream) end_tokens ≡ some (o, 0)
    → is_yaml_document_end_marker (drop o (rest p.stream)) ≡ false
    → fast_loop (suc f) p ≡ fast_loop f (at (p.stream.offset + o) p)
unfolding fast_loop
fast_loop_again p o f v e n =
    let inside : o < length (rest p.stream) = found_inside (rest p.stream) o 0 e in
    let here : 1 ≤ length (rest (at (p.stream.offset + o) p).stream) =
      omega (arith, ap length (rest-at p o), length-drop o (rest p.stream)) in
    rw (scan_for_end p o 0 v e, ◌>>=◌)
      (rw (next-at (at (p.stream.offset + o) p).stream (at-IsValid p o v (omega arith)) here, ◌>>=◌)
        (rw (rest-at p o, n) refl))

-- The marker found stands at the front of what is left.
found_again :
    (bs : List ℕ) (o i : ℕ)
    → scan_tokens bs end_tokens ≡ some (o, i)
    → scan_tokens (drop o bs) end_tokens ≡ some (0, i)
found_again bs o i e =
    let (l, t, r, g, d) = scan_tokens_sound bs end_tokens o i e in
    let (o', i', m, le) =
      scan_tokens_first (drop o bs) end_tokens 0 i t r g d (omega (arith, length-drop o bs)) in
    let at_zero : o' ≡ 0 = ground (arith, le) in
    let (l', t', r', g', d') = scan_tokens_sound (drop o bs) end_tokens o' i' m in
    let (o2, i2, m2, le2) =
      scan_tokens_first bs end_tokens o i' t' r' g'
        (ap (λ k. drop k (drop o bs)) (sym at_zero) ∙ d') l in
    let same : some (o2, i2) ≡ some (o, i) = sym m2 ∙ e in
    let found_it : i' ≡ i = ground (arith, le, le2, same) in
    m ∙ ap₂ (λ a b. some (a, b)) at_zero found_it

fast_loop_stuck :
    (f : ℕ) (p : Parser)
    → IsValid p.stream
    → scan_tokens (rest p.stream) end_tokens ≡ some (0, 0)
    → is_yaml_document_end_marker (rest p.stream) ≡ false
    → fast_loop f p ≡ some (fast_running, p)
fast_loop_stuck zero p v e n = unfold fast_loop in refl
fast_loop_stuck (suc f) p v e n =
    fast_loop_again p 0 f v e n
    ∙ ap (λ k. fast_loop f (at k p)) (add-zero p.stream.offset)
    ∙ fast_loop_stuck f p v e n

-- If the first token found on a valid stream without a capture is an end marker that no line ending
-- follows, the search never ends: however many rounds it is given, it is still at that marker.
pub parse_tree_fast_stuck :
    (p : Parser) (o fuel : ℕ)
    → IsValid p.stream
    → scan_tokens (rest p.stream) end_tokens ≡ some (o, 0)
    → is_yaml_document_end_marker (drop o (rest p.stream)) ≡ false
    → parse_tree_fast (suc fuel) p ≡ some (none, at (p.stream.offset + o) p)
unfolding parse_tree_fast note_end
parse_tree_fast_stuck p o fuel v e n =
    let q : Parser = at (p.stream.offset + o) p in
    let first : scan_tokens (rest q.stream) end_tokens ≡ some (0, 0) =
      ap (λ bs. scan_tokens bs end_tokens) (rest-at p o) ∙ found_again (rest p.stream) o 0 e in
    let inside : o < length (rest p.stream) = found_inside (rest p.stream) o 0 e in
    rw
      (
        fast_loop_again p o fuel v e n
            ∙ fast_loop_stuck fuel q (at-IsValid p o v (omega arith)) first
                (ap is_yaml_document_end_marker (rest-at p o) ∙ n),
        ◌>>=◌,
      )
      refl

consume_marker_lem :
    (q : Parser) (line more : List ℕ)
    → IsValid q.stream
    → q.stream.error ≡ none
    → drop 1 (rest q.stream) ≡ line ++ (b'\n' ∷ more)
    → All (λ b. b ≢ b'\n') line
    → 1 ≤ length (rest q.stream)
    → let n : ℕ = q.stream.offset + 1 + (length line + 1) in
      consume_marker q ≡ some (end_at (to_off n), at n q)
unfolding consume_marker mem_tell
consume_marker_lem q line more v c d h l =
    let v' : IsValid (at (q.stream.offset + 1) q).stream = at-IsValid q 1 v l in
    let r : mem_readline (at (q.stream.offset + 1) q).stream ≡ _ =
      (mem_readline_moves line more v' (rest-at q 1 ∙ d) h).0 in
    let ok : has_error (at (q.stream.offset + 1) q) ≡ false = rw c refl in
    rw (mem_consume-plain q.stream 1 v.plain (omega (arith, v.small, v'.within)), ◌>>=◌)
      (rw ok (rw (r, ◌>>=◌) refl))

-- If the first token found is an end marker with a line ending behind it, the tree ends after that
-- line, and the parser, which has no error and no capture, stands there. One round is enough.
pub parse_tree_fast_marker :
    (p : Parser) (o fuel : ℕ) (line more : List ℕ)
    → IsValid p.stream
    → p.stream.error ≡ none
    → scan_tokens (rest p.stream) end_tokens ≡ some (o, 0)
    → is_yaml_document_end_marker (drop o (rest p.stream)) ≡ true
    → drop (o + 1) (rest p.stream) ≡ line ++ (b'\n' ∷ more)
    → All (λ b. b ≢ b'\n') line
    → let n : ℕ = p.stream.offset + o + 1 + (length line + 1) in
      parse_tree_fast (suc fuel) p
      ≡ some
          (some true, at n (record p { tree = record (p.tree) { end = to_off n; found = true } }))
unfolding parse_tree_fast fast_loop note_end
parse_tree_fast_marker p o fuel line more v c e y d h =
    let q : Parser = at (p.stream.offset + o) p in
    let inside : o < length (rest p.stream) = found_inside (rest p.stream) o 0 e in
    let v' : IsValid q.stream = at-IsValid p o v (omega arith) in
    let here : 1 ≤ length (rest q.stream) =
      omega (arith, ap length (rest-at p o), length-drop o (rest p.stream)) in
    let d' : drop 1 (rest q.stream) ≡ line ++ (b'\n' ∷ more) =
      ap (drop 1) (rest-at p o) ∙ drop-drop 1 o (rest p.stream) ∙ d in
    rw (scan_for_end p o 0 v e, ◌>>=◌)
      (rw (next-at q.stream v' here, ◌>>=◌)
        (rw (rest-at p o, y) (rw (consume_marker_lem q line more v' c d' h here) refl)))
