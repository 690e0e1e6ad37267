-- ===== src/Parser/Blocks/Refused.antt =====
-- A block header that is refused: no block after it is found.
use libasdf.Prelude.{ℕ, zero, suc, ◌+◌, ◌≡◌, refl, sym}
use libasdf.Prelude.{inl, inr, Bool, true, false, Option, none, some, arith}
use libasdf.Prelude.{List, [], ◌∷◌, get_elem?}
use libasdf.Prelude.{if◌then◌else◌, Option-cases}
use libasdf.Prelude.{pure, ◌>>=◌}
use libasdf.Stream.{Stream, size, rest, mem_scan, scan_tokens}
use libasdf.Stream.Tokens.{scan_tokens_sound}
use libasdf.Stream.Valid.{IsValid, mem_scan-none, mem_scan-some}
use libasdf.Token.{block_magic, is_block_magic, scan_for, block_magic_tok}
use libasdf.Block.{BlockInfo}
use libasdf.Block.Read.{info_read}
use libasdf.Block.Read.Sticky.{info_read_again}
use libasdf.Parser.{Parser}
use libasdf.Parser.Header.Comments.{peek-some}
use libasdf.Parser.Blocks.{empty_info, parse_new_block, push_block, scan_for_block}

on : Stream → Parser → Parser
on s p = record p { stream = s }

-- The scan for the next block, whether it finds one or not.
scan_any :
    (p : Parser) (s : Stream)
    → IsValid s
    → (found : Bool) × (o : ℕ) × (scan_for_block (on s p)
        ≡ some (found, on (record s { offset = o }) p))
unfolding scan_for_block scan_for on
scan_any p s v = elim (Option-cases (scan_tokens (rest s) (block_magic ∷ []))) [
  | inl e ↦
      let m : mem_scan (block_magic ∷ []) s ≡ _ = mem_scan-none (block_magic ∷ []) v e in
      (false, size s, rw (m, ◌>>=◌) refl)
  | inr ((o, i), e) ↦
      let m : mem_scan (block_magic ∷ []) s ≡ _ = mem_scan-some (block_magic ∷ []) o i v e in
      let (l, t, more, g, d) = scan_tokens_sound (rest s) (block_magic ∷ []) o i e in
      (true, s.offset + o, rw (m, ◌>>=◌) (only i g))
]
  where
    only :
        (i : ℕ) {t : List ℕ} {q : Parser}
        → get_elem? (block_magic ∷ []) i ≡ some t
        → ◌≡◌ {A = Option (Bool × Parser)}
            (some (elim (get_elem? (block_magic_tok ∷ []) i) [ none ↦ false | some t ↦ true ], q))
            (some (true, q))
    only zero g = refl
    only (suc i) g = absurd (grind (arith, g))

push_refused :
    (p : Parser) (s t : Stream) (info left : BlockInfo)
    → info_read info s ≡ some ((false, left), t)
    → push_block info (on s p) ≡ some ((false, left), on t p)
unfolding push_block on
push_refused p s t info left e = rw (e, ◌>>=◌) refl

finish :
    (found : Bool) (q z : Parser) (left : BlockInfo)
    → push_block left q ≡ some ((false, left), z)
    → q.blocks ≡ z.blocks
    → (r : Parser) × ((if found
            then (do second ← push_block left; pure (if second.0 then some second.1 else none))
            else pure none)
          q
        ≡ some (none, r))
      × (r.blocks ≡ q.blocks)
finish false q z left e same = (q, refl, refl)
finish true q z left e same = (z, rw (e, ◌>>=◌) refl, sym same)

-- If the parser stands at a block magic and the header behind it is refused, with the stream valid
-- before and after that, `parse_new_block` finds no block at all, whatever blocks follow.
pub parse_new_block_refused :
    (p : Parser) {left : BlockInfo} {t : Stream} {b : ℕ} {bs : List ℕ}
    → IsValid p.stream
    → rest p.stream ≡ b ∷ bs
    → is_block_magic (b ∷ bs) ≡ true
    → info_read (empty_info p.blocks.found) p.stream ≡ some ((false, left), t)
    → IsValid t
    → (q : Parser) × (parse_new_block p ≡ some (none, q)) × (q.blocks ≡ p.blocks)
unfolding parse_new_block on
parse_new_block_refused p {left} {t} v e m h v' =
    let first : push_block (empty_info p.blocks.found) p ≡ some ((false, left), on t p) =
      push_refused p p.stream t (empty_info p.blocks.found) left h in
    let (found, o, scan) = scan_any p t v' in
    let (u, again) = info_read_again (empty_info p.blocks.found) left o p.stream t v.plain h in
    let second : push_block left (on (record t { offset = o }) p) ≡ some ((false, left), on u p) =
      push_refused p (record t { offset = o }) u left left again in
    let (r, stop, same) = finish found (on (record t { offset = o }) p) (on u p) left second refl in
    (r, rw (peek-some p.stream v e, ◌>>=◌) (rw m (rw (first, ◌>>=◌) (rw (scan, ◌>>=◌) stop))), same)
