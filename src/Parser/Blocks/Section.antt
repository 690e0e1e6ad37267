-- ===== src/Parser/Blocks/Section.antt =====
-- A whole section of blocks, without a block index: what the steps of the parser make of it.
use libasdf.Prelude.{ℕ, ◌+◌, ◌^◌, ◌≤◌, ◌<◌, ◌≡◌, refl, sym, ap, ap₂, ◌∙◌}
use libasdf.Prelude.{false, none, some, arith}
use libasdf.Prelude.{List, [], ◌∷◌, ◌++◌, length, All}
use libasdf.Prelude.{leb}
use libasdf.Prelude.{◌>>=◌}
use mathlib.Core.Path.{subst}
use mathlib.Core.List.{append_assoc, append-nil}
use native.Mathlib.Nat.{add-zero}
use libasdf.Prelude.{lt→leb}
use libasdf.Stream.{Stream, size, rest, mem_peek, mem_next, mem_scan, scan_tokens}
use libasdf.Stream.Valid.{IsValid, length-rest, mem_scan-none}
use libasdf.Stream.Captured.{mem_consume-plain}
use libasdf.Token.{block_magic, is_block_magic, scan_for}
use libasdf.Block.{BlockInfo}
use libasdf.Parser.{Parser, State, parse_continue, parse_event, block_event}
use libasdf.Parser.Tree.Scan.{at}
use libasdf.Parser.Blocks.{ptrdiff_max, parse_new_block, scan_for_block, parse_block}
use libasdf.Parser.Blocks.Found.{
  Piece, IsPiece, piece_bytes, info_at, IsReady, parse_block-piece, indexed_block-none,
}

abbrev pub section_bytes : List Piece → List ℕ
section_bytes [] = []
section_bytes (x ∷ xs) = piece_bytes x ++ section_bytes xs

-- The block infos of blocks that follow each other from `off` on, numbered from `index`.
abbrev pub infos_at : ℕ → ℕ → List Piece → List BlockInfo
infos_at off index [] = []
infos_at off index (x ∷ xs) =
    info_at off index x ∷ infos_at (off + length (piece_bytes x)) (index + 1) xs

next_nothing : (s : Stream) → size s ≤ s.offset → mem_next s ≡ some (none, s)
unfolding mem_next
next_nothing s l = ground (arith, l)

peek_nothing : (s : Stream) → IsValid s → size s ≤ s.offset → mem_peek s ≡ some (none, s)
unfolding mem_peek
peek_nothing s v l =
    rw (next_nothing s l, ◌>>=◌)
      (rw (mem_consume-plain s 0 v.plain (omega (arith, v.within, v.small)), ◌>>=◌)
        (ap (λ k. some (none, record s { offset = k })) (add-zero s.offset)))

scan_nothing :
    (p : Parser)
    → IsValid p.stream
    → rest p.stream ≡ []
    → scan_for_block p ≡ some (false, at (size p.stream) p)
unfolding scan_for_block scan_for
scan_nothing p v e =
    let failed : mem_scan (block_magic ∷ []) p.stream
        ≡ some (none, record (p.stream) { offset = size p.stream }) =
      mem_scan-none (block_magic ∷ []) v (rw e (unfold scan_tokens in refl)) in
    rw (failed, ◌>>=◌) refl

parse_new_block-end :
    (p : Parser)
    → IsValid p.stream
    → rest p.stream ≡ []
    → parse_new_block p ≡ some (none, at (size p.stream) p)
unfolding parse_new_block is_block_magic
parse_new_block-end p v e =
    let l : size p.stream ≤ p.stream.offset = omega (arith, ap length e, length-rest p.stream) in
    rw (peek_nothing p.stream v l, ◌>>=◌) (rw (scan_nothing p v e, ◌>>=◌) refl)

module _ (grown : ℕ → ℕ → ℕ) where
  -- `Reads p is q`: the steps from `p` to `q` produce the events of the blocks `is`.
  pub data Reads : Parser → List BlockInfo → Parser → Type 0 where
    done : (p : Parser) → Reads p [] p
    block :
        {p q r : Parser} {i : BlockInfo} {is : List BlockInfo}
        → parse_block grown p ≡ some (parse_event (block_event i), q)
        → Reads q is r
        → Reads p (i ∷ is) r

  -- At the end of the input, no block is found, and the parser goes to its end state.
  pub parse_block-end :
      (p : Parser)
      → IsReady p
      → p.blocks.found < 2 ^ 32
      → rest p.stream ≡ []
      → parse_block grown p
        ≡ some (
          parse_continue,
          record (at (size p.stream) p) {
            state = State.end;
            blocks = record (p.blocks) { index_cap = length p.blocks.index };
          },
        )
  unfolding parse_block
  parse_block-end p r few e =
      let limit : leb ptrdiff_max p.blocks.found ≡ false =
        lt→leb ptrdiff_max p.blocks.found (omega (arith, few)) in
      rw limit (
        rw (indexed_block-none p p.blocks.found r.no_index, ◌>>=◌)
          (rw (parse_new_block-end p r.clean.valid e, ◌>>=◌) refl))

module _ (grown : ℕ → ℕ → ℕ) (grown_exact : (c n : ℕ) → c < n → grown c n ≡ n) where
  -- If all that is left of the input is a row of blocks, none of them streamed and all within the
  -- format's sizes, and there is no block index, a parser without an error or a capture produces
  -- the event of each block, in their order, numbered on from the blocks before, and then goes to
  -- its end state. It has then collected the infos of them all. The blocks are fewer than 2 ^ 32,
  -- and a vector that grows has exactly the room asked for.
  pub parse_block-section :
      (xs : List Piece) (p : Parser)
      → IsReady p
      → All IsPiece xs
      → p.blocks.found + length xs < 2 ^ 32
      → rest p.stream ≡ section_bytes xs
      → (q : Parser) × (r : Parser) × Reads grown p (infos_at p.stream.offset p.blocks.found xs) q
        × (parse_block grown q ≡ some (parse_continue, r))
        × (r.state ≡ State.end)
        × (r.blocks.infos ≡ p.blocks.infos ++ infos_at p.stream.offset p.blocks.found xs)
        × (r.blocks.found ≡ p.blocks.found + length xs)
  parse_block-section [] p r h few e = (
    p,
    _,
    done p,
    parse_block-end grown p r (omega (arith, few)) e,
    refl,
    sym (append-nil p.blocks.infos),
    sym (add-zero p.blocks.found),
  )
  parse_block-section (x ∷ xs) p r (v, h) few e =
      let off : ℕ = p.stream.offset in
      let (b, (step, r', left, infos, found, entry)) =
        parse_block-piece grown grown_exact p x (section_bytes xs) r (omega (arith, few)) v e in
      let p' : Parser = record (at (off + length (piece_bytes x)) p) { blocks = b } in
      let (q, z, reads, last, state, infos', found') =
        parse_block-section xs p' r' h (omega (arith, few, found)) left in
      let renumber : infos_at (off + length (piece_bytes x)) b.found xs
          ≡ infos_at (off + length (piece_bytes x)) (p.blocks.found + 1) xs =
        ap (λ k. infos_at (off + length (piece_bytes x)) k xs) found in
      (
        q,
        z,
        block step (subst (λ is. Reads grown p' is q) renumber reads),
        last,
        state,
        infos' ∙ ap₂ (λ a c. a ++ c) infos renumber ∙ append_assoc p.blocks.infos _ _,
        omega (arith, found, found'),
      )
