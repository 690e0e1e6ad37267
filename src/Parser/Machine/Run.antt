-- ===== src/Parser/Machine/Run.antt =====
-- Runs of the parser: a whole file, and its last states.
use libasdf.Prelude.{Bool, ℕ, suc, ◌+◌, ◌^◌, ◌<◌, ◌≡◌, refl, ap, ◌∙◌}
use libasdf.Prelude.{true, false, Option, some, arith}
use libasdf.Prelude.{List, [], ◌∷◌, ◌++◌, map, length, All}
use libasdf.Prelude.{M, ◌>>=◌}
use mathlib.Core.Path.{subst}
use libasdf.Prelude.Int.{ℤ}
use libasdf.Stream.{size, rest}
use libasdf.Token.{is_yaml_directive, is_block_magic}
use libasdf.Prelude.Bytes.{starts_with}
use libasdf.Block.Read.Clean.{IsClean}
use libasdf.Parser.{Parser, State, HasTree, Result, Event, parse_continue, parse_event}
use libasdf.Parser.{block_event, end_event}
use libasdf.Parser.Header.Comments.{peek-some}
use libasdf.Parser.Tree.Scan.{at}
use libasdf.Parser.Tree.{parse_tree_or_block}
use libasdf.Parser.Blocks.{parse_block}
use libasdf.Parser.Blocks.Found.{Piece, IsPiece, piece_bytes, info_at, IsReady, parse_block-piece}
use libasdf.Parser.Blocks.Section.{section_bytes, infos_at, parse_block-end}
use libasdf.Parser.Machine.{Parsed, event, null, dispatch, finish, parser_parse, after}

magic_no_directive : (tail : List ℕ) → is_yaml_directive (0xd3 ∷ tail) ≡ some false
unfolding is_yaml_directive starts_with
magic_no_directive tail = ground arith

module _ (grown : ℕ → ℕ → ℕ) (page_size : ℕ) (read_index : List ℕ → Option (List (Option ℤ)))
    (yaml_input : Parser → Bool) (parse_yaml : M Parser Result) (fuel : ℕ) where
  -- One call of `asdf_parser_parse`, with `n` rounds.
  abbrev pub call : ℕ → Parser → Option (Parsed × Parser)
  call n p = parser_parse grown page_size read_index yaml_input parse_yaml fuel n p

  -- `Calls p es q`: calls from `p` on give the events `es` and leave `q`, each within five rounds.
  pub data Calls : Parser → List Event → Parser → Type 0 where
    stop : (p : Parser) → Calls p [] p
    next :
        {p q r : Parser} {e : Event} {es : List Event}
        → parser_parse grown page_size read_index yaml_input parse_yaml fuel 5 p ≡ some (event e, q)
        → Calls q es r
        → Calls p (e ∷ es) r

  -- At the end of the file a call with at least one round gives the end event, and the call after
  -- it NULL. In the error state a call gives NULL.
  pub parser_parse-over :
      (p r : Parser) (n : ℕ)
      → p.state ≡ State.end
      → p.done ≡ false
      → r.state ≡ State.error
      → let q : Parser = record p { done = true } in
        (parser_parse grown page_size read_index yaml_input parse_yaml fuel (suc n) p
          ≡ some (event end_event, q))
        × (parser_parse grown page_size read_index yaml_input parse_yaml fuel (suc n) q
            ≡ some (null, q))
        × (parser_parse grown page_size read_index yaml_input parse_yaml fuel (suc n) r
            ≡ some (null, record r { done = true }))
  unfolding parser_parse finish
  parser_parse-over p r n e d er = (ground (arith, e, d), ground (arith, e), ground (arith, er))

  -- A round in a state, where the loop does not end by itself.
  abbrev round_of : ℕ → State → M Parser Parsed
  round_of n st = do
    res ← dispatch grown page_size read_index yaml_input parse_yaml fuel st
    after grown page_size read_index yaml_input parse_yaml fuel res
        (parser_parse grown page_size read_index yaml_input parse_yaml fuel n)

  abbrev pub IsOpen : State → Type 0
  IsOpen st =
      (m : M Parser Parsed) (p : Parser)
      → finish grown page_size read_index yaml_input parse_yaml fuel st m p ≡ m p

  one_round :
      (n : ℕ) (p : Parser) (st : State)
      → p.state ≡ st
      → IsOpen st
      → call (suc n) p ≡ round_of n st p
  unfolding parser_parse
  one_round n p st es runs =
      ap (λ s. finish grown page_size read_index yaml_input parse_yaml fuel s (round_of n s) p) es
      ∙ runs (round_of n st) p

  pub event-round :
      (n : ℕ) (p q : Parser) (st : State) (e : Event)
      → p.state ≡ st
      → IsOpen st
      → dispatch grown page_size read_index yaml_input parse_yaml fuel st p
        ≡ some (parse_event e, q)
      → call (suc n) p ≡ some (event e, q)
  unfolding after
  event-round n p q st e es runs step = one_round n p st es runs ∙ rw (step, ◌>>=◌) refl

  pub continue-round :
      (n : ℕ) (p q : Parser) (st : State)
      → p.state ≡ st
      → IsOpen st
      → dispatch grown page_size read_index yaml_input parse_yaml fuel st p
        ≡ some (parse_continue, q)
      → call (suc n) p ≡ call n q
  unfolding after
  continue-round n p q st es runs step = one_round n p st es runs ∙ rw (step, ◌>>=◌) refl

  -- The tree or the first block: a block magic sends the parser to the blocks.
  pub to_block :
      (p : Parser) (f : ℕ) {tail : List ℕ}
      → IsClean p.stream
      → rest p.stream ≡ 0xd3 ∷ tail
      → is_block_magic (0xd3 ∷ tail) ≡ true
      → parse_tree_or_block f p
        ≡ some (
          parse_continue,
          record p {
            state = State.block;
            tree = record (p.tree) { has_tree = HasTree.without_tree };
          },
        )
  unfolding parse_tree_or_block
  to_block p f {tail} c e m =
      rw (peek-some p.stream c.valid e, ◌>>=◌) (rw (magic_no_directive tail, m) refl)

module _ (grown : ℕ → ℕ → ℕ) (grown_exact : (c n : ℕ) → c < n → grown c n ≡ n) (page_size : ℕ)
    (read_index : List ℕ → Option (List (Option ℤ))) (yaml_input : Parser → Bool)
    (parse_yaml : M Parser Result) (fuel : ℕ) where
  -- A section of blocks, as the calls see it: the event of each block, and the end event.
  pub section-Calls :
      (xs : List Piece) (p : Parser)
      → p.state ≡ State.block
      → p.done ≡ false
      → IsReady p
      → All IsPiece xs
      → p.blocks.found + length xs < 2 ^ 32
      → rest p.stream ≡ section_bytes xs
      → (q : Parser) × Calls grown page_size read_index yaml_input parse_yaml fuel p
          (map block_event (infos_at p.stream.offset p.blocks.found xs) ++ (end_event ∷ []))
          q
        × (q.state ≡ State.end)
  unfolding dispatch finish
  section-Calls [] p st d r h few e =
      let last : parse_block grown p ≡ _ = parse_block-end grown p r (omega (arith, few)) e in
      let z : Parser = record (at (size p.stream) p) {
        state = State.end;
        blocks = record (p.blocks) { index_cap = length p.blocks.index };
      } in
      (
        _,
        next
            (continue-round grown page_size read_index yaml_input parse_yaml fuel 4 p z State.block
                st (λ m q. refl) last
              ∙ (parser_parse-over grown page_size read_index yaml_input parse_yaml fuel z
                  (record z { state = State.error }) 3 refl d refl).0)
            (stop _),
        refl,
      )
  section-Calls (x ∷ xs) p st d r (v, h) few e =
      let off : ℕ = p.stream.offset in
      let (b, (step, r', left, infos, found, entry)) =
        parse_block-piece grown grown_exact p x (section_bytes xs) r (omega (arith, few)) v e in
      let p' : Parser = record (at (off + length (piece_bytes x)) p) { blocks = b } in
      let (q, calls, state) = section-Calls xs p' st d r' h (omega (arith, few, found)) left in
      let renumber : (k : ℕ) → b.found ≡ k → _ = λ k e.
        ap (λ k. map block_event (infos_at (off + length (piece_bytes x)) k xs) ++ (end_event ∷ []))
          e in
      (
        q,
        next
            (event-round grown page_size read_index yaml_input parse_yaml fuel 4 p p' State.block
              (block_event (info_at off p.blocks.found x)) st (λ m q. refl) step)
            (subst (λ es. Calls grown page_size read_index yaml_input parse_yaml fuel p' es q)
              (renumber (p.blocks.found + 1) found) calls),
        state,
      )
