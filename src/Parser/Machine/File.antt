-- ===== src/Parser/Machine/File.antt =====
-- The parse of a whole file that has no tree: its version comments, and its blocks.
use libasdf.Prelude.{ℕ, suc, ◌+◌, ◌^◌, ◌≤◌, ◌<◌, ◌≡◌, refl, ap, ◌∙◌}
use libasdf.Prelude.{Bool, false, Option, none, some, arith}
use libasdf.Prelude.{List, [], ◌∷◌, ◌++◌, map, length, drop, All}
use libasdf.Prelude.{length-drop}
use libasdf.Prelude.{M}
use mathlib.Core.Path.{subst}
use native.Mathlib.Nat.{add-zero}
use libasdf.Prelude.Int.{ℤ}
use libasdf.Stream.{size, rest, scan_tokens}
use libasdf.Stream.Valid.{IsValid}
use libasdf.Token.{block_index_header, version_comment, standard_comment}
use libasdf.Version.{Version, version_parse}
use libasdf.Block.Read.Clean.{IsClean}
use libasdf.Parser.{Parser, State, HasTree, Result, parse_continue}
use libasdf.Parser.{asdf_version_event, standard_version_event, block_event, end_event}
use libasdf.Parser.Header.{parse_comment}
use libasdf.Parser.Header.Lines.{IsPlain, parse_versions}
use libasdf.Parser.Header.Comments.{parse_comment_other}
use libasdf.Parser.Tree.Scan.{at}
use libasdf.Parser.Blocks.Found.{
  Piece, IsPiece, piece_bytes, info_at, IsReady, piece-magic, parse_block-piece,
}
use libasdf.Parser.Blocks.Section.{section_bytes, infos_at}
use libasdf.Parser.Index.{parse_block_index, aligned_offset}
use libasdf.Parser.Index.Absent.{parse_block_index-absent}
use libasdf.Parser.Machine.{parser_of, dispatch, finish, parser_parse}
use libasdf.Parser.Machine.Run.{Calls, next, to_block, event-round, continue-round, section-Calls}

-- The bytes of a file with the versions `a` and `b` and the blocks `xs`.
abbrev pub file_bytes : List ℕ → List ℕ → List Piece → List ℕ
file_bytes a b xs =
    version_comment ++ (a ++ (b'\n' ∷ (standard_comment ++ (b ++ (b'\n' ∷ section_bytes xs)))))

module _ (grown : ℕ → ℕ → ℕ) (grown_exact : (c n : ℕ) → c < n → grown c n ≡ n) (page_size : ℕ)
    (has_page : 0 < page_size) (read_index : List ℕ → Option (List (Option ℤ)))
    (yaml_input : Parser → Bool) (parse_yaml : M Parser Result) (f : ℕ) where
  -- After the version comments, the parser comes to the first block in three rounds.
  first_block :
      (p : Parser) (x : Piece) (more : List ℕ)
      → IsClean p.stream
      → IsPiece x
      → rest p.stream ≡ piece_bytes x ++ more
      → scan_tokens
          (drop (aligned_offset page_size (size p.stream)) p.stream.buf)
          (block_index_header ∷ [])
        ≡ none
      → p.state ≡ State.comment
      → (n : ℕ)
      → let q : Parser = record p {
        state = State.block;
        tree = record (p.tree) { has_tree = HasTree.without_tree };
      } in
        parser_parse grown page_size read_index yaml_input parse_yaml (suc f) (suc (suc (suc n))) p
        ≡ parser_parse grown page_size read_index yaml_input parse_yaml (suc f) n q
  unfolding dispatch finish
  first_block p x more c v e absent st n =
      let (tail, e', m) = piece-magic x more in
      let p1 : Parser = record p { state = State.block_index } in
      let p2 : Parser = record p { state = State.tree_or_block } in
      let p3 : Parser = record p {
        state = State.block;
        tree = record (p.tree) { has_tree = HasTree.without_tree };
      } in
      let comment : parse_comment p ≡ some (parse_continue, p1) =
        parse_comment_other p [] tail 0xd3 c.valid c.no_error tt (e ∙ e') (ground arith)
          (ground arith)
        ∙ ap (λ k. some (parse_continue, record (at k p) { state = State.block_index }))
            (add-zero p.stream.offset) in
      let index : parse_block_index grown read_index (suc f) page_size p1
          ≡ some (parse_continue, p2) =
        parse_block_index-absent grown read_index p1 f page_size has_page c.valid absent in
      continue-round grown page_size read_index yaml_input parse_yaml (suc f) (suc (suc n)) p p1
        State.comment st (λ m q. refl) comment
      ∙ continue-round grown page_size read_index yaml_input parse_yaml (suc f) (suc n) p1 p2
          State.block_index refl (λ m q. refl) index
      ∙ continue-round grown page_size read_index yaml_input parse_yaml (suc f) n p2 p3
          State.tree_or_block refl (λ m q. refl)
          (to_block grown page_size read_index yaml_input parse_yaml (suc f) p2 (suc f) c (e ∙ e')
            m)

  -- From the comment state on.
  blocks-Calls :
      (p : Parser) (x : Piece) (xs : List Piece)
      → p.state ≡ State.comment
      → p.done ≡ false
      → IsReady p
      → IsPiece x
      → All IsPiece xs
      → p.blocks.found + length (x ∷ xs) < 2 ^ 32
      → rest p.stream ≡ piece_bytes x ++ section_bytes xs
      → scan_tokens
          (drop (aligned_offset page_size (size p.stream)) p.stream.buf)
          (block_index_header ∷ [])
        ≡ none
      → (q : Parser) × Calls grown page_size read_index yaml_input parse_yaml
          (suc f)
          p
          (map block_event (infos_at p.stream.offset p.blocks.found (x ∷ xs)) ++ (end_event ∷ []))
          q
        × (q.state ≡ State.end)
  unfolding dispatch finish
  blocks-Calls p x xs st d r v h few e absent =
      let off : ℕ = p.stream.offset in
      let p3 : Parser = record p {
        state = State.block;
        tree = record (p.tree) { has_tree = HasTree.without_tree };
      } in
      let r3 : IsReady p3 = record {
        clean = r.clean;
        no_index = r.no_index;
        full = r.full;
        room = r.room;
      } in
      let (b, (step, r', left, infos, found, entry)) =
        parse_block-piece grown grown_exact p3 x (section_bytes xs) r3 (omega (arith, few)) v e in
      let p' : Parser = record (at (off + length (piece_bytes x)) p3) { blocks = b } in
      let (q, calls, state) =
        section-Calls grown grown_exact page_size read_index yaml_input parse_yaml (suc f) xs p'
          refl d r' h (omega (arith, few, found)) left in
      let first : parser_parse grown page_size read_index yaml_input parse_yaml (suc f) 5 p ≡ _ =
        first_block p x (section_bytes xs) r.clean v e absent st 2
        ∙ event-round grown page_size read_index yaml_input parse_yaml (suc f) 1 p3 p' State.block
            (block_event (info_at off p.blocks.found x)) refl (λ m q. refl) step in
      (
        q,
        next first (
            subst
              (λ k.
                Calls grown page_size read_index yaml_input parse_yaml (suc f) p'
                  (map block_event (infos_at (off + length (piece_bytes x)) k xs)
                    ++ (end_event ∷ []))
                  q)
              found calls),
        state,
      )

  -- Two version comments whose texts have no NUL and no line ending, and at least one block, none
  -- of them streamed and all within the format's sizes, make up the file, with no block index
  -- header where the parser looks for one. The calls on it give the two versions, every block with
  -- its header and its place, in order, and the end event, and leave the parser at its end. The
  -- page size is positive, the file shorter than 2 ^ 63 bytes, the blocks fewer than 2 ^ 32, and a
  -- vector that grows has exactly the room asked for. Each call ends within five rounds of its
  -- loop, and one round of each search is enough.
  pub parser_parse-file :
      (buffer_tree emit_yaml_events : Bool) (a b : List ℕ) (x : Piece) (xs : List Piece)
      {v w : Version}
      → IsPlain a
      → IsPlain b
      → version_parse (some a) ≡ some v
      → version_parse (some b) ≡ some w
      → All IsPiece (x ∷ xs)
      → length (x ∷ xs) < 2 ^ 32
      → length (file_bytes a b (x ∷ xs)) < 2 ^ 63
      → scan_tokens
          (drop
            (aligned_offset page_size (length (file_bytes a b (x ∷ xs))))
            (file_bytes a b (x ∷ xs)))
          (block_index_header ∷ [])
        ≡ none
      → (q : Parser) × Calls grown page_size read_index yaml_input parse_yaml
          (suc f)
          (parser_of buffer_tree emit_yaml_events (file_bytes a b (x ∷ xs)))
          (asdf_version_event (some v)
            ∷ (standard_version_event (some w)
                ∷ (map block_event
                      (infos_at (0 + (6 + length a + 1) + (15 + length b + 1)) 0 (x ∷ xs))
                    ++ (end_event ∷ []))))
          q
        × (q.state ≡ State.end)
  unfolding dispatch finish parser_of
  parser_parse-file buffer_tree emit_yaml_events a b x xs {v} {w} ha hb ea eb (hx, h) few small
        absent =
      let bytes : List ℕ = file_bytes a b (x ∷ xs) in
      let p : Parser = parser_of buffer_tree emit_yaml_events bytes in
      let valid : IsValid p.stream = record { within = omega arith; small = small; plain = refl } in
      let q : Parser = record (at (0 + (6 + length a + 1)) p) {
        asdf_version = some v;
        state = State.standard_version;
      } in
      let r : Parser = record (at (0 + (6 + length a + 1) + (15 + length b + 1)) q) {
        standard_version = some w;
        state = State.comment;
      } in
      let (first, second, left) =
        parse_versions p a b (section_bytes (x ∷ xs)) valid refl ha hb ea eb in
      let (tail, magic, m) = piece-magic x (section_bytes xs) in
      let off : ℕ = 0 + (6 + length a + 1) + (15 + length b + 1) in
      let inside : off ≤ length bytes =
        omega (arith, ap length (left ∙ magic), length-drop off bytes) in
      let ready : IsReady r = record {
        clean = record {
          valid = record { within = inside; small = small; plain = refl };
          no_error = refl;
        };
        no_index = refl;
        full = refl;
        room = omega arith;
      } in
      let (z, calls, over) =
        blocks-Calls r x xs refl refl ready hx h (omega (arith, few)) left absent in
      (
        z,
        next
            (event-round grown page_size read_index yaml_input parse_yaml (suc f) 4 p q
              State.asdf_version _ refl (λ m q. refl) first)
            (next
              (event-round grown page_size read_index yaml_input parse_yaml (suc f) 4 q r
                State.standard_version _ refl (λ m q. refl) second)
              calls),
        over,
      )
