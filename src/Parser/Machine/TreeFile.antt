-- ===== src/Parser/Machine/TreeFile.antt =====
-- The parse of a whole file with a tree: its version comments, the limits of its tree, its blocks.
use libasdf.Prelude.{ℕ, suc, ◌+◌, ◌^◌, ◌≤◌, ◌<◌, ◌≡◌, refl, sym, ap, ◌∙◌}
use libasdf.Prelude.{◌≢◌, Bool, true, false, Option, none, some, arith}
use libasdf.Prelude.{List, [], ◌∷◌, ◌++◌, map, length, drop, All}
use libasdf.Prelude.{length-append, length-drop, drop-drop}
use libasdf.Prelude.{M, ◌>>=◌}
use mathlib.Core.Path.{subst}
use native.Mathlib.Nat.{add-zero}
use libasdf.Prelude.Int.{ℤ, to_off}
use libasdf.Stream.{size, rest, scan_tokens, mem_tell}
use libasdf.Stream.Valid.{IsValid, drop_line}
use libasdf.Token.{
  block_index_header, version_comment, standard_comment, is_yaml_directive,
  is_yaml_document_end_marker,
}
use libasdf.Version.{Version, version_parse}
use libasdf.Block.Read.Clean.{IsClean}
use libasdf.Parser.{Parser, State, HasTree, TreeInfo, Result, Event, parse_continue, parse_event}
use libasdf.Parser.{
  asdf_version_event, standard_version_event, tree_start_event, tree_end_event, block_event,
  end_event,
}
use libasdf.Parser.Header.{parse_comment}
use libasdf.Parser.Header.Lines.{IsPlain, parse_versions}
use libasdf.Parser.Header.Comments.{parse_comment_other, peek-some}
use libasdf.Parser.Tree.{parse_tree_or_block, parse_tree, parse_padding, emit_tree_start_event}
use libasdf.Parser.Tree.Scan.{at, end_tokens}
use libasdf.Parser.Tree.End.{parse_tree_marker}
use libasdf.Parser.Blocks.Found.{Piece, IsPiece, piece_bytes, info_at, IsReady, parse_block-piece}
use libasdf.Parser.Blocks.{parse_block}
use libasdf.Parser.Blocks.Section.{section_bytes, infos_at, parse_block-end}
use libasdf.Parser.Index.{parse_block_index, aligned_offset}
use libasdf.Parser.Index.Absent.{parse_block_index-absent}
use libasdf.Parser.Machine.{parser_of, dispatch, finish}
use libasdf.Parser.Machine.Run.{
  Calls, next, stop, event-round, continue-round, section-Calls, parser_parse-over,
}

-- The text of a tree, with what follows it: a YAML directive, and a first end marker `o` bytes on,
-- whose line goes on with `line` after its newline.
pub record IsTree (tree more : List ℕ) (o : ℕ) (line : List ℕ) : Type 0 where
  pub tail : List ℕ
  pub starts : tree ++ more ≡ b'%' ∷ tail
  pub directive : is_yaml_directive (b'%' ∷ tail) ≡ some true
  pub found : scan_tokens (tree ++ more) end_tokens ≡ some (o, 0)
  pub marker : is_yaml_document_end_marker (drop o (tree ++ more)) ≡ true
  pub end_line : drop (o + 1) (tree ++ more) ≡ line ++ (b'\n' ∷ more)
  pub one_line : All (λ b. b ≢ b'\n') line

-- What stands behind the line of the end marker.
after_tree :
    (bytes tree more line : List ℕ) (off o : ℕ)
    → drop off bytes ≡ tree ++ more
    → IsTree tree more o line
    → let n : ℕ = off + o + 1 + (length line + 1) in (drop n bytes ≡ more) × (n ≤ length bytes)
after_tree bytes tree more line off o e t =
    let text : List ℕ = tree ++ more in
    let last : drop (o + 1) text ≡ line ++ (b'\n' ∷ more) = t.end_line in
    let total : off + ((o + 1) + (length line + 1)) ≡ off + o + 1 + (length line + 1) =
      omega arith in
    (
      ap (λ k. drop k bytes) (sym total)
          ∙ sym (drop-drop ((o + 1) + (length line + 1)) off bytes)
          ∙ ap (drop ((o + 1) + (length line + 1))) e
          ∙ sym (drop-drop (length line + 1) (o + 1) text)
          ∙ ap (drop (length line + 1)) last
          ∙ drop_line line more,
      omega (
        arith,
        ap length last,
        length-append line (b'\n' ∷ more),
        length-drop (o + 1) text,
        ap length e,
        length-drop off bytes,
      ),
    )

-- The tree from the offset `off` on, with its end.
abbrev pub tree_at : ℕ → ℕ → TreeInfo → TreeInfo
tree_at off n t = record t {
  start = to_off off;
  end = to_off n;
  found = true;
  has_tree = HasTree.with_tree;
}

tree_start :
    (p : Parser) (fuel : ℕ) (tail : List ℕ)
    → IsClean p.stream
    → rest p.stream ≡ b'%' ∷ tail
    → is_yaml_directive (b'%' ∷ tail) ≡ some true
    → parse_tree_or_block fuel p
      ≡ some (
        parse_event (tree_start_event (to_off p.stream.offset)),
        record p {
          state = State.tree;
          tree = record (p.tree) { has_tree = HasTree.with_tree; start = to_off p.stream.offset };
        },
      )
unfolding parse_tree_or_block emit_tree_start_event mem_tell
tree_start p fuel tail c e d = rw (peek-some p.stream c.valid e, ◌>>=◌) (rw (d, ◌>>=◌) refl)

module _ (grown : ℕ → ℕ → ℕ) (grown_exact : (c n : ℕ) → c < n → grown c n ≡ n) (page_size : ℕ)
    (has_page : 0 < page_size) (read_index : List ℕ → Option (List (Option ℤ)))
    (yaml_input : Parser → Bool) (parse_yaml : M Parser Result) (f : ℕ) where
  -- From the comment state to the end of the tree, in two calls.
  tree-Calls :
      (p : Parser) (tree more : List ℕ) (o : ℕ) (line : List ℕ) {q : Parser} {es : List Event}
      → p.state ≡ State.comment
      → p.buffer_tree ≡ false
      → p.emit_yaml_events ≡ false
      → IsClean p.stream
      → rest p.stream ≡ tree ++ more
      → IsTree tree more o line
      → scan_tokens
          (drop (aligned_offset page_size (size p.stream)) p.stream.buf)
          (block_index_header ∷ [])
        ≡ none
      → let n : ℕ = p.stream.offset + o + 1 + (length line + 1) in
        Calls grown page_size read_index yaml_input parse_yaml
          (suc f)
          (record p {
            state = State.padding;
            stream = record (p.stream) { offset = n; capture = none };
            tree = tree_at p.stream.offset n p.tree;
          })
          es
          q
        → Calls grown page_size read_index yaml_input parse_yaml
            (suc f)
            p
            (tree_start_event (to_off p.stream.offset)
              ∷ (tree_end_event (to_off p.stream.offset) (to_off n) p.tree.buf ∷ es))
            q
  unfolding dispatch finish
  tree-Calls p tree more o line st b y c e t absent later =
      let e' : rest p.stream ≡ b'%' ∷ t.tail = e ∙ t.starts in
      let p1 : Parser = record p { state = State.block_index } in
      let p2 : Parser = record p { state = State.tree_or_block } in
      let p3 : Parser = record p {
        state = State.tree;
        tree = record (p.tree) { has_tree = HasTree.with_tree; start = to_off p.stream.offset };
      } in
      let comment : parse_comment p ≡ some (parse_continue, p1) =
        parse_comment_other p [] t.tail b'%' c.valid c.no_error tt e' (ground arith) (ground arith)
        ∙ ap (λ k. some (parse_continue, record (at k p) { state = State.block_index }))
            (add-zero p.stream.offset) in
      let index : parse_block_index grown read_index (suc f) page_size p1
          ≡ some (parse_continue, p2) =
        parse_block_index-absent grown read_index p1 f page_size has_page c.valid absent in
      let start : parse_tree_or_block (suc f) p2 ≡ _ =
        tree_start p2 (suc f) t.tail c e' t.directive in
      let end : parse_tree yaml_input (suc f) p3 ≡ _ =
        parse_tree_marker yaml_input p3 o f line more c.valid c.no_error b y
          (ap (λ bs. scan_tokens bs end_tokens) e ∙ t.found)
          (ap (λ bs. is_yaml_document_end_marker (drop o bs)) e ∙ t.marker)
          (ap (drop (o + 1)) e ∙ t.end_line) t.one_line in
      next
        (continue-round grown page_size read_index yaml_input parse_yaml (suc f) 4 p p1
            State.comment st (λ m q. refl) comment
          ∙ continue-round grown page_size read_index yaml_input parse_yaml (suc f) 3 p1 p2
              State.block_index refl (λ m q. refl) index
          ∙ event-round grown page_size read_index yaml_input parse_yaml (suc f) 2 p2 p3
              State.tree_or_block _ refl (λ m q. refl) start)
        (next
          (event-round grown page_size read_index yaml_input parse_yaml (suc f) 4 p3 _ State.tree _
            refl (λ m q. refl) end)
          later)

  -- From the end of the tree on.
  padding-Calls :
      (xs : List Piece) (p : Parser)
      → p.state ≡ State.padding
      → p.done ≡ false
      → IsReady p
      → All IsPiece xs
      → p.blocks.found + length xs < 2 ^ 32
      → rest p.stream ≡ section_bytes xs
      → (q : Parser) × Calls grown page_size read_index yaml_input parse_yaml
          (suc f)
          p
          (map block_event (infos_at p.stream.offset p.blocks.found xs) ++ (end_event ∷ []))
          q
        × (q.state ≡ State.end)
  unfolding dispatch finish parse_padding
  padding-Calls [] p st d r h few e =
      let p1 : Parser = record p { state = State.block } in
      let r1 : IsReady p1 = record {
        clean = r.clean;
        no_index = r.no_index;
        full = r.full;
        room = r.room;
      } in
      let z : Parser = record (at (size p.stream) p) {
        state = State.end;
        blocks = record (p.blocks) { index_cap = length p.blocks.index };
      } in
      let last : parse_block grown p1 ≡ _ = parse_block-end grown p1 r1 (omega (arith, few)) e in
      (
        _,
        next
            (continue-round grown page_size read_index yaml_input parse_yaml (suc f) 4 p p1
                State.padding st (λ m q. refl) refl
              ∙ continue-round grown page_size read_index yaml_input parse_yaml (suc f) 3 p1 z
                  State.block refl (λ m q. refl) last
              ∙ (parser_parse-over grown page_size read_index yaml_input parse_yaml (suc f) z
                  (record z { state = State.error }) 2 refl d refl).0)
            (stop _),
        refl,
      )
  padding-Calls (x ∷ xs) p st d r (v, h) few e =
      let off : ℕ = p.stream.offset in
      let p1 : Parser = record p { state = State.block } in
      let r1 : IsReady p1 = record {
        clean = r.clean;
        no_index = r.no_index;
        full = r.full;
        room = r.room;
      } in
      let (b, (step, r', left, infos, found, entry)) =
        parse_block-piece grown grown_exact p1 x (section_bytes xs) r1 (omega (arith, few)) v e in
      let p' : Parser = record (at (off + length (piece_bytes x)) p1) { blocks = b } in
      let (q, calls, state) =
        section-Calls grown grown_exact page_size read_index yaml_input parse_yaml (suc f) xs p'
          refl d r' h (omega (arith, few, found)) left in
      (
        q,
        next
            (continue-round grown page_size read_index yaml_input parse_yaml (suc f) 4 p p1
                State.padding st (λ m q. refl) refl
              ∙ event-round grown page_size read_index yaml_input parse_yaml (suc f) 3 p1 p'
                  State.block (block_event (info_at off p.blocks.found x)) refl (λ m q. refl) step)
            (subst
              (λ k.
                Calls grown page_size read_index yaml_input parse_yaml (suc f) p'
                  (map block_event (infos_at (off + length (piece_bytes x)) k xs)
                    ++ (end_event ∷ []))
                  q)
              found calls),
        state,
      )

  -- Two version comments whose texts have no NUL and no line ending, a tree from its YAML directive
  -- to the line of its first end marker, which comes before every block magic, and blocks, if any,
  -- none of them streamed and all within the format's sizes, make up the file, with no block index
  -- header where the parser looks for one. The calls on it, without a buffer for the tree and
  -- without YAML events, give the two versions, the start and the end of the tree, every block with
  -- its header and its place, in order, and the end event, and leave the parser at its end. The
  -- page size is positive, the file shorter than 2 ^ 63 bytes, the blocks fewer than 2 ^ 32, and a
  -- vector that grows has exactly the room asked for. Each call ends within five rounds of its
  -- loop, and one round of each search is enough.
  pub parser_parse-tree_file :
      (a b tree line : List ℕ) (o : ℕ) (xs : List Piece) {v w : Version}
      → IsPlain a
      → IsPlain b
      → version_parse (some a) ≡ some v
      → version_parse (some b) ≡ some w
      → IsTree tree (section_bytes xs) o line
      → All IsPiece xs
      → length xs < 2 ^ 32
      → let bytes : List ℕ =
          version_comment
          ++ (a ++ (b'\n' ∷ (standard_comment ++ (b ++ (b'\n' ∷ (tree ++ section_bytes xs)))))) in
        let off : ℕ = 0 + (6 + length a + 1) + (15 + length b + 1) in
        let n : ℕ = off + o + 1 + (length line + 1) in
        length bytes < 2 ^ 63
        → scan_tokens
            (drop (aligned_offset page_size (length bytes)) bytes)
            (block_index_header ∷ [])
          ≡ none
        → (q : Parser) × Calls grown page_size read_index yaml_input parse_yaml
            (suc f)
            (parser_of false false bytes)
            (asdf_version_event (some v)
              ∷ (standard_version_event (some w)
                  ∷ (tree_start_event (to_off off)
                      ∷ (tree_end_event (to_off off) (to_off n) none
                          ∷ (map block_event (infos_at n 0 xs) ++ (end_event ∷ []))))))
            q
          × (q.state ≡ State.end)
  unfolding dispatch finish parser_of
  parser_parse-tree_file a b tree line o xs {v} {w} ha hb ea eb t h few small absent =
      let bytes : List ℕ =
        version_comment
        ++ (a ++ (b'\n' ∷ (standard_comment ++ (b ++ (b'\n' ∷ (tree ++ section_bytes xs)))))) in
      let p : Parser = parser_of false false bytes in
      let valid : IsValid p.stream = record { within = omega arith; small = small; plain = refl } in
      let off : ℕ = 0 + (6 + length a + 1) + (15 + length b + 1) in
      let n : ℕ = off + o + 1 + (length line + 1) in
      let q : Parser = record (at (0 + (6 + length a + 1)) p) {
        asdf_version = some v;
        state = State.standard_version;
      } in
      let r : Parser = record (at off q) { standard_version = some w; state = State.comment } in
      let (first, second, left) =
        parse_versions p a b (tree ++ section_bytes xs) valid refl ha hb ea eb in
      let inside : off ≤ length bytes =
        omega (arith, ap length (left ∙ t.starts), length-drop off bytes) in
      let clean : IsClean r.stream = record {
        valid = record { within = inside; small = small; plain = refl };
        no_error = refl;
      } in
      let z : Parser = record r {
        state = State.padding;
        stream = record (r.stream) { offset = n; capture = none };
        tree = tree_at off n r.tree;
      } in
      let (behind, inside') = after_tree bytes tree (section_bytes xs) line off o left t in
      let ready : IsReady z = record {
        clean = record {
          valid = record { within = inside'; small = small; plain = refl };
          no_error = refl;
        };
        no_index = refl;
        full = refl;
        room = omega arith;
      } in
      let (e, calls, over) = padding-Calls xs z refl refl ready h (omega (arith, few)) behind in
      (
        e,
        next
            (event-round grown page_size read_index yaml_input parse_yaml (suc f) 4 p q
              State.asdf_version _ refl (λ m q. refl) first)
            (next
              (event-round grown page_size read_index yaml_input parse_yaml (suc f) 4 q r
                State.standard_version _ refl (λ m q. refl) second)
              (tree-Calls r tree (section_bytes xs) o line refl refl refl clean left t absent
                calls)),
        over,
      )
