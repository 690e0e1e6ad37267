-- ===== src/Parser/Tree/End.antt =====
-- The step over a tree that is not buffered.
use libasdf.Prelude.{ℕ, suc, ◌+◌, ◌≡◌, refl}
use libasdf.Prelude.{◌≢◌, Bool, true, false, none, some, arith}
use libasdf.Prelude.{List, ◌∷◌, ◌++◌, length, drop, All}
use libasdf.Prelude.{◌>>=◌}
use libasdf.Prelude.Int.{to_off}
use libasdf.Stream.{rest, scan_tokens, set_capture}
use libasdf.Stream.Valid.{IsValid}
use libasdf.Token.{is_yaml_document_end_marker}
use libasdf.Parser.{Parser, State, parse_event, tree_end_event}
use libasdf.Parser.Tree.{
  parse_tree_fast, find_tree_end, halt_capture, parse_tree, emit_tree_end_event,
}
use libasdf.Parser.Tree.Scan.{at, end_tokens, parse_tree_fast_marker}

find_tree_end_plain :
    (p q : Parser) (fuel : ℕ)
    → p.buffer_tree ≡ false
    → p.emit_yaml_events ≡ false
    → parse_tree_fast fuel p ≡ some (some true, q)
    → find_tree_end fuel p
      ≡ some (some true, record q { stream = record (q.stream) { capture = none } })
unfolding find_tree_end halt_capture set_capture
find_tree_end_plain p q fuel b y e = ground (arith, b, y, e)

-- Without a buffer for the tree and without YAML events, on a valid stream without an error, the
-- tree ends behind the line of the first end marker, if that comes before every block magic and has
-- a line ending behind it: the step gives the event with the tree's start and end, and leaves the
-- parser there, to go on with the blocks. One round of the search is enough.
pub parse_tree_marker :
    (yaml_input : Parser → Bool) (p : Parser) (o fuel : ℕ) (line more : List ℕ)
    → IsValid p.stream
    → p.stream.error ≡ none
    → p.buffer_tree ≡ false
    → p.emit_yaml_events ≡ false
    → scan_tokens (rest p.stream) end_tokens ≡ some (o, 0)
    → is_yaml_document_end_marker (drop o (rest p.stream)) ≡ true
    → drop (o + 1) (rest p.stream) ≡ line ++ (b'\n' ∷ more)
    → All (λ b. b ≢ b'\n') line
    → let n : ℕ = p.stream.offset + o + 1 + (length line + 1) in
      parse_tree yaml_input (suc fuel) p
      ≡ some (
        parse_event (tree_end_event p.tree.start (to_off n) p.tree.buf),
        record p {
          state = State.padding;
          stream = record (p.stream) { offset = n; capture = none };
          tree = record (p.tree) { end = to_off n; found = true };
        },
      )
unfolding parse_tree emit_tree_end_event
parse_tree_marker yaml_input p o fuel line more v c b y e m d h =
    let n : ℕ = p.stream.offset + o + 1 + (length line + 1) in
    let q : Parser = at n (record p { tree = record (p.tree) { end = to_off n; found = true } }) in
    let fast : parse_tree_fast (suc fuel) p ≡ some (some true, q) =
      parse_tree_fast_marker p o fuel line more v c e m d h in
    rw (find_tree_end_plain p q (suc fuel) b y fast, ◌>>=◌) (rw y refl)
