-- ===== src/Parser/Index/Corrupt.antt =====
-- A block index that is found and cannot be read.
use libasdf.Prelude.{ℕ, suc, ◌+◌, ◌%◌, ◌^◌, ◌≤◌, ◌<◌, ◌≡◌, refl, sym, ap, ◌∙◌}
use libasdf.Prelude.{false, Option, none, some, arith}
use libasdf.Prelude.{List, [], ◌∷◌, ◌++◌, map, length}
use libasdf.Prelude.{ltb, if◌then◌else◌}
use libasdf.Prelude.{◌>>=◌}
use mathlib.Core.List.{append_assoc, append-nil}
use libasdf.Prelude.{le→ltb, lt→ltb}
use libasdf.Prelude.Int.{ℤ}
use libasdf.Stream.{rest}
use libasdf.Stream.Valid.{IsValid}
use libasdf.Block.{BlockInfo}
use libasdf.Parser.{Parser, parse_event, no_event}
use libasdf.Parser.Tree.Scan.{next-at}
use libasdf.Parser.Blocks.{note_block, with_room}
use libasdf.Parser.Index.{push_items, read_block_index}

push_items-partial :
    (offsets : List ℤ) (items : List (Option ℤ)) (index : List ℤ)
    → push_items (map some offsets ++ (none ∷ items)) index ≡ (false, index ++ offsets)
unfolding push_items
push_items-partial [] items index = ap (λ k. (false, k)) (sym (append-nil index))
push_items-partial (o ∷ offsets) items index =
    push_items-partial offsets items (index ++ (o ∷ []))
    ∙ ap (λ k. (false, k)) (append_assoc index (o ∷ []) offsets)

length-items :
    (offsets : List ℤ) (items : List (Option ℤ))
    → length (map some offsets ++ (none ∷ items)) ≡ length offsets + suc (length items)
length-items [] items = omega arith
length-items (o ∷ offsets) items = omega (arith, length-items offsets items)

module _ (grown : ℕ → ℕ → ℕ) (read_index : List ℕ → Option (List (Option ℤ))) where
  read_partial :
      (p : Parser) (items : List (Option ℤ)) (offsets : List ℤ) (cap : ℕ)
      → IsValid p.stream
      → 1 ≤ length (rest p.stream)
      → read_index (rest p.stream) ≡ some items
      → push_items items p.blocks.index ≡ (false, offsets)
      → (if ltb p.blocks.index_cap (length items)
          then grown p.blocks.index_cap (length items)
          else p.blocks.index_cap)
        ≡ cap
      → read_block_index grown read_index p
        ≡ some (
          parse_event no_event,
          record p { blocks = record (p.blocks) { index = offsets; index_cap = cap } },
        )
  unfolding read_block_index
  read_partial p items offsets cap v l e pushed room =
      rw (next-at p.stream v l, ◌>>=◌) (rw (e, ◌>>=◌) (rw (pushed, room) refl))

  note_block_full :
      (p : Parser) (info : BlockInfo)
      → p.blocks.found < 2 ^ 32
      → length p.blocks.index ≤ p.blocks.found
      → p.blocks.found < p.blocks.index_cap
      → note_block grown p.blocks.found info p ≡ none
  unfolding note_block with_room
  note_block_full p info few short cap =
      let next : (p.blocks.found + 1) % 2 ^ 64 ≡ p.blocks.found + 1 = omega (arith, few) in
      let fits : ltb p.blocks.index_cap (p.blocks.found + 1) ≡ false =
        le→ltb _ _ (omega (arith, cap)) in
      let outside : ltb p.blocks.found (length p.blocks.index) ≡ false = le→ltb _ _ short in
      rw (next, ◌>>=◌) (rw fits (rw outside refl))

module _ (grown : ℕ → ℕ → ℕ) (grown_exact : (c n : ℕ) → c < n → grown c n ≡ n)
    (read_index : List ℕ → Option (List (Option ℤ))) where
  -- A block index whose items are some numbers, fewer than 2 ^ 32, and then something else is
  -- reported as an event that is not filled in. The numbers stay in the index, with room for the
  -- other items behind them. When the parser has found as many blocks as there were numbers, noting
  -- one more block fails. The index was empty before, and a vector that grows has exactly the room
  -- asked for.
  pub read_block_index_partial :
      (p : Parser) (offsets : List ℤ) (items : List (Option ℤ)) (info : BlockInfo)
      → IsValid p.stream
      → 1 ≤ length (rest p.stream)
      → read_index (rest p.stream) ≡ some (map some offsets ++ (none ∷ items))
      → p.blocks.index ≡ []
      → p.blocks.index_cap ≡ 0
      → length offsets < 2 ^ 32
      → (q : Parser) × (read_block_index grown read_index p ≡ some (parse_event no_event, q))
        × (q.blocks.index ≡ offsets)
        × (q.blocks.has_index ≡ p.blocks.has_index)
        × (note_block grown
              (length offsets)
              info
              (record q { blocks = record (q.blocks) { found = length offsets } })
            ≡ none)
  read_block_index_partial p offsets items info v l e none_before no_room few =
      let all : List (Option ℤ) = map some offsets ++ (none ∷ items) in
      let n : ℕ = length all in
      let long : n ≡ length offsets + suc (length items) = length-items offsets items in
      let pushed : push_items all p.blocks.index ≡ (false, offsets) =
        ap (push_items all) none_before ∙ push_items-partial offsets items [] in
      let room : (if ltb p.blocks.index_cap n
            then grown p.blocks.index_cap n
            else p.blocks.index_cap)
          ≡ n =
        ap (λ c. if ltb c n then grown c n else c) no_room
        ∙ rw (lt→ltb 0 n (omega (arith, long))) (grown_exact 0 n (omega (arith, long))) in
      let q : Parser = record p { blocks = record (p.blocks) { index = offsets; index_cap = n } } in
      (
        q,
        read_partial grown read_index p all offsets n v l e pushed room,
        refl,
        refl,
        note_block_full grown read_index
            (record q { blocks = record (q.blocks) { found = length offsets } }) info few
            (omega arith) (omega (arith, long)),
      )
