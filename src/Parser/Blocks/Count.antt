-- ===== src/Parser/Blocks/Count.antt =====
-- The counts and the block index, after a block was found.
use libasdf.Prelude.{ℕ, zero, suc, ◌+◌, ◌-◌, ◌*◌, ◌%◌, ◌^◌, ◌≤◌, ◌<◌, ◌≡◌, refl, sym, ap, ◌∙◌}
use libasdf.Prelude.{inl, inr, some, arith}
use libasdf.Prelude.{List, [], ◌∷◌, ◌++◌, length, get_elem?, set, take, replicate}
use libasdf.Prelude.{ltb, ◌==◌, if◌then◌else◌, Bool-cases}
use libasdf.Prelude.{length-append, length-take, length-replicate}
use libasdf.Prelude.{◌>>=◌}
use libasdf.Prelude.Int.{ℤ, negsuc}
use libasdf.Block.{BlockInfo}
use libasdf.Parser.{Parser, BlockTable}
use libasdf.Parser.Blocks.{note_block, resized, with_room}
use libasdf.Prelude.{lt→ltb}

-- The block table after the block at `found` was noted.
pub record Noted (b : BlockTable) (header_at : ℤ) (b' : BlockTable) : Type 0 where
  pub infos_kept : b'.infos ≡ b.infos
  pub found_next : b'.found ≡ b.found + 1
  pub count_found : b'.count ≡ b.found + 1
  pub entry : get_elem? b'.index b.found ≡ some header_at
  pub no_index : b'.has_index ≡ b.has_index
  pub full : b'.index_cap ≡ length b'.index
  pub room : b'.found ≤ length b'.index

set-there : (xs : List ℤ) (i : ℕ) (v : ℤ) → i < length xs → get_elem? (set xs i v) i ≡ some v
set-there [] i v l = absurd (omega arith)
set-there (x ∷ xs) zero v l = refl
set-there (x ∷ xs) (suc i) v l = set-there xs i v (omega arith)

length-set : (xs : List ℤ) (i : ℕ) (v : ℤ) → length (set xs i v) ≡ length xs
length-set [] i v = refl
length-set (x ∷ xs) zero v = refl
length-set (x ∷ xs) (suc i) v = ap suc (length-set xs i v)

module _ (grown : ℕ → ℕ → ℕ) (grown_exact : (c n : ℕ) → c < n → grown c n ≡ n) where
  -- The index after its resize: room for all the blocks found, and the rest as it was.
  with_room-roomy :
      (b : BlockTable)
      → b.index_cap ≡ length b.index
      → b.found ≤ length b.index + 1
      → (b' : BlockTable) × (with_room grown b ≡ b')
        × (b'.infos ≡ b.infos)
        × (b'.has_index ≡ b.has_index)
        × (b'.found ≡ b.found)
        × (b'.index_cap ≡ length b'.index)
        × (b'.found ≤ length b'.index)
  unfolding with_room
  with_room-roomy b full room = elim (Bool-cases (ltb b.index_cap b.found)) [
    | inl y ↦
        let n : ℕ = if b.index_cap == 0 then 8 else b.index_cap * 2 in
        let ys : List ℤ = take n b.index ++ replicate (n - length b.index) (negsuc 0) in
        let more : length b.index < n = ground (arith, full) in
        let long : length ys ≡ n = omega (
          arith,
          more,
          length-append (take n b.index) (replicate (n - length b.index) (negsuc 0)),
          length-take n b.index,
          length-replicate (n - length b.index) (negsuc 0),
        ) in
        (
          resized grown n b,
          rw y refl,
          refl,
          refl,
          refl,
          grown_exact b.index_cap n (omega (arith, full, more)) ∙ sym long,
          omega (arith, long, more, room),
        )
    | inr n ↦ (b, rw n refl, refl, refl, refl, full, ground (arith, n, full))
  ]

  note_block-roomy :
      (p : Parser) (info : BlockInfo) (b' : BlockTable)
      → p.blocks.found < 2 ^ 32
      → with_room grown (record (p.blocks) { found = p.blocks.found + 1 }) ≡ b'
      → p.blocks.found < length b'.index
      → note_block grown p.blocks.found info p
        ≡ some (
          tt,
          record p {
            blocks = record b' {
              index = set b'.index p.blocks.found info.header_pos;
              count = b'.found;
            };
          },
        )
  unfolding note_block
  note_block-roomy p info b' few e inside =
      let next : (p.blocks.found + 1) % 2 ^ 64 ≡ p.blocks.found + 1 = omega (arith, few) in
      rw (next, ◌>>=◌) (rw e (rw (lt→ltb p.blocks.found (length b'.index) inside) refl))

  pub note_block-Noted :
      (p : Parser) (info : BlockInfo)
      → p.blocks.index_cap ≡ length p.blocks.index
      → p.blocks.found ≤ length p.blocks.index
      → p.blocks.found < 2 ^ 32
      → (b : BlockTable) × (note_block grown p.blocks.found info p
          ≡ some (tt, record p { blocks = b }))
        × Noted p.blocks info.header_pos b
  note_block-Noted p info full room few =
      let b : BlockTable = p.blocks in
      let (b', e, infos, has, found, full', room') =
        with_room-roomy (record b { found = b.found + 1 }) full (omega (arith, room)) in
      let inside : b.found < length b'.index = omega (arith, found, room') in
      let same : length (set b'.index b.found info.header_pos) ≡ length b'.index =
        length-set b'.index b.found info.header_pos in
      (
        _,
        note_block-roomy p info b' few e inside,
        record {
          infos_kept = infos;
          found_next = found;
          count_found = found;
          entry = set-there b'.index b.found info.header_pos inside;
          no_index = has;
          full = full' ∙ sym same;
          room = omega (arith, same, room');
        },
      )
