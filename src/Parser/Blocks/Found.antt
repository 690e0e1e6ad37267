-- ===== src/Parser/Blocks/Found.antt =====
-- One step of the block parser, on a file without a block index.
use libasdf.Prelude.{ℕ, ◌+◌, ◌-◌, ◌%◌, ◌^◌, ◌≤◌, ◌<◌, ◌≡◌, refl, sym, ap, ◌∙◌}
use libasdf.Prelude.{true, false, Option, none, some, arith}
use libasdf.Prelude.{List, [], ◌∷◌, ◌++◌, length, get_elem?, drop}
use libasdf.Prelude.{ltb, leb, ◌==◌}
use libasdf.Prelude.{length-append, length-drop, length-replicate, drop-append}
use libasdf.Prelude.{◌>>=◌}
use libasdf.Prelude.{le→ltb}
use libasdf.Prelude.Int.{to_off}
use libasdf.Prelude.Bytes.{starts_with}
use libasdf.Stream.{size, rest, mem_seek}
use libasdf.Stream.Valid.{rest-moved}
use libasdf.Token.{is_block_magic}
use libasdf.Block.{Header, BlockInfo}
use libasdf.Block.Read.{info_read}
use libasdf.Block.Read.Clean.{IsClean, filled}
use libasdf.Block.Write.{allocated_for}
use libasdf.Block.Write.Append.{IsCompression, block_bytes, header_bytes, padding}
use libasdf.Block.RoundTrip.{
  Fits, stored, info_read-block_bytes, length-header_bytes, block_bytes-pieces, allocated-ge,
}
use libasdf.Parser.{Parser, Result, BlockTable, parse_event, block_event}
use libasdf.Parser.Tree.Scan.{at, at-IsValid}
use libasdf.Parser.Header.Comments.{peek-some}
use libasdf.Parser.Blocks.{empty_info, ptrdiff_max, push_block, parse_new_block, indexed_block}
use libasdf.Parser.Blocks.{skip_block, note_block, parse_block}
use libasdf.Parser.Blocks.Count.{note_block-Noted}

-- What a block in a file holds: its header, its payload, and the compression of that.
pub record Piece : Type 0 where
  pub header : Header
  pub bytes : List ℕ
  pub comp : Option (List ℕ)

-- A block that the format can hold, and that is not streamed.
pub record IsPiece (x : Piece) : Type 0 where
  pub fits : Fits x.header
  pub compression : IsCompression x.comp
  pub small : length x.bytes < 2 ^ 63
  pub not_streamed : x.header.flags % 2 ≡ 0

abbrev pub piece_bytes : Piece → List ℕ
piece_bytes x = block_bytes x.header x.bytes x.comp

-- The block info that the parser makes of a block that begins at `off`.
abbrev pub info_at : ℕ → ℕ → Piece → BlockInfo
info_at off index x = filled (stored x.header x.bytes x.comp) off (off + 54) (empty_info index)

-- A parser between two blocks of a file without a block index.
pub record IsReady (p : Parser) : Type 0 where
  pub clean : IsClean p.stream
  pub no_index : p.blocks.has_index ≡ false
  pub full : p.blocks.index_cap ≡ length p.blocks.index
  pub room : p.blocks.found ≤ length p.blocks.index

pub piece-magic :
    (x : Piece) (more : List ℕ)
    → (tail : List ℕ) × (piece_bytes x ++ more ≡ 0xd3 ∷ tail)
      × (is_block_magic (0xd3 ∷ tail) ≡ true)
unfolding is_block_magic starts_with
piece-magic x more =
    (_, ap (λ b. b ++ more) (block_bytes-pieces x.header x.bytes x.comp), ground arith)

-- The next block is read from where the parser stands, and pushed.
parse_new_block-piece :
    (p : Parser) (x : Piece) (more : List ℕ)
    → IsClean p.stream
    → IsPiece x
    → rest p.stream ≡ piece_bytes x ++ more
    → let info : BlockInfo = info_at p.stream.offset p.blocks.found x in
      parse_new_block p
      ≡ some (
        some info,
        record (at (p.stream.offset + 54) p) {
          blocks = record (p.blocks) { infos = p.blocks.infos ++ (info ∷ []) };
        },
      )
unfolding parse_new_block push_block
parse_new_block-piece p x more c v e =
    let (tail, e', m) = piece-magic x more in
    let read_it : info_read (empty_info p.blocks.found) p.stream ≡ _ =
      info_read-block_bytes (empty_info p.blocks.found) x.header x.bytes x.comp more v.fits
        v.compression v.small c e in
    let offset : p.stream.offset + 4 + 2 + 48 ≡ p.stream.offset + 54 = omega arith in
    rw (peek-some p.stream c.valid (e ∙ e'), ◌>>=◌) (rw m (rw (read_it, ◌>>=◌) (rw offset refl)))

length-piece :
    (x : Piece) → IsPiece x → length (piece_bytes x) ≡ 54 + allocated_for x.header (length x.bytes)
length-piece x v = omega (
  arith,
  length-header_bytes x.header x.bytes x.comp v.fits v.compression,
  length-append (header_bytes x.header x.bytes x.comp) (x.bytes ++ padding x.header x.bytes),
  length-append x.bytes (padding x.header x.bytes),
  length-replicate {A = ℕ} (allocated_for x.header (length x.bytes) - length x.bytes) 0,
  allocated-ge x.header (length x.bytes),
)

-- The step over a block, from its data to the block's end.
skip_block-piece :
    (p : Parser) (off index : ℕ) (x : Piece) (more : List ℕ)
    → IsClean p.stream
    → IsPiece x
    → off ≤ size p.stream
    → drop off p.stream.buf ≡ piece_bytes x ++ more
    → let n : ℕ = length (piece_bytes x) in
      skip_block (info_at off index x) (at (off + 54) p)
      ≡ some (parse_event (block_event (info_at off index x)), at (off + n) p)
unfolding skip_block mem_seek
skip_block-piece p off index x more c v l e =
    let a : ℕ = allocated_for x.header (length x.bytes) in
    let n : length (piece_bytes x) ≡ 54 + a = length-piece x v in
    let inside : off + (54 + a) ≤ size p.stream =
      omega
        (arith, n, ap length e, length-append (piece_bytes x) more, length-drop off p.stream.buf) in
    let stream_flag : (x.header.flags % 2 == 1) ≡ false = ground (arith, v.not_streamed) in
    let fits : ltb ptrdiff_max a ≡ false =
      le→ltb ptrdiff_max a (omega (arith, inside, c.valid.small)) in
    let sum : (off + 54 + a) % 2 ^ 64 ≡ off + 54 + a = omega (arith, inside, c.valid.small) in
    let clamp : ltb (size p.stream) (off + 54 + a) ≡ false = le→ltb _ _ (omega (arith, inside)) in
    rw (stream_flag, fits)
      (rw (sum, clamp)
        (ap (λ k. some (parse_event (block_event (info_at off index x)), at k p))
          (omega (arith, n))))

pub indexed_block-none :
    (p : Parser) (idx : ℕ) → p.blocks.has_index ≡ false → indexed_block idx p ≡ some (none, p)
unfolding indexed_block
indexed_block-none p idx e = ground (arith, e)

module _ (grown : ℕ → ℕ → ℕ) (grown_exact : (c n : ℕ) → c < n → grown c n ≡ n) where
  parse_block-steps :
      (p p' p'' : Parser) (info : BlockInfo) (r : Option (Result × Parser))
      → leb ptrdiff_max p.blocks.found ≡ false
      → p.blocks.has_index ≡ false
      → parse_new_block p ≡ some (some info, p')
      → note_block grown p.blocks.found info p' ≡ some (tt, p'')
      → skip_block info p'' ≡ r
      → parse_block grown p ≡ r
  unfolding parse_block
  parse_block-steps p p' p'' info r limit none_left new noted skipped = rw limit (
      rw (indexed_block-none p p.blocks.found none_left, ◌>>=◌)
        (rw (new, ◌>>=◌) (rw (noted, ◌>>=◌) skipped)))

  -- A block where the parser stands, not streamed and within the format's sizes, gives the block
  -- event with its header and its place, in a file without a block index. The parser had no error
  -- and no capture, and fewer than 2 ^ 32 blocks before. It then stands after the block's allocated
  -- bytes, ready for the next block, and has the block's place in the block index. A vector that
  -- grows has exactly the room asked for.
  pub parse_block-piece :
      (p : Parser) (x : Piece) (more : List ℕ)
      → IsReady p
      → p.blocks.found < 2 ^ 32
      → IsPiece x
      → rest p.stream ≡ piece_bytes x ++ more
      → let info : BlockInfo = info_at p.stream.offset p.blocks.found x in
        (b : BlockTable) × (let q : Parser =
            record (at (p.stream.offset + length (piece_bytes x)) p) { blocks = b } in
          (parse_block grown p ≡ some (parse_event (block_event info), q))
          × IsReady q
          × (rest q.stream ≡ more)
          × (b.infos ≡ p.blocks.infos ++ (info ∷ []))
          × (b.found ≡ p.blocks.found + 1)
          × (get_elem? b.index p.blocks.found ≡ some (to_off p.stream.offset)))
  parse_block-piece p x more r few v e =
      let off : ℕ = p.stream.offset in
      let info : BlockInfo = info_at off p.blocks.found x in
      let p1 : Parser = record (at (off + 54) p) {
        blocks = record (p.blocks) { infos = p.blocks.infos ++ (info ∷ []) };
      } in
      let (b, e2, noted) = note_block-Noted grown grown_exact p1 info r.full r.room few in
      let limit : leb ptrdiff_max p.blocks.found ≡ false = ground (arith, few) in
      let skipped : skip_block info (record p1 { blocks = b }) ≡ _ =
        skip_block-piece (record p { blocks = b }) off p.blocks.found x more r.clean v
          r.clean.valid.within e in
      let new : parse_new_block p ≡ _ = parse_new_block-piece p x more r.clean v e in
      let n : length (rest p.stream) ≡ length (piece_bytes x) + length more =
        ap length e ∙ length-append (piece_bytes x) more in
      (
        b,
        (
          parse_block-steps p p1 (record p1 { blocks = b }) info _ limit r.no_index new e2 skipped,
          record {
            clean = record {
              valid = at-IsValid p (length (piece_bytes x)) r.clean.valid (omega (arith, n));
              no_error = r.clean.no_error;
            };
            no_index = noted.no_index ∙ r.no_index;
            full = noted.full;
            room = noted.room;
          },
          sym (rest-moved p.stream (length (piece_bytes x)))
              ∙ ap (drop (length (piece_bytes x))) e
              ∙ drop-append (piece_bytes x) more,
          noted.infos_kept,
          noted.found_next,
          noted.entry,
        ),
      )
