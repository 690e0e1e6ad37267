-- ===== src/Parser/Index/Absent.antt =====
-- A file without a block index: the search changes nothing but the parser's state.
use libasdf.Prelude.{ℕ, suc, ◌^◌, ◌≤◌, ◌<◌, ◌≡◌, refl}
use libasdf.Prelude.{true, false, Option, none, some, arith}
use libasdf.Prelude.{List, [], ◌∷◌, drop}
use libasdf.Prelude.{◌==◌}
use libasdf.Prelude.{◌>>=◌}
use libasdf.Prelude.{le→ltb, lt→ltb}
use libasdf.Prelude.Int.{ℤ, pos, to_off}
use libasdf.Stream.{Stream, size, scan_tokens, mem_scan, mem_seek, mem_tell, seek_set, seek_end}
use libasdf.Stream.Valid.{IsValid, mem_scan-none}
use libasdf.Token.{block_index_header, scan_for}
use libasdf.Parser.{Parser, State, parse_continue}
use libasdf.Parser.Tree.Scan.{at}
use libasdf.Parser.Index.{aligned_offset, find_loop, parse_find_block_index, parse_block_index}
use libasdf.Parser.Index.Order.{aligned_offset_lem}

seek_to :
    (s : Stream) (n : ℕ)
    → n ≤ size s
    → mem_seek (pos n) seek_set s ≡ some (true, record s { offset = n })
unfolding mem_seek
seek_to s n l = rw (le→ltb (size s) n l) refl

seek_to_end :
    (s : Stream)
    → size s < 2 ^ 63
    → mem_seek (pos 0) seek_end s ≡ some (true, record s { offset = size s })
unfolding mem_seek
seek_to_end s l = ground (arith, l)

to_off-small : (n : ℕ) → n < 2 ^ 63 → to_off n ≡ pos n
to_off-small n l = rw (lt→ltb n (2 ^ 63) l) refl

find_nothing :
    (p : Parser) (f page_size : ℕ)
    → 0 < page_size
    → IsValid p.stream
    → scan_tokens
        (drop (aligned_offset page_size (size p.stream)) p.stream.buf)
        (block_index_header ∷ [])
      ≡ none
    → parse_find_block_index (suc f) page_size (pos (size p.stream)) p
      ≡ some (parse_continue, at (size p.stream) p)
unfolding parse_find_block_index find_loop scan_for
find_nothing p f page_size l v e =
    let n : ℕ = aligned_offset page_size (size p.stream) in
    let (aligned, inside, near) = aligned_offset_lem page_size (size p.stream) l in
    let s : Stream = record (p.stream) { offset = n } in
    let v' : IsValid s = record { within = inside; small = v.small; plain = v.plain } in
    let failed : mem_scan (block_index_header ∷ []) s ≡ some (none, record s { offset = size s }) =
      mem_scan-none (block_index_header ∷ []) v' e in
    let some_page : (page_size == 0) ≡ false = ground (arith, l) in
    rw some_page (rw (seek_to p.stream n inside, ◌>>=◌) (rw (failed, ◌>>=◌) refl))

module _ (grown : ℕ → ℕ → ℕ) (read_index : List ℕ → Option (List (Option ℤ))) where
  -- If no block index header stands in the part of the file that is searched, the parser goes on to
  -- the tree or the first block, from where it stood. The stream is valid and the page size
  -- positive. One round of the search is enough.
  pub parse_block_index-absent :
      (p : Parser) (f page_size : ℕ)
      → 0 < page_size
      → IsValid p.stream
      → scan_tokens
          (drop (aligned_offset page_size (size p.stream)) p.stream.buf)
          (block_index_header ∷ [])
        ≡ none
      → parse_block_index grown read_index (suc f) page_size p
        ≡ some (parse_continue, record p { state = State.tree_or_block })
  unfolding parse_block_index mem_tell
  parse_block_index-absent p f page_size l v e =
      let s : Stream = p.stream in
      let back : mem_seek (pos s.offset) seek_set (record s { offset = size s }) ≡ some (true, s) =
        seek_to (record s { offset = size s }) s.offset v.within in
      let found : parse_find_block_index (suc f) page_size (pos (size s)) (at (size s) p) ≡ _ =
        find_nothing (at (size s) p) f page_size l
          (record { within = omega arith; small = v.small; plain = v.plain }) e in
      rw (to_off-small s.offset (omega (arith, v.within, v.small))) (
        rw (seek_to_end s v.small, ◌>>=◌)
          (rw (to_off-small (size s) v.small) (rw (found, ◌>>=◌) (rw (back, ◌>>=◌) refl))))
