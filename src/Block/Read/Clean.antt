-- ===== src/Block/Read/Clean.antt =====
-- What `asdf_block_info_read` makes of a header that is there.
use libasdf.Prelude.{ℕ, ◌+◌, ◌≤◌, ◌≡◌, refl, sym, ap, ◌∙◌}
use libasdf.Prelude.{Bool, true, false, Option, none, some, arith}
use libasdf.Prelude.{List, ◌++◌, length, take, drop}
use libasdf.Prelude.{le→ltb}
use libasdf.Prelude.{ltb}
use libasdf.Prelude.{length-append, length-drop}
use libasdf.Prelude.{◌>>=◌}
use libasdf.Prelude.Int.{to_off}
use libasdf.Prelude.Endian.{be_value}
use libasdf.Stream.{Stream, rest, mem_next}
use libasdf.Prelude.{take_exact, drop_exact}
use libasdf.Stream.Valid.{IsValid, rest-moved, length-rest}
use libasdf.Stream.Captured.{mem_consume-plain}
use libasdf.Block.{Header, BlockInfo, header_len}
use libasdf.Block.Read.{
  slice, parse_fields, consume_checked, read_fields, read_size, info_read, Reader,
}

-- A stream that the parser can go on with: valid, and no error in its context.
pub record IsClean (s : Stream) : Type 0 where
  pub valid : IsValid s
  pub no_error : s.error ≡ none

abbrev pub advance : ℕ → Stream → Stream
advance n s = record s { offset = s.offset + n }

-- Bytes that are there are consumed, and the stream stays clean.
pub advance-IsClean : {s : Stream} (n : ℕ) → IsClean s → n ≤ length (rest s) → IsClean (advance n s)
advance-IsClean {s} n c l = record {
  valid = record {
    within = omega (arith, length-rest s, c.valid.within);
    small = c.valid.small;
    plain = c.valid.plain;
  };
  no_error = c.no_error;
}

consume_checked-clean :
    {s : Stream} (n : ℕ) (info : BlockInfo) (next : Reader)
    → IsClean s
    → n ≤ length (rest s)
    → consume_checked n info next s ≡ next (advance n s)
unfolding consume_checked
consume_checked-clean {s} n info next c l = ground (
  arith,
  c.no_error,
  mem_consume-plain s n c.valid.plain (omega (arith, length-rest s, c.valid.within, c.valid.small)),
)

mem_next-rest :
    {s : Stream} → IsClean s → 1 ≤ length (rest s) → mem_next s ≡ some (some (rest s), s)
unfolding mem_next
mem_next-rest {s} c l = ground (arith, length-rest s, c.valid.within)

-- The block info after a successful read.
abbrev pub filled : Header → ℕ → ℕ → BlockInfo → BlockInfo
filled h header_at data_at info = record info {
  header = h;
  header_pos = to_off header_at;
  data_pos = to_off data_at;
}

read_fields-clean :
    (header_at : ℕ) (info : BlockInfo) {s : Stream}
    → IsClean s
    → info.header.header_size ≤ length (rest s)
    → let hs = info.header.header_size in
      read_fields header_at info (some (rest s)) s
      ≡ some
          ((true, filled (parse_fields hs (rest s)) header_at (s.offset + hs) info), advance hs s)
unfolding read_fields
read_fields-clean header_at info {s} c l =
    let hs = info.header.header_size in
    let enough : ltb (length (rest s)) hs ≡ false = le→ltb _ _ l in
    rw enough (rw (consume_checked-clean hs _ _ c l) refl)

abbrev pub sized : ℕ → BlockInfo → BlockInfo
sized hs info = record info { header = record (info.header) { header_size = hs } }

read_size-clean :
    (header_at hs : ℕ) (info : BlockInfo) {s : Stream}
    → IsClean s
    → be_value (slice 0 2 (rest s)) ≡ hs
    → header_len ≤ hs
    → 2 + hs ≤ length (rest s)
    → read_size header_at info (some (rest s)) s
      ≡ some (
        (true, filled (parse_fields hs (drop 2 (rest s))) header_at (s.offset + 2 + hs) info),
        advance hs (advance 2 s),
      )
unfolding read_size
read_size-clean header_at hs info {s} c e l m =
    let moved : rest (advance 2 s) ≡ drop 2 (rest s) = sym (rest-moved s 2) in
    let left : hs ≤ length (rest (advance 2 s)) =
      omega (arith, ap length moved, length-drop 2 (rest s)) in
    let next : IsClean (advance 2 s) = advance-IsClean 2 c (omega arith) in
    let result : ℕ → List ℕ → Option ((Bool × BlockInfo) × Stream) = λ k bs.
      some ((true, filled (parse_fields hs bs) header_at k info), advance hs (advance 2 s)) in
    rw (e, le→ltb (length (rest s)) 2 (omega arith), le→ltb hs header_len l)
      (consume_checked-clean 2 (sized hs info) _ c (omega arith)
        ∙ rw (mem_next-rest next (omega arith), ◌>>=◌)
            (read_fields-clean header_at (sized hs info) next left
              ∙ ap (result (s.offset + 2 + hs)) moved))

-- The read of a header that is all there, with its fields as `parse_fields` takes them.
pub info_read_parsed :
    (info : BlockInfo) {s : Stream} (magic sizes fields more : List ℕ) (hs : ℕ)
    → IsClean s
    → rest s ≡ magic ++ (sizes ++ (fields ++ more))
    → length magic ≡ 4
    → length sizes ≡ 2
    → be_value sizes ≡ hs
    → header_len ≤ hs
    → length fields ≡ hs
    → info_read info s
      ≡ some (
        (true, filled (parse_fields hs (fields ++ more)) s.offset (s.offset + 4 + 2 + hs) info),
        advance hs (advance 2 (advance 4 s)),
      )
unfolding info_read
info_read_parsed info {s} magic sizes fields more hs c e lm ls v l lf =
    let total : length (rest s) ≡ 6 + hs + length more = omega (
      arith,
      ap length e,
      length-append magic (sizes ++ (fields ++ more)),
      length-append sizes (fields ++ more),
      length-append fields more,
    ) in
    let moved : rest (advance 4 s) ≡ sizes ++ (fields ++ more) =
      sym (rest-moved s 4) ∙ ap (drop 4) e ∙ drop_exact 4 magic _ lm in
    let next : IsClean (advance 4 s) = advance-IsClean 4 c (omega arith) in
    let left : length (rest (advance 4 s)) ≡ 2 + hs + length more =
      omega
        (arith, ap length moved, length-append sizes (fields ++ more), length-append fields more) in
    let front : slice 0 2 (rest (advance 4 s)) ≡ sizes =
      ap (take 2) moved ∙ take_exact 2 sizes _ ls in
    let behind : drop 2 (rest (advance 4 s)) ≡ fields ++ more =
      ap (drop 2) moved ∙ drop_exact 2 sizes _ ls in
    let result : List ℕ → Option ((Bool × BlockInfo) × Stream) = λ bs. some (
      (true, filled (parse_fields hs bs) s.offset (s.offset + 4 + 2 + hs) info),
      advance hs (advance 2 (advance 4 s)),
    ) in
    consume_checked-clean 4 info _ c (omega arith)
    ∙ rw (mem_next-rest next (omega arith), ◌>>=◌)
        (read_size-clean s.offset hs info next (ap be_value front ∙ v) l (omega arith)
          ∙ ap result behind)
