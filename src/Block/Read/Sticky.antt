-- ===== src/Block/Read/Sticky.antt =====
-- An error stays in the context: once a header was refused, no later header is read.
use libasdf.Prelude.{ℕ, ◌≡◌, refl}
use libasdf.Prelude.{◌⊎◌, inl, inr, Bool, true, false, Option, none, some, arith}
use libasdf.Prelude.{List, length}
use libasdf.Prelude.{ltb, leb, if◌then◌else◌, Bool-cases}
use libasdf.Prelude.{pure, ◌>>=◌}
use mathlib.Core.Path.{subst}
use libasdf.Prelude.Bytes.{add_size}
use libasdf.Prelude.Endian.{be_value}
use libasdf.Error.{ErrorCode, invalid_block_header, unexpected_eof}
use libasdf.Stream.{Stream, size, rest, mem_next, mem_consume}
use libasdf.Block.{BlockInfo, header_len}
use libasdf.Block.Read.{
  has_error, slice, consume_checked, fail_with, read_fields, read_size, info_read, Reader,
}

-- What a read leaves: no capture, and success or an error in the context.
abbrev Reports : Option ((Bool × BlockInfo) × Stream) → Type 0
Reports none = Unit {0}
Reports (some ((done, info), t)) = (t.capture ≡ none) × ((done ≡ true) ⊎ (has_error t ≡ true))

mem_consume-any :
    (n : ℕ) (s : Stream)
    → s.capture ≡ none
    → mem_consume n s ≡ some (tt, record s { offset = add_size s.offset n })
unfolding mem_consume
mem_consume-any n s p = ground arith

-- `mem_next` gives a result and leaves the stream as it is.
mem_next-same : (s : Stream) → (r : Option (List ℕ)) × (mem_next s ≡ some (r, s))
unfolding mem_next
mem_next-same s = (if leb (size s) s.offset then none else some (rest s), ground arith)

fail_with-Reports :
    (e : ErrorCode) (info : BlockInfo) (s : Stream)
    → s.capture ≡ none
    → Reports (fail_with e info s)
unfolding fail_with
fail_with-Reports e info s p = (p, inr refl)

consume_checked-Reports :
    (n : ℕ) (info : BlockInfo) (next : Reader) (s : Stream)
    → ((s' : Stream) → s'.capture ≡ none → Reports (next s'))
    → s.capture ≡ none
    → Reports (consume_checked n info next s)
unfolding consume_checked
consume_checked-Reports n info next s k p = rw (mem_consume-any n s p, ◌>>=◌) (split s.error refl)
  where
    moved : Stream
    moved = record s { offset = add_size s.offset n }

    split :
        (e : Option ErrorCode)
        → s.error ≡ e
        → Reports ((if has_error moved then pure (false, info) else next) moved)
    split none e = rw e (k (record moved { error = none }) p)
    split (some x) e = rw e (p, inr refl)

next_then-Reports :
    (next : Option (List ℕ) → Reader) (s : Stream)
    → ((r : Option (List ℕ)) → Reports (next r s))
    → Reports ((mem_next >>= next) s)
next_then-Reports next s k = let (r, e) = mem_next-same s in rw (e, ◌>>=◌) (k r)

read_fields-Reports :
    (header_at : ℕ) (info : BlockInfo) (r : Option (List ℕ)) (s : Stream)
    → s.capture ≡ none
    → Reports (read_fields header_at info r s)
unfolding read_fields
read_fields-Reports header_at info none s p = fail_with-Reports unexpected_eof info s p
read_fields-Reports header_at info (some buf) s p =
    elim (Bool-cases (ltb (length buf) info.header.header_size)) [
      | inl y ↦ rw y (fail_with-Reports unexpected_eof info s p)
      | inr n ↦ rw n (consume_checked-Reports _ _ _ s (λ s' q. (q, inl refl)) p)
    ]

abbrev with_size : ℕ → BlockInfo → BlockInfo
with_size n info = record info { header = record (info.header) { header_size = n } }

read_size-Reports :
    (header_at : ℕ) (info : BlockInfo) (r : Option (List ℕ)) (s : Stream)
    → s.capture ≡ none
    → Reports (read_size header_at info r s)
unfolding read_size
read_size-Reports header_at info none s p = fail_with-Reports invalid_block_header info s p
read_size-Reports header_at info (some buf) s p = elim (Bool-cases (ltb (length buf) 2)) [
  | inl y ↦ rw y (fail_with-Reports unexpected_eof info s p)
  | inr n ↦ rw n (elim (Bool-cases (ltb (be_value (slice 0 2 buf)) header_len)) [
    | inl y ↦
        rw y
          (fail_with-Reports invalid_block_header (with_size (be_value (slice 0 2 buf)) info) s p)
    | inr m ↦ rw m (
        consume_checked-Reports 2 _ _ s
          (λ s' q. next_then-Reports _ s' (λ r. read_fields-Reports header_at _ r s' q)) p)
  ])
]

info_read-Reports : (info : BlockInfo) (s : Stream) → s.capture ≡ none → Reports (info_read info s)
unfolding info_read
info_read-Reports info s p =
    consume_checked-Reports 4 info _ s
      (λ s' q. next_then-Reports _ s' (λ r. read_size-Reports s.offset info r s' q)) p

error_of : (t : Stream) → has_error t ≡ true → (e : ErrorCode) × (t.error ≡ some e)
error_of t h = of_option t.error h
  where
    of_option :
        (o : Option ErrorCode)
        → elim o [ none ↦ false | some x ↦ true ] ≡ true
        → (e : ErrorCode) × (o ≡ some e)
    of_option none h = cc
    of_option (some e) h = (e, refl)

-- With an error in its context a header is refused, whatever stands in the stream.
refused :
    (info : BlockInfo) (v : Stream)
    → v.capture ≡ none
    → has_error v ≡ true
    → info_read info v ≡ some ((false, info), record v { offset = add_size v.offset 4 })
unfolding info_read
refused info v q e = rw (mem_consume-any 4 v q, ◌>>=◌) (rw e refl)

-- A refused header leaves an error, and no capture.
left_error :
    (info : BlockInfo) (s t : Stream) {left : BlockInfo}
    → s.capture ≡ none
    → info_read info s ≡ some ((false, left), t)
    → (t.capture ≡ none) × (has_error t ≡ true)
left_error info s t p h =
    let (q, e) = subst Reports h (info_read-Reports info s p) in (q, ground (arith, e))

-- The next read of the stream that a refused header left, from any place.
pub info_read_again :
    (info info' : BlockInfo) (o : ℕ) (s t : Stream) {left : BlockInfo}
    → s.capture ≡ none
    → info_read info s ≡ some ((false, left), t)
    → (u : Stream) × (info_read info' (record t { offset = o }) ≡ some ((false, info'), u))
info_read_again info info' o s t p h =
    let (q, e) = left_error info s t p h in
    (record t { offset = add_size o 4 }, refused info' (record t { offset = o }) q e)

-- A read of a header that fails on a stream without a capture always leaves an error in the
-- context. With that error in its context, any stream without a capture refuses the next read of a
-- header, also where it has a header that would else be read; the read steps over four bytes, and
-- leaves the error and the block info as they were.
pub info_read_sticky :
    (info info' : BlockInfo) (s t r : Stream) {left : BlockInfo}
    → s.capture ≡ none
    → r.capture ≡ none
    → info_read info s ≡ some ((false, left), t)
    → (e : ErrorCode) × (t.error ≡ some e)
      × (info_read info' (record r { error = t.error })
          ≡ some ((false, info'), record r { offset = add_size r.offset 4; error = t.error }))
info_read_sticky info info' s t r p p' h =
    let (q, has) = left_error info s t p h in
    let (e, is) = error_of t has in (e, is, refused info' (record r { error = t.error }) p' has)
