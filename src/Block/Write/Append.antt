-- ===== src/Block/Write/Append.antt =====
-- A block written at the end of a stream over `malloc`ed memory: the bytes that are appended.
use libasdf.Prelude.{ℕ, zero, suc, ◌+◌, ◌-◌, ◌^◌, ◌≤◌, ◌<◌, ◌≡◌, refl, sym, ap, ap₂, ◌∙◌}
use libasdf.Prelude.{inl, inr, Bool, true, false, Option, none, some, arith}
use libasdf.Prelude.{List, [], ◌∷◌, ◌++◌, length, replicate}
use libasdf.Prelude.{ltb, ◌==◌, Bool-cases, tests}
use libasdf.Prelude.{length-append, length-take}
use libasdf.Prelude.{◌>>=◌}
use mathlib.Core.List.{append-nil, append_assoc}
use libasdf.Prelude.{lt→ltb, replicate-append, concat}
use libasdf.Prelude.Int.{ℤ, to_off}
use libasdf.Prelude.Endian.{to_be, length-to_be}
use libasdf.Stream.{Stream, size, mem_write, mem_tell}
use libasdf.Stream.Write.{mem_write-append}
use libasdf.Token.{block_magic}
use libasdf.Block.{Header, BlockInfo, header_len}
use libasdf.Block.Write.{
  write_pieces, zero_pieces, allocated_for, comp_field, header_pieces, body_pieces,
}
use libasdf.Block.Write.{with_checksum, write_body, finish_write, write_payload, payload}

-- The stream takes everything that is written at its end, and has the room of a C object.
pub record IsAppending (s : Stream) (n : ℕ) : Type 0 where
  pub grows : s.is_resizeable ≡ true
  pub at_end : s.offset ≡ size s
  pub room : size s + n < 2 ^ 63

abbrev pub appended : Stream → List ℕ → Stream
appended s bs = record s { buf = s.buf ++ bs; offset = size s + length bs }

pub appended-IsAppending :
    (s : Stream) (bs : List ℕ) (n : ℕ)
    → IsAppending s (length bs + n)
    → IsAppending (appended s bs) n
appended-IsAppending s bs n a = record {
  grows = a.grows;
  at_end = omega (arith, length-append s.buf bs);
  room = omega (arith, length-append s.buf bs, a.room);
}

pub appended-append :
    (s : Stream) (xs ys : List ℕ) → appended (appended s xs) ys ≡ appended s (xs ++ ys)
appended-append s xs ys =
    ap₂ (λ b o. record s { buf = b; offset = o }) (append_assoc s.buf xs ys)
      (omega (arith, length-append s.buf xs, length-append xs ys))

appended_none : (s : Stream) → IsAppending s 0 → appended s [] ≡ s
appended_none s a =
    ap₂ (λ b o. record s { buf = b; offset = o }) (append-nil s.buf) (omega (arith, a.at_end))

pub concat-zero_pieces : (f n : ℕ) → n ≤ f → concat (zero_pieces f n) ≡ replicate n 0
unfolding zero_pieces
concat-zero_pieces zero zero h = refl
concat-zero_pieces zero (suc n) h = absurd (omega arith)
concat-zero_pieces (suc f) zero h = refl
concat-zero_pieces (suc f) (suc n) h = elim (Bool-cases (ltb 512 (suc n))) [
  | inl y ↦
      rw (lt→ltb 0 (suc n) (omega arith), y)
        (ap (λ t. replicate 512 0 ++ t) (concat-zero_pieces f (suc n - 512) (omega arith))
          ∙ replicate-append 512 (suc n - 512) 0
          ∙ ap (λ k. replicate k 0) (join 512 (omega (tests, y))))
  | inr y ↦
      rw (lt→ltb 0 (suc n) (omega arith), y)
        (ap (λ t. replicate (suc n) 0 ++ t) (concat-zero_pieces f (suc n - suc n) (omega arith))
          ∙ replicate-append (suc n) (suc n - suc n) 0
          ∙ ap (λ k. replicate k 0) (join (suc n) (omega arith)))
]
  where
    join : (k : ℕ) → k ≤ suc n → k + (suc n - k) ≡ suc n
    join k l = omega arith

module _ (alloc : ℕ → List ℕ) (alloc_size : (n : ℕ) → length (alloc n) ≡ n) where
  pub write_pieces-append :
      (ps : List (List ℕ)) (s : Stream)
      → IsAppending s (length (concat ps))
      → write_pieces alloc ps s ≡ some (true, appended s (concat ps))
  unfolding write_pieces
  write_pieces-append [] s a = ap (λ t. some (true, t)) (sym (appended_none s a))
  write_pieces-append (p ∷ ps) s a =
      let both : length (p ++ concat ps) ≡ length p + length (concat ps) =
        length-append p (concat ps) in
      let first : mem_write (alloc (length p)) p s ≡ some (length p, appended s p) =
        mem_write-append s (alloc (length p)) p a.grows a.at_end (omega (arith, a.room))
          (alloc_size (length p)) in
      let whole : (length p == length p) ≡ true = ground arith in
      rw (first, whole, write_pieces)
        (write_pieces-append ps (appended s p) (
            appended-IsAppending s p (length (concat ps))
              (record { grows = a.grows; at_end = a.at_end; room = omega (arith, a.room) }))
          ∙ ap (λ t. some (true, t)) (appended-append s p (concat ps)))

-- The zeros that fill the block up to its allocated size.
abbrev pub padding : Header → List ℕ → List ℕ
padding h bytes = replicate (allocated_for h (length bytes) - length bytes) 0

-- The 54 bytes of a header, as the format has them.
abbrev pub header_bytes : Header → List ℕ → Option (List ℕ) → List ℕ
header_bytes h bytes comp =
    concat (
      block_magic
      ∷ to_be 2 48
      ∷ to_be 4 h.flags
      ∷ comp_field comp
      ∷ to_be 8 (allocated_for h (length bytes))
      ∷ to_be 8 (length bytes)
      ∷ to_be 8 h.data_size
      ∷ [])
    ++ h.checksum

abbrev pub block_bytes : Header → List ℕ → Option (List ℕ) → List ℕ
block_bytes h bytes comp = header_bytes h bytes comp ++ (bytes ++ padding h bytes)

-- A compression field is four bytes.
abbrev pub IsCompression : Option (List ℕ) → Type 0
IsCompression none = Unit {0}
IsCompression (some name) = length name ≡ 4

pub length-comp_field : (comp : Option (List ℕ)) → IsCompression comp → length (comp_field comp) ≡ 4
length-comp_field none h = refl
length-comp_field (some name) h = omega (arith, length-take 4 name)

length-header_pieces :
    (h : Header) (bytes : List ℕ) (comp : Option (List ℕ))
    → IsCompression comp
    → length (concat (header_pieces h bytes comp)) ≡ 38
length-header_pieces h bytes comp c = omega (
  arith,
  length-comp_field comp c,
  length-append (to_be 2 header_len) (to_be 4 h.flags ++ (comp_field comp ++ sizes)),
  length-append (to_be 4 h.flags) (comp_field comp ++ sizes),
  length-append (comp_field comp) sizes,
  length-append (to_be 8 (allocated_for h (length bytes)))
      (to_be 8 (length bytes) ++ (to_be 8 h.data_size ++ [])),
  length-append (to_be 8 (length bytes)) (to_be 8 h.data_size ++ []),
  length-append (to_be 8 h.data_size) [],
  length-to_be 2 header_len,
  length-to_be 4 h.flags,
  length-to_be 8 (allocated_for h (length bytes)),
  length-to_be 8 (length bytes),
  length-to_be 8 h.data_size,
)
  where
    sizes : List ℕ
    sizes =
        to_be 8 (allocated_for h (length bytes))
        ++ (to_be 8 (length bytes) ++ (to_be 8 h.data_size ++ []))

concat-body_pieces :
    (h : Header) (bytes : List ℕ) → concat (body_pieces h bytes) ≡ bytes ++ padding h bytes
concat-body_pieces h [] =
    concat-zero_pieces (allocated_for h 0) (allocated_for h 0) (omega arith)
    ∙ ap (λ k. replicate k 0) (minus_zero (allocated_for h 0))
  where
    minus_zero : (n : ℕ) → n ≡ n - 0
    minus_zero n = omega arith
concat-body_pieces h (b ∷ bs) =
    ap (λ t. (b ∷ bs) ++ t)
      (concat-zero_pieces (allocated_for h (length (b ∷ bs)))
        (allocated_for h (length (b ∷ bs)) - length (b ∷ bs)) (omega arith))

-- The block as it is left when it was written from `start` on.
abbrev pub written : (List ℕ → List ℕ) → Bool → ℕ → BlockInfo → List ℕ → BlockInfo
written md5 checksum start info bytes =
    record (with_checksum md5 checksum bytes (record info { header_pos = to_off start })) {
      data_pos = to_off (start + 54);
    }

abbrev pub summed : (List ℕ → List ℕ) → Bool → BlockInfo → List ℕ → Header
summed md5 checksum info bytes = (with_checksum md5 checksum bytes info).header

module _ (md5 : List ℕ → List ℕ) (md5_size : (bs : List ℕ) → length (md5 bs) ≡ 16)
    (alloc : ℕ → List ℕ) (alloc_size : (n : ℕ) → length (alloc n) ≡ n)
    (comp_open : BlockInfo → List ℕ → Option (List ℕ)) where
  write_body-append :
      (info : BlockInfo) (bytes : List ℕ) (at : ℤ) (s : Stream)
      → IsAppending s (length (bytes ++ padding info.header bytes))
      → write_body md5 alloc comp_open true info bytes at s
        ≡ some
            ((true, record info { data_pos = at }), appended s (bytes ++ padding info.header bytes))
  unfolding write_body
  write_body-append info bytes at s a =
      let e = concat-body_pieces info.header bytes in
      rw (write_pieces-append alloc alloc_size (body_pieces info.header bytes) s (rw e a), ◌>>=◌)
        (rw e refl)

  finish_write-append :
      (info : BlockInfo) (bytes : List ℕ) (s : Stream)
      → length info.header.checksum ≡ 16
      → IsAppending s (length (info.header.checksum ++ (bytes ++ padding info.header bytes)))
      → finish_write md5 alloc comp_open true info bytes s
        ≡ some (
          (true, record info { data_pos = to_off (size s + 16) }),
          appended s (info.header.checksum ++ (bytes ++ padding info.header bytes)),
        )
  unfolding finish_write mem_tell
  finish_write-append info bytes s l a =
      let sum : List ℕ = info.header.checksum in
      let body : List ℕ = bytes ++ padding info.header bytes in
      let total : length (sum ++ body) ≡ length sum + length body = length-append sum body in
      let one : concat (sum ∷ []) ≡ sum = append-nil sum in
      let first : write_pieces alloc (sum ∷ []) s ≡ some (true, appended s sum) =
        write_pieces-append alloc alloc_size (sum ∷ []) s (record {
          grows = a.grows;
          at_end = a.at_end;
          room = omega (arith, a.room, ap length one);
        })
        ∙ ap (λ b. some (true, appended s b)) one in
      let at : to_off (appended s sum).offset ≡ to_off (size s + 16) =
        ap (λ n. to_off (size s + n)) l in
      rw (first, ◌>>=◌)
        (rw at (
          write_body-append info bytes _ (appended s sum) (
            appended-IsAppending s sum (length body)
              (record { grows = a.grows; at_end = a.at_end; room = omega (arith, a.room) }))
          ∙ ap (λ t. some ((true, record info { data_pos = to_off (size s + 16) }), t))
              (appended-append s sum body)))

  -- The header pieces, then the rest of the block `b`, which has the same fields but the checksum.
  write_then_finish :
      (b : BlockInfo) (bytes : List ℕ) (comp : Option (List ℕ)) (s : Stream)
      → IsCompression comp
      → length b.header.checksum ≡ 16
      → IsAppending s (length (block_bytes b.header bytes comp))
      → (write_pieces alloc (header_pieces b.header bytes comp) s
          ≡ some (true, appended s (concat (header_pieces b.header bytes comp))))
        × (finish_write md5 alloc comp_open true b bytes
              (appended s (concat (header_pieces b.header bytes comp)))
            ≡ some (
              (true, record b { data_pos = to_off (size s + 54) }),
              appended s (block_bytes b.header bytes comp),
            ))
  write_then_finish b bytes comp s c l a =
      let h : Header = b.header in
      let front : List ℕ = concat (header_pieces h bytes comp) in
      let body : List ℕ = bytes ++ padding h bytes in
      let assoc : block_bytes h bytes comp ≡ front ++ (h.checksum ++ body) =
        append_assoc front h.checksum body in
      let total : length (block_bytes h bytes comp) ≡ length front + length (h.checksum ++ body) =
        ap length assoc ∙ length-append front (h.checksum ++ body) in
      let thirty_eight : length front ≡ 38 = length-header_pieces h bytes comp c in
      let here : size (appended s front) + 16 ≡ size s + 54 =
        omega (arith, length-append s.buf front, thirty_eight) in
      (
        write_pieces-append alloc alloc_size (header_pieces h bytes comp) s
            (record { grows = a.grows; at_end = a.at_end; room = omega (arith, a.room, total) }),
        finish_write-append b bytes (appended s front) l (
              appended-IsAppending s front (length (h.checksum ++ body)) (record {
                grows = a.grows;
                at_end = a.at_end;
                room = omega (arith, a.room, total);
              }))
            ∙ ap₂ (λ k t. some ((true, record b { data_pos = to_off k }), t)) here
                (appended-append s front (h.checksum ++ body) ∙ ap (appended s) (sym assoc)),
      )

  abbrev noted : Bool → BlockInfo → List ℕ → ℕ → ℕ → BlockInfo
  noted checksum info bytes header_at data_at =
      record (with_checksum md5 checksum bytes (record info { header_pos = to_off header_at })) {
        data_pos = to_off data_at;
      }

  -- A payload written at the end of a stream over `malloc`ed memory is appended to it whole, while
  -- the stream stays shorter than 2 ^ 63 bytes: the header, with the checksum of the payload or the
  -- one that the block had, the payload, and zeros up to the allocated size. The block notes where
  -- its header and its data begin.
  pub write_payload-append :
      (checksum : Bool) (info : BlockInfo) (bytes : List ℕ) (comp : Option (List ℕ)) (s : Stream)
      → IsCompression comp
      → length info.header.checksum ≡ 16
      → IsAppending s (length (block_bytes (summed md5 checksum info bytes) bytes comp))
      → write_payload md5 alloc comp_open checksum info (payload bytes comp) s
        ≡ some (
          (true, written md5 checksum (size s) info bytes),
          appended s (block_bytes (summed md5 checksum info bytes) bytes comp),
        )
  unfolding write_payload mem_tell
  write_payload-append true info bytes comp s c l a =
      let b : BlockInfo =
        with_checksum md5 true bytes (record info { header_pos = to_off s.offset }) in
      let (wrote, finished) = write_then_finish b bytes comp s c (md5_size bytes) a in
      rw (wrote, ◌>>=◌)
        (finished
          ∙ ap
              (λ k. some (
                (true, noted true info bytes k (size s + 54)),
                appended s (block_bytes b.header bytes comp),
              ))
              a.at_end)
  write_payload-append false info bytes comp s c l a =
      let b : BlockInfo =
        with_checksum md5 false bytes (record info { header_pos = to_off s.offset }) in
      let (wrote, finished) = write_then_finish b bytes comp s c l a in
      rw (wrote, ◌>>=◌)
        (finished
          ∙ ap
              (λ k. some (
                (true, noted false info bytes k (size s + 54)),
                appended s (block_bytes b.header bytes comp),
              ))
              a.at_end)
