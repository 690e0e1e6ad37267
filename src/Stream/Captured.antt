-- ===== src/Stream/Captured.antt =====
-- Consuming bytes while a capture is set: the buffer grows until it has room, and what is consumed
-- is appended to it.
use libasdf.Prelude.{ℕ, zero, suc, ◌+◌, ◌*◌, ◌%◌, ◌^◌, ◌≤◌, ◌<◌, ◌≡◌, refl}
use libasdf.Prelude.{inl, inr, Option, none, some, arith}
use libasdf.Prelude.{List, [], ◌++◌, length, take}
use libasdf.Prelude.{ltb, ◌==◌, if◌then◌else◌, Bool-cases, tests}
use libasdf.Prelude.{length-drop}
use mathlib.Core.List.{append-nil}
use libasdf.Prelude.Bytes.{size_mod, add_size}
use libasdf.Stream.{Stream, Capture, size, rest, grow, stream_capture, mem_consume}

-- Doubling reaches every size up to 2 ^ 63 in as many rounds as it is away, and never wraps.
pub grow_total :
    (f cap needed : ℕ)
    → 0 < cap
    → needed ≤ cap + f
    → needed ≤ 2 ^ 63
    → (cap' : ℕ) × (grow f cap needed ≡ some cap') × (needed ≤ cap') × (cap ≤ cap')
unfolding grow
grow_total zero cap needed p h b = (cap, ground arith, omega arith, omega arith)
grow_total (suc f) cap needed p h b = elim (Bool-cases (ltb cap needed)) [
  | inl y ↦
      let less : cap < needed = omega (tests, y) in
      let (c, e, l, m) = grow_total f (cap * 2 % size_mod) needed (omega arith) (omega arith) b in
      (c, ground (arith, y, e), l, omega arith)
  | inr n ↦ (cap, ground (arith, n), ground arith, omega arith)
]

-- What a stream has captured so far.
abbrev pub captured : Stream → List ℕ
captured s = elim s.capture [ none ↦ [] | some c ↦ c.bytes ]

-- The buffer has room at first, and `n` more bytes keep it under 2 ^ 63.
abbrev pub Fits : Option Capture → ℕ → Type 0
Fits none n = Unit {0}
Fits (some c) n = (0 < c.cap) × (length c.bytes + n ≤ 2 ^ 63)

-- The state after `n` bytes of `s` are consumed.
pub record Consumed (s : Stream) (n : ℕ) (t : Stream) : Type 0 where
  pub buffer : t.buf ≡ s.buf
  pub moved : t.offset ≡ s.offset + n
  pub error_kept : t.error ≡ s.error

pub mem_consume-plain :
    (s : Stream) (n : ℕ)
    → s.capture ≡ none
    → s.offset + n < 2 ^ 64
    → mem_consume n s ≡ some (tt, record s { offset = s.offset + n })
unfolding mem_consume
mem_consume-plain s n h l = ground arith

stream_capture_lem :
    (s : Stream) (c : Capture) (bs : List ℕ) (n : ℕ)
    → s.capture ≡ some c
    → Fits (some c) n
    → n ≤ length bs
    → (t : Stream) × (stream_capture bs n s ≡ some (tt, t))
      × (captured t ≡ c.bytes ++ take n bs)
      × Consumed s 0 t
unfolding stream_capture
stream_capture_lem s c bs n e h l = elim (Bool-cases (n == 0)) [
  | inl z ↦
      let zero_bytes : n ≡ 0 = ground (arith, z) in
      (
        s,
        ground (arith, e, z),
        ground (arith, e, zero_bytes, append-nil c.bytes),
        record { buffer = refl; moved = omega arith; error_kept = refl },
      )
  | inr k ↦
      let (cap', g, le, ge) =
        grow_total (length c.bytes + n) c.cap (length c.bytes + n) h.0 (omega arith) h.1 in
      let cap'' : ℕ = if ltb c.cap (length c.bytes + n) then cap' else c.cap in
      (
        record s { capture = some (record { bytes = c.bytes ++ take n bs; cap = cap'' }) },
        ground (arith, e, k, g),
        refl,
        record { buffer = refl; moved = omega arith; error_kept = refl },
      )
]

-- Consuming available bytes under a capture never faults: the position moves on by their number,
-- the captured bytes are extended by exactly the bytes consumed, and buffer and error stay.
pub mem_consume-captured :
    (s : Stream) (c : Capture) (n : ℕ)
    → s.capture ≡ some c
    → Fits (some c) n
    → s.offset + n ≤ size s
    → size s < 2 ^ 63
    → (t : Stream) × (mem_consume n s ≡ some (tt, t))
      × (captured t ≡ captured s ++ take n (rest s))
      × Consumed s n t
unfolding mem_consume
mem_consume-captured s c n e h l b =
    let (t, r, k, u) =
      stream_capture_lem s c (rest s) n e h (omega (arith, length-drop s.offset s.buf)) in
    (
      record t { offset = add_size t.offset n },
      ground (arith, r),
      ground (arith, k, e),
      record { buffer = u.buffer; moved = omega (arith, u.moved); error_kept = u.error_kept },
    )
