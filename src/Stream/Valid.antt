-- ===== src/Stream/Valid.antt =====
-- The position of a stream stays inside its buffer under every operation but one: a line that the
-- buffer ends without a newline takes it one past the end, and the operations that follow read
-- outside of the buffer.
use libasdf.Prelude.{ℕ, suc, ◌+◌, ◌-◌, ◌^◌, ◌≤◌, ◌<◌, min, ◌≡◌, refl, sym, ap, ◌∙◌}
use libasdf.Prelude.{◌≢◌, inl, inr, Bool, true, Option, none, some, arith}
use libasdf.Prelude.{List, [], ◌∷◌, ◌++◌, length, get_elem?, drop, All}
use libasdf.Prelude.{Option-cases}
use libasdf.Prelude.{length-append, length-drop, drop-drop}
use libasdf.Prelude.Bytes.{add_size}
use libasdf.Prelude.Int.{ℤ, to_size}
use libasdf.Stream.{
  Stream, size, rest, find_newline, scan_tokens, clamp_to, Whence, seek_set, seek_cur, seek_end,
  other,
}
use libasdf.Stream.{mem_readline, mem_scan, mem_seek, mem_open_mem}
use libasdf.Stream.Tokens.{scan_tokens_sound}
use libasdf.Stream.Captured.{mem_consume-plain}

-- No capture is set, and the position is inside the buffer, whose size a C object can have.
pub record IsValid (s : Stream) : Type 0 where
  pub within : s.offset ≤ size s
  pub small : size s < 2 ^ 63
  pub plain : s.capture ≡ none

abbrev pub HasNoNewline : List ℕ → Type 0
HasNoNewline bs = All (λ b. b ≢ b'\n') bs

pub find_newline-append :
    (line more : List ℕ) → HasNoNewline line → find_newline (line ++ (b'\n' ∷ more)) ≡ length line
unfolding find_newline
find_newline-append [] more h = refl
find_newline-append (b ∷ line) more (hb, h) = ground (arith, find_newline-append line more h)

pub find_newline_none : (bs : List ℕ) → HasNoNewline bs → find_newline bs ≡ length bs
unfolding find_newline
find_newline_none [] h = refl
find_newline_none (b ∷ bs) (hb, h) = ground (arith, find_newline_none bs h)

pub find_newline-le : (bs : List ℕ) → find_newline bs ≤ length bs
unfolding find_newline
find_newline-le [] = omega arith
find_newline-le (b ∷ bs) = ground (arith, find_newline-le bs)

pub length-rest : (s : Stream) → length (rest s) ≡ size s - s.offset
length-rest s = length-drop s.offset s.buf

-- The rest of the buffer after `n` more bytes.
pub rest-moved : (s : Stream) (n : ℕ) → drop n (rest s) ≡ drop (s.offset + n) s.buf
rest-moved s n = drop-drop n s.offset s.buf

pub drop_line : (line more : List ℕ) → drop (length line + 1) (line ++ (b'\n' ∷ more)) ≡ more
drop_line [] more = refl
drop_line (b ∷ line) more =
    let e : suc (length line) + 1 ≡ suc (length line + 1) = omega arith in
    ap (λ k. drop k (b ∷ (line ++ (b'\n' ∷ more)))) e ∙ drop_line line more

-- Where a line is read, with its newline.
pub mem_readline_moves :
    {s : Stream} (line more : List ℕ)
    → IsValid s
    → rest s ≡ line ++ (b'\n' ∷ more)
    → HasNoNewline line
    → (mem_readline s
        ≡ some (some (rest s, length line + 1), record s { offset = s.offset + (length line + 1) }))
      × (s.offset + (length line + 1) ≤ size s)
unfolding mem_readline
mem_readline_moves {s} line more v e h =
    let found : find_newline (rest s) ≡ length line = rw e (find_newline-append line more h) in
    let room : s.offset + (length line + 1) ≤ size s =
      omega (arith, ap length e, length-rest s, length-append line (b'\n' ∷ more)) in
    (
      ground (arith, found, mem_consume-plain s (length line + 1) v.plain (omega (arith, v.small))),
      room,
    )

-- A valid stream at a line that ends in a newline returns that line, and is left valid at what
-- follows it, with its error as it was.
pub mem_readline_line :
    {s : Stream} (line more : List ℕ)
    → IsValid s
    → rest s ≡ line ++ (b'\n' ∷ more)
    → HasNoNewline line
    → (t : Stream) × (mem_readline s ≡ some (some (rest s, length line + 1), t))
      × (rest t ≡ more)
      × IsValid t
      × (t.error ≡ s.error)
mem_readline_line {s} line more v e h =
    let (m, room) = mem_readline_moves line more v e h in
    (
      record s { offset = s.offset + (length line + 1) },
      m,
      sym (rest-moved s (length line + 1)) ∙ ap (drop (length line + 1)) e ∙ drop_line line more,
      record { within = room; small = v.small; plain = v.plain },
      refl,
    )

-- A valid stream whose remaining bytes, at least one, have no newline returns all of them as a
-- line, with a length of one byte more than there are; from then on every `readline`, and every
-- scan for a token, reads outside of the buffer.
pub mem_readline_unterminated :
    {s : Stream} (tokens : List (List ℕ))
    → IsValid s
    → s.offset < size s
    → HasNoNewline (rest s)
    → tokens ≢ []
    → (t : Stream) × (mem_readline s ≡ some (some (rest s, size s - s.offset + 1), t))
      × (mem_readline t ≡ none)
      × (mem_scan tokens t ≡ none)
unfolding mem_readline mem_scan
mem_readline_unterminated {s} tokens v l h ne =
    let found : find_newline (rest s) ≡ size s - s.offset =
      omega (arith, find_newline_none (rest s) h, length-rest s) in
    (
      record s { offset = size s + 1 },
      ground (
        arith,
        found,
        mem_consume-plain s (size s - s.offset + 1) v.plain (omega (arith, v.small)),
      ),
      ground arith,
      no_token tokens ne,
    )
  where
    no_token :
        (ts : List (List ℕ)) → ts ≢ [] → mem_scan ts (record s { offset = size s + 1 }) ≡ none
    no_token [] ne = absurd (ne refl)
    no_token (t ∷ ts) ne = ground arith

-- Where a scan leaves the stream: at the token found, or at the end of the buffer.
abbrev pub ScanResult : List (List ℕ) → Stream → Stream → Option (ℕ × ℕ) → Type 0
ScanResult tokens s t none = t.offset ≡ size s
ScanResult tokens s t (some (o, i)) =
    (t.offset ≡ o)
    × (s.offset ≤ o)
    × ((tok : List ℕ) × (more : List ℕ) × (get_elem? tokens i ≡ some tok) × (rest t ≡ tok ++ more))

pub mem_scan-none :
    {s : Stream} (tokens : List (List ℕ))
    → IsValid s
    → scan_tokens (rest s) tokens ≡ none
    → mem_scan tokens s ≡ some (none, record s { offset = size s })
unfolding mem_scan
mem_scan-none {s} tokens v e =
    ground
      (arith, e, v.within, mem_consume-plain s (size s - s.offset) v.plain (omega (arith, v.small)))

pub mem_scan-some :
    {s : Stream} (tokens : List (List ℕ)) (o i : ℕ)
    → IsValid s
    → scan_tokens (rest s) tokens ≡ some (o, i)
    → mem_scan tokens s ≡ some (some (o + s.offset, i), record s { offset = s.offset + o })
unfolding mem_scan
mem_scan-some {s} tokens o i v e =
    let (l, t, more, g, d) = scan_tokens_sound (rest s) tokens o i e in
    ground
      (arith, e, v.within, mem_consume-plain s o v.plain (omega (arith, v.small, length-rest s, l)))

-- A scan of a valid stream returns, keeps the buffer and the error, and leaves a valid stream: at
-- the token found, which is not before the old position, or, if the scan fails, at the end of the
-- buffer.
pub mem_scan_lem :
    {s : Stream} (tokens : List (List ℕ))
    → IsValid s
    → (r : Option (ℕ × ℕ)) × (t : Stream) × (mem_scan tokens s ≡ some (r, t))
      × IsValid t
      × (t.buf ≡ s.buf)
      × (t.error ≡ s.error)
      × ScanResult tokens s t r
mem_scan_lem {s} tokens v = elim (Option-cases (scan_tokens (rest s) tokens)) [
  | inl e ↦ (
    none,
    record s { offset = size s },
    mem_scan-none tokens v e,
    record { within = omega arith; small = v.small; plain = v.plain },
    refl,
    refl,
    refl,
  )
  | inr ((o, i), e) ↦
      let (l, tok, more, g, d) = scan_tokens_sound (rest s) tokens o i e in
      (
        some (o + s.offset, i),
        record s { offset = s.offset + o },
        mem_scan-some tokens o i v e,
        record { within = omega (arith, length-rest s, l); small = v.small; plain = v.plain },
        refl,
        refl,
        (omega arith, omega arith, (tok, more, g, sym (rest-moved s o) ∙ d)),
      )
]

clamped :
    (s : Stream) (p : ℕ)
    → IsValid s
    → (t : Stream) × (◌≡◌ {A = Option (Bool × Stream)} (some (true, clamp_to s p)) (some (true, t)))
      × IsValid t
      × (t.buf ≡ s.buf)
      × (t.offset ≡ min p (size s))
clamped s p v = (
  clamp_to s p,
  refl,
  record { within = ground arith; small = v.small; plain = v.plain },
  refl,
  ground arith,
)

-- The place that a seek asks for, as a `size_t`.
abbrev pub target : Stream → ℤ → Whence → ℕ
target s off seek_set = to_size off
target s off seek_cur = add_size s.offset (to_size off)
target s off seek_end = add_size (size s) (to_size off)
target s off other = s.offset

-- A seek from a known origin always succeeds, and leaves a valid stream: at the place asked for, or
-- at the end of the buffer, if that place, which wraps below 0, is not inside.
pub mem_seek_lem :
    {s : Stream} (off : ℤ) (whence : Whence)
    → IsValid s
    → whence ≢ other
    → (t : Stream) × (mem_seek off whence s ≡ some (true, t))
      × IsValid t
      × (t.buf ≡ s.buf)
      × (t.offset ≡ min (target s off whence) (size s))
unfolding mem_seek
mem_seek_lem {s} off seek_set v ne = clamped s (target s off seek_set) v
mem_seek_lem {s} off seek_cur v ne = clamped s (target s off seek_cur) v
mem_seek_lem {s} off seek_end v ne = clamped s (target s off seek_end) v
mem_seek_lem {s} off other v ne = absurd (ne refl)

-- A region that `open_mem` hands out lies inside the buffer, begins where it was asked for and is no longer than asked for.
pub mem_open_mem_inside :
    {s : Stream} (off : ℤ) (n : ℕ) {start avail : ℕ} {t : Stream}
    → mem_open_mem off n s ≡ some (some (start, avail), t)
    → (t ≡ s) × (start ≡ to_size off) × (start + avail ≤ size s) × (avail ≤ n)
unfolding mem_open_mem
mem_open_mem_inside off n h = ground arith
