-- ===== src/FileStream/Seek.antt =====
-- Seeking in a file-backed stream, and handing its `FILE` to libfyaml.
use libasdf.Prelude.{ℕ, ◌+◌, ◌-◌, ◌^◌, ◌≤◌, ◌<◌, ◌≡◌, refl, ap}
use libasdf.Prelude.{◌⊎◌, inl, inr, Bool, true, false, Option, some, arith}
use libasdf.Prelude.{length, drop}
use libasdf.Prelude.{ltb, leb, ◌==◌, Bool-cases}
use libasdf.Prelude.{le→ltb, lt→leb, leb→le, ltb→lt}
use libasdf.Prelude.Bytes.{add_size}
use libasdf.Prelude.Int.{ℤ, pos, negsuc, to_size, pos_part, neg_part}
use libasdf.Stream.{Whence, seek_set, seek_cur, seek_end, other}
use libasdf.FileStream.{
  FileStream, off_max, ahead, remain, fseeko, seek_done, file_seek, file_tell, file_set_input,
}
use libasdf.FileStream.Valid.{IsValid, pending, restarted}

-- Where a seek starts from.
abbrev pub origin : FileStream → Whence → ℕ
origin s seek_set = 0
origin s seek_cur = s.file_pos
origin s seek_end = length s.content
origin s other = 0

-- The numbers that an `off_t` has.
abbrev pub IsOff : ℤ → Type 0
IsOff off = (pos_part off ≤ off_max) × (neg_part off ≤ 2 ^ 63)

-- What a seek does: at a place that is negative or too large, or without a known origin, it fails
-- and changes nothing; otherwise it goes to that place, with an empty window.
abbrev pub Sought : FileStream → ℤ → Whence → Bool → FileStream → Type 0
Sought s off whence false t =
    (t ≡ s)
    × ((whence ≡ other)
        ⊎ ((origin s whence + pos_part off < neg_part off)
            ⊎ (off_max + neg_part off < origin s whence + pos_part off)))
Sought s off whence true t =
    (t.file_pos + neg_part off ≡ origin s whence + pos_part off)
    × (remain t ≡ 0)
    × (t.content ≡ s.content)
    × (t.error ≡ s.error)

at_place :
    {s : FileStream} (p : ℕ)
    → IsValid s
    → p ≤ off_max
    → IsValid (record s { cursor = p; buf_avail = 0; buf_pos = 0; file_pos = p })
at_place {s} p v h =
    restarted (record s { cursor = p; buf_avail = 0; buf_pos = 0; file_pos = p }) refl refl
      (omega arith, v.buffered) (omega arith) h v.small v.plain

tell_valid : {t : FileStream} → IsValid t → file_tell t ≡ some (pos t.file_pos, t)
unfolding file_tell
tell_valid {t} v = rw (le→ltb off_max t.file_pos (omega (arith, v.placed, v.in_range))) refl

abbrev Outcome : FileStream → ℤ → Whence → Option (Bool × FileStream) → Type 0
Outcome s off whence r =
    (ok : Bool) × (t : FileStream) × (r ≡ some (ok, t))
    × IsValid t
    × Sought s off whence ok t
    × (file_tell t ≡ some (pos t.file_pos, t))

done :
    {s : FileStream} (off : ℤ) (whence : Whence) (p : ℕ)
    → IsValid s
    → p ≤ off_max
    → p + neg_part off ≡ origin s whence + pos_part off
    → Outcome s off whence (seek_done (some p) s)
unfolding seek_done
done {s} off whence p v h e =
    let valid = at_place p v h in
    (
      true,
      record s { cursor = p; buf_avail = 0; buf_pos = 0; file_pos = p },
      refl,
      valid,
      (e, refl, refl, refl),
      tell_valid valid,
    )

refused :
    {s : FileStream} (off : ℤ) (whence : Whence)
    → IsValid s
    → (whence ≡ other)
      ⊎ ((origin s whence + pos_part off < neg_part off)
          ⊎ (off_max + neg_part off < origin s whence + pos_part off))
    → Outcome s off whence (some (false, s))
refused {s} off whence v why = (false, s, refl, v, (refl, why), tell_valid v)

-- The sum of a position and an `off_t`, as the code takes it.
add_off_fits :
    (a : ℕ) (off : ℤ)
    → a ≤ off_max
    → IsOff off
    → add_size a (to_size off) ≤ off_max
    → add_size a (to_size off) + neg_part off ≡ a + pos_part off
add_off_fits a (pos n) l h k = omega (arith, h.0)
add_off_fits a (negsuc n) l h k = omega (arith, h.1)

add_off_outside :
    (a : ℕ) (off : ℤ)
    → a ≤ off_max
    → IsOff off
    → off_max < add_size a (to_size off)
    → (a + pos_part off < neg_part off) ⊎ (off_max + neg_part off < a + pos_part off)
add_off_outside a (pos n) l h k = inr (omega (arith, h.0))
add_off_outside a (negsuc n) l h k = inl (omega (arith, h.1))

-- A seek of a valid stream by any `off_t` returns. It fails, and changes nothing, exactly where the
-- place asked for is negative or is no `off_t`, or the origin is unknown; otherwise the stream is
-- at that place, with an empty window. Either way it is valid, and tells its place.
pub file_seek_lem :
    {s : FileStream} (off : ℤ) (whence : Whence)
    → IsValid s
    → IsOff off
    → (ok : Bool) × (t : FileStream) × (file_seek off whence s ≡ some (ok, t))
      × IsValid t
      × Sought s off whence ok t
      × (file_tell t ≡ some (pos t.file_pos, t))
unfolding file_seek fseeko
file_seek_lem {s} (pos n) seek_set v h = done (pos n) seek_set n v h.0 (omega arith)
file_seek_lem {s} (negsuc n) seek_set v h = refused (negsuc n) seek_set v (inr (inl (omega arith)))
file_seek_lem {s} off seek_cur v h =
    let placed : s.file_pos ≤ off_max = omega (arith, v.placed, v.in_range) in
    elim (Bool-cases (ltb off_max (add_size s.file_pos (to_size off)))) [
      | inl y ↦ rw y (
          refused off seek_cur v
            (inr (add_off_outside s.file_pos off placed h (ltb→lt off_max _ y))))
      | inr k ↦
          let fits : add_size s.file_pos (to_size off) ≤ off_max = ground (arith, k) in
          rw k (
            done off seek_cur (add_size s.file_pos (to_size off)) v fits
              (add_off_fits s.file_pos off placed h fits))
    ]
file_seek_lem {s} (pos n) seek_end v h = elim (Bool-cases (ltb off_max (length s.content + n))) [
  | inl y ↦ rw y (refused (pos n) seek_end v (inr (inr (omega (arith, ltb→lt off_max _ y)))))
  | inr k ↦ rw k (done (pos n) seek_end (length s.content + n) v (ground (arith, k)) (omega arith))
]
file_seek_lem {s} (negsuc n) seek_end v h = elim (Bool-cases (leb (length s.content) n)) [
  | inl y ↦
      rw y
        (refused (negsuc n) seek_end v (inr (inl (omega (arith, leb→le (length s.content) n y)))))
  | inr k ↦
      let more : n < length s.content = ground (arith, k) in
      rw k (
        done (negsuc n) seek_end (length s.content - (n + 1)) v (omega (arith, v.small))
          (omega arith))
]
file_seek_lem {s} (pos n) other v h = refused (pos n) other v (inl refl)
file_seek_lem {s} (negsuc n) other v h = refused (negsuc n) other v (inl refl)

-- libfyaml gets the `FILE` of a valid stream at the bytes that a client has not consumed.
pub file_set_input_lem :
    {s : FileStream}
    → IsValid s
    → (t : FileStream) × (file_set_input s ≡ some (true, t))
      × (ahead t ≡ pending s)
      × (t.content ≡ s.content)
      × (t.error ≡ s.error)
unfolding file_set_input fseeko
file_set_input_lem {s} v = elim (Bool-cases (remain s == 0)) [
  | inl y ↦
      let none_left : remain s ≡ 0 = ground (arith, y) in
      (
        record s { cursor = s.cursor + 0 },
        rw (le→ltb off_max (remain s) (omega (arith, v.behind, v.in_range)))
            (rw y (rw (le→ltb off_max (s.cursor + 0) (omega (arith, v.in_range))) refl)),
        ap (λ k. drop k s.content) (omega (arith, v.placed)),
        refl,
        refl,
      )
  | inr k ↦
      let some_left : 0 < remain s = ground (arith, k) in
      (
        record s { cursor = s.cursor - (remain s - 1 + 1) },
        rw (le→ltb off_max (remain s) (omega (arith, v.behind, v.in_range)))
            (rw k (rw (lt→leb s.cursor (remain s - 1) (omega (arith, v.placed))) refl)),
        ap (λ k. drop k s.content) (omega (arith, v.placed)),
        refl,
        refl,
      )
]
