-- ===== src/FileStream/Scan/Rounds.antt =====
-- The rounds of `file_scan` against the scan of what the file has left.
use libasdf.Prelude.{ℕ, zero, suc, ◌+◌, ◌-◌, ◌≤◌, ◌<◌, min, ◌≡◌, refl, sym, ap, ap₂, ◌∙◌}
use libasdf.Prelude.{◌⊎◌, inl, inr, false, Option, none, some, arith}
use libasdf.Prelude.{List, [], ◌∷◌, length, drop}
use libasdf.Prelude.{ltb, leb, Bool-cases, Option-cases}
use libasdf.Prelude.{drop-drop}
use libasdf.Prelude.{◌>>=◌}
use libasdf.Prelude.{ltb→lt}
use libasdf.Stream.Tokens.{scan_tokens_sound}
use libasdf.Stream.{scan_from, scan_tokens}
use libasdf.FileStream.{
  FileStream, ahead, remain, slide, scan_window, after_slide, scan_rounds, file_consume,
}
use libasdf.FileStream.Valid.{IsValid, unread, pending, drop-le-append, length-unread}
use mathlib.Core.Option
use libasdf.FileStream.Next.{length-pending}
use libasdf.FileStream.Consume.{file_consume_lem}
use libasdf.FileStream.Scan.Pieces.{
  SameLength, scan_from_short, scan_from-append_found, scan_from-append_none,
}
use libasdf.FileStream.Scan.Pieces.{scan_from_shift}
use libasdf.FileStream.Scan.{Slid, slide_lem, file_capture-plain}

length_zero : (xs : List ℕ) → length xs ≡ 0 → xs ≡ []
length_zero [] e = refl
length_zero (x ∷ xs) e = absurd (omega arith)

module _ (m : ℕ) (tokens : List (List ℕ)) where
  round_found :
      (f off i : ℕ) (s t : FileStream)
      → scan_window m tokens s ≡ some (off, i)
      → file_consume off s ≡ some (tt, t)
      → scan_rounds (suc f) m tokens s ≡ some (some (s.file_pos + off, i), t)
  unfolding scan_rounds
  round_found f off i s t e eats = rw (e, scan_rounds) (rw (eats, ◌>>=◌) refl)

  pub round_next :
      (f : ℕ) (s : FileStream)
      → scan_window m tokens s ≡ none
      → s.capture ≡ none
      → scan_rounds (suc f) m tokens s
        ≡ after_slide m (scan_rounds f m tokens) (slide (min (remain s) (m - 1)) s)
  unfolding scan_rounds
  round_next f s e h =
      rw (e, scan_rounds)
        (rw (file_capture-plain s.buf (s.buf_avail - min (remain s) (m - 1)) s h, ◌>>=◌) refl)

  pub scan_window_lem :
      {s : FileStream}
      → IsValid s
      → SameLength m tokens
      → scan_window m tokens s ≡ scan_from tokens 0 (unread s)
  unfolding scan_window scan_tokens
  scan_window_lem {s} v h = elim (Bool-cases (leb m (remain s))) [
    | inl y ↦ rw y refl
    | inr n ↦ rw n (
        sym (
          scan_from_short m tokens 0 (unread s) h
            (omega (arith, length-unread v, not_leb m (remain s) n))))
  ]
    where
      not_leb : (a b : ℕ) → leb a b ≡ false → b < a
      not_leb a b h = ground arith

  -- Where a scan leaves the stream: at the token, or, if there is none, with nothing left to read,
  -- but with the position before the last bytes of the file, of which there are fewer than `m`.
  abbrev pub Leaves : FileStream → Option (ℕ × ℕ) → FileStream → Type 0
  Leaves s none t =
      (remain t ≡ 0) × (ahead t ≡ []) × (length (pending t) ≡ min (length (pending s)) (m - 1))
  Leaves s (some (o, i)) t = IsValid t × (t.file_pos ≡ o)

  Leaves-same :
      (s u w : FileStream) (r : Option (ℕ × ℕ))
      → min (length (pending u)) (m - 1) ≡ min (length (pending s)) (m - 1)
      → Leaves u r w
      → Leaves s r w
  Leaves-same s u w none e (a, b, c) = (a, b, c ∙ e)
  Leaves-same s u w (some (o, i)) e h = h

  next_scan :
      {s t : FileStream}
      → SameLength m tokens
      → 0 < m
      → IsValid s
      → Slid s (min (remain s) (m - 1)) t
      → scan_from tokens 0 (unread s) ≡ none
      → scan_from tokens s.file_pos (pending s) ≡ scan_from tokens t.file_pos (pending t)
  next_scan {s} {t} h p v d miss =
      let j : ℕ = min (remain s) (m - 1) in
      let k : ℕ = remain s - j in
      let size : length (unread s) ≡ remain s = length-unread v in
      let plus_zero : s.file_pos ≡ s.file_pos + 0 = omega arith in
      let none_here : scan_from tokens s.file_pos (unread s) ≡ none =
        ap (λ n. scan_from tokens n (unread s)) plus_zero
        ∙ scan_from_shift tokens 0 s.file_pos (unread s)
        ∙ ap (Option.map (λ r. (s.file_pos + r.0, r.1))) miss in
      let here : (k ≡ 0) ⊎ (k + m ≤ length (unread s) + 1) = ground (arith, size) in
      ap (scan_from tokens s.file_pos) (sym v.aligned)
      ∙ scan_from-append_none m tokens s.file_pos k (unread s) (ahead s) h none_here p here
      ∙ ap₂ (scan_from tokens) (sym d.moved) (
          sym (drop-le-append k (unread s) (ahead s) (omega (arith, size)))
          ∙ ap (drop k) v.aligned
          ∙ drop-drop k s.file_pos s.content
          ∙ ap₂ drop (sym d.moved) (sym d.content))

  found_here :
      {s : FileStream} {off i : ℕ}
      → SameLength m tokens
      → IsValid s
      → scan_from tokens 0 (unread s) ≡ some (off, i)
      → scan_from tokens s.file_pos (pending s) ≡ some (s.file_pos + off, i)
  found_here {s} h v hit =
      let plus_zero : s.file_pos ≡ s.file_pos + 0 = omega arith in
      ap (scan_from tokens s.file_pos) (sym v.aligned)
      ∙ scan_from-append_found m tokens s.file_pos (unread s) (ahead s) h (
          ap (λ n. scan_from tokens n (unread s)) plus_zero
          ∙ scan_from_shift tokens 0 s.file_pos (unread s)
          ∙ ap (Option.map (λ r. (s.file_pos + r.0, r.1))) hit)

  inside :
      {s : FileStream} {off i : ℕ}
      → IsValid s
      → scan_from tokens 0 (unread s) ≡ some (off, i)
      → off ≤ remain s
  unfolding scan_tokens
  inside {s} {off} {i} v hit =
      let (l, t, more, g, d) = scan_tokens_sound (unread s) tokens off i hit in
      omega (arith, l, length-unread v)

  -- One round from a window at the start of the buffer, and what the later rounds then do.
  after_round :
      (f : ℕ) {s t : FileStream}
      → SameLength m tokens
      → 0 < m
      → m ≤ length s.buf
      → IsValid s
      → Slid s (min (remain s) (m - 1)) t
      → scan_from tokens 0 (unread s) ≡ none
      → length (ahead s) < suc f
      → ((u : FileStream)
          → IsValid u
          → u.buf_pos ≡ 0
          → m ≤ length u.buf
          → length (ahead u) < f
          → (w : FileStream) × (scan_rounds f m tokens u
              ≡ some (scan_from tokens u.file_pos (pending u), w))
            × (w.content ≡ u.content)
            × (w.error ≡ u.error)
            × Leaves u (scan_from tokens u.file_pos (pending u)) w)
      → (w : FileStream) × (after_slide m (scan_rounds f m tokens) t
          ≡ some (scan_from tokens s.file_pos (pending s), w))
        × (w.content ≡ s.content)
        × (w.error ≡ s.error)
        × Leaves s (scan_from tokens s.file_pos (pending s)) w
  unfolding after_slide
  after_round f {s} {t} h p room v d miss fuel later =
      let j : ℕ = min (remain s) (m - 1) in
      let same : scan_from tokens s.file_pos (pending s) ≡ scan_from tokens t.file_pos (pending t) =
        next_scan h p v d miss in
      let back : record t { buf_pos = 0 } ≡ t = ap (λ k. record t { buf_pos = k }) (sym d.start) in
      let long : length (pending s) ≡ remain s + length (ahead s) = length-pending v in
      let long' : length (pending t) ≡ remain t + length (ahead t) = length-pending d.valid in
      elim (Bool-cases (ltb t.buf_avail m)) [
        | inl y ↦
            let less : t.buf_avail < m = ltb→lt t.buf_avail m y in
            let miss' : scan_from tokens s.file_pos (pending s) ≡ none =
              same
              ∙ scan_from_short m tokens t.file_pos (pending t) h
                  (omega (arith, long', d.size, d.left, d.start)) in
            (
              record t { buf_pos = t.buf_avail },
              rw y (rw miss' refl),
              d.content,
              d.error,
              rw miss' (
                omega arith,
                length_zero (ahead t) (omega (arith, d.size, d.left)),
                omega (arith, long, long', d.size, d.left, d.start),
              ),
            )
        | inr n ↦
            let more : m ≤ t.buf_avail = ground (arith, n) in
            let (w, runs, c, e, leaves) =
              later t d.valid d.start (omega (arith, d.buffer)) (omega (arith, d.size, d.left)) in
            (
              w,
              rw n (ap (scan_rounds f m tokens) back ∙ runs ∙ ap (λ r. some (r, w)) (sym same)),
              c ∙ d.content,
              e ∙ d.error,
              rw same (
                  Leaves-same s t w (scan_from tokens t.file_pos (pending t))
                    (omega (arith, long, long', d.size, d.left, d.start)) leaves),
            )
      ]

  pub scan_rounds_lem :
      (f : ℕ) (s : FileStream)
      → SameLength m tokens
      → 0 < m
      → IsValid s
      → s.buf_pos ≡ 0
      → m ≤ length s.buf
      → length (ahead s) < f
      → (w : FileStream) × (scan_rounds f m tokens s
          ≡ some (scan_from tokens s.file_pos (pending s), w))
        × (w.content ≡ s.content)
        × (w.error ≡ s.error)
        × Leaves s (scan_from tokens s.file_pos (pending s)) w
  scan_rounds_lem zero s h p v z room fuel = absurd (omega arith)
  scan_rounds_lem (suc f) s h p v z room fuel =
      let seen : scan_window m tokens s ≡ scan_from tokens 0 (unread s) = scan_window_lem v h in
      elim (Option-cases (scan_from tokens 0 (unread s))) [
        | inl miss ↦
            let (w, runs, c, e, leaves) =
              after_round f h p room v (slide_lem (min (remain s) (m - 1)) v z (omega arith)) miss
                fuel (λ u v' z' r' l'. scan_rounds_lem f u h p v' z' r' l') in
            (w, round_next f s (seen ∙ miss) v.plain ∙ runs, c, e, leaves)
        | inr ((off, i), hit) ↦
            let (t, eats, valid, c) = file_consume_lem off v (inside v hit) in
            let found : scan_from tokens s.file_pos (pending s) ≡ some (s.file_pos + off, i) =
              found_here h v hit in
            (
              t,
              round_found f off i s t (seen ∙ hit) eats ∙ ap (λ r. some (r, t)) (sym found),
              c.content,
              c.error,
              rw found (valid, c.moved),
            )
      ]
