-- ===== src/FileStream/Scan/Whole.antt =====
-- A whole call of `file_scan`.
use libasdf.Prelude.{◌↔◌}
use libasdf.Prelude.{ℕ, suc, ◌+◌, ◌-◌, ◌≤◌, ◌<◌, min, ◌≡◌, refl, sym, ap, ◌∙◌}
use libasdf.Prelude.{◌≢◌, Option, none, some, arith}
use libasdf.Prelude.{List, take, drop, [], ◌∷◌, length}
use libasdf.Prelude.{length-take, length-drop}
use libasdf.Prelude.{M}
use libasdf.Prelude.{lt→ltb, ==_ne}
use libasdf.Prelude.Bytes.{add_size}
use libasdf.Stream.{scan_from}
use libasdf.FileStream.{
  FileStream, ahead, remain, slide, after_slide, scan_rounds, file_scan, max_token_len,
}
use libasdf.FileStream.Valid.{IsValid, unread, pending}
use libasdf.FileStream.Next.{length-pending}
use libasdf.FileStream.Scan.Rounds.{Leaves, scan_rounds_lem, round_next, scan_window_lem}
use libasdf.FileStream.Scan.Pieces.{SameLength}

max_token_len_same :
    (m : ℕ) (tokens : List (List ℕ)) → SameLength m tokens → tokens ≢ [] → max_token_len tokens ≡ m
unfolding max_token_len
max_token_len_same m [] h ne = absurd (ne refl)
max_token_len_same m (t ∷ []) (e, h) ne = omega arith
max_token_len_same m (t ∷ (u ∷ ts)) (e, h) ne =
    omega (arith, max_token_len_same m (u ∷ ts) h (λ z. cc))

enter :
    (m : ℕ) (tokens : List (List ℕ)) (s : FileStream)
    → SameLength m tokens
    → tokens ≢ []
    → 0 < m
    → file_scan tokens s ≡ scan_rounds (length (ahead s) + 1) m tokens s
unfolding file_scan
enter m tokens s h ne p =
    let size : max_token_len tokens ≡ m = max_token_len_same m tokens h ne in
    rw size (rw (==_ne m 0 (λ z. omega arith)) refl)

-- A valid stream whose window is at the start of the buffer, which has room for a token, and tokens
-- of one length: the scan through the window returns, and gives the first token that stands
-- anywhere in the rest of the file, also across windows, with its offset in the file. It leaves the
-- stream valid at that token; without one it leaves nothing to read, but the position is short of
-- the end by the bytes that it had kept, of which there are fewer than a token has.
pub file_scan-scan_from :
    (m : ℕ) (tokens : List (List ℕ)) (s : FileStream)
    → SameLength m tokens
    → tokens ≢ []
    → 0 < m
    → IsValid s
    → s.buf_pos ≡ 0
    → m ≤ length s.buf
    → (t : FileStream) × (file_scan tokens s ≡ some (scan_from tokens s.file_pos (pending s), t))
      × (t.content ≡ s.content)
      × (t.error ≡ s.error)
      × Leaves m tokens s (scan_from tokens s.file_pos (pending s)) t
file_scan-scan_from m tokens s h ne p v z room =
    let (t, runs, c, err, leaves) =
      scan_rounds_lem m tokens (length (ahead s) + 1) s h p v z room (omega arith) in
    (t, enter m tokens s h ne p ∙ runs, c, err, leaves)

slide_at_end :
    (j : ℕ) (s : FileStream)
    → ahead s ≡ []
    → ((slide j s).buf_avail ≡ j) × ((slide j s).file_pos ≡ add_size s.file_pos (s.buf_avail - j))
unfolding slide
slide_at_end j s e = (omega (arith, length-take (length s.buf - j) (ahead s), ap length e), refl)

after_slide_short :
    (m : ℕ) (s : FileStream) (later : M FileStream (Option (ℕ × ℕ)))
    → s.buf_avail < m
    → after_slide m later s ≡ some (none, record s { buf_pos = s.buf_avail })
unfolding after_slide
after_slide_short m s later h = rw (lt→ltb s.buf_avail m h) refl

slide_reads_nothing : (j : ℕ) (s : FileStream) → ahead s ≡ [] → ahead (slide j s) ≡ []
unfolding slide
slide_reads_nothing j s e =
    let nothing : length (take (length s.buf - j) (ahead s)) ≡ 0 =
      omega (arith, length-take (length s.buf - j) (ahead s), ap length e) in
    let place : s.cursor + length (take (length s.buf - j) (ahead s)) ≡ s.cursor =
      omega (arith, nothing) in
    ap (λ k. drop k s.content) place ∙ e

right_just_at :
    (at end used m : ℕ) → 0 < m → at + (m - 1) ≡ end + used → (at ≡ end) ↔ (used ≡ m - 1)
right_just_at at end used m p h = (λ e. omega arith, λ e. omega arith)

-- A valid stream with the whole rest of the file in its window, which is at any place of the buffer
-- and has at least as many bytes as a token, and no token there: the scan ends without one, and
-- leaves nothing to read, neither in the window nor in the file, so that the position should be the
-- length of the file. It is that and the bytes of the buffer that were consumed before, less the
-- bytes that the scan keeps, one fewer than a token has; so it is right just where these two are as
-- many, short of the end where there are fewer of the first, and past it where there are more.
pub file_scan_displaced :
    (m : ℕ) (tokens : List (List ℕ)) {s : FileStream}
    → SameLength m tokens
    → tokens ≢ []
    → 0 < m
    → IsValid s
    → ahead s ≡ []
    → m ≤ remain s
    → s.file_pos ≤ length s.content
    → scan_from tokens 0 (unread s) ≡ none
    → (t : FileStream) × (file_scan tokens s ≡ some (none, t))
      × (remain t ≡ 0)
      × (ahead t ≡ [])
      × (t.file_pos + (m - 1) ≡ length s.content + s.buf_pos)
      × ((t.file_pos ≡ length s.content) ↔ (s.buf_pos ≡ m - 1))
file_scan_displaced m tokens {s} h ne p v e room before miss =
    let j : ℕ = min (remain s) (m - 1) in
    let (avail, at) = slide_at_end j s e in
    let more : suc (length (ahead s)) ≡ length (ahead s) + 1 = omega arith in
    let displaced : (slide j s).file_pos + (m - 1) ≡ length s.content + s.buf_pos = omega (
      arith,
      at,
      v.placed,
      v.ordered,
      v.behind,
      v.in_range,
      ap length e,
      length-pending v,
      length-drop s.file_pos s.content,
    ) in
    let none_left : (slide j s).buf_avail - (slide j s).buf_avail ≡ 0 = omega arith in
    (
      record (slide j s) { buf_pos = (slide j s).buf_avail },
      enter m tokens s h ne p
          ∙ ap (λ f. scan_rounds f m tokens s) (sym more)
          ∙ round_next m tokens (length (ahead s)) s (scan_window_lem m tokens v h ∙ miss) v.plain
          ∙ after_slide_short m (slide j s) (scan_rounds (length (ahead s)) m tokens)
              (omega (arith, avail)),
      none_left,
      slide_reads_nothing j s e,
      displaced,
      right_just_at (slide j s).file_pos (length s.content) s.buf_pos m p displaced,
    )
