-- ===== src/Reader/Skip.antt =====
-- A seek over a stream that is not seekable, from the laws of streams alone.
use libasdf.Prelude.{ℕ, zero, suc, ◌+◌, ◌-◌, ◌<◌, min, ◌≡◌, refl, ap, ◌∙◌}
use libasdf.Prelude.{inl, inr, true, false, Option, none, some, arith}
use libasdf.Prelude.{List, length, drop}
use libasdf.Prelude.{leb, ◌==◌, if◌then◌else◌, Bool-cases}
use libasdf.Prelude.{length-drop}
use libasdf.Prelude.{==_ne}
use libasdf.Prelude.Int.{pos}
use libasdf.Reader.{Reader, Answers, skip, stream_seek}
use libasdf.Stream.{Whence}

module _ {S : Type 0} (r : Reader S) where
  open r use {IsReady, bytes, place, offered, error}

  -- Where a stream stands after it has passed over `n` bytes, or over all that it has left.
  pub record Passed (s : S) (n : ℕ) (t : S) : Type 0 where
    pub ready : IsReady t
    pub same : bytes t ≡ bytes s
    pub moved : place t ≡ place s + min n (length (drop (place s) (bytes s)))
    pub no_error : error t ≡ none

  skip_none : (f n : ℕ) (s : S) → n ≡ 0 → skip r (suc f) n s ≡ some (true, s)
  unfolding skip
  skip_none f n s z = rw z refl

  skip_end :
      (f n : ℕ) {s t : S} {p : Option (List ℕ)}
      → 0 < n
      → r.next 1 s ≡ some ((p, 0), t)
      → error t ≡ none
      → skip r (suc f) n s ≡ some (true, t)
  unfolding skip
  skip_end f n h call e = rw (==_ne n 0 (λ z. omega arith)) (rw call (rw e refl))

  abbrev pub count_of : ℕ → ℕ → ℕ
  count_of n avail = if leb n avail then n else avail

  skip_more :
      (f n : ℕ) {s t u : S} {p : Option (List ℕ)} {avail : ℕ}
      → 0 < n
      → 0 < avail
      → r.next 1 s ≡ some ((p, avail), t)
      → error t ≡ none
      → r.consume (count_of n avail) t ≡ some (tt, u)
      → skip r (suc f) n s ≡ skip r f (n - count_of n avail) u
  unfolding skip
  skip_more f n {avail = avail} h k call e eats =
      rw (==_ne n 0 (λ z. omega arith))
        (rw call (rw e (rw (==_ne avail 0 (λ z. omega arith)) (rw eats refl))))

  -- One round of the loop, and what the later rounds then have.
  round :
      (f n : ℕ) {s t : S} (a : Option (List ℕ) × ℕ)
      → ((m : ℕ) (u : S)
          → m < f
          → IsReady u
          → error u ≡ none
          → (w : S) × (skip r f m u ≡ some (true, w)) × Passed u m w)
      → 0 < n
      → n < suc f
      → r.next 1 s ≡ some (a, t)
      → IsReady t
      → bytes t ≡ bytes s
      → place t ≡ place s
      → error t ≡ none
      → offered t ≡ a.1
      → Answers 1 (drop (place s) (bytes s)) a
      → (w : S) × (skip r (suc f) n s ≡ some (true, w)) × Passed s n w
  round f n {s} {t} (none, avail) later h l call v same at e off (empty, z) = (
    t,
    skip_end f n h (call ∙ ap (λ k. some ((none, k), t)) z) e,
    record { ready = v; same = same; moved = omega (arith, ap length empty); no_error = e },
  )
  round f n {s} {t} (some p, avail) later h l call v same at e off
        (some_bytes, enough, start, inside) =
      let (u, eats, v', same', at', e') =
        r.consume_law (count_of n avail) t v (ground (arith, off)) in
      let (w, rest, done) = later (n - count_of n avail) u (ground arith) v' (e' ∙ e) in
      let left = length-drop (place u) (bytes u) in
      let left' = length-drop (place s) (bytes s) in
      (
        w,
        skip_more f n h some_bytes call e eats ∙ rest,
        record {
          ready = done.ready;
          same = done.same ∙ same' ∙ same;
          moved = ground (arith, done.moved, left, left', ap length same, ap length same', at, at');
          no_error = done.no_error;
        },
      )

  skip_total :
      (f n : ℕ) (s : S)
      → n < f
      → IsReady s
      → error s ≡ none
      → (t : S) × (skip r f n s ≡ some (true, t)) × Passed s n t
  skip_total zero n s l v e = absurd (omega arith)
  skip_total (suc f) n s l v e = elim (Bool-cases (n == 0)) [
    | inl z ↦
        let zero_bytes : n ≡ 0 = ground (arith, z) in
        (
          s,
          skip_none f n s zero_bytes,
          record { ready = v; same = refl; moved = omega (arith, zero_bytes); no_error = e },
        )
    | inr k ↦
        let (a, t, call, v', same, at, kept, off, ans) = r.next_law 1 s v (omega arith) in
        round f n a (λ m u l' w e'. skip_total f m u l' w e') (ground (arith, k)) l call v' same at
          (kept ∙ e) off ans
  ]

  -- The seek of a ready stream that is not seekable, without an error, by a positive offset: it
  -- returns 0 and never runs on; it passes over as many bytes as the offset says, or over all that
  -- are left, whatever the origin.
  pub stream_seek_forward :
      (n : ℕ) (whence : Whence) (s : S)
      → r.is_seekable s ≡ false
      → IsReady s
      → error s ≡ none
      → (t : S) × (stream_seek r (pos n) whence s ≡ some (true, t)) × Passed s n t
  unfolding stream_seek
  stream_seek_forward n whence s h v e =
      let (t, done, p) = skip_total (n + 1) n s (omega arith) v e in (t, rw h done, p)
