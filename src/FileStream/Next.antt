-- ===== src/FileStream/Next.antt =====
-- What `file_next` hands out: the bytes of the file from the position on, as many as asked for, or
-- all that the file has left.
use libasdf.Prelude.{ℕ, ◌+◌, ◌-◌, ◌≤◌, ◌<◌, min, max, ◌≡◌, refl, sym, ap, ap₂, ◌∙◌}
use libasdf.Prelude.{◌⊎◌, inl, inr, Option, none, some, arith}
use libasdf.Prelude.{List, [], ◌∷◌, ◌++◌, length, take, drop}
use libasdf.Prelude.{ltb, leb, Bool-cases, tests}
use libasdf.Prelude.{length-append, length-take, length-drop}
use libasdf.Prelude.{take_exact, lt→ltb, le→ltb, ltb→lt}
use libasdf.Reader.{Answers}
use libasdf.FileStream.{
  FileStream, ahead, remain, window, enlarge, shift_down, read_in, fill, file_next,
}
use libasdf.FileStream.Valid.{
  IsValid, SameView, unread, pending, enlarge-IsValid, shift_down-IsValid, read_in-IsValid,
  length-unread, length-fread,
}

-- The window can be filled: it is at the start of the buffer, or it has bytes left, or at least one
-- byte is asked for.
abbrev pub CanFill : FileStream → ℕ → Type 0
CanFill s count = (0 < count) ⊎ (s.buf_pos < s.buf_avail) ⊎ (s.buf_pos ≡ 0)

-- `realloc` adds what is missing for `count` bytes.
abbrev pub HasRoom : List ℕ → ℕ → FileStream → Type 0
HasRoom fresh count s = length fresh ≡ count - length s.buf

pub same_view : (s : FileStream) → SameView s s
same_view s = record {
  content = refl;
  file_pos = refl;
  capture = refl;
  error = refl;
  is_writeable = refl;
}

enlarge_lem :
    (fresh : List ℕ) (count : ℕ) (s : FileStream)
    → HasRoom fresh count s
    → 0 < length s.buf
    → SameView s (enlarge fresh count s)
      × (remain (enlarge fresh count s) ≡ remain s)
      × ((enlarge fresh count s).buf_avail ≡ s.buf_avail)
      × ((enlarge fresh count s).buf_pos ≡ s.buf_pos)
      × (count ≤ length (enlarge fresh count s).buf)
      × (0 < length (enlarge fresh count s).buf)
unfolding enlarge
enlarge_lem fresh count s h b = elim (Bool-cases (ltb (length s.buf) count)) [
  | inl y ↦ rw y (
    record { content = refl; file_pos = refl; capture = refl; error = refl; is_writeable = refl },
    refl,
    refl,
    refl,
    omega (arith, length-append s.buf fresh),
    omega (arith, length-append s.buf fresh),
  )
  | inr n ↦ rw n (same_view s, refl, refl, refl, ground (arith, n), b)
]

-- The view is the same, and the window is at the start of a buffer that is long enough.
pub record Restarts (s : FileStream) (count : ℕ) (t : FileStream) : Type 0 where
  valid : IsValid t
  same : SameView s t
  start : t.buf_pos ≡ 0
  kept : t.buf_avail ≡ remain s
  enough : count ≤ length t.buf
  some_room : 0 < length t.buf

length-shift :
    (xs ys : List ℕ) → length ys ≤ length xs → length (ys ++ drop (0 + length ys) xs) ≡ length xs
length-shift xs ys h =
    omega (arith, length-append ys (drop (0 + length ys) xs), length-drop (0 + length ys) xs)

shift_down-Restarts :
    {s : FileStream} (count : ℕ)
    → IsValid s
    → remain s < count
    → count ≤ length s.buf
    → 0 < length s.buf
    → Restarts s count (shift_down count s)
unfolding shift_down
shift_down-Restarts {s} count v less room h =
    let kept : List ℕ = take (remain s) (drop (s.buf_avail - remain s) s.buf) in
    let short : length kept ≤ length s.buf = omega (
      arith,
      v.inside,
      length-take (remain s) (drop (s.buf_avail - remain s) s.buf),
      length-drop (s.buf_avail - remain s) s.buf,
    ) in
    let long = length-shift s.buf kept short in
    let valid : IsValid (shift_down count s) = shift_down-IsValid count v in
    let down = lt→ltb (remain s) count less in
    record {
      valid = valid;
      same = rw down record {
        content = refl;
        file_pos = refl;
        capture = refl;
        error = refl;
        is_writeable = refl;
      };
      start = rw down refl;
      kept = rw down refl;
      enough = rw down (omega (arith, long));
      some_room = rw down (omega (arith, long));
    }

pub same_trans : {s t u : FileStream} → SameView s t → SameView t u → SameView s u
same_trans a b = record {
  content = b.content ∙ a.content;
  file_pos = b.file_pos ∙ a.file_pos;
  capture = b.capture ∙ a.capture;
  error = b.error ∙ a.error;
  is_writeable = b.is_writeable ∙ a.is_writeable;
}

-- Without a change to the state but to the window, and with `n` bytes available or all.
abbrev pub Offers : FileStream → ℕ → FileStream → Type 0
Offers s n t = IsValid t × SameView s t × (min n (length (pending t)) ≤ remain t)

pub length-pending : {s : FileStream} → IsValid s → length (pending s) ≡ remain s + length (ahead s)
length-pending {s} v =
    sym (ap length v.aligned)
    ∙ length-append (unread s) (ahead s)
    ∙ ap (λ n. n + length (ahead s)) (length-unread v)

pub read_in-Offers :
    {s : FileStream} (count : ℕ) (t : FileStream)
    → Restarts s count t
    → Offers s (max count 1) (read_in (remain s) t)
unfolding read_in
read_in-Offers {s} count t r =
    let valid : IsValid (read_in (remain s) t) = rw (← r.kept) (read_in-IsValid r.valid r.start) in
    let got = length-fread (length t.buf - remain s) t in
    (
      valid,
      record {
        content = r.same.content;
        file_pos = r.same.file_pos;
        capture = r.same.capture;
        error = r.same.error;
        is_writeable = r.same.is_writeable;
      },
      omega (
        arith,
        r.kept,
        r.enough,
        r.some_room,
        r.start,
        got,
        r.valid.placed,
        length-drop t.file_pos t.content,
      ),
    )

shift_down_same : (count : ℕ) (s : FileStream) → count ≤ remain s → shift_down count s ≡ s
unfolding shift_down
shift_down_same count s h = rw (le→ltb (remain s) count h)

fill_short :
    {s : FileStream} (fresh : List ℕ) (count : ℕ)
    → IsValid s
    → HasRoom fresh count s
    → remain s < count
    → Offers s (max count 1) (fill fresh count s)
unfolding fill
fill_short {s} fresh count v h less =
    let e : FileStream = enlarge fresh count s in
    let (same, rem, av, ps, enough, room) = enlarge_lem fresh count s h v.buffered in
    let r : Restarts e count (shift_down count e) =
      shift_down-Restarts count (enlarge-IsValid fresh count v) (omega (arith, rem)) enough room in
    let (valid, view, long) = read_in-Offers count (shift_down count e) r in
    rw (lt→ltb (remain s) count less) (rw (← rem) (valid, same_trans same view, long))

fill_rest :
    {s : FileStream} (fresh : List ℕ) (count : ℕ)
    → IsValid s
    → HasRoom fresh count s
    → CanFill s count
    → count ≤ remain s
    → Offers s (max count 1) (fill fresh count s)
unfolding fill
fill_rest {s} fresh count v h can more =
    let e : FileStream = enlarge fresh count s in
    let (same, rem, av, ps, enough, room) = enlarge_lem fresh count s h v.buffered in
    let stay : shift_down count e ≡ e = shift_down_same count e (omega (arith, rem)) in
    let valid : IsValid e = enlarge-IsValid fresh count v in
    elim (Bool-cases (leb e.buf_avail e.buf_pos)) [
      | inl y ↦
          let used : s.buf_pos ≡ 0 = elim can [
            | inl c ↦ absurd (omega (tests, y, av, ps, more))
            | inr (inl c) ↦ absurd (omega (tests, y, av, ps))
            | inr (inr z) ↦ z
          ] in
          let r : Restarts e count e = record {
            valid = valid;
            same = same_view e;
            start = ps ∙ used;
            kept = omega (arith, ps, used);
            enough = enough;
            some_room = room;
          } in
          let (valid', view, long) = read_in-Offers count e r in
          rw (le→ltb (remain s) count more)
            (rw stay (rw y (rw (← rem) (valid', same_trans same view, long))))
      | inr n ↦
          let offer : min (max count 1) (length (pending e)) ≤ remain e =
            ground (arith, n, rem, more) in
          rw (le→ltb (remain s) count more) (rw stay (rw n (valid, same, offer)))
    ]

pub fill_lem :
    {s : FileStream} (fresh : List ℕ) (count : ℕ)
    → IsValid s
    → HasRoom fresh count s
    → CanFill s count
    → Offers s (max count 1) (fill fresh count s)
fill_lem {s} fresh count v h can = elim (Bool-cases (ltb (remain s) count)) [
  | inl y ↦ fill_short fresh count v h (ltb→lt (remain s) count y)
  | inr n ↦ fill_rest fresh count v h can (ground (arith, n))
]

pub unread-pending : {s : FileStream} → IsValid s → unread s ≡ take (remain s) (pending s)
unread-pending {s} v =
    sym (take_exact (remain s) (unread s) (ahead s) (length-unread v))
    ∙ ap (take (remain s)) v.aligned

-- A valid stream that is asked for at least one byte answers, keeps what is left of the file, and
-- is left valid: with NULL exactly at the end of the file, or else with the next bytes of the file,
-- as many as were asked for or all.
pub file_next_lem :
    {s : FileStream} (fresh : List ℕ) (count : ℕ)
    → IsValid s
    → HasRoom fresh count s
    → 0 < count
    → (r : Option (List ℕ) × ℕ) × (t : FileStream) × (file_next fresh count s ≡ some (r, t))
      × IsValid t
      × SameView s t
      × (remain t ≡ r.1)
      × Answers count (pending s) r
unfolding file_next
file_next_lem {s} fresh count v h more =
    let t : FileStream = fill fresh count s in
    let (valid, view, long) = fill_lem fresh count v h (inl more) in
    let same : pending t ≡ pending s = ap₂ drop view.file_pos view.content in
    let size : length (pending t) ≡ length (pending s) = ap length same in
    let left = length-pending valid in
    elim (Bool-cases (ltb 0 (remain t))) [
      | inl y ↦ (
        (some (window t), remain t),
        t,
        rw y refl,
        valid,
        view,
        refl,
        (
          omega (tests, y),
          omega (arith, size, long),
          unread-pending valid ∙ ap (take (remain t)) same,
          omega (arith, size, left),
        ),
      )
      | inr n ↦
          let none_left : remain t ≡ 0 = ground (arith, n) in
          (
            (none, remain t),
            t,
            rw n refl,
            valid,
            view,
            refl,
            (length_zero (pending s) (omega (arith, size, long, none_left)), none_left),
          )
    ]
  where
    length_zero : (xs : List ℕ) → length xs ≡ 0 → xs ≡ []
    length_zero [] e = refl
    length_zero (x ∷ xs) e = absurd (omega arith)
