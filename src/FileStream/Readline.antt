-- ===== src/FileStream/Readline.antt =====
-- `file_readline`: a line that the window holds, a longer one, and a window that is used up.
pub mod Line
pub mod Long
use libasdf.Prelude.{
  ℕ, zero, suc, ◌+◌, ◌-◌, ◌*◌, ◌/◌, ◌%◌, ◌^◌, ◌≤◌, ◌<◌, min, max, ◌≡◌, refl, sym, ap, ap₂, ◌∙◌,
}
use libasdf.Prelude.{
  ◌≢◌, ◌↔◌, ◌⊎◌, inl, inr, Bool, true, false, not, ◌&&◌, ◌||◌, Option, none, some, arith,
}
use libasdf.Prelude.{
  List, [], ◌∷◌, ◌++◌, map, length, get_elem?, get_or, set, take, drop, replicate, All,
}
use libasdf.Prelude.{ltb, leb, ◌==◌, if◌then◌else◌, Bool-cases, Option-cases, tests}
use libasdf.Prelude.{
  length-append, length-take, length-drop, length-replicate, take-append, drop-append, drop-drop,
  drop-nil, drop_all, take-append-drop,
}
use libasdf.Prelude.{M, pure, fault, ◌>>=◌, ◌>>◌, get, gets, modify, read, assert, >>=-eq-some}
use libasdf.Prelude.{take_exact, le→ltb, lt→ltb, le→leb, ==_ne}
use libasdf.Stream.{find_newline, overwrite}
use libasdf.Stream.Valid.{HasNoNewline, find_newline-append, find_newline_none, drop_line}
use libasdf.FileStream.{
  FileStream, off_max, ahead, remain, window, fread, enlarge, shift_down, read_in, fill, file_next,
  read_line, file_readline, skip_line, file_consume,
}
use libasdf.FileStream.Valid.{
  IsValid, SameView, unread, pending, read_in-IsValid, length-unread, length-fread, take-le-append,
  drop-le-append,
}
use libasdf.FileStream.Next.{same_view, unread-pending, length-pending}
use libasdf.FileStream.Consume.{Consumed, file_consume_lem}

-- How many bytes of the file the window has once `file_next` was asked for none.
abbrev pub room : FileStream → ℕ
room s = if remain s == 0 then min (length s.buf) (length (pending s)) else remain s

-- The window has bytes left, or nothing was ever read into it.
abbrev pub IsFresh : FileStream → Type 0
IsFresh s = (s.buf_pos < s.buf_avail) ⊎ (s.buf_avail ≡ 0)

pub fill_some : (s : FileStream) → s.buf_pos < s.buf_avail → fill [] 0 s ≡ s
unfolding fill enlarge shift_down
fill_some s h = rw (le→ltb (length s.buf) 0 (omega arith)) (ground arith)

pub fill_start :
    (s : FileStream) → s.buf_pos ≡ 0 → s.buf_avail ≡ 0 → fill [] 0 s ≡ read_in s.buf_avail s
unfolding fill enlarge shift_down
fill_start s p a =
    let none_left : remain s ≡ s.buf_avail = omega arith in
    rw (le→ltb (length s.buf) 0 (omega arith)) (
      rw (le→ltb (remain s) 0 (omega arith))
        (rw (le→leb s.buf_avail s.buf_pos (omega arith)) (ap (λ k. read_in k s) none_left)))

pub remain-read_in :
    (s : FileStream)
    → IsValid s
    → s.buf_pos ≡ 0
    → s.buf_avail ≡ 0
    → remain (read_in s.buf_avail s) ≡ min (length s.buf) (length (pending s))
unfolding read_in
remain-read_in s v p a =
    omega (
      arith,
      v.placed,
      length-fread (length s.buf - s.buf_avail) s,
      length-drop s.file_pos s.content,
    )

-- The window as `file_next` makes it when it is asked for no byte.
pub fill_fresh :
    {s : FileStream}
    → IsValid s
    → IsFresh s
    → (t : FileStream) × (fill [] 0 s ≡ t) × IsValid t × SameView s t × (remain t ≡ room s)
unfolding read_in
fill_fresh {s} v (inl h) =
    (s, fill_some s h, v, same_view s, rw (==_ne (remain s) 0 (λ z. omega arith)) refl)
fill_fresh {s} v (inr a) =
    let p : s.buf_pos ≡ 0 = omega (arith, v.ordered) in
    let z : remain s ≡ 0 = omega arith in
    (
      read_in s.buf_avail s,
      fill_start s p a,
      read_in-IsValid v p,
      record { content = refl; file_pos = refl; capture = refl; error = refl; is_writeable = refl },
      rw z (remain-read_in s v p a),
    )

pub opened :
    {s : FileStream}
    → IsValid s
    → IsFresh s
    → 0 < room s
    → (t : FileStream) × (file_next [] 0 s ≡ some ((some (window t), remain t), t))
      × IsValid t
      × SameView s t
      × (remain t ≡ room s)
      × (unread t ≡ take (room s) (pending s))
unfolding file_next
opened {s} v f h =
    let (t, call, valid, view, size) = fill_fresh v f in
    (
      t,
      rw call (rw (lt→ltb 0 (remain t) (omega arith)) refl),
      valid,
      view,
      size,
      unread-pending valid ∙ ap₂ take size (ap₂ drop view.file_pos view.content),
    )

-- Reading a line that the window has.
pub read_line_found :
    (t u : FileStream) (bs : List ℕ) (avail n : ℕ)
    → find_newline (take avail bs) ≡ n
    → n < length (take avail bs)
    → file_consume (n + 1) t ≡ some (tt, u)
    → read_line (some bs) avail t ≡ some (some (bs, n + 1), u)
unfolding read_line
read_line_found t u bs avail n found less eats =
    rw found (rw (lt→ltb n (length (take avail bs)) less) (rw (eats, ◌>>=◌) refl))

pub read_line_cut :
    (t u : FileStream) (bs : List ℕ) (avail : ℕ)
    → find_newline (take avail bs) ≡ length (take avail bs)
    → avail ≤ length bs
    → file_consume avail t ≡ some (tt, u)
    → read_line (some bs) avail t ≡ some (some (bs, avail), skip_line u)
unfolding read_line
read_line_cut t u bs avail found long eats =
    rw (le→ltb (find_newline (take avail bs)) (length (take avail bs)) (omega arith))
      (rw (le→ltb (length bs) avail long) (rw (eats, ◌>>=◌) refl))

pub take_past :
    (k : ℕ) (line more : List ℕ) (b : ℕ)
    → length line < k
    → (rest : List ℕ) × (take k (line ++ (b ∷ more)) ≡ line ++ (b ∷ rest))
take_past zero line more b h = absurd (omega arith)
take_past (suc k) [] more b h = (take k more, refl)
take_past (suc k) (x ∷ line) more b h =
    let (rest, e) = take_past k line more b (omega arith) in (rest, ap (λ t. x ∷ t) e)

pub take-take : (n m : ℕ) (xs : List ℕ) → n ≤ m → take n (take m xs) ≡ take n xs
take-take zero m xs h = refl
take-take (suc n) zero xs h = absurd (omega arith)
take-take (suc n) (suc m) [] h = refl
take-take (suc n) (suc m) (x ∷ xs) h = ap (λ t. x ∷ t) (take-take n m xs (omega arith))

pub take_line :
    (line more : List ℕ) (b : ℕ) → take (length line + 1) (line ++ (b ∷ more)) ≡ line ++ (b ∷ [])
take_line [] more b = refl
take_line (x ∷ line) more b =
    ap (λ k. take k (x ∷ (line ++ (b ∷ more)))) (suc_plus (length line))
    ∙ ap (λ t. x ∷ t) (take_line line more b)
  where
    suc_plus : (n : ℕ) → suc n + 1 ≡ suc (n + 1)
    suc_plus n = omega arith
