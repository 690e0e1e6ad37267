-- ===== src/FileStream/Valid.antt =====
-- The state of a file-backed stream: its window and what the `FILE` has left are, together, the
-- file from `file_pos` on.
use libasdf.Prelude.{ℕ, zero, suc, ◌+◌, ◌-◌, ◌≤◌, ◌<◌, min, ◌≡◌, refl, sym, ap, ap₂, ◌∙◌}
use libasdf.Prelude.{inl, inr, none, arith}
use libasdf.Prelude.{List, [], ◌∷◌, ◌++◌, length, take, drop}
use libasdf.Prelude.{ltb, Bool-cases}
use libasdf.Prelude.{length-append, length-take, length-drop, take-append, drop-drop}
use libasdf.Prelude.{take_exact}
use mathlib.Core.List.{append_assoc}
use libasdf.Stream.{overwrite}
use libasdf.FileStream.{
  FileStream, off_max, ahead, remain, window, shift, fread, enlarge, shift_down, read_in,
}

-- What the window still has.
abbrev pub unread : FileStream → List ℕ
unread s = take (remain s) (window s)

-- The bytes of the file that a client has not consumed.
abbrev pub pending : FileStream → List ℕ
pending s = drop s.file_pos s.content

-- No capture is set.
pub record IsValid (s : FileStream) : Type 0 where
  pub aligned : unread s ++ ahead s ≡ pending s
  pub ordered : s.buf_pos ≤ s.buf_avail
  pub inside : s.buf_avail ≤ length s.buf
  pub buffered : 0 < length s.buf
  pub placed : s.cursor ≡ s.file_pos + remain s
  pub behind : s.buf_avail ≤ s.cursor
  pub in_range : s.cursor ≤ off_max
  pub small : length s.content ≤ off_max
  pub plain : s.capture ≡ none

module _ {ℓ} {A : Type ℓ} where
  pub take-le-append : (n : ℕ) (xs ys : List A) → n ≤ length xs → take n (xs ++ ys) ≡ take n xs
  take-le-append zero xs ys h = refl
  take-le-append (suc n) [] ys h = absurd (omega arith)
  take-le-append (suc n) (x ∷ xs) ys h = ap (λ t. x ∷ t) (take-le-append n xs ys (omega arith))

  pub take-drop-append :
      (n m : ℕ) (xs ys : List A)
      → n + m ≤ length xs
      → take m (drop n (xs ++ ys)) ≡ take m (drop n xs)
  take-drop-append zero m xs ys h = take-le-append m xs ys (omega arith)
  take-drop-append (suc n) zero [] ys h = refl
  take-drop-append (suc n) (suc m) [] ys h = absurd (omega arith)
  take-drop-append (suc n) m (x ∷ xs) ys h = take-drop-append n m xs ys (omega arith)

  pub take-drop-length : (n : ℕ) (xs : List A) → take n xs ++ drop (length (take n xs)) xs ≡ xs
  take-drop-length zero xs = refl
  take-drop-length (suc n) [] = refl
  take-drop-length (suc n) (x ∷ xs) = ap (λ t. x ∷ t) (take-drop-length n xs)

  pub drop-take : (n m : ℕ) (xs : List A) → drop n (take m xs) ≡ take (m - n) (drop n xs)
  drop-take zero m xs = ap (λ k. take k xs) (minus_zero m)
    where
      minus_zero : (m : ℕ) → m ≡ m - 0
      minus_zero m = omega arith
  drop-take (suc n) zero xs = ap (λ k. take k (drop (suc n) xs)) (zero_minus n)
    where
      zero_minus : (n : ℕ) → 0 ≡ 0 - suc n
      zero_minus n = omega arith
  drop-take (suc n) (suc m) [] = take_none (suc m - suc n)
    where
      take_none : (k : ℕ) → [] ≡ take {A = A} k []
      take_none zero = refl
      take_none (suc k) = refl
  drop-take (suc n) (suc m) (x ∷ xs) =
      drop-take n m xs ∙ ap (λ k. take k (drop n xs)) (suc_minus m n)
    where
      suc_minus : (m n : ℕ) → m - n ≡ suc m - suc n
      suc_minus m n = omega arith

  pub drop-le-append :
      (n : ℕ) (xs ys : List A) → n ≤ length xs → drop n (xs ++ ys) ≡ drop n xs ++ ys
  drop-le-append zero xs ys h = refl
  drop-le-append (suc n) [] ys h = absurd (omega arith)
  drop-le-append (suc n) (x ∷ xs) ys h = drop-le-append n xs ys (omega arith)

  -- The first part of `xs ++ (ys ++ zs)`.
  pub take-append-append :
      (n : ℕ) (xs ys zs : List A) → n ≡ length xs + length ys → take n (xs ++ (ys ++ zs)) ≡ xs ++ ys
  take-append-append n xs ys zs e =
      ap (take n) (sym (append_assoc xs ys zs))
      ∙ take_exact n (xs ++ ys) zs (omega (arith, length-append xs ys))

pub overwrite_front : (xs ys : List ℕ) → take (length xs) (overwrite 0 xs ys) ≡ xs
overwrite_front xs ys = take-append xs (drop (0 + length xs) ys)

-- Two states with the same view of the file, apart from the window.
pub record SameView (s t : FileStream) : Type 0 where
  pub content : t.content ≡ s.content
  pub file_pos : t.file_pos ≡ s.file_pos
  pub capture : t.capture ≡ s.capture
  pub error : t.error ≡ s.error
  pub is_writeable : t.is_writeable ≡ s.is_writeable

pub length-unread : {s : FileStream} → IsValid s → length (unread s) ≡ remain s
length-unread {s} v =
    omega
      (arith, v.inside, v.ordered, length-take (remain s) (window s), length-drop s.buf_pos s.buf)

-- A state whose window is at the start of the buffer.
pub restarted :
    (t : FileStream)
    → t.buf_pos ≡ 0
    → take t.buf_avail t.buf ++ ahead t ≡ pending t
    → (t.buf_avail ≤ length t.buf) × (0 < length t.buf)
    → t.cursor ≡ t.file_pos + t.buf_avail
    → t.cursor ≤ off_max
    → length t.content ≤ off_max
    → t.capture ≡ none
    → IsValid t
restarted t e aligned inside placed in_range small plain = record {
  aligned =
      let all : remain t ≡ t.buf_avail = omega arith in
      ap₂ (λ r p. take r (drop p t.buf) ++ ahead t) all e ∙ aligned;
  ordered = omega arith;
  inside = inside.0;
  buffered = inside.1;
  placed = omega arith;
  behind = omega arith;
  in_range = in_range;
  small = small;
  plain = plain;
}

pub enlarge-IsValid :
    {s : FileStream} (fresh : List ℕ) (count : ℕ) → IsValid s → IsValid (enlarge fresh count s)
unfolding enlarge
enlarge-IsValid {s} fresh count v = elim (Bool-cases (ltb (length s.buf) count)) [
  | inl y ↦
      let same : take (remain s) (drop s.buf_pos (s.buf ++ fresh)) ≡ unread s =
        take-drop-append s.buf_pos (remain s) s.buf fresh (omega (arith, v.inside, v.ordered)) in
      rw y record {
        aligned = ap (λ w. w ++ ahead s) same ∙ v.aligned;
        ordered = v.ordered;
        inside = omega (arith, v.inside, length-append s.buf fresh);
        buffered = omega (arith, v.buffered, length-append s.buf fresh);
        placed = v.placed;
        behind = v.behind;
        in_range = v.in_range;
        small = v.small;
        plain = v.plain;
      }
  | inr n ↦ rw n v
]

pub shift_down-IsValid : {s : FileStream} (count : ℕ) → IsValid s → IsValid (shift_down count s)
unfolding shift_down
shift_down-IsValid {s} count v = elim (Bool-cases (ltb (remain s) count)) [
  | inl y ↦
      let at : s.buf_avail - remain s ≡ s.buf_pos = omega (arith, v.ordered) in
      let kept : List ℕ = take (remain s) (drop (s.buf_avail - remain s) s.buf) in
      let is_unread : kept ≡ unread s = ap (λ k. take (remain s) (drop k s.buf)) at in
      let long : length kept ≡ remain s = ap length is_unread ∙ length-unread v in
      let front : take (remain s) (shift (remain s) s) ≡ unread s =
        ap (λ k. take k (shift (remain s) s)) (sym long) ∙ overwrite_front kept s.buf ∙ is_unread in
      rw y (
        restarted _ refl (ap (λ w. w ++ ahead s) front ∙ v.aligned)
          (omega (
            arith,
            long,
            v.inside,
            v.buffered,
            length-append kept (drop (0 + length kept) s.buf),
            length-drop (0 + length kept) s.buf,
          ))
          v.placed v.in_range v.small v.plain)
  | inr n ↦ rw n v
]

-- The bytes that `fread` puts behind the kept ones, at the start of the buffer.
pub read_behind :
    (kept : List ℕ) (n : ℕ) (s : FileStream)
    → (kept ++ fread n s) ++ drop (s.cursor + length (fread n s)) s.content ≡ kept ++ ahead s
read_behind kept n s =
    append_assoc kept (fread n s) (drop (s.cursor + length (fread n s)) s.content)
    ∙ ap (λ d. kept ++ (fread n s ++ d)) (sym (drop-drop (length (fread n s)) s.cursor s.content))
    ∙ ap (λ d. kept ++ d) (take-drop-length n (ahead s))

pub length-fread :
    (n : ℕ) (s : FileStream) → length (fread n s) ≡ min n (length s.content - s.cursor)
length-fread n s = omega (arith, length-take n (ahead s), length-drop s.cursor s.content)

pub read_in-IsValid : {s : FileStream} → IsValid s → s.buf_pos ≡ 0 → IsValid (read_in s.buf_avail s)
unfolding read_in
read_in-IsValid {s} v e =
    let bs : List ℕ = fread (length s.buf - s.buf_avail) s in
    let kept : List ℕ = take s.buf_avail s.buf in
    let long : length kept ≡ s.buf_avail = omega (arith, v.inside, length-take s.buf_avail s.buf) in
    let got = length-fread (length s.buf - s.buf_avail) s in
    let all : s.buf_avail ≡ remain s = omega arith in
    let is_unread : kept ≡ unread s = ap₂ (λ r p. take r (drop p s.buf)) all (sym e) in
    restarted _ e
      (ap (λ w. w ++ drop (s.cursor + length bs) s.content)
          (take-append-append (s.buf_avail + length bs) kept bs
            (drop (s.buf_avail + length bs) s.buf) (omega arith))
        ∙ read_behind kept (length s.buf - s.buf_avail) s
        ∙ ap (λ w. w ++ ahead s) is_unread
        ∙ v.aligned)
      (omega (
        arith,
        long,
        got,
        v.inside,
        v.buffered,
        length-append kept (bs ++ drop (s.buf_avail + length bs) s.buf),
        length-append bs (drop (s.buf_avail + length bs) s.buf),
        length-drop (s.buf_avail + length bs) s.buf,
      ))
      (omega (arith, v.placed)) (omega (arith, got, v.in_range, v.small)) v.small v.plain
