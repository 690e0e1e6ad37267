-- ===== src/Reader.antt =====
-- What src/stream.c promises of a stream, whatever stands behind it: the operations `next` and
-- `consume` of src/stream.h as an interface with its laws, and the client of it, the seek of a
-- stream that is not seekable.
pub mod Skip
pub mod Memory
pub mod File
mod Tests
use libasdf.Prelude.{
  ℕ, zero, suc, ◌+◌, ◌-◌, ◌*◌, ◌/◌, ◌%◌, ◌^◌, ◌≤◌, ◌<◌, min, max, ◌≡◌, refl, sym, ap, ap₂, ◌∙◌,
}
use libasdf.Prelude.{
  ◌≢◌, ◌↔◌, ◌⊎◌, inl, inr, Bool, true, false, not, ◌&&◌, ◌||◌, Option, none, some, arith,
}
use libasdf.Prelude.{
  List, [], ◌∷◌, ◌++◌, map, length, get_elem?, get_or, set, take, drop, replicate, All,
}
use libasdf.Prelude.{ltb, leb, ◌==◌, if◌then◌else◌, Bool-cases, Option-cases, tests}
use libasdf.Prelude.{
  length-append, length-take, length-drop, length-replicate, take-append, drop-append, drop-drop,
  drop-nil, drop_all, take-append-drop,
}
use libasdf.Prelude.{M, pure, fault, ◌>>=◌, ◌>>◌, get, gets, modify, read, assert, >>=-eq-some}
use libasdf.Prelude.Int.{ℤ, pos, negsuc, to_size}
use libasdf.Error.{ErrorCode, system}
use libasdf.Stream.{Whence, seek_set, seek_cur, seek_end, other}

-- What `next` may answer about the bytes `bs` that are left, asked for `n`: NULL, if there are none,
-- or else the start of them, of at least `n` bytes or of all, and of at least one.
abbrev pub Answers : ℕ → List ℕ → Option (List ℕ) × ℕ → Type 0
Answers n bs (none, avail) = (bs ≡ []) × (avail ≡ 0)
Answers n bs (some p, avail) =
    (0 < avail) × (min n (length bs) ≤ avail) × (take avail p ≡ take avail bs) × (avail ≤ length bs)

-- An implementation of streams, with what they hold and where they stand in it. A client consumes
-- what `next` has offered.
pub record Reader (S : Type 0) : Type 1 where
  pub IsReady : S → Type 0
  pub bytes : S → List ℕ
  pub place : S → ℕ
  pub offered : S → ℕ
  pub error : S → Option ErrorCode
  pub is_seekable : S → Bool
  pub set_error : ErrorCode → S → S
  pub seek : ℤ → Whence → M S Bool
  pub next : ℕ → M S (Option (List ℕ) × ℕ)
  pub consume : ℕ → M S (Unit {0})
  pub next_law :
      (n : ℕ) (s : S)
      → IsReady s
      → 0 < n
      → (r : Option (List ℕ) × ℕ) × (t : S) × (next n s ≡ some (r, t))
        × IsReady t
        × (bytes t ≡ bytes s)
        × (place t ≡ place s)
        × (error t ≡ error s)
        × (offered t ≡ r.1)
        × Answers n (drop (place s) (bytes s)) r
  pub consume_law :
      (n : ℕ) (s : S)
      → IsReady s
      → n ≤ offered s
      → (t : S) × (consume n s ≡ some (tt, t))
        × IsReady t
        × (bytes t ≡ bytes s)
        × (place t ≡ place s + n)
        × (error t ≡ error s)

module _ {S : Type 0} (r : Reader S) where
  open r use {error, is_seekable, set_error, seek, next, consume}

  -- `while (to_consume > 0)` of `asdf_stream_seek`, on fuel; true is the result 0.
  unfoldable pub skip : ℕ → ℕ → M S Bool
  skip zero to_consume s = none
  skip (suc f) to_consume s = if to_consume == 0 then some (true, s) else elim (next 1 s) [
    | none ↦ none
    | some ((p, avail), t) ↦ elim (error t) [
      | some e ↦ some (false, t)
      | none ↦
          if avail == 0
          then some (true, t)
          else let count = if leb to_consume avail then to_consume else avail in
            elim (consume count t) [ none ↦ none | some (_, u) ↦ skip f (to_consume - count) u ]
    ]
  ]

  -- A negative offset of a stream that is not seekable. The code's `assert` fails on a relative one.
  refuse_back : Whence → M S Bool
  refuse_back seek_cur s = none
  refuse_back seek_set s = some (false, set_error system s)
  refuse_back seek_end s = some (false, set_error system s)
  refuse_back other s = some (false, set_error system s)

  seek_forward : ℤ → Whence → M S Bool
  unfolding skip refuse_back
  seek_forward (pos n) whence s = skip (n + 1) n s
  seek_forward (negsuc n) whence s = refuse_back whence s

  -- `asdf_stream_seek`; true is the result 0. Every round of its loop consumes at least one byte.
  unfoldable pub stream_seek : ℤ → Whence → M S Bool
  unfolding seek_forward
  stream_seek off whence s = if is_seekable s then seek off whence s else seek_forward off whence s
