-- ===== src/Reader/Memory.antt =====
-- The memory-backed stream of src/stream.c as an implementation of streams.
use libasdf.Prelude.{ℕ, ◌+◌, ◌-◌, ◌≡◌, refl}
use libasdf.Prelude.{inl, inr, true, false, Option, none, some, arith}
use libasdf.Prelude.{List, length}
use libasdf.Prelude.{leb, Bool-cases}
use libasdf.Prelude.{drop_all}
use libasdf.Prelude.{M, pure, ◌>>=◌}
use libasdf.Reader.{Reader, Answers}
use libasdf.Stream.{Stream, size, rest, mem_next, mem_consume, mem_seek}
use libasdf.Stream.Valid.{IsValid, length-rest}
use libasdf.Stream.Captured.{mem_consume-plain}

-- `mem_next` with `*avail`.
unfoldable pub answer : M Stream (Option (List ℕ) × ℕ)
answer = do r ← mem_next; pure (elim r [ none ↦ (none, 0) | some p ↦ (some p, length p) ])

next_none : (s : Stream) → leb (size s) s.offset ≡ true → mem_next s ≡ some (none, s)
unfolding mem_next
next_none s y = rw y refl

next_some : (s : Stream) → leb (size s) s.offset ≡ false → mem_next s ≡ some (some (rest s), s)
unfolding mem_next
next_some s k = rw k refl

pub answer_lem :
    (n : ℕ) (s : Stream)
    → IsValid s
    → (r : Option (List ℕ) × ℕ) × (answer s ≡ some (r, s))
      × (size s - s.offset ≡ r.1)
      × Answers n (rest s) r
unfolding answer
answer_lem n s v = elim (Bool-cases (leb (size s) s.offset)) [
  | inl y ↦ (
    (none, 0),
    rw (next_none s y, ◌>>=◌) refl,
    ground (arith, y),
    (drop_all s.offset s.buf (ground (arith, y)), refl),
  )
  | inr k ↦ (
    (some (rest s), length (rest s)),
    rw (next_some s k, ◌>>=◌) refl,
    omega (arith, length-rest s),
    (ground (arith, k, length-rest s), omega arith, refl, omega arith),
  )
]

unfoldable pub memory : Reader Stream
memory = record {
  IsReady = IsValid;
  bytes = λ s. s.buf;
  place = λ s. s.offset;
  offered = λ s. size s - s.offset;
  error = λ s. s.error;
  is_seekable = λ s. true;
  set_error = λ e s. record s { error = some e };
  seek = mem_seek;
  next = λ n. answer;
  consume = mem_consume;
  next_law = λ n s v h.
      let (r, call, off, ans) = answer_lem n s v in (r, s, call, v, refl, refl, refl, off, ans);
  consume_law = λ n s v h. (
    record s { offset = s.offset + n },
    mem_consume-plain s n v.plain (omega (arith, v.within, v.small)),
    record { within = omega (arith, v.within); small = v.small; plain = v.plain },
    refl,
    refl,
    refl,
  );
}
