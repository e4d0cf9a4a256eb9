-- ===== src/Daemon/Logs/Read.antt =====
-- What one read of the log gives, whatever it asks for (internal/daemon/logs.go).
use spinloop.Prelude.{
  ℕ, zero, suc, ◌+◌, ◌≤◌, ◌<◌, String, Bool, false, ◌≡◌, refl, ap, ◌∙◌, List, [], ◌∷◌, ltb, length,
  take, drop, length-drop, Option-cases, Bool-cases, inl, inr, ◌⊎◌, arith, ◌-◌, true,
  length-take-le, ◌&&◌, not,
}
use spinloop.Prelude.Int.{ℤ, pos, negsuc}
use spinloop.Prelude.Result.{Result, ok, err}
use spinloop.Daemon.Logs.{
  LogsResponse, LogError, not_read, first_newline, whole_lines, reply, stale_log, clamp_log_read,
  start_of, trim_front, read_from, read_file, read_log, holds,
}
use spinloop.Fleet.Tags.{is_empty}
use spinloop.Daemon.Logs.Slice.{
  Slice, Serves, Slice-take, Slice-back, first_newline-lt, whole_lines-EndsLine, Slice-le,
  reply-Serves,
}

-- Where the read of an offset begins and ends. `negsuc 0` asks for the end of the log.
abbrev pub Placed : ℤ → ℕ → List ℕ → ℕ → LogsResponse → Type 0
Placed (pos n) limit bytes start r = (start ≡ n) × (n < length bytes → n < r.next_offset)
Placed (negsuc zero) limit bytes start r =
    (length bytes ≤ start + limit) × (r.next_offset ≡ length bytes)
Placed (negsuc (suc n)) limit bytes start r = start ≡ 0

-- What a read of a log that is there gives.
abbrev pub LogRead : String → ℤ → ℕ → Bool → List ℕ → Result LogError LogsResponse → Type 0
LogRead path offset limit reads bytes r =
    ((r ≡ ok (stale_log path (length bytes))) × (n : ℕ) × (offset ≡ pos n) × (length bytes < n))
    ⊎ ((r ≡ err not_read) × (reads ≡ false))
    ⊎ ((start : ℕ) × (resp : LogsResponse) × (r ≡ ok resp)
        × Serves path bytes limit start resp
        × Placed offset limit bytes start resp)

-- The text that is read at a position, before it is cut.
abbrev window : List ℕ → ℕ → ℕ → List ℕ
window bytes limit start = take limit (drop start bytes)

length-take_pos : (n : ℕ) (xs : List ℕ) → 0 < n → 0 < length xs → 0 < length (take n xs)
length-take_pos zero xs h k = absurd (omega arith)
length-take_pos (suc n) [] h k = absurd (omega arith)
length-take_pos (suc n) (x ∷ xs) h k = omega arith

-- A read of bytes moves the position on.
window_advances :
    (bytes : List ℕ) (limit start : ℕ)
    → 0 < limit
    → start < length bytes
    → start < start + length (whole_lines (length bytes) start (window bytes limit start))
window_advances bytes limit start l h = omega (
  arith,
  (whole_lines-EndsLine (length bytes) start (window bytes limit start) (
        Slice-le bytes start (window bytes limit start)
          (Slice-take bytes start limit (omega arith)))).2
      (length-take_pos limit (drop start bytes) l (omega (arith, length-drop start bytes))),
)

-- A read that states its position.
read_from-stated :
    (path : String) (n limit : ℕ) (reads : Bool) (bytes : List ℕ)
    → 0 < limit
    → LogRead path (pos n) limit reads bytes (read_from path reads bytes limit (n, false))
unfolding read_from trim_front
read_from-stated path n limit reads bytes l = elim (Bool-cases (ltb (length bytes) n)) [
  | inl e ↦ rw e (inl (refl, n, refl, ground arith))
  | inr e ↦ elim (Bool-cases (ltb n (length bytes) && not reads)) [
    | inl f ↦ rw (e, f) (inr (inl (refl, ground arith)))
    | inr f ↦
        let s = Slice-take bytes n limit (ground arith) in
        let k = length-take-le limit (drop n bytes) in
        rw (e, f)
          (inr (
            inr (
              n,
              reply path (length bytes) (n, window bytes limit n),
              refl,
              reply-Serves path bytes limit n (window bytes limit n) s k,
              (refl, window_advances bytes limit n l),
            )))
  ]
]

-- What dropping the first fragment of a line leaves of a text that reaches the end.
record Trimmed (bytes : List ℕ) (start : ℕ) (buf : List ℕ) (t : ℕ × List ℕ) : Type 0 where
  slice : Slice bytes t.0 t.1
  reaches : t.0 + length t.1 ≡ start + length buf
  later : start ≤ t.0

trim_front-Trimmed :
    (bytes : List ℕ) (start : ℕ) (buf : List ℕ)
    → Slice bytes start buf
    → Trimmed bytes start buf (trim_front true start buf)
unfolding trim_front
trim_front-Trimmed bytes start buf s = elim (Bool-cases (ltb 0 start)) [
  | inl e ↦ elim (Option-cases (first_newline buf)) [
    | inl o ↦ rw (e, o) (record { slice = s; reaches = refl; later = omega arith })
    | inr (i, o) ↦
        let k = first_newline-lt buf i o in
        rw (e, o)
          (record {
            slice = Slice-back bytes start (suc i) buf k s;
            reaches = omega (arith, length-drop (suc i) buf);
            later = omega arith;
          })
  ]
  | inr e ↦ rw e (record { slice = s; reaches = refl; later = omega arith })
]

take_all : (n : ℕ) (xs : List ℕ) → length xs ≤ n → take n xs ≡ xs
take_all zero [] h = refl
take_all zero (x ∷ xs) h = absurd (omega arith)
take_all (suc n) [] h = refl
take_all (suc n) (x ∷ xs) h = ap (◌∷◌ x) (take_all n xs (omega arith))

length-window_end :
    (bytes : List ℕ) (limit : ℕ)
    → (length bytes - limit) + length (window bytes limit (length bytes - limit)) ≡ length bytes
length-window_end bytes limit =
    let n = length-drop (length bytes - limit) bytes in
    rw (take_all limit (drop (length bytes - limit) bytes) (omega arith)) (omega arith)

-- At the end of the log there is no line to wait for.
whole_lines_end :
    (size start : ℕ) (buf : List ℕ) → start + length buf ≡ size → whole_lines size start buf ≡ buf
unfolding whole_lines
whole_lines_end size start buf h = ground arith

-- A read of the end of the log.
read_from-tail :
    (path : String) (limit : ℕ) (reads : Bool) (bytes : List ℕ)
    → LogRead path
        (negsuc 0)
        limit
        reads
        bytes
        (read_from path reads bytes limit (length bytes - limit, true))
unfolding read_from reply
read_from-tail path limit reads bytes =
    elim (Bool-cases (ltb (length bytes - limit) (length bytes) && not reads)) [
      | inl f ↦ rw (never, f) (inr (inl (refl, ground arith)))
      | inr f ↦
          rw (never, f)
            (inr (
              inr (
                t.0,
                reply path (length bytes) t,
                refl,
                reply-Serves path bytes limit t.0 t.1 trimmed.slice short,
                (
                  omega (arith, trimmed.later),
                  rw (whole_lines_end (length bytes) t.0 t.1 ends) ends,
                ),
              )))
    ]
  where
    size : ℕ
    size = length bytes

    never : ltb (length bytes) (length bytes - limit) ≡ false
    never = ground arith

    buf : List ℕ
    buf = window bytes limit (length bytes - limit)

    t : ℕ × List ℕ
    t = trim_front true (length bytes - limit) buf

    trimmed : Trimmed bytes (length bytes - limit) buf t
    trimmed =
        trim_front-Trimmed bytes (length bytes - limit) buf
          (Slice-take bytes (length bytes - limit) limit (omega arith))

    ends : t.0 + length t.1 ≡ length bytes
    ends = trimmed.reaches ∙ length-window_end bytes limit

    short : length t.1 ≤ limit
    short = omega (
      arith,
      trimmed.reaches,
      trimmed.later,
      length-take-le limit (drop (length bytes - limit) bytes),
    )

clamp_log_read_pos : (limit : ℤ) → 0 < clamp_log_read limit
unfolding clamp_log_read
clamp_log_read_pos limit = ground arith

-- A position below zero is the beginning.
LogRead-below :
    (path : String) (n limit : ℕ) (reads : Bool) (bytes : List ℕ) (r : Result LogError LogsResponse)
    → LogRead path (pos 0) limit reads bytes r
    → LogRead path (negsuc (suc n)) limit reads bytes r
LogRead-below path n limit reads bytes r (inl (e, m, p, h)) = absurd (ground arith)
LogRead-below path n limit reads bytes r (inr (inl h)) = inr (inl h)
LogRead-below path n limit reads bytes r (inr (inr (start, resp, e, s, p))) =
    inr (inr (start, resp, e, s, p.0))

pub read_log-LogRead :
    (path : String) (offset limit : ℤ) (reads : Bool) (bytes : List ℕ)
    → is_empty path ≡ false
    → LogRead path offset
        (clamp_log_read limit)
        reads
        bytes
        (read_log path offset limit (holds reads bytes))
unfolding read_log read_file start_of
read_log-LogRead path (pos n) limit reads bytes h =
    rw h (read_from-stated path n (clamp_log_read limit) reads bytes (clamp_log_read_pos limit))
read_log-LogRead path (negsuc zero) limit reads bytes h =
    rw h (read_from-tail path (clamp_log_read limit) reads bytes)
read_log-LogRead path (negsuc (suc n)) limit reads bytes h = rw h (
    LogRead-below path n (clamp_log_read limit) reads bytes _
      (read_from-stated path 0 (clamp_log_read limit) reads bytes (clamp_log_read_pos limit)))
