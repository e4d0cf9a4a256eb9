-- ===== src/Daemon/Logs/Slice.antt =====
-- What one read of the log gives (internal/daemon/logs.go).
use mathlib.Core.List.{append_assoc}
use spinloop.Prelude.{
  ℕ, zero, suc, ◌+◌, ◌≤◌, ◌<◌, String, false, ◌≡◌, refl, sym, ap, ◌∙◌, List, [], ◌∷◌, ◌++◌, none,
  some, ltb, length, take, drop, length-take, length-drop, length-append, take-append-drop,
  drop-drop, drop-append, Option-cases, Bool-cases, inl, inr, ◌⊎◌, arith,
}
use spinloop.Daemon.Logs.{
  LogsResponse, first_newline, last_newline, whole_lines, reply, read_log, LogFile, absent,
  unopened, unmeasured, holds, clamp_log_read,
}
use spinloop.Prelude.Int.{ℤ}

pub first_newline-lt : (buf : List ℕ) (i : ℕ) → first_newline buf ≡ some i → i < length buf
unfolding first_newline
first_newline-lt [] i h = cc
first_newline-lt (c ∷ buf) zero h = omega arith
first_newline-lt (c ∷ buf) (suc i) h = ground (arith, first_newline-lt buf i)

pub last_newline-lt : (buf : List ℕ) (i : ℕ) → last_newline buf ≡ some i → i < length buf
unfolding last_newline
last_newline-lt [] i h = cc
last_newline-lt (c ∷ buf) zero h = omega arith
last_newline-lt (c ∷ buf) (suc i) h = ground (arith, last_newline-lt buf i)

-- Cut behind its last newline, the text still has that one last.
last_newline-take :
    (buf : List ℕ) (i : ℕ) → last_newline buf ≡ some i → last_newline (take (suc i) buf) ≡ some i
unfolding last_newline
last_newline-take [] i h = cc
last_newline-take (c ∷ buf) zero h = ground arith
last_newline-take (c ∷ buf) (suc i) h = ground (arith, last_newline-take buf i)

-- The text is the part of the file that begins at the position.
abbrev pub Slice : List ℕ → ℕ → List ℕ → Type 0
Slice bytes start text =
    (rest : List ℕ) × (text ++ rest ≡ drop start bytes) × (start ≤ length bytes)

-- Whole lines: the text has no newline, or ends with one.
abbrev pub EndsLine : List ℕ → Type 0
EndsLine text =
    (last_newline text ≡ none) ⊎ ((i : ℕ) × (last_newline text ≡ some i) × (length text ≡ suc i))

pub Slice-take :
    (bytes : List ℕ) (start n : ℕ)
    → start ≤ length bytes
    → Slice bytes start (take n (drop start bytes))
Slice-take bytes start n h = (drop n (drop start bytes), take-append-drop n (drop start bytes), h)

-- A part of a slice is a slice.
Slice-front :
    (bytes : List ℕ) (start n : ℕ) (buf : List ℕ)
    → Slice bytes start buf
    → Slice bytes start (take n buf)
Slice-front bytes start n buf (rest, e, h) = (
  drop n buf ++ rest,
  sym (append_assoc (take n buf) (drop n buf) rest)
      ∙ ap (λ (l : List ℕ). l ++ rest) (take-append-drop n buf)
      ∙ e,
  h,
)

pub Slice-back :
    (bytes : List ℕ) (start n : ℕ) (buf : List ℕ)
    → n ≤ length buf
    → Slice bytes start buf
    → Slice bytes (start + n) (drop n buf)
Slice-back bytes start n buf k (rest, e, h) = (
  rest,
  sym (drop-append n buf rest k) ∙ ap (drop n) e ∙ drop-drop n start bytes,
  omega (arith, length-drop start bytes, length-append buf rest, ap (λ (l : List ℕ). length l) e),
)

whole_lines-Slice :
    (bytes : List ℕ) (size start : ℕ) (buf : List ℕ)
    → Slice bytes start buf
    → Slice bytes start (whole_lines size start buf)
unfolding whole_lines
whole_lines-Slice bytes size start buf s = elim (Bool-cases (ltb (start + length buf) size)) [
  | inl e ↦ elim (Option-cases (last_newline buf)) [
    | inl o ↦ rw (e, o) s
    | inr (i, o) ↦ rw (e, o) (Slice-front bytes start (suc i) buf s)
  ]
  | inr e ↦ rw e s
]

-- A read that stops short of the end gives whole lines, and no read that has bytes gives none.
pub whole_lines-EndsLine :
    (size start : ℕ) (buf : List ℕ)
    → start + length buf ≤ size
    → ((start + length (whole_lines size start buf) ≡ size) ⊎ EndsLine (whole_lines size start buf))
      × (length (whole_lines size start buf) ≤ length buf)
      × (0 < length buf → 0 < length (whole_lines size start buf))
unfolding whole_lines
whole_lines-EndsLine size start buf k = elim (Bool-cases (ltb (start + length buf) size)) [
  | inl e ↦ elim (Option-cases (last_newline buf)) [
    | inl o ↦ rw (e, o) (inr (inl o), omega arith, λ h. h)
    | inr (i, o) ↦
        let n : length (take (suc i) buf) ≡ suc i =
          length-take (suc i) buf (last_newline-lt buf i o) in
        rw (e, o)
          (
            inr (inr (i, last_newline-take buf i o, n)),
            omega (arith, last_newline-lt buf i o),
            λ h. omega arith,
          )
  ]
  | inr e ↦ rw e (inl (ground arith), omega arith, λ h. h)
]

-- What a reply holds that is neither missing nor stale.
pub record Serves (path : String) (bytes : List ℕ) (limit start : ℕ) (r : LogsResponse)
    : Type 0 where
  pub slice : Slice bytes start r.content
  pub next : r.next_offset ≡ start + length r.content
  pub within : length r.content ≤ limit
  pub lines : (r.next_offset ≡ length bytes) ⊎ EndsLine r.content
  pub named : (r.path ≡ path) × (r.size ≡ length bytes)
  pub plain : (r.missing ≡ false) × (r.stale_offset ≡ false)

pub Slice-le :
    (bytes : List ℕ) (start : ℕ) (buf : List ℕ)
    → Slice bytes start buf
    → start + length buf ≤ length bytes
Slice-le bytes start buf (rest, e, h) =
    omega (arith, length-append buf rest, length-drop start bytes, ap (λ (l : List ℕ). length l) e)

pub reply-Serves :
    (path : String) (bytes : List ℕ) (limit start : ℕ) (buf : List ℕ)
    → Slice bytes start buf
    → length buf ≤ limit
    → Serves path bytes limit start (reply path (length bytes) (start, buf))
unfolding reply
reply-Serves path bytes limit start buf s k =
    let w = whole_lines-EndsLine (length bytes) start buf (Slice-le bytes start buf s) in
    record {
      slice = whole_lines-Slice bytes (length bytes) start buf s;
      next = refl;
      within = omega (arith, w.1);
      lines = w.0;
      named = (refl, refl);
      plain = (refl, refl);
    }

-- A read depends on its limit only as far as it is clamped.
pub read_log-clamp_log_read :
    (path : String) (offset limit limit' : ℤ) (file : LogFile)
    → clamp_log_read limit ≡ clamp_log_read limit'
    → read_log path offset limit file ≡ read_log path offset limit' file
unfolding read_log
read_log-clamp_log_read path offset l l' absent e = refl
read_log-clamp_log_read path offset l l' unopened e = refl
read_log-clamp_log_read path offset l l' unmeasured e = refl
read_log-clamp_log_read path offset l l' (holds reads bytes) e = rw e
