-- ===== src/Daemon/Logs/Follow.antt =====
-- A caller that follows the log: it passes the position of each reply back, while the log grows
-- (internal/daemon/logs.go; the callers are in cmd/spinloop).
use mathlib.Core.List.{append_assoc, append-nil}
use spinloop.Prelude.{
  ℕ, zero, suc, ◌+◌, ◌≤◌, ◌<◌, String, true, false, ◌≡◌, refl, sym, ap, ◌∙◌, List, [], ◌∷◌, ◌++◌,
  length, drop, length-append, drop-append, drop-drop, drop-length_append, inl, inr, arith, subst,
}
use spinloop.Prelude.Int.{ℤ, pos}
use spinloop.Prelude.Result.{ok, err}
use spinloop.Fleet.Tags.{is_empty}
use spinloop.Daemon.Logs.{LogsResponse, holds, read_log, clamp_log_read}
use spinloop.Daemon.Logs.Slice.{Serves, Slice-le}
use spinloop.Daemon.Logs.Read.{LogRead, read_log-LogRead}

-- What the caller receives in all, and the position that it ends at. Before each read the log has
-- grown by a part, which may be empty.
unfoldable pub follow : String → ℤ → List ℕ → ℕ → List (List ℕ) → List ℕ × ℕ
follow path limit bytes at [] = ([], at)
follow path limit bytes at (part ∷ parts) =
    elim (read_log path (pos at) limit (holds true (bytes ++ part))) [
      | err e ↦ ([], at)
      | ok r ↦
          let rest = follow path limit (bytes ++ part) r.next_offset parts in
          (r.content ++ rest.0, rest.1)
    ]

abbrev pub joined : List (List ℕ) → List ℕ
joined [] = []
joined (part ∷ parts) = part ++ joined parts

-- As many reads while nothing is appended.
abbrev pub quiet : ℕ → List (List ℕ)
quiet zero = []
quiet (suc n) = [] ∷ quiet n

-- One read: what it gives stands before what is left.
record Moves (bytes : List ℕ) (at : ℕ) (r : LogsResponse) : Type 0 where
  joins : r.content ++ drop r.next_offset bytes ≡ drop at bytes
  inside : r.next_offset ≤ length bytes
  forward : at ≤ r.next_offset
  advances : at < length bytes → at < r.next_offset

served-Moves :
    (path : String) (limit start : ℕ) (bytes : List ℕ) (r : LogsResponse)
    → Serves path bytes limit start r
    → (start < length bytes → start < r.next_offset)
    → Moves bytes start r
served-Moves path limit start bytes r s a =
    let (rest, e, h) = s.slice in
    let c = r.content in
    let q : drop (start + length c) bytes ≡ rest =
      sym (drop-drop (length c) start bytes)
      ∙ ap (drop (length c)) (sym e)
      ∙ drop-length_append c rest in
    record {
      joins = ap (λ (n : ℕ). c ++ drop n bytes) s.next ∙ ap (λ (l : List ℕ). c ++ l) q ∙ e;
      inside = omega (arith, Slice-le bytes start c s.slice, s.next);
      forward = omega (arith, s.next);
      advances = a;
    }

read_log-Moves :
    (path : String) (limit : ℤ) (bytes : List ℕ) (at : ℕ)
    → is_empty path ≡ false
    → at ≤ length bytes
    → (r : LogsResponse) × (read_log path (pos at) limit (holds true bytes) ≡ ok r)
      × Moves bytes at r
read_log-Moves path limit bytes at p h = go (read_log-LogRead path (pos at) limit true bytes p)
  where
    go :
        LogRead path
          (pos at)
          (clamp_log_read limit)
          true
          bytes
          (read_log path (pos at) limit (holds true bytes))
        → (r : LogsResponse) × (read_log path (pos at) limit (holds true bytes) ≡ ok r)
          × Moves bytes at r
    go (inl (e, n, q, l)) = absurd (ground arith)
    go (inr (inl (e, q))) = absurd (cc)
    go (inr (inr (start, r, e, s, (q, a)))) = (
      r,
      e,
      served-Moves path (clamp_log_read limit) at bytes r
          (subst (λ (n : ℕ). Serves path bytes (clamp_log_read limit) n r) q s) a,
    )

drop_everything : (at : ℕ) (bytes : List ℕ) → at ≡ length bytes → drop at bytes ≡ []
drop_everything at [] h = rw h refl
drop_everything zero (c ∷ bytes) h = absurd (omega arith)
drop_everything (suc at) (c ∷ bytes) h = drop_everything at bytes (omega arith)

-- One read, with what stands behind the log that it reads.
Moves-append :
    (bytes more : List ℕ) (at : ℕ) (r : LogsResponse)
    → at ≤ length bytes
    → Moves bytes at r
    → r.content ++ drop r.next_offset (bytes ++ more) ≡ drop at (bytes ++ more)
Moves-append bytes more at r h m =
    ap (λ (l : List ℕ). r.content ++ l) (drop-append r.next_offset bytes more m.inside)
    ∙ sym (append_assoc r.content (drop r.next_offset bytes) more)
    ∙ ap (λ (l : List ℕ). l ++ more) m.joins
    ∙ sym (drop-append at bytes more h)

-- One read and all that follow it.
follow-part :
    (path : String) (limit : ℤ) (bytes part more : List ℕ) (at : ℕ) (parts : List (List ℕ))
    → is_empty path ≡ false
    → at ≤ length bytes
    → ((r : LogsResponse)
        → Moves (bytes ++ part) at r
        → follow path limit (bytes ++ part) r.next_offset parts
          ≡ (drop r.next_offset ((bytes ++ part) ++ more), length ((bytes ++ part) ++ more)))
    → follow path limit bytes at (part ∷ parts)
      ≡ (drop at (bytes ++ (part ++ more)), length (bytes ++ (part ++ more)))
unfolding follow
follow-part path limit bytes part more at parts p h ih =
    let l : at ≤ length (bytes ++ part) = omega (arith, length-append bytes part) in
    let (r, e, m) = read_log-Moves path limit (bytes ++ part) at p l in
    let q = Moves-append (bytes ++ part) more at r l m in
    rw (e, follow, ih r m, q, append_assoc bytes part more) refl

follow-quiet :
    (path : String) (limit : ℤ) (bytes : List ℕ) (at k : ℕ)
    → is_empty path ≡ false
    → at ≤ length bytes
    → length bytes ≤ at + k
    → follow path limit bytes at (quiet k) ≡ (drop at bytes, length bytes)
unfolding follow
follow-quiet path limit bytes at zero p h k =
    let q : at ≡ length bytes = omega arith in rw (drop_everything at bytes q) (ap (λ n. ([], n)) q)
follow-quiet path limit bytes at (suc k) p h l =
    follow-part path limit bytes [] [] at (quiet k) p h (λ r m.
      rw (append-nil bytes, append-nil bytes)
        (follow-quiet path limit bytes r.next_offset k p
          (omega (arith, length-append bytes [], m.inside))
          (ground (arith, length-append bytes [], m.advances, m.forward))))
    ∙ rw (append-nil bytes) refl

-- A caller that begins at a position of the log and passes back the position of each reply receives
-- every byte from there to the end, those appended before any of its reads included, each of them
-- once and in the order of the log, and ends at the log's length. It asks for the log at a stated
-- position, the log never shrinks, every read of the file succeeds, and after the last part is
-- appended the caller reads at least as many times as there were bytes behind its first position.
pub follow-joined :
    (path : String) (limit : ℤ) (parts : List (List ℕ)) (bytes : List ℕ) (at k : ℕ)
    → is_empty path ≡ false
    → at ≤ length bytes
    → length (bytes ++ joined parts) ≤ at + k
    → follow path limit bytes at (parts ++ quiet k)
      ≡ (drop at (bytes ++ joined parts), length (bytes ++ joined parts))
follow-joined path limit [] bytes at k p h l =
    rw (append-nil bytes)
      (follow-quiet path limit bytes at k p h (omega (arith, length-append bytes [])))
follow-joined path limit (part ∷ parts) bytes at k p h l =
    follow-part path limit bytes part (joined parts) at (parts ++ quiet k) p h (λ r m.
      follow-joined path limit parts (bytes ++ part) r.next_offset k p m.inside (
        (omega (
          arith,
          m.forward,
          ap (λ (xs : List ℕ). length xs) (append_assoc bytes part (joined parts)),
        ))))
