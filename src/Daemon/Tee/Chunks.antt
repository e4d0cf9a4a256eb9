-- ===== src/Daemon/Tee/Chunks.antt =====
-- The lines that the hook sees do not depend on how the stream is cut into writes
-- (internal/daemon/tee.go).
use spinloop.Prelude.{
  ℕ, ◌≤◌, ◌<◌, Bool, true, false, ◌≡◌, List, [], ◌∷◌, ◌++◌, leb, length, keep_if, ◌⊎◌,
}
use spinloop.Daemon.Tee.{tee_line_cap, LineTee, Segments, segments}

-- The segments of two writes in a row.
join : Segments → List (List ℕ) → List ℕ → Segments
join s [] rest = record { complete = s.complete; rest = s.rest ++ rest }
join s (l ∷ ls) rest = record { complete = s.complete ++ (s.rest ++ l) ∷ ls; rest = rest }

-- The lines that are handed over: not empty, and no longer than the cap.
abbrev pub fits : List ℕ → Bool
fits [] = false
fits (c ∷ l) = leb (length (c ∷ l)) tee_line_cap

-- What the buffer holds of the line that is not complete yet.
abbrev Holds : LineTee → List ℕ → Type 0
Holds t r =
    ((t.skip ≡ false) × (t.buf ≡ r) × (length r ≤ tee_line_cap))
    ⊎ ((t.skip ≡ true) × (t.buf ≡ []) × (tee_line_cap < length r))

-- The state after the bytes of a stream.
record Tracks (stream : List ℕ) (t : LineTee) : Type 0 where
  sunk : t.sink ≡ stream
  handed : t.lines ≡ keep_if fits (segments stream).complete
  holds : Holds t (segments stream).rest

abbrev pub concat : List (List ℕ) → List ℕ
concat [] = []
concat (p ∷ ps) = p ++ concat ps
