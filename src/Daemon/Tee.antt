-- ===== src/Daemon/Tee.antt =====
-- The line tee of the captured output (internal/daemon/tee.go). The sink behind it is the list of
-- the bytes that it was given, and the hook the list of the lines that it was handed.
pub mod Chunks
use spinloop.Prelude.{
  ℕ, ◌+◌, Bool, true, false, List, [], ◌∷◌, ◌++◌, if◌then◌else◌, ltb, ◌==◌, length,
}

abbrev pub newline : ℕ
newline = 10

abbrev pub tee_line_cap : ℕ
tee_line_cap = 65536

pub record LineTee : Type 0 where
  pub sink : List ℕ
  pub lines : List (List ℕ)
  pub buf : List ℕ
  pub skip : Bool

-- The complete lines of a write, and what stands behind its last newline.
pub record Segments : Type 0 where
  pub complete : List (List ℕ)
  pub rest : List ℕ

push : ℕ → List (List ℕ) → List ℕ → Segments
push c [] rest = record { complete = []; rest = c ∷ rest }
push c (l ∷ ls) rest = record { complete = (c ∷ l) ∷ ls; rest = rest }

unfoldable pub segments : List ℕ → Segments
unfolding push
segments [] = record { complete = []; rest = [] }
segments (c ∷ p) =
    let s = segments p in
    if c == newline
    then record { complete = [] ∷ s.complete; rest = s.rest }
    else push c s.complete s.rest

abbrev hand_over : List (List ℕ) → List ℕ → List (List ℕ)
hand_over lines [] = lines
hand_over lines (c ∷ l) = lines ++ (c ∷ l) ∷ []

-- A round of the loop that finds a newline: the line ends, and the next one begins.
tee_line : LineTee → List ℕ → LineTee
tee_line t l =
    if t.skip
    then record t { buf = []; skip = false }
    else if ltb tee_line_cap (length t.buf + length l)
    then record t { buf = []; skip = false }
    else record t { lines = hand_over t.lines (t.buf ++ l); buf = []; skip = false }

tee_lines : LineTee → List (List ℕ) → LineTee
unfolding tee_line
tee_lines t [] = t
tee_lines t (l ∷ ls) = tee_lines (tee_line t l) ls

-- The last round, with no newline left. An empty rest ends the loop before it.
tee_rest : LineTee → List ℕ → LineTee
tee_rest t [] = t
tee_rest t (c ∷ p) =
    if t.skip
    then t
    else if ltb tee_line_cap (length t.buf + length (c ∷ p))
    then record t { buf = []; skip = true }
    else record t { buf = t.buf ++ c ∷ p }

unfoldable pub write : LineTee → List ℕ → LineTee
unfolding tee_lines tee_rest segments
write t p =
    tee_rest (tee_lines (record t { sink = t.sink ++ p }) (segments p).complete) (segments p).rest

unfoldable pub write_all : LineTee → List (List ℕ) → LineTee
unfolding write
write_all t [] = t
write_all t (p ∷ ps) = write_all (write t p) ps

abbrev pub new_tee : LineTee
new_tee = record { sink = []; lines = []; buf = []; skip = false }
