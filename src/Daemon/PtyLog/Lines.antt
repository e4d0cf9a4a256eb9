-- ===== src/Daemon/PtyLog/Lines.antt =====
-- One line of the screen, and the column of lines (internal/daemon/ptylog.go).
pub mod Clean
use spinloop.Prelude.{
  ℕ, zero, suc, ◌+◌, ◌-◌, ◌<◌, ◌≤◌, Bool, true, false, not, List, [], ◌∷◌, ◌++◌, if◌then◌else◌, ltb,
  leb, ◌==◌, ◌&&◌, ◌||◌, length, map, ◌≡◌, refl, arith, All,
}

pub record PtyLine : Type 0 where
  pub content : List ℕ
  pub drawing : Bool
  pub pending_cr : Bool
  pub replacing : Bool
  pub committed : Bool
  pub recorded : Bool
  pub last : List ℕ
  pub last_at : ℕ

abbrev pub blank : PtyLine
blank = record {
  content = [];
  drawing = false;
  pending_cr = false;
  replacing = false;
  committed = false;
  recorded = false;
  last = [];
  last_at = 0;
}

-- The line at a row, which is always one of the column's.
unfoldable pub line_at : List PtyLine → ℕ → PtyLine
line_at [] row = blank
line_at (l ∷ ls) zero = l
line_at (l ∷ ls) (suc row) = line_at ls row

unfoldable pub set_line : List PtyLine → ℕ → PtyLine → List PtyLine
set_line [] row l = []
set_line (x ∷ ls) zero l = l ∷ ls
set_line (x ∷ ls) (suc row) l = x ∷ set_line ls row l

-- The column down to the row at least.
unfoldable pub extend : List PtyLine → ℕ → List PtyLine
extend [] zero = blank ∷ []
extend [] (suc row) = blank ∷ extend [] row
extend (l ∷ ls) zero = l ∷ ls
extend (l ∷ ls) (suc row) = l ∷ extend ls row

abbrev pub same_bytes : List ℕ → List ℕ → Bool
same_bytes [] [] = true
same_bytes [] (y ∷ ys) = false
same_bytes (x ∷ xs) [] = false
same_bytes (x ∷ xs) (y ∷ ys) = (x == y) && same_bytes xs ys

abbrev pub no_bytes : List ℕ → Bool
no_bytes [] = true
no_bytes (x ∷ xs) = false

-- What an operation on one line makes of the log and of the line.
pub record Drawn : Type 0 where
  pub out : List (List ℕ)
  pub line : PtyLine

-- `p.interval`, the two seconds of `ptyRedrawInterval`.
abbrev pub redraw_interval : ℕ
redraw_interval = 2000000000

abbrev write_state : ℕ → List (List ℕ) → PtyLine → Drawn
write_state now out l = record {
  out = out ++ l.content ∷ [];
  line = record l { last = l.content; last_at = now; recorded = true };
}

abbrev repeats : PtyLine → Bool
repeats l = l.recorded && same_bytes l.content l.last

unfoldable pub consider_state : ℕ → List (List ℕ) → PtyLine → Drawn
consider_state now out l =
    if no_bytes l.content
    then record { out = out; line = l }
    else if repeats l
    then record { out = out; line = l }
    else if not l.recorded || leb redraw_interval (now - l.last_at)
    then write_state now out l
    else record { out = out; line = l }

unfoldable pub record_final : ℕ → List (List ℕ) → PtyLine → Drawn
record_final now out l =
    if no_bytes l.content
    then record { out = out; line = l }
    else if repeats l
    then record { out = out; line = l }
    else write_state now out l

unfoldable pub settle : ℕ → List (List ℕ) → PtyLine → Drawn
unfolding consider_state
settle now out l = if l.drawing then consider_state now out l else record { out = out; line = l }

-- A held carriage return settles as a redraw.
unfoldable pub settle_on_escape : ℕ → List (List ℕ) → PtyLine → Drawn
unfolding settle
settle_on_escape now out l =
    let d = settle now out l in
    if l.pending_cr
    then record { out = d.out; line = record d.line { pending_cr = false; replacing = true } }
    else record { out = out; line = l }

-- An erase that takes the line's state away.
unfoldable pub erase : ℕ → List (List ℕ) → PtyLine → Drawn
unfolding settle
erase now out l =
    let d = settle now out l in
    record {
      out = d.out;
      line = record d.line { pending_cr = false; replacing = false; content = [] };
    }

-- The line that a cursor move arrives at.
unfoldable pub land : ℕ → List (List ℕ) → PtyLine → Drawn
unfolding settle
land now out l =
    let d = settle now out l in
    record {
      out = d.out;
      line = if no_bytes d.line.content then d.line else record d.line { replacing = true };
    }

unfoldable pub commit_line : ℕ → Bool → List (List ℕ) → PtyLine → Drawn
unfolding record_final
commit_line now at_eof out l =
    if l.committed
    then record { out = out; line = l }
    else let d = record_final now out l in
      if l.drawing
      then record { out = d.out; line = record d.line { committed = true } }
      else if not (no_bytes l.content)
      then record { out = out ++ l.content ∷ []; line = record l { committed = true } }
      else if not at_eof
      then record { out = out ++ l.content ∷ []; line = record l { committed = true } }
      else record { out = out; line = record l { committed = true } }

-- A carriage return: one that is held already settles as the start of a redraw.
unfoldable pub carriage_return : ℕ → List (List ℕ) → PtyLine → Drawn
unfolding settle
carriage_return now out l =
    let d = settle now out l in
    if l.pending_cr
    then record { out = d.out; line = record d.line { pending_cr = true; replacing = true } }
    else record { out = out; line = record l { pending_cr = true } }

-- A byte of text: it replaces the content where a redraw begins, and is appended otherwise.
unfoldable pub put_byte : ℕ → PtyLine → PtyLine
put_byte c l =
    if l.replacing
    then record l { content = c ∷ []; replacing = false; committed = false }
    else record l { content = l.content ++ c ∷ []; committed = false }

unfoldable pub text_byte : ℕ → ℕ → List (List ℕ) → PtyLine → Drawn
unfolding settle put_byte
text_byte now c out l =
    let d = settle now out l in
    if l.pending_cr
    then record {
      out = d.out;
      line = put_byte c (record d.line { pending_cr = false; replacing = true; drawing = true });
    }
    else record { out = out; line = put_byte c l }
