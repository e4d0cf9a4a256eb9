-- ===== src/Daemon/PtyLog.antt =====
-- The normaliser of the engine's terminal output (internal/daemon/ptylog.go). The writer is the list
-- of the lines that it was given, each without the newline that `writeBytes` puts behind it, and a
-- write to it never fails here, since the source drops that error. A time is a count of the clock's
-- units, and is given to each step.
pub mod Lines
pub mod Clean
use spinloop.Prelude.{
  ℕ, zero, suc, ◌+◌, ◌-◌, Bool, true, false, not, List, [], ◌∷◌, ◌++◌, if◌then◌else◌, ltb, leb,
  ◌==◌, ◌&&◌, ◌||◌, length, map,
}
use Lines.{
  PtyLine, Drawn, blank, line_at, set_line, extend, consider_state, settle_on_escape, erase, land,
  commit_line, carriage_return, text_byte,
}

-- The escape sequence's states.
pub data Escape : Type 0 where
  esc_none esc_start esc_csi esc_osc esc_osc_st : Escape

pub record PtyLog : Type 0 where
  pub out : List (List ℕ)
  pub lines : List PtyLine
  pub row : ℕ
  pub esc : Escape
  pub csi_param : ℕ

unfoldable pub new_pty_log : PtyLog
new_pty_log = record { out = []; lines = blank ∷ []; row = 0; esc = esc_none; csi_param = 0 }

-- An operation on the line that the drawing is on.
abbrev pub on_line : (List (List ℕ) → PtyLine → Drawn) → PtyLog → PtyLog
on_line f p =
    let d = f p.out (line_at p.lines p.row) in
    record p { out = d.out; lines = set_line p.lines p.row d.line }

-- The parameter of a count: the last digit that was read, one where that is none or zero.
unfoldable pub csi_count : PtyLog → ℕ
csi_count p = if leb b'1' p.csi_param && leb p.csi_param b'9' then p.csi_param - b'0' else 1

-- A cursor move.
abbrev pub move_to : ℕ → ℕ → PtyLog → PtyLog
move_to now row p = on_line (land now) (record p { lines = extend p.lines row; row = row })

unfoldable pub csi_final : ℕ → ℕ → PtyLog → PtyLog
unfolding csi_count
csi_final now c p =
    if c == b'A'
    then move_to now (p.row - csi_count p) p
    else if c == b'B'
    then move_to now (p.row + csi_count p) p
    else if c == b'H'
    then move_to now 0 p
    else if c == b'K'
    then (if p.csi_param == b'2' then on_line (erase now) p else p)
    else if c == b'J'
    then on_line (erase now) p
    else on_line (settle_on_escape now) p

abbrev pub plain_state : PtyLog → PtyLog
plain_state p = record p { esc = esc_none }

unfoldable pub commit : ℕ → PtyLog → PtyLog
commit now p =
    let q = on_line (commit_line now false) p in
    record q { row = suc q.row; lines = extend q.lines (suc q.row) }

-- A newline ends the line whatever is held.
unfoldable pub line_feed : ℕ → PtyLog → PtyLog
unfolding commit
line_feed now p = commit now (
    on_line
      (λ out l. record { out = out; line = record l { pending_cr = false; replacing = false } }) p)

unfoldable pub csi_byte : ℕ → ℕ → PtyLog → PtyLog
csi_byte now c p =
    if leb 0x30 c && leb c 0x3f
    then (if leb c 0x39 then record p { csi_param = c } else p)
    else if leb 0x20 c && leb c 0x2f
    then p
    else if leb 0x40 c && leb c 0x7e
    then plain_state (csi_final now c p)
    else plain_state (on_line (settle_on_escape now) p)

unfoldable pub start_byte : ℕ → ℕ → PtyLog → PtyLog
start_byte now c p =
    if c == b'['
    then record p { esc = esc_csi; csi_param = 0 }
    else if c == b']'
    then record p { esc = esc_osc }
    else plain_state (on_line (settle_on_escape now) p)

unfoldable pub osc_byte : ℕ → ℕ → PtyLog → PtyLog
osc_byte now c p =
    if c == 0x07
    then plain_state (on_line (settle_on_escape now) p)
    else if c == 0x1b
    then record p { esc = esc_osc_st }
    else p

unfoldable pub ground_byte : ℕ → ℕ → PtyLog → PtyLog
ground_byte now c p =
    if c == 0x1b
    then record p { esc = esc_start }
    else if c == 13
    then on_line (carriage_return now) p
    else if c == 10
    then line_feed now p
    else on_line (text_byte now c) p

unfoldable pub by_escape : Escape → ℕ → ℕ → PtyLog → PtyLog
unfolding csi_byte start_byte osc_byte ground_byte
by_escape esc_none now c p = ground_byte now c p
by_escape esc_start now c p = start_byte now c p
by_escape esc_csi now c p = csi_byte now c p
by_escape esc_osc now c p = osc_byte now c p
by_escape esc_osc_st now c p = plain_state (on_line (settle_on_escape now) p)

unfoldable pub byte : ℕ → ℕ → PtyLog → PtyLog
unfolding by_escape
byte now c p = by_escape p.esc now c p

-- `Write`: the bytes of one read, at one time of the clock.
unfoldable pub write : ℕ → List ℕ → PtyLog → PtyLog
write now [] p = p
write now (c ∷ bytes) p = write now bytes (byte now c p)

-- The loop over the column of `tick`.
unfoldable pub tick_lines : ℕ → List (List ℕ) → List PtyLine → List (List ℕ) × List PtyLine
tick_lines now out [] = (out, [])
tick_lines now out (l ∷ ls) =
    let d = if l.drawing then consider_state now out l else record { out = out; line = l } in
    let rest = tick_lines now d.out ls in (rest.0, d.line ∷ rest.1)

unfoldable pub tick : ℕ → PtyLog → PtyLog
unfolding tick_lines
tick now p = record p {
  out = (tick_lines now p.out p.lines).0;
  lines = (tick_lines now p.out p.lines).1;
}

unfoldable pub finalize_lines : ℕ → List (List ℕ) → List PtyLine → List (List ℕ) × List PtyLine
finalize_lines now out [] = (out, [])
finalize_lines now out (l ∷ ls) =
    let d = commit_line now true out (record l { pending_cr = false }) in
    let rest = finalize_lines now d.out ls in (rest.0, d.line ∷ rest.1)

unfoldable pub finalize : ℕ → PtyLog → PtyLog
unfolding finalize_lines
finalize now p = record p {
  out = (finalize_lines now p.out p.lines).0;
  lines = (finalize_lines now p.out p.lines).1;
}

-- What the pump does with the log: a read's bytes, a tick, or the end of the stream.
pub data PumpEvent : Type 0 where
  reads : List ℕ → PumpEvent
  ticks ends : PumpEvent

unfoldable pub pump : List (PumpEvent × ℕ) → PtyLog → PtyLog
unfolding write tick finalize
pump [] p = p
pump ((reads bytes, now) ∷ events) p = pump events (write now bytes p)
pump ((ticks, now) ∷ events) p = pump events (tick now p)
pump ((ends, now) ∷ events) p = pump events (finalize now p)
