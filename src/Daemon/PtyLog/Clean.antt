-- ===== src/Daemon/PtyLog/Clean.antt =====
-- No control byte reaches the log (internal/daemon/ptylog.go).
use spinloop.Prelude.{
  ℕ, ◌+◌, ◌-◌, true, false, ◌≡◌, List, [], ◌∷◌, if◌then◌else◌, leb, ◌==◌, ◌&&◌, arith, All,
}
use spinloop.Daemon.PtyLog.Lines.{
  PtyLine, Drawn, line_at, extend, consider_state, settle_on_escape, erase, land, commit_line,
  carriage_return, text_byte,
}
use spinloop.Daemon.PtyLog.Lines.Clean.{
  is_text, IsText, CleanLine, CleanDrawn, Keeps, either, consider_state-Keeps,
  settle_on_escape-Keeps, erase-Keeps, land-Keeps, commit_line-Keeps, carriage_return-Keeps,
  text_byte-Keeps, line_at-CleanLine, set_line-CleanLine, extend-CleanLine, by_test,
}
use spinloop.Daemon.PtyLog.{
  PtyLog, Escape, esc_none, esc_start, esc_csi, esc_osc, esc_osc_st, new_pty_log, on_line, move_to,
  plain_state, csi_count, csi_final, commit, line_feed, csi_byte, start_byte, osc_byte, ground_byte,
  by_escape, byte, write, tick_lines, tick, finalize_lines, finalize, PumpEvent, reads, ticks, ends,
  pump,
}

-- Nothing but text in the log and on the screen.
record IsClean (p : PtyLog) : Type 0 where
  out : All IsText p.out
  lines : All CleanLine p.lines

on_line-IsClean :
    (f : List (List ℕ) → PtyLine → Drawn) (p : PtyLog) → Keeps f → IsClean p → IsClean (on_line f p)
on_line-IsClean f p k h =
    let d = k p.out (line_at p.lines p.row) h.out (line_at-CleanLine p.lines p.row h.lines) in
    record {
      out = d.out;
      lines =
          set_line-CleanLine p.lines p.row (f p.out (line_at p.lines p.row)).line h.lines d.line;
    }

move_to-IsClean : (now row : ℕ) (p : PtyLog) → IsClean p → IsClean (move_to now row p)
move_to-IsClean now row p h =
    on_line-IsClean (land now) (record p { lines = extend p.lines row; row = row }) (land-Keeps now)
      (record { out = h.out; lines = extend-CleanLine p.lines row h.lines })

csi_final-IsClean : (now c : ℕ) (p : PtyLog) → IsClean p → IsClean (csi_final now c p)
unfolding csi_final
csi_final-IsClean now c p h =
    either IsClean (c == b'A') _ _ (move_to-IsClean now (p.row - csi_count p) p h) (
      either IsClean (c == b'B') _ _ (move_to-IsClean now (p.row + csi_count p) p h) (
        either IsClean (c == b'H') _ _ (move_to-IsClean now 0 p h) (
          either IsClean (c == b'K') _ _
            (either IsClean (p.csi_param == b'2') _ _
              (on_line-IsClean (erase now) p (erase-Keeps now) h) h)
            (either IsClean (c == b'J') _ _ (on_line-IsClean (erase now) p (erase-Keeps now) h)
              (on_line-IsClean (settle_on_escape now) p (settle_on_escape-Keeps now) h)))))

commit-IsClean : (now : ℕ) (p : PtyLog) → IsClean p → IsClean (commit now p)
unfolding commit
commit-IsClean now p h =
    let q = on_line-IsClean (commit_line now false) p (commit_line-Keeps now false) h in
    record { out = q.out; lines = extend-CleanLine _ _ q.lines }

line_feed-IsClean : (now : ℕ) (p : PtyLog) → IsClean p → IsClean (line_feed now p)
unfolding line_feed
line_feed-IsClean now p h = commit-IsClean now _ (
    on_line-IsClean
      (λ out l. record { out = out; line = record l { pending_cr = false; replacing = false } }) p
      (λ out l o c. record { out = o; line = c }) h)

plain-IsClean : (p : PtyLog) → IsClean p → IsClean (plain_state p)
plain-IsClean p h = record { out = h.out; lines = h.lines }

settled-IsClean :
    (now : ℕ) (p : PtyLog) → IsClean p → IsClean (plain_state (on_line (settle_on_escape now) p))
settled-IsClean now p h =
    plain-IsClean _ (on_line-IsClean (settle_on_escape now) p (settle_on_escape-Keeps now) h)

csi_byte-IsClean : (now c : ℕ) (p : PtyLog) → IsClean p → IsClean (csi_byte now c p)
unfolding csi_byte
csi_byte-IsClean now c p h =
    either IsClean (leb 0x30 c && leb c 0x3f) _ _
      (either IsClean (leb c 0x39) _ _ (record { out = h.out; lines = h.lines }) h)
      (either IsClean (leb 0x20 c && leb c 0x2f) _ _ h (
        either IsClean (leb 0x40 c && leb c 0x7e) _ _
          (plain-IsClean _ (csi_final-IsClean now c p h)) (settled-IsClean now p h)))

start_byte-IsClean : (now c : ℕ) (p : PtyLog) → IsClean p → IsClean (start_byte now c p)
unfolding start_byte
start_byte-IsClean now c p h =
    either IsClean (c == b'[') _ _ (record { out = h.out; lines = h.lines })
      (either IsClean (c == b']') _ _ (record { out = h.out; lines = h.lines })
        (settled-IsClean now p h))

osc_byte-IsClean : (now c : ℕ) (p : PtyLog) → IsClean p → IsClean (osc_byte now c p)
unfolding osc_byte
osc_byte-IsClean now c p h =
    either IsClean (c == 0x07) _ _ (settled-IsClean now p h)
      (either IsClean (c == 0x1b) _ _ (record { out = h.out; lines = h.lines }) h)

-- What is none of the three bytes is text.
text_lem : (c : ℕ) → c == 0x1b ≡ false → c == 13 ≡ false → c == 10 ≡ false → is_text c ≡ true
text_lem c e f g = ground arith

ground_byte-IsClean : (now c : ℕ) (p : PtyLog) → IsClean p → IsClean (ground_byte now c p)
unfolding ground_byte
ground_byte-IsClean now c p h =
    by_test IsClean (c == 0x1b) _ _ (λ e. record { out = h.out; lines = h.lines })
      λ e.
        by_test IsClean (c == 13) _ _
          (λ f. on_line-IsClean (carriage_return now) p (carriage_return-Keeps now) h)
          λ f.
            by_test IsClean (c == 10) _ _ (λ g. line_feed-IsClean now p h)
              λ g. on_line-IsClean (text_byte now c) p (text_byte-Keeps now c (text_lem c e f g)) h

by_escape-IsClean :
    (e : Escape) (now c : ℕ) (p : PtyLog) → IsClean p → IsClean (by_escape e now c p)
unfolding by_escape
by_escape-IsClean esc_none now c p h = ground_byte-IsClean now c p h
by_escape-IsClean esc_start now c p h = start_byte-IsClean now c p h
by_escape-IsClean esc_csi now c p h = csi_byte-IsClean now c p h
by_escape-IsClean esc_osc now c p h = osc_byte-IsClean now c p h
by_escape-IsClean esc_osc_st now c p h = settled-IsClean now p h

write-IsClean : (now : ℕ) (bytes : List ℕ) (p : PtyLog) → IsClean p → IsClean (write now bytes p)
unfolding write byte
write-IsClean now [] p h = h
write-IsClean now (c ∷ bytes) p h =
    write-IsClean now bytes (byte now c p) (by_escape-IsClean p.esc now c p h)

-- The log and the lines that one of the two passes over the column leaves.
abbrev CleanPass : List (List ℕ) × List PtyLine → Type 0
CleanPass r = All IsText r.0 × All CleanLine r.1

tick_lines-CleanPass :
    (now : ℕ) (out : List (List ℕ)) (ls : List PtyLine)
    → All IsText out
    → All CleanLine ls
    → CleanPass (tick_lines now out ls)
unfolding tick_lines
tick_lines-CleanPass now out [] o h = (o, h)
tick_lines-CleanPass now out (l ∷ ls) o h =
    let d =
      either CleanDrawn l.drawing (consider_state now out l) (record { out = out; line = l })
        (consider_state-Keeps now out l o h.0) (record { out = o; line = h.0 }) in
    let rest =
      tick_lines-CleanPass now
        (if l.drawing then consider_state now out l else record { out = out; line = l }).out ls
        d.out h.1 in
    (rest.0, (d.line, rest.1))

finalize_lines-CleanPass :
    (now : ℕ) (out : List (List ℕ)) (ls : List PtyLine)
    → All IsText out
    → All CleanLine ls
    → CleanPass (finalize_lines now out ls)
unfolding finalize_lines
finalize_lines-CleanPass now out [] o h = (o, h)
finalize_lines-CleanPass now out (l ∷ ls) o h =
    let d = commit_line-Keeps now true out (record l { pending_cr = false }) o h.0 in
    let rest =
      finalize_lines-CleanPass now (commit_line now true out (record l { pending_cr = false })).out
        ls d.out h.1 in
    (rest.0, (d.line, rest.1))

pump-IsClean : (events : List (PumpEvent × ℕ)) (p : PtyLog) → IsClean p → IsClean (pump events p)
unfolding pump tick finalize
pump-IsClean [] p h = h
pump-IsClean ((reads bytes, now) ∷ events) p h =
    pump-IsClean events (write now bytes p) (write-IsClean now bytes p h)
pump-IsClean ((ticks, now) ∷ events) p h =
    let r = tick_lines-CleanPass now p.out p.lines h.out h.lines in
    pump-IsClean events (tick now p) (record { out = r.0; lines = r.1 })
pump-IsClean ((ends, now) ∷ events) p h =
    let r = finalize_lines-CleanPass now p.out p.lines h.out h.lines in
    pump-IsClean events (finalize now p) (record { out = r.0; lines = r.1 })

-- Whatever is read from the terminal, however its sequences are split over the reads, and whenever
-- it ticks and ends, no line that the normaliser hands to the log holds an escape byte, a carriage
-- return or a newline. What goes to the log without it, the standard error among it, is no part of
-- this.
pub pump-texts : (events : List (PumpEvent × ℕ)) → All IsText (pump events new_pty_log).out
unfolding new_pty_log
pump-texts events = (pump-IsClean events new_pty_log (record { out = tt; lines = (tt, tt) })).out
