-- ===== src/Examples/Logs.antt =====
-- A short log that is read and followed (internal/daemon/logs.go).
use spinloop.Prelude.{ℕ, true, false, ◌≡◌, refl, List, [], ◌∷◌, ◌++◌, length, drop, arith}
use spinloop.Prelude.Int.{pos}
use spinloop.Prelude.Result.{ok}
use spinloop.Fleet.Tags.{is_empty}
use spinloop.Daemon.Logs.{holds, read_log, clamp_log_read, whole_lines, last_newline}
use spinloop.Daemon.Logs.Follow.{follow, joined, quiet, follow-joined}

-- "a\nb"
abbrev begun : List ℕ
begun = 97 ∷ 10 ∷ 98 ∷ []

-- "\nc\n"
abbrev appended : List ℕ
appended = 10 ∷ 99 ∷ 10 ∷ []

named : is_empty "/log" ≡ false
named = refl

read_one :
    read_log "/log" (pos 0) (pos 2) (holds true begun)
    ≡ ok (record {
      content = 97 ∷ 10 ∷ [];
      next_offset = 2;
      size = 3;
      path = "/log";
      missing = false;
      stale_offset = false;
    })
unfolding read_log clamp_log_read whole_lines last_newline
read_one = refl

follow-joined_example :
    follow "/log" (pos 2) begun 0 (([] ∷ appended ∷ []) ++ quiet 6)
    ≡ (drop 0 (begun ++ joined ([] ∷ appended ∷ [])), length (begun ++ joined ([] ∷ appended ∷ [])))
follow-joined_example =
    follow-joined "/log" (pos 2) ([] ∷ appended ∷ []) begun 0 6 named (omega arith) (omega arith)
