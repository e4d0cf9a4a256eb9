-- ===== src/Examples/Daemon.antt =====
-- A node's daemon with a short stream of output and a few readings (internal/daemon).
use spinloop.Prelude.{
  ℕ, true, false, ◌≡◌, List, [], ◌∷◌, Option, none, some, All, ◌⊎◌, ◌≤◌, ◌-◌, keep_if, length, drop,
  arith,
}
use spinloop.Fleet.Tags.{is_empty}
use spinloop.Daemon.History.{HistorySample, add, history_limit}
use spinloop.Daemon.History.Window.{InOrder, Recent, in_window, add_window}
use spinloop.Daemon.Activity.{TokenStats, idle_record, observe_all}
use spinloop.Daemon.Activity.Observed.{succeeded, observe_all-failures}
use spinloop.Daemon.Sampler.{
  Sampler, forget_ready, forget_sample, readiness_checked, read_ready, check_ready_once,
}
use spinloop.Daemon.Sampler.Readings.{check_ready_once_outcomes}
use spinloop.Daemon.Supervisor.{
  Supervisor, running, new_supervised, Event, starts, exits, stops, run,
}
use spinloop.Daemon.Supervisor.Lifecycle.{IsSound, run-IsSound}
use spinloop.Daemon.PtyLog.{new_pty_log, PumpEvent, reads, ticks, ends, pump}
use spinloop.Daemon.PtyLog.Lines.Clean.{IsText}
use spinloop.Daemon.PtyLog.Clean.{pump-texts}

-- "ab", a newline and "c" in two writes.
abbrev pieces : List (List ℕ)
pieces = (97 ∷ []) ∷ (98 ∷ 10 ∷ 99 ∷ []) ∷ []

-- A redraw that clears the line, cut in the middle of its sequence.
abbrev redraw : List (PumpEvent × ℕ)
redraw =
    (reads (97 ∷ 98 ∷ 13 ∷ 27 ∷ []), 0)
    ∷ (reads (91 ∷ 75 ∷ 99 ∷ []), 1)
    ∷ (ticks, 3000000000)
    ∷ (reads (10 ∷ []), 3000000001)
    ∷ (ends, 3000000002)
    ∷ []

pump-texts_example : All IsText (pump redraw new_pty_log).out
pump-texts_example = pump-texts redraw

abbrev reading_at : ℕ → HistorySample ℕ
reading_at t = record { time = t; cpu = some 3; mem = none; speed = none; gpus = [] }

abbrev held : List (HistorySample ℕ)
held = reading_at 100 ∷ reading_at 200 ∷ []

add_window_example :
    InOrder (add (reading_at 750) held)
    × Recent 750 (add (reading_at 750) held)
    × (length (add (reading_at 750) held) ≤ history_limit)
    × (add (reading_at 750) held
        ≡ drop
            (length (in_window (reading_at 750) held) - history_limit)
            (in_window (reading_at 750) held))
add_window_example =
    add_window (reading_at 750) held ((omega arith, tt), (tt, tt)) (omega arith, (omega arith, tt))

abbrev samples : List (Option TokenStats × ℕ)
samples =
    (some (record { running = 0; counter = 5 }), 20)
    ∷ (none, 30)
    ∷ (some (record { running = 0; counter = 6 }), 40)
    ∷ []

observe_all-failures_example :
    observe_all samples idle_record ≡ observe_all (keep_if succeeded samples) idle_record
observe_all-failures_example = observe_all-failures samples idle_record

abbrev life : List Event
life =
    starts none 1 ("vllm" ∷ [])
    ∷ starts none 2 ("vllm" ∷ [])
    ∷ exits 0 (some "signal: killed")
    ∷ starts none 3 ("vllm" ∷ [])
    ∷ stops
    ∷ exits 1 none
    ∷ []

run-IsSound_example : IsSound (run life new_supervised)
run-IsSound_example = run-IsSound life

abbrev started : Supervisor
started = record {
  state = running;
  argv = "vllm" ∷ [];
  started = 5;
  stopping = false;
  process = some 0;
  next = 1;
  wait_err = none;
}

abbrev sampler : Sampler
sampler = record {
  engine_runs = true;
  base_url = "http://x";
  engine = "vllm";
  runner = "vllm";
  act = idle_record;
  sample = forget_sample;
  readiness = forget_ready;
}

abbrev tokens : TokenStats
tokens = record { running = 1; counter = 5 }

check_ready_once_outcomes_example :
    ((sampler.engine_runs ≡ true)
      × (is_empty sampler.base_url ≡ false)
      × (readiness_checked sampler.runner ≡ true)
      × (read_ready (check_ready_once true sampler).readiness ≡ (true, true)))
    ⊎ (((sampler.engine_runs ≡ false)
          ⊎ ((is_empty sampler.base_url ≡ true) ⊎ (readiness_checked sampler.runner ≡ false)))
        × (check_ready_once true sampler ≡ sampler))
check_ready_once_outcomes_example = check_ready_once_outcomes true sampler
