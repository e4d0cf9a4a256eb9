-- ===== src/Daemon/Supervisor/Lifecycle.antt =====
-- The life of the supervised engine (internal/daemon/supervisor.go).
use spinloop.Prelude.{
  ℕ, suc, String, Bool, true, false, ◌≡◌, ◌≢◌, refl, List, [], ◌∷◌, Option, none, some, arith,
  is_some, ltb, ◌||◌, not, keep_if, ◌==◌, Bool-cases, inl, inr,
}
use spinloop.Prelude.Result.{Result, ok, err}
use spinloop.Daemon.Supervisor.{
  State, idle, running, stopped, crashed, Supervisor, StartError, empty_command, already_running,
  not_started, new_supervisor, is_running, engine_of, start, exited, request_stop, Event, starts,
  exits, stops, step, run, Supervised, new_supervised, spawned, is_alive,
}

abbrev pub is_idle : State → Bool
is_idle idle = true
is_idle running = false
is_idle stopped = false
is_idle crashed = false

abbrev pub is_crashed : State → Bool
is_crashed idle = false
is_crashed running = false
is_crashed stopped = false
is_crashed crashed = true

abbrev pub is_earlier : Option ℕ → ℕ → Bool
is_earlier none next = true
is_earlier (some p) next = ltb p next

abbrev pub has_command : List String → Bool
has_command [] = false
has_command (a ∷ argv) = true

-- The processes that the supervisor knows of.
abbrev pub known : Option ℕ → List ℕ
known none = []
known (some p) = p ∷ []

-- The processes that are there are the one that the supervisor knows of, if any; the state is running
-- exactly while there is one; a process is an earlier one than the next, a command is known once
-- there was a process, and a crash has an error behind it.
pub record IsSound (h : Supervised) : Type 0 where
  pub one_process : h.alive ≡ known h.sup.process
  pub runs : is_some h.sup.process ≡ is_running h.sup.state
  pub earlier : is_earlier h.sup.process h.sup.next ≡ true
  pub commanded : (is_idle h.sup.state || has_command h.sup.argv) ≡ true
  pub crash_has_error : (not (is_crashed h.sup.state) || is_some h.sup.wait_err) ≡ true

started-IsSound :
    (spawn : Option String) (now : ℕ) (a : String) (argv : List String) (h : Supervised)
    → IsSound h
    → IsSound (spawned h (start spawn now (a ∷ argv) h.sup))
unfolding start
started-IsSound spawn now a argv h v = record {
  one_process = ground (arith, v.one_process, v.runs);
  runs = ground (arith, v.runs);
  earlier = ground (arith, v.earlier);
  commanded = ground (arith, v.commanded);
  crash_has_error = ground (arith, v.crash_has_error);
}

-- The exit of the process that there is.
exited-IsSound :
    (p : ℕ) (e : Option String) (h : Supervised)
    → IsSound h
    → is_alive p h.alive ≡ true
    → IsSound (record { sup = exited e h.sup; alive = keep_if (λ q. not (q == p)) h.alive })
unfolding exited
exited-IsSound p e h v q = record {
  one_process = ground (arith, v.one_process);
  runs = ground (arith, v.runs);
  earlier = ground (arith, v.earlier);
  commanded = ground (arith, v.commanded, v.runs, v.one_process);
  crash_has_error = ground (arith, v.crash_has_error);
}

step-IsSound : (e : Event) (h : Supervised) → IsSound h → IsSound (step e h)
unfolding step start request_stop
step-IsSound (starts spawn now []) h v = v
step-IsSound (starts spawn now (a ∷ argv)) h v = started-IsSound spawn now a argv h v
step-IsSound (exits p e) h v = elim (Bool-cases (is_alive p h.alive)) [
  | inl q ↦ rw q (exited-IsSound p e h v q)
  | inr q ↦ rw q v
]
step-IsSound stops h v = record {
  one_process = ground (arith, v.one_process);
  runs = ground (arith, v.runs);
  earlier = ground (arith, v.earlier);
  commanded = ground (arith, v.commanded);
  crash_has_error = ground (arith, v.crash_has_error);
}

run-IsSound_from : (es : List Event) (h : Supervised) → IsSound h → IsSound (run es h)
unfolding run
run-IsSound_from [] h v = v
run-IsSound_from (e ∷ es) h v = run-IsSound_from es (step e h) (step-IsSound e h v)

-- After any starts, stops and exits, in any order, at most one process is there, and it is the one
-- that the supervisor knows of; the state is running exactly while there is one, a crash has an error
-- behind it, and once the state is not idle a command is known.
pub run-IsSound : (es : List Event) → IsSound (run es new_supervised)
unfolding new_supervisor
run-IsSound es = run-IsSound_from es new_supervised (record {
  one_process = refl;
  runs = refl;
  earlier = refl;
  commanded = refl;
  crash_has_error = refl;
})

-- What a start did, or why it did not.
abbrev pub Started :
    Option String → List String → Supervisor → Result StartError Supervisor → Type 0
Started spawn argv s (err empty_command) = argv ≡ []
Started spawn argv s (err (already_running engine)) =
    (s.state ≡ running) × (argv ≢ []) × (engine ≡ engine_of s.argv)
Started spawn argv s (err (not_started e)) = (s.state ≢ running) × (argv ≢ []) × (spawn ≡ some e)
Started spawn argv s (ok t) =
    (s.state ≢ running)
    × (argv ≢ [])
    × (spawn ≡ none)
    × (t.state ≡ running)
    × (t.process ≡ some s.next)
    × (t.next ≡ suc s.next)
    × (t.stopping ≡ false)
    × (t.argv ≡ argv)

-- A start is refused for an empty command, and while an engine runs, naming it, whatever the new
-- command is; where the process cannot be started the error says so. Otherwise it gives a running
-- supervisor with a new process and the new command, and with no stop asked for.
pub start-Started :
    (spawn : Option String) (now : ℕ) (argv : List String) (s : Supervisor)
    → Started spawn argv s (start spawn now argv s)
unfolding start
start-Started spawn now [] s = refl
start-Started spawn now (a ∷ argv) s = ground arith

-- While an engine runs that no stop was asked of, its exit is a crash where it has an error and a
-- stop where it has none; once a stop was asked for, its exit is a stop whatever the error. The exit
-- takes the process away and keeps its error.
pub exit_classified :
    (x : String) (e : Option String) (s : Supervisor)
    → s.state ≡ running
    → s.stopping ≡ false
    → ((exited (some x) s).state ≡ crashed)
      × ((exited none s).state ≡ stopped)
      × ((exited e (request_stop s).1).state ≡ stopped)
      × ((exited e s).process ≡ none)
      × ((exited e s).wait_err ≡ e)
unfolding exited request_stop
exit_classified x e s r h = (ground arith, ground arith, ground arith, refl, refl)
