-- ===== src/Daemon/Supervisor.antt =====
-- The supervisor of one engine process (internal/daemon/supervisor.go). A process is the number that
-- it was started as. What is done with its output, the log records and the signals themselves are
-- left out; whether the process could be started is an argument.
pub mod Lifecycle
use spinloop.Prelude.{
  ℕ, suc, ◌+◌, ◌-◌, ◌/◌, String, Bool, true, false, List, [], ◌∷◌, Option, none, some,
  if◌then◌else◌, ◌||◌, any, keep_if, not, ◌==◌,
}
use spinloop.Prelude.Result.{Result, ok, err}

pub data State : Type 0 where
  idle running stopped crashed : State

pub record Supervisor : Type 0 where
  pub state : State
  pub argv : List String
  pub started : ℕ
  pub stopping : Bool
  -- The process whose exit nobody has seen yet, and the number of the next one.
  pub process : Option ℕ
  pub next : ℕ
  -- The error of the last exit that was seen.
  pub wait_err : Option String

pub data StartError : Type 0 where
  empty_command : StartError
  already_running : String → StartError
  not_started : String → StartError

unfoldable pub new_supervisor : Supervisor
new_supervisor = record {
  state = idle;
  argv = [];
  started = 0;
  stopping = false;
  process = none;
  next = 0;
  wait_err = none;
}

abbrev pub is_running : State → Bool
is_running running = true
is_running _ = false

-- argv[0], where there is one.
abbrev pub engine_of : List String → String
engine_of [] = ""
engine_of (a ∷ argv) = a

-- `spawn` is the error with which the process, or its log, could not be started.
unfoldable pub start : Option String → ℕ → List String → Supervisor → Result StartError Supervisor
start spawn now [] s = err empty_command
start spawn now (a ∷ argv) s =
    if is_running s.state then err (already_running (engine_of s.argv)) else elim spawn [
      | some e ↦ err (not_started e)
      | none ↦ ok (record s {
        argv = a ∷ argv;
        state = running;
        started = now;
        stopping = false;
        process = some s.next;
        next = suc s.next;
      })
    ]

-- What the goroutine that waits for the process records; `none` is an exit with no error.
unfoldable pub exited : Option String → Supervisor → Supervisor
exited e s = record s {
  wait_err = e;
  process = none;
  state = if s.stopping then stopped else elim e [ none ↦ stopped | some x ↦ crashed ];
}

-- The first half of `Stop`, under the lock: the process that it then signals and waits for.
unfoldable pub request_stop : Supervisor → Option ℕ × Supervisor
request_stop s = if is_running s.state then (s.process, record s { stopping = true }) else (none, s)

-- The clock counts nanoseconds.
abbrev pub second : ℕ
second = 1000000000

unfoldable pub status : ℕ → Supervisor → State × String × ℕ
status now s =
    (s.state, engine_of s.argv, if is_running s.state then (now - s.started) / second else 0)

-- What happens to a supervisor: a start, the exit of a process that is there, and a stop.
pub data Event : Type 0 where
  starts : Option String → ℕ → List String → Event
  exits : ℕ → Option String → Event
  stops : Event

-- The supervisor with the processes that are there. Each of them is waited for by a goroutine of its
-- own, which holds nothing but the supervisor.
pub record Supervised : Type 0 where
  pub sup : Supervisor
  pub alive : List ℕ

abbrev pub is_alive : ℕ → List ℕ → Bool
is_alive p alive = any (λ q. q == p) alive

abbrev pub new_supervised : Supervised
new_supervised = record { sup = new_supervisor; alive = [] }

abbrev pub spawned : Supervised → Result StartError Supervisor → Supervised
spawned h (ok t) = record { sup = t; alive = h.sup.next ∷ h.alive }
spawned h (err e) = h

unfoldable pub step : Event → Supervised → Supervised
unfolding start exited request_stop
step (starts spawn now argv) h = spawned h (start spawn now argv h.sup)
step (exits p e) h =
    if is_alive p h.alive
    then record { sup = exited e h.sup; alive = keep_if (λ q. not (q == p)) h.alive }
    else h
step stops h = record h { sup = (request_stop h.sup).1 }

unfoldable pub run : List Event → Supervised → Supervised
unfolding step
run [] h = h
run (e ∷ es) h = run es (step e h)
