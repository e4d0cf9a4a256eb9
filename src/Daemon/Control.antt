-- ===== src/Daemon/Control.antt =====
-- What the daemon keeps and its operations (internal/daemon/daemon.go), with the engine command of
-- `spinloop daemon` (cmd/spinloop/serve_daemon.go). The calls of the file system, the clock and the
-- start of the process are answers of the host. A figure of the host or of the engine is of any type.
-- Each operation takes the whole state and gives it back: the daemon has no lock around a request, and
-- two requests at once are not modelled.
pub mod Api
use spinloop.Prelude.{
  ℕ, ◌-◌, ◌/◌, String, Bool, true, false, List, [], ◌∷◌, ◌++◌, Option, none, some, if◌then◌else◌,
  ltb,
}
use spinloop.Prelude.Int.{ℤ, pos}
use spinloop.Prelude.Result.{Result, ok, err}
use spinloop.Fleet.Tags.{is_empty}
use spinloop.Fleet.Answer.{EngineEndpoint, StatusResponse, ready_yes, ready_no}
use spinloop.Fleet.Wakeable.{DeployConfig}
use spinloop.Daemon.Supervisor.{
  State, idle, running, stopped, crashed, Supervisor, StartError, is_running, start, second,
}
use spinloop.Daemon.Supervisor as Engine
use spinloop.Daemon.Activity.{Activity, mark_active, snapshot}
use spinloop.Daemon.Sampler.{EngineSample, Readiness, forget_sample, forget_ready, read_ready}
use spinloop.Daemon.Speed.{EngineSpeed, forget}
use spinloop.Daemon.History.{HistorySample}

-- The file of the deploy config: not there, one that cannot be read or parsed, or a config.
pub data StoredFile : Type 0 where
  missing : StoredFile
  unusable : String → StoredFile
  holds : DeployConfig → StoredFile

pub record ScrapeTarget : Type 0 where
  pub base_url : String
  pub engine : String

pub record Daemon (F : Type 0) : Type 0 where
  pub sup : Supervisor
  pub stored : StoredFile
  -- The text of the key file.
  pub key : Option String
  pub act : Activity
  pub sample : EngineSample
  pub readiness : Readiness
  pub hist : List (HistorySample F)
  pub system : Option F
  pub speed : EngineSpeed F
  pub runner : String
  pub model : String
  pub served_name : String
  pub scrape : ScrapeTarget
  pub endpoint : Option EngineEndpoint

-- What becomes of a write: it succeeds, or it fails and leaves the file in some state.
pub data Written (A : Type 0) : Type 0 where
  done : Written A
  failed : String → A → Written A

-- What the host answers. `validate` and `argv_of` are the functions that the command injects.
pub record Host : Type 0 where
  pub validate : DeployConfig → Option String
  pub make_dir : Option String
  pub write_config : Written StoredFile
  pub remove_key : Option String
  pub write_key : Written (Option String)
  -- Whether os.Stat answers for a key file that is there, and the path of it.
  pub stats_key : Bool
  pub key_path : String
  -- The command of a config, with the address to scrape and the address that it serves at.
  pub argv_of : DeployConfig → Result String (List String × ScrapeTarget × Option EngineEndpoint)
  pub key_args : Option (Option DeployConfig → String → Result String (List String))
  pub spawn : Option String
  pub now : ℕ
  pub log_path : String
  pub version : String
  -- RFC 3339
  pub format_time : ℕ → String

module _ {F : Type 0} where
  abbrev pub set_served : DeployConfig → Daemon F → Daemon F
  set_served dc d = record d {
    runner = dc.runner;
    model = dc.model_id;
    served_name = dc.served_model_name;
  }

  -- What is stored once the config was written, or could not be.
  push_written : DeployConfig → Daemon F → Written StoredFile → Option String × Daemon F
  push_written dc d done = (none, set_served dc (record d { stored = holds dc }))
  push_written dc d (failed e left) = (some e, record d { stored = left })

  -- `Push`, with its error.
  unfoldable pub push_config : Host → DeployConfig → Daemon F → Option String × Daemon F
  unfolding push_written
  push_config host dc d = elim (host.validate dc) [
    | some e ↦ (some e, d)
    | none ↦ elim host.make_dir [
      | some e ↦ (some e, d)
      | none ↦ push_written dc d host.write_config
    ]
  ]

  key_written : String → Daemon F → Written (Option String) → Option String × Daemon F
  key_written k d done = (none, record d { key = some k })
  key_written k d (failed e left) = (some e, record d { key = left })

  key_removed : Daemon F → Option String → Option String → Option String × Daemon F
  key_removed d none e = (none, d)
  key_removed d (some k) none = (none, record d { key = none })
  key_removed d (some k) (some e) = (some e, d)

  -- `SetEngineKey`: the empty key clears the file; one that is not there is no error.
  unfoldable pub set_engine_key : Host → String → Daemon F → Option String × Daemon F
  unfolding key_written key_removed
  set_engine_key host k d =
      if is_empty k
      then key_removed d d.key host.remove_key
      else elim host.make_dir [ some e ↦ (some e, d) | none ↦ key_written k d host.write_key ]

  -- The key file's path where one is stored.
  unfoldable pub stored_engine_key_path : Host → Daemon F → Option String
  stored_engine_key_path host d = elim d.key [
    | none ↦ none
    | some k ↦ if host.stats_key then some host.key_path else none
  ]

pub data EngineError : Type 0 where
  bad_config : String → EngineError
  nothing_to_serve : EngineError
  no_command : String → EngineError
  not_gated : EngineError
  no_key_args : String → EngineError
  not_started : StartError → EngineError

abbrev pub config_of : StoredFile → Result String (Option DeployConfig)
config_of missing = ok none
config_of (unusable e) = err e
config_of (holds dc) = ok (some dc)

-- The arguments that gate the engine, where a key is stored.
gate :
    Option (Option DeployConfig → String → Result String (List String))
    → Option DeployConfig
    → Option String
    → Result EngineError (List String)
gate args dc none = ok []
gate none dc (some path) = err not_gated
gate (some args) dc (some path) = elim (args dc path) [ ok a ↦ ok a | err e ↦ err (no_key_args e) ]

module _ {F : Type 0} where
  -- The readings of the engine before.
  abbrev pub forget_readings : Daemon F → Daemon F
  forget_readings d = record d {
    sample = forget_sample;
    readiness = forget_ready;
    system = none;
    hist = [];
    speed = forget d.speed;
  }

  after_start : ℕ → Daemon F → Result StartError Supervisor → Option EngineError × Daemon F
  after_start now d (err e) = (some (not_started e), d)
  after_start now d (ok sup) = (none, record d { sup = sup; act = mark_active now d.act })

  -- `StartEngine` from the arguments of the key file on.
  launch_engine : Host → DeployConfig → List String → Daemon F → Option EngineError × Daemon F
  unfolding gate after_start
  launch_engine host dc argv d =
      elim (gate host.key_args (some dc) (stored_engine_key_path host d)) [
        | err e ↦ (some e, d)
        | ok args ↦
            let d' = forget_readings (set_served dc d) in
            after_start host.now d' (start host.spawn host.now (argv ++ args) d'.sup)
      ]

  -- BuildArgv records where the engine of the command serves, as soon as it has the command.
  with_command :
      Host
      → DeployConfig
      → Daemon F
      → Result String (List String × ScrapeTarget × Option EngineEndpoint)
      → Option EngineError × Daemon F
  unfolding launch_engine
  with_command host dc d (err e) = (some (no_command e), d)
  with_command host dc d (ok (argv, target, ep)) =
      launch_engine host dc argv (record d { scrape = target; endpoint = ep })

  from_config :
      Host → Result String (Option DeployConfig) → Daemon F → Option EngineError × Daemon F
  unfolding with_command
  from_config host (err e) d = (some (bad_config e), d)
  from_config host (ok none) d = (some nothing_to_serve, d)
  from_config host (ok (some dc)) d = with_command host dc d (host.argv_of dc)

  -- `StartEngine`, with its error.
  unfoldable pub start_engine : Host → Daemon F → Option EngineError × Daemon F
  unfolding from_config
  start_engine host d = from_config host (config_of d.stored) d

-- The state as the replies spell it.
abbrev pub state_text : State → String
state_text idle = "idle"
state_text running = "running"
state_text stopped = "stopped"
state_text crashed = "crashed"

readiness_text : Bool × Bool → String
readiness_text (ready, false) = ""
readiness_text (ready, true) = if ready then ready_yes else ready_no

-- The timestamp and the seconds since it.
activity_text : Host → ℕ × Bool → String × ℕ
activity_text host (last, false) = ("", 0)
activity_text host (last, true) = (host.format_time last, (host.now - last) / second)

-- An engine with a stored key is reported to ask for one.
with_key : Option String → EngineEndpoint → EngineEndpoint
with_key none ep = ep
with_key (some path) ep = record ep { requires_key = true }

module _ {F : Type 0} where
  unfoldable pub readiness_field : Daemon F → String
  unfolding readiness_text
  readiness_field d = readiness_text (read_ready d.readiness)

  -- Only a running engine has an address and a readiness.
  engine_address : Host → Daemon F → Option EngineEndpoint
  unfolding with_key
  engine_address host d =
      if is_running d.sup.state
      then elim d.endpoint [
        | none ↦ none
        | some ep ↦ some (with_key (stored_engine_key_path host d) ep)
      ]
      else none

  unfoldable pub status_reply : Host → Daemon F → StatusResponse
  unfolding engine_address activity_text
  status_reply host d =
      let (state, engine, uptime) = Engine.status host.now d.sup in
      let (last, idle_for) = activity_text host (snapshot d.act) in
      record {
        state = state_text state;
        runner = d.runner;
        model = d.model;
        served_name = d.served_name;
        uptime_seconds = pos uptime;
        log_path = host.log_path;
        last_active_at = last;
        idle_seconds = pos idle_for;
        engine = engine_address host d;
        ready = if is_running state then readiness_field d else "";
        version = host.version;
      }
