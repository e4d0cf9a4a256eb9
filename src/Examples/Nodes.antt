-- ===== src/Examples/Nodes.antt =====
-- A fleet of two nodes, what they answer and how they are started (internal/fleet).
use spinloop.Prelude.{String, true, false, List, [], ◌∷◌, Option, none, some}
use spinloop.Prelude.Int.{pos}
use spinloop.Prelude.Result.{ok}
use spinloop.Fleet.Answer.{EngineEndpoint, StatusResponse, NodeResult, answered}
use spinloop.Fleet.Config.{NodeConfig, Config, Environment}
use spinloop.Fleet.Endpoint.{Parsers}
use spinloop.Fleet.Select.{World, Want}
use spinloop.Fleet.Waiting.{Polls}
use spinloop.Fleet.Wakeable.{DeployConfig}
use spinloop.Fleet.Wake.{Nodes, started}

abbrev pub node : String → NodeConfig
node name = record {
  name = name;
  host = name;
  port = pos 0;
  kind = "daemon";
  token_env = "";
  engine_token_env = "KEY";
  engine = none;
  file = "";
  instance_type = "";
  tags = [];
  wake_policy = "";
}

abbrev pub fleet : Config
fleet = record {
  nodes = node "a" ∷ node "b" ∷ [];
  prefer = "";
  wake_policy = "";
  api_key_env = "";
  path = "fleet.yaml";
  dir = ".";
}

abbrev pub address : EngineEndpoint
address = record {
  host = "";
  port = pos 8080;
  path = "";
  loopback_only = false;
  requires_key = true;
}

abbrev pub status : String → Option EngineEndpoint → StatusResponse
status state engine = record {
  state = state;
  runner = "llamacpp";
  model = "m";
  served_name = "";
  uptime_seconds = pos 0;
  log_path = "";
  last_active_at = "";
  idle_seconds = pos 0;
  engine = engine;
  ready = "";
  version = "";
}

abbrev pub answer : String → StatusResponse → NodeResult
answer name status = record { name = name; outcome = answered; error = none; status = status }

abbrev pub answers : List NodeResult
answers = answer "a" (status "running" (some address)) ∷ answer "b" (status "stopped" none) ∷ []

abbrev pub resting : List NodeResult
resting = answer "a" (status "stopped" none) ∷ answer "b" (status "stopped" none) ∷ []

abbrev pub parsers : Parsers
parsers = record { parse_url = λ url. none; parse_ip = λ ip. none }

abbrev pub env : Environment
env = record { getenv = λ name. "secret"; env_file = λ dir. ok [] }

abbrev pub world : World
world = record { parsers = parsers; env = env; fan_out = λ nodes. answers }

abbrev pub want : Want
want = record { model = "m"; alias = ""; model_id = ""; node = ""; prefer = "" }

abbrev pub deploy : DeployConfig
deploy = record {
  runner = "llamacpp";
  model_id = "m";
  quant = "";
  context_size = pos 0;
  parallel = pos 0;
  served_model_name = "";
  serve_args = [];
  companions = [];
  spinloop_version = "";
  instance_type = "";
}

abbrev pub up : StatusResponse
up = record (status "running" (some address)) { ready = "ready" }

-- The engine loads for one turn, and is ready in the next.
abbrev pub polls : Polls
polls = record {
  early = record { reading = none; dials = λ addr. false; cancelled = false } ∷ [];
  final = record { reading = some up; dials = λ addr. false; cancelled = false };
}

abbrev pub nodes : Nodes
nodes = record {
  new_node = λ entry. ok tt;
  start_with = λ entry dc key. started;
  status = λ entry. none;
  polls = λ entry. polls;
}
