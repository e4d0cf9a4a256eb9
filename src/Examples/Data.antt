-- ===== src/Examples/Data.antt =====
-- Two nodes, one of which runs, and a backlog of two items (internal/orchestrator).
use spinloop.Prelude.{ℕ, String, true, [], ◌∷◌, Option, none, some, if◌then◌else◌, str_eq}
use spinloop.Prelude.Int.{pos, negsuc}
use spinloop.Prelude.Result.{ok}
use spinloop.Orchestrator.Items.{Item}
use spinloop.Orchestrator.Topology.{Topology, Node}
use spinloop.Orchestrator.WorkList.{WorkList, World, flight, launched}

abbrev pub item_x : Item
item_x = record {
  id = "x";
  instructions = "do";
  dir = ".";
  tags = "gpu=big" ∷ [];
  priority = pos 2;
}

abbrev pub item_y : Item
item_y = record item_x { id = "y"; tags = []; priority = negsuc 0 }

abbrev pub node_at : String → String → String → Node
node_at name state last_active_at = record {
  name = name;
  kind = "daemon";
  tags = ("gpu", "big") ∷ [];
  state = state;
  detail = "";
  model = "m";
  served_name = "";
  ready = "ready";
  last_active_at = last_active_at;
  wakeable_model = "m";
}

abbrev pub topo : Topology
topo = record {
  wake = true;
  prefer = "idle";
  concurrency = some (record { total = some (pos 1); tags = ("gpu=big", pos 1) ∷ [] });
  nodes = node_at "a" "running" "5" ∷ node_at "b" "idle" "" ∷ [];
}

-- The instants of three texts.
abbrev pub parse_time : String → Option ℕ
parse_time t =
    if str_eq t "1"
    then some 1
    else if str_eq t "5"
    then some 5
    else if str_eq t "9"
    then some 9
    else none

abbrev pub world : World
world = record { launch = λ item node. ok 7; now = λ id. "t"; parse_time = parse_time }

abbrev pub before : WorkList
before = record {
  items = item_x ∷ item_y ∷ [];
  records = [];
  inflight = [];
  stopping = [];
  file = [];
  stored = [];
  last_mod = 3;
  last_size = 4;
}

abbrev pub node_a : Node
node_a = node_at "a" "running" "5"

-- The first item is in flight, and the limit of one keeps the second one waiting.
abbrev pub after : WorkList
after = record before {
  records = ("x", launched world item_x node_a) ∷ [];
  inflight = ("x", flight item_x node_a 7) ∷ [];
  stored = ("x", launched world item_x node_a) ∷ [];
}
