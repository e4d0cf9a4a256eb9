-- ===== src/Gateway/Topology.antt =====
-- What the gateway reports the fleet to be (`handleTopology` of internal/gateway/gateway.go), as the
-- orchestrator reads it.
pub mod Read
use spinloop.Prelude.{
  ℕ, String, Bool, true, false, not, List, [], ◌∷◌, Option, none, some, if◌then◌else◌, map,
}
use spinloop.Prelude.Map.{Map, lookup}
use spinloop.Fleet.Answer.{
  Outcome, answered, unreachable, unauthorized, config_error, failed, unsupported, Failure,
  NodeResult, is_answered, is_up,
}
use spinloop.Fleet.Config.{NodeConfig, Config, node_named, wakes}
use spinloop.Orchestrator.Topology.{Topology, Node, Concurrency}
use spinloop.Gateway.Models.{text_of}

abbrev pub outcome_text : Outcome → String
outcome_text answered = "ok"
outcome_text unreachable = "unreachable"
outcome_text unauthorized = "unauthorized"
outcome_text config_error = "config-error"
outcome_text failed = "failed"
outcome_text unsupported = "unsupported"

-- `Detail`, with the text of a failure as an argument.
abbrev pub detail : (Failure → String) → Option Failure → String
detail text none = ""
detail text (some f) = text f

abbrev pub kind_of : Option NodeConfig → String
kind_of none = ""
kind_of (some entry) = entry.kind

abbrev pub tags_of : Option NodeConfig → Map String
tags_of none = []
tags_of (some entry) = entry.tags

abbrev pub silent_node : (Failure → String) → NodeResult → Option NodeConfig → Node
silent_node text r entry = record {
  name = r.name;
  kind = kind_of entry;
  tags = tags_of entry;
  state = outcome_text r.outcome;
  detail = detail text r.error;
  model = "";
  served_name = "";
  ready = "";
  last_active_at = "";
  wakeable_model = "";
}

abbrev pub answering_node : Map String → NodeResult → Option NodeConfig → Node
answering_node wakeable r entry = record {
  name = r.name;
  kind = kind_of entry;
  tags = tags_of entry;
  state = r.status.state;
  detail = "";
  model = r.status.model;
  served_name = r.status.served_name;
  ready = r.status.ready;
  last_active_at = r.status.last_active_at;
  wakeable_model = if not (is_up r.status) then text_of (lookup r.name wakeable) else "";
}

unfoldable pub topology_node : (Failure → String) → Config → Map String → NodeResult → Node
topology_node text c wakeable r =
    if not (is_answered r)
    then silent_node text r (node_named c.nodes r.name)
    else answering_node wakeable r (node_named c.nodes r.name)

-- The file's limits are handed over as they are.
unfoldable pub topology :
    (Failure → String) → Config → Option Concurrency → List NodeResult → Map String → Topology
topology text c limits results wakeable = record {
  wake = wakes c;
  prefer = c.prefer;
  concurrency = limits;
  nodes = map (topology_node text c wakeable) results;
}
