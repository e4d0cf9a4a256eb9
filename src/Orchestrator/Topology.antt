-- ===== src/Orchestrator/Topology.antt =====
-- The orchestrator's view of the fleet (internal/orchestrator/topology.go).
use spinloop.Prelude.{String, Bool, List, Option, str_eq, ◌||◌, if◌then◌else◌}
use spinloop.Prelude.Int.{ℤ}
use spinloop.Prelude.Map.{Map}
use spinloop.Fleet.Tags.{is_empty}

-- `total` is a pointer in the source: `none` declares no limit.
pub record Concurrency : Type 0 where
  pub total : Option ℤ
  pub tags : Map ℤ

pub record Node : Type 0 where
  pub name : String
  pub kind : String
  pub tags : Map String
  pub state : String
  pub detail : String
  pub model : String
  pub served_name : String
  pub ready : String
  pub last_active_at : String
  pub wakeable_model : String

pub record Topology : Type 0 where
  pub wake : Bool
  pub prefer : String
  pub concurrency : Option Concurrency
  pub nodes : List Node

unfoldable pub is_running : Node → Bool
is_running n = str_eq n.state "running"

-- The daemon answered: the state is one of its own four.
unfoldable pub answered : Node → Bool
answered n =
    str_eq n.state "idle"
    || (str_eq n.state "running" || (str_eq n.state "stopped" || str_eq n.state "crashed"))

-- What a request that is matched to the node names.
unfoldable pub model_name : Node → String
model_name n =
    if is_running n
    then (if is_empty n.served_name then n.model else n.served_name)
    else n.wakeable_model
