-- ===== src/Gateway/Topology/Read.antt =====
-- The orchestrator's tests of a node, on what the gateway reports (internal/gateway/gateway.go,
-- internal/orchestrator/topology.go).
use spinloop.Prelude.{
  String, Bool, true, false, ◌≡◌, refl, arith, str_eq, ◌||◌, ◌&&◌, Bool-cases, inl, inr,
  if◌then◌else◌,
}
use spinloop.Prelude.Map.{Map, lookup}
use spinloop.Fleet.Answer.{
  Outcome, answered, unreachable, unauthorized, config_error, failed, unsupported, Failure,
  NodeResult, is_answered, is_up,
}
use spinloop.Fleet.Config.{Config}
use spinloop.Orchestrator.Topology.{Node, is_running, model_name, answered as node_answered}
use spinloop.Gateway.Models.{running_name, text_of}
use spinloop.Gateway.Topology.{topology_node, outcome_text}

-- The four states of a daemon.
abbrev pub is_state : String → Bool
is_state s = str_eq s "idle" || (str_eq s "running" || (str_eq s "stopped" || str_eq s "crashed"))

-- What the orchestrator reads off a node.
abbrev pub ReadAs : Map String → NodeResult → Node → Type 0
ReadAs wakeable r n =
    (node_answered n ≡ is_answered r)
    × (is_running n ≡ is_answered r && is_up r.status)
    × (is_answered r ≡ true
        → model_name n
          ≡ (if is_up r.status then running_name r.status else text_of (lookup r.name wakeable)))

-- The words for a call that failed are none of the four.
silent-state :
    (o : Outcome)
    → elim o [ answered ↦ true | _ ↦ false ] ≡ false
    → (is_state (outcome_text o) ≡ false) × (str_eq (outcome_text o) "running" ≡ false)
silent-state answered h = absurd (cc)
silent-state unreachable h = (refl, refl)
silent-state unauthorized h = (refl, refl)
silent-state config_error h = (refl, refl)
silent-state failed h = (refl, refl)
silent-state unsupported h = (refl, refl)

-- Where the daemons' states are the four that they have, the orchestrator reads off the gateway's
-- report what the gateway knows: a node answered exactly when its call succeeded, it runs exactly
-- when it answered that it does, and the model that a request names for it is the name that the
-- gateway lists for it.
pub topology_node-ReadAs :
    (text : Failure → String) (c : Config) (wakeable : Map String) (r : NodeResult)
    → is_state r.status.state ≡ true
    → ReadAs wakeable r (topology_node text c wakeable r)
unfolding topology_node node_answered is_running model_name
topology_node-ReadAs text c wakeable r h = elim (Bool-cases (is_answered r)) [
  | inr a ↦ let (s, u) = silent-state r.outcome a in rw a (s, u, λ q. absurd (cc))
  | inl a ↦ elim (Bool-cases (is_up r.status)) [
    | inl u ↦ rw (a, u) (ground arith, refl, λ q. refl)
    | inr u ↦ rw (a, u) (ground (arith, h, u), refl, λ q. refl)
  ]
]
