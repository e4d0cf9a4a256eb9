-- ===== src/Fleet/Wakeable.antt =====
-- Which nodes could be started for a request, and with what (`wakeable` of internal/fleet/wake.go,
-- internal/inference/inference.go).
pub mod Order
use spinloop.Prelude.{
  String, Bool, true, false, not, List, [], ◌∷◌, ◌++◌, Option, none, some, if◌then◌else◌, str_eq,
  ◌&&◌, ◌||◌,
}
use spinloop.Prelude.Int.{ℤ}
use spinloop.Prelude.Map.{Map, lookup, put}
use spinloop.Prelude.Result.{Result, ok, err}
use spinloop.Fleet.Tags.{is_empty}
use spinloop.Fleet.Answer.{StatusResponse, NodeResult, is_answered, is_up}
use spinloop.Fleet.Config.{NodeConfig, Config}
use spinloop.Fleet.Select.{Candidate, candidates}

pub record DeployConfig : Type 0 where
  pub runner : String
  pub model_id : String
  pub quant : String
  pub context_size : ℤ
  pub parallel : ℤ
  pub served_model_name : String
  pub serve_args : List String
  pub companions : Map String
  pub spinloop_version : String
  pub instance_type : String

-- What resolving a node's deploy config gives: the config or a message.
abbrev pub Resolved : Type 0
Resolved = Result String DeployConfig

-- What was resolved before, or what is resolved now and kept.
abbrev pub remembered :
    (NodeConfig → Resolved) → Map Resolved → NodeConfig → Option Resolved → Resolved × Map Resolved
remembered fn seen entry (some r) = (r, seen)
remembered fn seen entry none = (fn entry, put entry.name (fn entry) seen)

-- `configResolver.config`: each node's config is resolved once for a wake, by the node's name.
unfoldable pub resolve :
    (NodeConfig → Resolved) → Map Resolved → NodeConfig → Resolved × Map Resolved
resolve fn seen entry = remembered fn seen entry (lookup entry.name seen)

abbrev pub startable : Candidate → Bool
startable c = is_answered c.result && not (is_up c.result.status)

-- The node holds the weights of what it would be started with.
abbrev pub is_warm : StatusResponse → Resolved → Bool
is_warm status (err e) = false
is_warm status (ok dc) = not (is_empty status.model) && str_eq status.model dc.model_id

-- The nodes that hold the weights, those that do not, and the configs that were resolved.
unfoldable pub split_wakeable :
    (NodeConfig → Resolved)
    → Map Resolved
    → List Candidate
    → List Candidate × List Candidate × Map Resolved
split_wakeable fn seen [] = ([], [], seen)
split_wakeable fn seen (c ∷ cands) =
    let asked = resolve fn seen c.entry in
    let passed = split_wakeable fn seen cands in
    let (warm, cold, resolved) = split_wakeable fn asked.1 cands in
    if not (is_answered c.result) || is_up c.result.status
    then passed
    else if is_warm c.result.status asked.0
    then (c ∷ warm, cold, resolved)
    else (warm, c ∷ cold, resolved)

abbrev pub wakeable : (NodeConfig → Resolved) → List Candidate → List Candidate × Map Resolved
wakeable fn cands =
    let (warm, cold, resolved) = split_wakeable fn [] cands in (warm ++ cold, resolved)

-- The node that a wake would try first.
unfoldable pub would_wake : Config → (NodeConfig → Resolved) → List NodeResult → Option NodeConfig
would_wake c fn results = elim (wakeable fn (candidates c results)).0 [
  | [] ↦ none
  | cand ∷ _ ↦ some cand.entry
]
