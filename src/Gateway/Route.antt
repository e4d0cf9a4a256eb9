-- ===== src/Gateway/Route.antt =====
-- The routing of a completion request (`handleCompletion` of internal/gateway/gateway.go).
pub mod Needed
use spinloop.Prelude.{
  ℕ, String, Bool, true, false, not, List, [], ◌∷◌, Option, none, some, if◌then◌else◌, str_eq, ◌&&◌,
  ◌||◌, map,
}
use spinloop.Prelude.Result.{Result, ok, err, fail_as}
use spinloop.Fleet.Tags.{is_empty}
use spinloop.Fleet.Answer.{EndpointError, NodeResult, unreachable, endpoint, is_answered, is_up}
use spinloop.Fleet.Config.{NodeConfig, Config, node_named, any_node_wakes, preference}
use spinloop.Fleet.Endpoint.{Parsers, engine_base_url}
use spinloop.Fleet.Select.{
  Want, World, Choice, SelectError, none_serving, unanswered, serves_other, still_starting,
  unreachable_engine, no_key, unknown_node, candidates, loading_nodes, choose,
}
use spinloop.Fleet.Wakeable.{DeployConfig, Resolved}
use spinloop.Fleet.Wake.{Attempt, Nodes, WakeError, wake, wait_loading}
use spinloop.Gateway.{Handler, reading}
use spinloop.Gateway.Models.{combined_config_for, name_of}

abbrev pub with_address : NodeResult → Result EndpointError String → NodeResult
with_address r (ok url) = r
with_address r (err e) = record r { outcome = unreachable; error = some (endpoint e) }

abbrev pub reached_as : Parsers → Config → NodeResult → Option NodeConfig → NodeResult
reached_as parsers c r none = r
reached_as parsers c r (some entry) = with_address r (engine_base_url parsers c entry r.status)

-- A running engine that has no address is no candidate.
unfoldable pub reach : Parsers → Config → NodeResult → NodeResult
reach parsers c r =
    if not (is_answered r) || not (is_up r.status)
    then r
    else reached_as parsers c r (node_named c.nodes r.name)

abbrev pub reachable : Parsers → Config → List NodeResult → List NodeResult
reachable parsers c results = map (reach parsers c) results

abbrev pub describes : String → DeployConfig → Bool
describes model dc = str_eq dc.model_id model || str_eq dc.served_model_name model

abbrev pub matching : String → Resolved → Resolved
matching model (err e) = err e
matching model (ok dc) = if describes model dc then ok dc else err (name_of (ok dc))

abbrev pub matching_config_for : String → (NodeConfig → Resolved) → NodeConfig → Resolved
matching_config_for model base entry = matching model (base entry)

abbrev pub is_ok : Resolved → Bool
is_ok (ok dc) = true
is_ok (err e) = false

-- The node that the refusal of a wake names: the first whose source describes the model.
unfoldable pub refuse_wake : (NodeConfig → Resolved) → List NodeConfig → Option String
refuse_wake cfg_for [] = none
refuse_wake cfg_for (entry ∷ entries) =
    let rest = refuse_wake cfg_for entries in
    if is_ok (cfg_for entry) then some entry.name else rest

pub data Refused : Type 0 where
  body_too_large body_unread no_model : Refused
  bad_preference : String → Refused
  bad_gateway : SelectError → Refused
  unavailable : WakeError → Refused
  wake_off : Option String → Refused

-- The calls of `StartWith` that a request makes, and where it is sent.
abbrev pub Routed : Type 0
Routed = List Attempt × Result Refused Choice

-- What a request asks of the world beside the answers of the nodes that are read: how the nodes
-- behave when they are started, and the figures of a cloud node.
pub record Backend : Type 0 where
  pub world : World
  pub nodes : Nodes
  pub stats : NodeConfig → Result String (String × String)

unfoldable pub wake_for : Backend → Handler → Want → List NodeResult → Routed
wake_for b h w results =
    let cfg_for = matching_config_for w.model (combined_config_for b.stats h) in
    let woken = wake b.world h.cfg b.nodes cfg_for w results in
    if not (any_node_wakes h.cfg)
    then ([], err (wake_off (refuse_wake cfg_for h.cfg.nodes)))
    else (woken.0, fail_as unavailable woken.1)

-- A node that loads what is wanted is waited for; one is woken only where none does.
abbrev pub unless_loading : Backend → Handler → Want → List NodeResult → List NodeConfig → Routed
unless_loading b h w results [] = wake_for b h w results
unless_loading b h w results (starting ∷ _) =
    ([], fail_as unavailable (wait_loading b.world h.cfg b.nodes w results))

unfoldable pub route_nothing_serving : Backend → Handler → Want → List NodeResult → Routed
route_nothing_serving b h w results = unless_loading b h w results (loading_nodes h.cfg results w)

abbrev pub route_choice : Backend → Handler → Want → Result SelectError Choice → Routed
route_choice b h w (ok choice) = ([], ok choice)
route_choice b h w (err (none_serving results v path)) = route_nothing_serving b h w results
route_choice b h w (err e) = ([], err (bad_gateway e))

-- What `requestModel` makes of a body.
pub data Body : Type 0 where
  too_large unread not_json : Body
  naming : String → Body

abbrev pub want_of : String → String → Want
want_of model prefer = record {
  model = model;
  alias = "";
  model_id = "";
  node = "";
  prefer = prefer;
}

-- The reading of the fleet, and the request's route in it.
abbrev pub route_in : Backend → Handler → Want → List NodeResult × Handler → Routed × Handler
route_in b h w (results, h') =
    (route_choice b h' w (choose b.world h'.cfg (reachable b.world.parsers h'.cfg results) w), h')

abbrev pub preferred_route :
    Backend → ℕ → ℕ → Handler → String → Result String String → Routed × Handler
preferred_route b now done h model (err e) = (([], err (bad_preference e)), h)
preferred_route b now done h model (ok prefer) =
    route_in b h (want_of model prefer) (reading b.world.fan_out now done h)

unfoldable pub handle_completion : Backend → ℕ → ℕ → Handler → Body → Routed × Handler
handle_completion b now done h too_large = (([], err body_too_large), h)
handle_completion b now done h unread = (([], err body_unread), h)
handle_completion b now done h not_json = (([], err body_unread), h)
handle_completion b now done h (naming model) =
    if is_empty model
    then (([], err no_model), h)
    else preferred_route b now done h model (preference h.cfg "")
