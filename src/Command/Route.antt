-- ===== src/Command/Route.antt =====
-- How a launch is routed through a fleet (cmd/spinloop/route.go), and how `spinloop fleet route`
-- reports it beforehand (runFleetRoute of cmd/spinloop/fleet.go). The notices on stderr are left out;
-- the bound of a wake's wait is in the turns that the nodes are asked.
pub mod Pinned
pub mod Preview
use spinloop.Prelude.{
  String, Bool, true, false, not, List, [], ◌∷◌, ◌++◌, Option, none, some, if◌then◌else◌, str_eq,
  ◌==◌, ◌&&◌, ◌||◌,
}
use spinloop.Prelude.Result.{Result, ok, err}
use spinloop.Prelude.Text.{Text, codes, text_eq}
use spinloop.Fleet.Tags.{is_empty}
use spinloop.Fleet.Answer.{NodeResult}
use spinloop.Fleet.Config.{NodeConfig, Config, preference, any_node_wakes, wakes}
use spinloop.Fleet.Select.{Want, World, Choice, SelectError, none_serving, select}
use spinloop.Fleet.Wakeable.{Resolved, would_wake}
use spinloop.Fleet.Wake.{Nodes, Attempt, Woken, WakeError, wake}
use spinloop.Fleet.Load.{FleetFile, GatewayConfig, LoadError, NoEnvironment}
use spinloop.Command.Target.{Surroundings, default_file, resolve_file, environment}

pub record RouteOptions : Type 0 where
  pub fleet_path : String
  pub spinloop_named : Bool
  pub node : String
  pub prefer : String
  pub no_wake : Bool

-- `routeOptions.fleetFile`
unfoldable pub fleet_file : Surroundings → RouteOptions → String
fleet_file s o =
    if not (is_empty o.fleet_path)
    then o.fleet_path
    else if o.spinloop_named
    then ""
    else if s.discovered
    then default_file
    else ""

-- What the launch's Spinloop asks for, and what deployConfigForNode makes of it: the model's id, which
-- is there even where the config is refused, and the config.
pub record Worn : Type 0 where
  pub model : String
  pub alias : String
  pub base_url : String
  pub model_id : String
  pub deploy : Resolved

abbrev pub launch_want : Worn → String → String → Want
launch_want sel node prefer = record {
  model = sel.model;
  alias = sel.alias;
  model_id = sel.model_id;
  node = node;
  prefer = prefer;
}

-- What url.Parse gives of an address: its path and its host, where it parses.
pub record Addressing : Type 0 where
  pub path_of : String → Option String
  pub host_of : String → Option String

-- strings.TrimRight(s, "/")
trim_slashes : Text → Text
trim_slashes [] = []
trim_slashes (c ∷ s) =
    let rest = trim_slashes s in if c == b'/' && text_eq [] rest then [] else c ∷ rest

-- `EndpointBaseURL`
unfoldable pub endpoint_base_url : Addressing → String → Text
unfolding trim_slashes
endpoint_base_url a target = elim (a.path_of target) [
  | none ↦ codes target
  | some path ↦
      if not (is_empty path) && not (str_eq path "/")
      then codes target
      else trim_slashes (codes target) ++ codes "/v1"
]

-- `GatewaySection`: the token's variable has a default.
abbrev pub gateway_section : FleetFile → Option GatewayConfig
gateway_section f = elim f.gateway [
  | none ↦ none
  | some g ↦
      some (record g { token_env = if is_empty g.token_env then "OPENAI_API_KEY" else g.token_env })
]

-- `GatewayConfig.Label`
abbrev pub gateway_label : Addressing → GatewayConfig → String
gateway_label a g =
    if not (is_empty g.name)
    then g.name
    else elim (a.host_of g.url) [ none ↦ g.url | some host ↦ if is_empty host then g.url else host ]

-- Where a launch sends its requests: nowhere by a fleet, at a gateway by its address, its token's
-- variable and its label, or at a node.
pub data Route : Type 0 where
  unrouted : Route
  at_gateway : Text → String → String → Route
  at_node : Choice → Route

pub data RouteError : Type 0 where
  no_fleet : LoadError → RouteError
  bad_preference : String → RouteError
  not_selected : SelectError → RouteError
  waking_refused : SelectError → RouteError
  waking_off : SelectError → Option NodeConfig → RouteError
  cannot_start : SelectError → String → RouteError
  not_woken : WakeError → RouteError

-- A route, with the starts of engines that it makes.
abbrev pub RoutedLaunch : Type 0
RoutedLaunch = List Attempt × Result RouteError Route

abbrev pub routed_wake : Woken → RoutedLaunch
routed_wake (attempts, ok c) = (attempts, ok (at_node c))
routed_wake (attempts, err e) = (attempts, err (not_woken e))

abbrev pub constant_config : Resolved → NodeConfig → Resolved
constant_config r entry = r

start_route :
    World → Nodes → Config → Want → SelectError → List NodeResult → Resolved → RoutedLaunch
start_route world nodes c w e results (err d) = ([], err (cannot_start e d))
start_route world nodes c w e results (ok dc) =
    routed_wake (wake world c nodes (constant_config (ok dc)) w results)

wake_route :
    World
    → Nodes
    → RouteOptions
    → Resolved
    → Config
    → Want
    → SelectError
    → List NodeResult
    → RoutedLaunch
unfolding start_route
wake_route world nodes o deploy c w e results =
    if o.no_wake
    then ([], err (waking_refused e))
    else if not (any_node_wakes c)
    then ([], err (waking_off e (would_wake c (constant_config deploy) results)))
    else start_route world nodes c w e results deploy

-- Only an error that carries the answers of the fleet goes on to a wake.
select_route :
    World → Nodes → RouteOptions → Worn → Config → Want → Result SelectError Choice → RoutedLaunch
unfolding wake_route
select_route world nodes o sel c w (ok choice) = ([], ok (at_node choice))
select_route world nodes o sel c w (err (none_serving results want path)) =
    wake_route world nodes o sel.deploy c w (none_serving results want path) results
select_route world nodes o sel c w (err e) = ([], err (not_selected e))

prefer_route : World → Nodes → RouteOptions → Worn → Config → Result String String → RoutedLaunch
unfolding select_route
prefer_route world nodes o sel c (err e) = ([], err (bad_preference e))
prefer_route world nodes o sel c (ok prefer) =
    let w = launch_want sel o.node prefer in select_route world nodes o sel c w (select world c w)

section_route :
    World → Nodes → Addressing → RouteOptions → Worn → Config → Option GatewayConfig → RoutedLaunch
unfolding prefer_route
section_route world nodes a o sel c (some g) =
    ([], ok (at_gateway (endpoint_base_url a g.url) g.token_env (gateway_label a g)))
section_route world nodes a o sel c none = prefer_route world nodes o sel c (preference c o.prefer)

loaded_route :
    World → Nodes → Addressing → RouteOptions → Worn → Result LoadError FleetFile → RoutedLaunch
unfolding section_route
loaded_route world nodes a o sel (err e) = ([], err (no_fleet e))
loaded_route world nodes a o sel (ok f) =
    section_route world nodes a o sel f.config (gateway_section f)

-- `routeThroughFleet`
unfoldable pub route_through_fleet :
    World → Nodes → Addressing → Surroundings → Worn → RouteOptions → RoutedLaunch
unfolding loaded_route
route_through_fleet world nodes a s sel o =
    if is_empty (fleet_file s o)
    then ([], ok unrouted)
    else if not (is_empty sel.base_url)
    then ([], ok unrouted)
    else loaded_route world nodes a o sel (resolve_file s (fleet_file s o))
