-- ===== src/Examples/Command.antt =====
-- A fleet whose nodes rest, and the commands that act on it (cmd/spinloop).
use spinloop.Prelude.{true, false, ◌≡◌, refl, [], ◌∷◌, map, All, none, some}
use spinloop.Prelude.Result.{ok}
use spinloop.Prelude.Map.{lookup, put, delete}
use spinloop.Prelude.Sort.{slice_stable, insertion}
use spinloop.Fleet.Tags.{split_tag}
use spinloop.Fleet.Config.{NodeConfig, node_named, only_names, preference, resolve_token_env}
use spinloop.Fleet.Select.{World, select, choose, rank, running, pinned_refusal, choice_for}
use spinloop.Fleet.Endpoint.{engine_base_url}
use spinloop.Fleet.Waiting.{wait_ready, settled}
use spinloop.Fleet.Wake.{wake, wake_each, start_and_wait}
use spinloop.Fleet.Wakeable.{would_wake, split_wakeable}
use spinloop.Fleet.Load.{
  FleetFile, text, load, validate_file, names_scheme, is_env_name, is_instance_type, fleet_of_one,
  for_environment,
}
use spinloop.Command.Target.{FleetTarget, Surroundings, resolve_file, resolve_fleet_target}
use spinloop.Command.Target.Narrowed.{ComesFrom, Narrows, resolve_fleet_target-Narrows}
use spinloop.Command.Route.{RouteOptions, Worn, Addressing, fleet_file, route_through_fleet}
use spinloop.Command.Route.Pinned.{First, route_through_fleet-First}
use spinloop.Fleet.Select.Asked.{AnswersAlone}
use spinloop.Command.Route.Preview.{would_refuse, preview_route}
use spinloop.Command.Route.Preview.Foretold.{Foretold, preview_route-Foretold}
use spinloop.Examples.Nodes.{node, fleet, parsers, env, deploy, nodes, answer, status}

-- The first node may be woken, though the fleet's nodes in general may not.
abbrev first_node : NodeConfig
first_node = record (node "a") { wake_policy = "on" }

abbrev resting_fleet : FleetFile
resting_fleet = record {
  config = record fleet { nodes = first_node ∷ node "b" ∷ []; wake_policy = "off" };
  gateway = none;
  concurrency = none;
}

abbrev here : Surroundings
here = record {
  discovered = true;
  text_at = λ path. text none (ok resting_fleet);
  dir_of = λ path. ".";
  environment_error = λ name. none;
}

abbrev all_rest : World
all_rest = record {
  parsers = parsers;
  env = env;
  fan_out = map (λ n. answer n.name (status "stopped" none));
}

abbrev addressing : Addressing
addressing = record { path_of = λ url. some ""; host_of = λ url. none }

abbrev sel : Worn
sel = record { model = "m"; alias = ""; base_url = ""; model_id = "m"; deploy = ok deploy }

abbrev pinned : RouteOptions
pinned = record {
  fleet_path = "";
  spinloop_named = false;
  node = "b";
  prefer = "";
  no_wake = false;
}

abbrev unpinned : RouteOptions
unpinned = record pinned { node = "" }

abbrev target : FleetTarget
target = record { node_name = "prod"; fleet_path = "" }

answers_alone : AnswersAlone all_rest
answers_alone entry = (_, refl)

loaded : resolve_file here "fleet.yaml" ≡ ok resting_fleet
unfolding load validate_file is_env_name is_instance_type names_scheme split_tag
loaded = refl

one_environment : resolve_fleet_target here target ≡ ok (fleet_of_one "prod")
unfolding resolve_fleet_target for_environment load validate_file is_env_name is_instance_type
    names_scheme split_tag
one_environment = refl

resolve_fleet_target-Narrows_example :
    ComesFrom here target (fleet_of_one "prod") × Narrows target (fleet_of_one "prod")
resolve_fleet_target-Narrows_example =
    resolve_fleet_target-Narrows here target (fleet_of_one "prod") one_environment

route_through_fleet-First_example :
    All
      (λ t. First resting_fleet.config.nodes t.candidate.entry)
      (route_through_fleet all_rest nodes addressing here sel pinned).0
unfolding fleet_file
route_through_fleet-First_example =
    route_through_fleet-First all_rest nodes addressing here sel pinned resting_fleet answers_alone
      loaded refl

-- The node that is named is `b`.
starts_another :
    map
      (λ t. t.candidate.entry.name)
      (route_through_fleet all_rest nodes addressing here sel pinned).0
    ≡ ("a" ∷ [])
unfolding route_through_fleet fleet_file load validate_file preference select only_names node_named
    choose pinned_refusal rank slice_stable insertion running wake split_wakeable
    spinloop.Fleet.Wakeable.resolve lookup wake_each put resolve_token_env start_and_wait settled
    wait_ready choice_for engine_base_url
starts_another = refl

foretells_refusal :
    preview_route all_rest addressing here sel unpinned ≡ ok (would_refuse first_node)
unfolding preview_route fleet_file load validate_file preference select choose rank slice_stable
    insertion running would_wake split_wakeable spinloop.Fleet.Wakeable.resolve lookup
foretells_refusal = refl

starts_nonetheless :
    map
      (λ t. t.candidate.entry.name)
      (route_through_fleet all_rest nodes addressing here sel unpinned).0
    ≡ ("a" ∷ [])
unfolding route_through_fleet fleet_file load validate_file preference select only_names node_named
    choose pinned_refusal rank slice_stable insertion running wake split_wakeable
    spinloop.Fleet.Wakeable.resolve lookup wake_each put resolve_token_env start_and_wait settled
    wait_ready choice_for engine_base_url delete
starts_nonetheless = refl

preview_route-Foretold_example :
    Foretold all_rest nodes sel.deploy resting_fleet.config
      (would_refuse first_node)
      (route_through_fleet all_rest nodes addressing here sel unpinned)
unfolding fleet_file
preview_route-Foretold_example =
    preview_route-Foretold all_rest nodes addressing unpinned sel refl here resting_fleet
      (would_refuse first_node) refl loaded foretells_refusal
