-- ===== src/Command/Target.antt =====
-- Which fleet a command acts on (cmd/spinloop/target.go).
pub mod Narrowed
use spinloop.Prelude.{
  String, Bool, not, List, [], ◌∷◌, Option, none, some, if◌then◌else◌, str_eq, any, ◌&&◌,
}
use spinloop.Prelude.Result.{Result, ok, err}
use spinloop.Fleet.Tags.{is_empty}
use spinloop.Fleet.Config.{NodeConfig, Config, names, only_names}
use spinloop.Fleet.Load.{FleetFile, FleetText, LoadError, load, NoEnvironment, for_environment}

-- The flags: the empty text stands for a flag that is not given.
pub record FleetTarget : Type 0 where
  pub node_name : String
  pub fleet_path : String

-- What the working directory and the registry of environments hold.
pub record Surroundings : Type 0 where
  pub discovered : Bool
  pub text_at : String → FleetText
  pub dir_of : String → String
  pub environment_error : String → Option String

abbrev pub default_file : String
default_file = "fleet.yaml"

abbrev pub load_at : Surroundings → String → Result LoadError FleetFile
load_at s path = load path (s.dir_of path) (s.text_at path)

-- `fleet.Resolve`
abbrev pub resolve_file : Surroundings → String → Result LoadError FleetFile
resolve_file s path = load_at s (if is_empty path then default_file else path)

pub data TargetError : Type 0 where
  not_loaded : LoadError → TargetError
  no_environment : NoEnvironment → TargetError
  no_node_or_environment : String → List String → TargetError
  no_node_of_file : String → String → List String → TargetError

abbrev pub has_node : String → Config → Bool
has_node name c = any (λ n. str_eq n.name name) c.nodes

abbrev pub environment : Surroundings → String → Result NoEnvironment FleetFile
environment s name = for_environment s.environment_error name

in_discovered : Surroundings → String → Result LoadError FleetFile → Result TargetError FleetFile
in_discovered s name (err e) = err (not_loaded e)
in_discovered s name (ok f) = if has_node name f.config then ok f else elim (environment s name) [
  | ok g ↦ ok g
  | err e ↦ err (no_node_or_environment name (names f.config))
]

only_environment : Result NoEnvironment FleetFile → Result TargetError FleetFile
only_environment (err e) = err (no_environment e)
only_environment (ok f) = ok f

in_stated : FleetTarget → Result LoadError FleetFile → Result TargetError FleetFile
in_stated t (err e) = err (not_loaded e)
in_stated t (ok f) =
    if not (is_empty t.node_name)
    then (if has_node t.node_name f.config
        then ok f
        else err (no_node_of_file t.node_name t.fleet_path (names f.config)))
    else ok f

-- `resolveFleetTarget`
unfoldable pub resolve_fleet_target : Surroundings → FleetTarget → Result TargetError FleetFile
unfolding in_discovered only_environment in_stated
resolve_fleet_target s t =
    if not (is_empty t.node_name) && is_empty t.fleet_path
    then (if s.discovered
        then in_discovered s t.node_name (load_at s default_file)
        else only_environment (environment s t.node_name))
    else in_stated t (resolve_file s t.fleet_path)

-- `narrowedTarget`
unfoldable pub narrowed_target : Config → String → Config
narrowed_target c node_name =
    if is_empty node_name
    then c
    else elim (only_names c (node_name ∷ [])) [ err e ↦ c | ok narrowed ↦ narrowed ]

-- How a report names the fleet.
pub data Described : Type 0 where
  by_path : String → Described
  by_environment : String → Described
  the_fleet : Described

unfoldable pub describe_target : Config → Described
describe_target c = if not (is_empty c.path) then by_path c.path else elim c.nodes [
  | [] ↦ the_fleet
  | n ∷ nodes ↦ elim nodes [ [] ↦ by_environment n.name | _ ∷ _ ↦ the_fleet ]
]
