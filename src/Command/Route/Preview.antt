-- ===== src/Command/Route/Preview.antt =====
-- The report of `spinloop fleet route` (runFleetRoute of cmd/spinloop/fleet.go).
pub mod Foretold
use spinloop.Prelude.{String, not, List, none, some, if◌then◌else◌, ◌&&◌, Option}
use spinloop.Prelude.Result.{Result, ok, err}
use spinloop.Prelude.Text.{Text}
use spinloop.Fleet.Tags.{is_empty}
use spinloop.Fleet.Answer.{NodeResult}
use spinloop.Fleet.Config.{NodeConfig, Config, preference, wakes}
use spinloop.Fleet.Select.{World, Choice, SelectError, none_serving, select}
use spinloop.Fleet.Wakeable.{Resolved, would_wake}
use spinloop.Fleet.Load.{FleetFile, GatewayConfig, LoadError, NoEnvironment}
use spinloop.Command.Target.{Surroundings, resolve_file, environment}
use spinloop.Command.Route.{
  RouteOptions, Worn, Addressing, fleet_file, launch_want, endpoint_base_url, gateway_section,
  constant_config,
}

-- What the report says that a launch would do.
pub data Preview : Type 0 where
  not_routed : Preview
  to_gateway : Text → Preview
  would_use : Choice → Preview
  would_start : NodeConfig → Preview
  would_refuse : NodeConfig → Preview
  could_not_start : String → Preview
  none_to_start : Preview

pub data PreviewError : Type 0 where
  nothing_to_route_through : PreviewError
  fleet_unread : LoadError → PreviewError
  environment_unread : NoEnvironment → PreviewError
  preference_unknown : String → PreviewError
  not_chosen : SelectError → PreviewError

waking_preview : Config → Option NodeConfig → Preview
waking_preview c none = none_to_start
waking_preview c (some n) = if wakes c then would_start n else would_refuse n

preview_wake : Config → List NodeResult → Resolved → Preview
unfolding waking_preview
preview_wake c results (err d) = could_not_start d
preview_wake c results (ok dc) = waking_preview c (would_wake c (constant_config (ok dc)) results)

preview_select : Worn → Config → Result SelectError Choice → Result PreviewError Preview
unfolding preview_wake
preview_select sel c (ok choice) = ok (would_use choice)
preview_select sel c (err (none_serving results w path)) = ok (preview_wake c results sel.deploy)
preview_select sel c (err e) = err (not_chosen e)

preview_section :
    World
    → Addressing
    → RouteOptions
    → Worn
    → Config
    → Option GatewayConfig
    → String
    → Result PreviewError Preview
unfolding preview_select
preview_section world a o sel c (some g) prefer = ok (to_gateway (endpoint_base_url a g.url))
preview_section world a o sel c none prefer =
    preview_select sel c (select world c (launch_want sel o.node prefer))

preview_at :
    World
    → Addressing
    → RouteOptions
    → Worn
    → FleetFile
    → Result String String
    → Result PreviewError Preview
unfolding preview_section
preview_at world a o sel f (err e) = err (preference_unknown e)
preview_at world a o sel f (ok prefer) =
    if not (is_empty sel.base_url)
    then ok not_routed
    else preview_section world a o sel f.config (gateway_section f) prefer

preview_file :
    World
    → Addressing
    → RouteOptions
    → Worn
    → Result LoadError FleetFile
    → Result PreviewError Preview
unfolding preview_at
preview_file world a o sel (err e) = err (fleet_unread e)
preview_file world a o sel (ok f) = preview_at world a o sel f (preference f.config o.prefer)

preview_environment :
    World
    → Addressing
    → RouteOptions
    → Worn
    → Result NoEnvironment FleetFile
    → Result PreviewError Preview
unfolding preview_at
preview_environment world a o sel (err e) = err (environment_unread e)
preview_environment world a o sel (ok f) = preview_at world a o sel f (preference f.config o.prefer)

-- `runFleetRoute`, with the Spinloop that it reads
unfoldable pub preview_route :
    World → Addressing → Surroundings → Worn → RouteOptions → Result PreviewError Preview
unfolding preview_file preview_environment
preview_route world a s sel o =
    if is_empty o.node && is_empty (fleet_file s o)
    then err nothing_to_route_through
    else if not (is_empty (fleet_file s o))
    then preview_file world a o sel (resolve_file s (fleet_file s o))
    else preview_environment world a o sel (environment s o.node)
