-- ===== src/Command/Route/Pinned.antt =====
-- A launch that names its node, where that node has no engine (routeThroughFleet of
-- cmd/spinloop/route.go, with Select and Wake of internal/fleet).
use spinloop.Prelude.{
  String, false, ◌≡◌, refl, List, [], ◌∷◌, Option, none, some, arith, All, inl, inr, Bool-cases,
  ◌∙◌, subst, sym,
}
use spinloop.Prelude.Result.{Result, ok, err}
use spinloop.Fleet.Tags.{is_empty}
use spinloop.Fleet.Answer.{NodeResult}
use spinloop.Fleet.Config.{NodeConfig, Config, preference}
use spinloop.Fleet.Load.{FleetFile, GatewayConfig, LoadError}
use spinloop.Fleet.Wakeable.{Resolved}
use spinloop.Fleet.Select.{
  Want, World, Choice, SelectError, none_serving, candidates, candidates_from,
}
use spinloop.Fleet.Wake.{Nodes, Woken}
use spinloop.Command.Target.{Surroundings, resolve_file}
use spinloop.Command.Route.{
  RouteOptions, Worn, Addressing, RoutedLaunch, fleet_file, routed_wake, start_route, wake_route,
  select_route, prefer_route, section_route, loaded_route, route_through_fleet, constant_config,
  gateway_section, launch_want,
}
use spinloop.Fleet.Wake.Starts.{Starts, Entries, wake-Starts}
use spinloop.Fleet.Select.Asked.{AnswersAlone, AskedAlone, select-AskedAlone}

-- The node that the file names first.
abbrev pub First : List NodeConfig → NodeConfig → Type 0
First [] entry = ⊥
First (n ∷ nodes) entry = entry ≡ n

lone_candidate :
    (c : Config) (r : NodeResult) (results : List NodeResult)
    → results ≡ r ∷ []
    → Entries (First c.nodes) (candidates c results)
lone_candidate c r results h = rw h (go c.nodes)
  where
    go : (nodes : List NodeConfig) → Entries (First nodes) (candidates_from 0 nodes (r ∷ []))
    go [] = tt
    go (n ∷ nodes) = (refl, tt)

-- Every start of a route is of the first node.
abbrev StartsFirst : Config → RoutedLaunch → Type 0
StartsFirst c out = All (λ a. First c.nodes a.candidate.entry) out.0

routed_wake-StartsFirst :
    (c : Config) (out : Woken) → Starts (First c.nodes) out → StartsFirst c (routed_wake out)
routed_wake-StartsFirst c (attempts, ok choice) h = h
routed_wake-StartsFirst c (attempts, err e) h = h

start_route-StartsFirst :
    (world : World) (nodes : Nodes) (c : Config) (w : Want) (e : SelectError)
    (results : List NodeResult) (deploy : Resolved)
    → Entries (First c.nodes) (candidates c results)
    → StartsFirst c (start_route world nodes c w e results deploy)
unfolding start_route
start_route-StartsFirst world nodes c w e results (err d) h = tt
start_route-StartsFirst world nodes c w e results (ok dc) h =
    routed_wake-StartsFirst c _
      (wake-Starts (First c.nodes) world c nodes (constant_config (ok dc)) w results h)

wake_route-StartsFirst :
    (world : World) (nodes : Nodes) (o : RouteOptions) (deploy : Resolved) (c : Config) (w : Want)
    (e : SelectError) (results : List NodeResult)
    → Entries (First c.nodes) (candidates c results)
    → StartsFirst c (wake_route world nodes o deploy c w e results)
unfolding wake_route
wake_route-StartsFirst world nodes o deploy c w e results h =
    ground (arith, start_route-StartsFirst world nodes c w e results deploy h)

select_route-StartsFirst :
    (world : World) (nodes : Nodes) (o : RouteOptions) (sel : Worn) (c : Config) (w : Want)
    (r : Result SelectError Choice)
    → AnswersAlone world
    → AskedAlone world r
    → StartsFirst c (select_route world nodes o sel c w r)
unfolding select_route
select_route-StartsFirst world nodes o sel c w (ok choice) answers h = tt
select_route-StartsFirst world nodes o sel c w (err (none_serving rs v path)) answers h =
    let (r, one) = answers h.0 in
    wake_route-StartsFirst world nodes o sel.deploy c w (none_serving rs v path) rs
      (lone_candidate c r rs (h.1 ∙ one))
select_route-StartsFirst world nodes o sel c w (err e) answers h = tt

prefer_route-StartsFirst :
    (world : World) (nodes : Nodes) (o : RouteOptions) (sel : Worn) (c : Config)
    (r : Result String String)
    → AnswersAlone world
    → is_empty o.node ≡ false
    → StartsFirst c (prefer_route world nodes o sel c r)
unfolding prefer_route
prefer_route-StartsFirst world nodes o sel c (err e) answers h = tt
prefer_route-StartsFirst world nodes o sel c (ok prefer) answers h =
    select_route-StartsFirst world nodes o sel c (launch_want sel o.node prefer) _ answers
      (select-AskedAlone world c (launch_want sel o.node prefer) h)

section_route-StartsFirst :
    (world : World) (nodes : Nodes) (a : Addressing) (o : RouteOptions) (sel : Worn) (c : Config)
    (section : Option GatewayConfig)
    → AnswersAlone world
    → is_empty o.node ≡ false
    → StartsFirst c (section_route world nodes a o sel c section)
unfolding section_route
section_route-StartsFirst world nodes a o sel c none answers h =
    prefer_route-StartsFirst world nodes o sel c (preference c o.prefer) answers h
section_route-StartsFirst world nodes a o sel c (some g) answers h = tt

loaded_route-StartsFirst :
    (world : World) (nodes : Nodes) (a : Addressing) (o : RouteOptions) (sel : Worn) (f : FleetFile)
    (r : Result LoadError FleetFile)
    → r ≡ ok f
    → AnswersAlone world
    → is_empty o.node ≡ false
    → StartsFirst f.config (loaded_route world nodes a o sel r)
unfolding loaded_route
loaded_route-StartsFirst world nodes a o sel f r e answers h =
    subst (λ x. StartsFirst f.config (loaded_route world nodes a o sel x)) (sym e)
      (section_route-StartsFirst world nodes a o sel f.config (gateway_section f) answers h)

-- A launch that names one node of a fleet, where a node that is asked alone is the one that answers:
-- every engine that it starts is on the first node of the file, whichever node it names.
pub route_through_fleet-First :
    (world : World) (nodes : Nodes) (a : Addressing) (s : Surroundings) (sel : Worn)
    (o : RouteOptions) (f : FleetFile)
    → AnswersAlone world
    → resolve_file s (fleet_file s o) ≡ ok f
    → is_empty o.node ≡ false
    → All
        (λ t. First f.config.nodes t.candidate.entry)
        (route_through_fleet world nodes a s sel o).0
unfolding route_through_fleet
route_through_fleet-First world nodes a s sel o f answers e h =
    let started =
      loaded_route-StartsFirst world nodes a o sel f (resolve_file s (fleet_file s o)) e answers
        h in
    elim (Bool-cases (is_empty (fleet_file s o))) [
      | inl k ↦ rw (k, route_through_fleet) tt
      | inr k ↦ elim (Bool-cases (is_empty sel.base_url)) [
        | inl p ↦ rw (k, p, route_through_fleet) (rw k at started)
        | inr p ↦ rw (k, p, route_through_fleet) tt
      ]
    ]
