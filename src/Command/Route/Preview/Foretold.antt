-- ===== src/Command/Route/Preview/Foretold.antt =====
-- The report of `spinloop fleet route` beside the launch that it reports on (runFleetRoute of
-- cmd/spinloop/fleet.go and routeThroughFleet of cmd/spinloop/route.go).
use spinloop.Prelude.{
  String, true, false, not, ◌≡◌, refl, List, [], ◌∷◌, Option, none, some, arith, inl, inr, ◌⊎◌,
  Bool-cases, subst, sym, ap, ◌∙◌, if◌then◌else◌,
}
use spinloop.Prelude.Result.{Result, ok, err}
use spinloop.Fleet.Tags.{is_empty}
use spinloop.Fleet.Answer.{NodeResult}
use spinloop.Fleet.Config.{NodeConfig, Config, preference, wakes, any_node_wakes}
use spinloop.Fleet.Load.{FleetFile, GatewayConfig}
use spinloop.Fleet.Wakeable.{DeployConfig, Resolved, would_wake, wakeable}
use spinloop.Fleet.Select.{Want, World, Choice, SelectError, none_serving, candidates, Candidate}
use spinloop.Prelude.Map.{Map}
use spinloop.Fleet.Wake.First.{CanStart, wake-StartsWith}
use spinloop.Fleet.Wake.{Attempt, Woken, Nodes, wake, wake_some}
use spinloop.Command.Target.{Surroundings, resolve_file}
use spinloop.Command.Route.{
  RouteOptions, Worn, Addressing, RoutedLaunch, Route, RouteError, unrouted, at_gateway, at_node,
  waking_off, fleet_file, routed_wake, start_route, wake_route, select_route, prefer_route,
  section_route, loaded_route, route_through_fleet, constant_config, gateway_section, launch_want,
}
use spinloop.Command.Route.Preview.{
  Preview, PreviewError, not_routed, to_gateway, would_use, would_start, would_refuse,
  could_not_start, none_to_start, waking_preview, preview_wake, preview_select, preview_section,
  preview_at, preview_file, preview_route,
}

abbrev IsError : Result RouteError Route → Type 0
IsError (ok r) = ⊥
IsError (err e) = Unit {0}

abbrev pub StartsNothing : RoutedLaunch → Type 0
StartsNothing out = (out.0 ≡ []) × IsError out.1

module _ (world : World) (nodes : Nodes) (deploy : Resolved) (c : Config) where
  -- Where the node can be started, the first start is of it, with the config of the launch.
  abbrev pub StartsFirst : NodeConfig → RoutedLaunch → Resolved → Type 0
  StartsFirst n out (err e) = Unit {0}
  StartsFirst n out (ok dc) =
      (key : String)
      → CanStart world c nodes key n
      → (a : Attempt) × (later : List Attempt) × (out.0 ≡ a ∷ later)
        × (a.candidate.entry ≡ n)
        × (a.config ≡ dc)
        × (a.key ≡ key)

  -- Where some node wakes the launch goes on to the wake that tries the node first, and it is refused
  -- otherwise.
  abbrev pub MayWake : NodeConfig → RoutedLaunch → Type 0
  MayWake n out =
      ((any_node_wakes c ≡ true)
        × ((w : Want) × ((results : List NodeResult) × ((would_wake c (constant_config deploy)
                    results
                  ≡ some n)
                × (out ≡ routed_wake (wake world c nodes (constant_config deploy) w results))
                × StartsFirst n out deploy))))
      ⊎ ((any_node_wakes c ≡ false)
          × ((e : SelectError) × (out ≡ ([], err (waking_off e (some n))))))

  -- What a launch that may wake does, for each report.
  abbrev pub Foretold : Preview → RoutedLaunch → Type 0
  Foretold not_routed out = out ≡ ([], ok unrouted)
  Foretold (to_gateway url) out =
      (variable : String) × ((name : String) × (out ≡ ([], ok (at_gateway url variable name))))
  Foretold (would_use choice) out = out ≡ ([], ok (at_node choice))
  Foretold (would_start n) out = (wakes c ≡ true) × MayWake n out
  Foretold (would_refuse n) out = (wakes c ≡ false) × MayWake n out
  Foretold (could_not_start d) out = StartsNothing out
  Foretold none_to_start out = StartsNothing out

  abbrev ForetoldBy : Result PreviewError Preview → RoutedLaunch → Type 0
  ForetoldBy (ok p) out = Foretold p out
  ForetoldBy (err e) out = Unit {0}

  nothing_waked :
      (w : Want) (results : List NodeResult) (p : List Candidate × Map Resolved)
      → elim p.0 [ [] ↦ none | cand ∷ _ ↦ some cand.entry ] ≡ none
      → StartsNothing (routed_wake (wake_some world c nodes (constant_config deploy) w results p))
  nothing_waked w results ([], seen) h = (refl, tt)
  nothing_waked w results (cand ∷ cands, seen) h = ground arith

  none_wakes :
      (w : Want) (results : List NodeResult)
      → would_wake c (constant_config deploy) results ≡ none
      → StartsNothing (routed_wake (wake world c nodes (constant_config deploy) w results))
  unfolding would_wake wake
  none_wakes w results h =
      nothing_waked w results (wakeable (constant_config deploy) (candidates c results)) h

routed_wake-starts : (out : Woken) → (routed_wake out).0 ≡ out.0
routed_wake-starts (attempts, ok choice) = refl
routed_wake-starts (attempts, err e) = refl

module _ (world : World) (nodes : Nodes) (o : RouteOptions) (c : Config)
    (may : o.no_wake ≡ false) where
  wake-StartsFirst :
      (w : Want) (results : List NodeResult) (dc : DeployConfig) (n : NodeConfig)
      → would_wake c (constant_config (ok dc)) results ≡ some n
      → StartsFirst world nodes
          (ok dc)
          c
          n
          (routed_wake (wake world c nodes (constant_config (ok dc)) w results))
          (ok dc)
  wake-StartsFirst w results dc n k key can =
      let (x, later, e, p, q, r) = wake-StartsWith world c nodes dc w key results n k can in
      (
        x,
        later,
        routed_wake-starts (wake world c nodes (constant_config (ok dc)) w results) ∙ e,
        p,
        q,
        r,
      )

  wake_route-MayWake :
      (w : Want) (e : SelectError) (results : List NodeResult) (dc : DeployConfig) (n : NodeConfig)
      → would_wake c (constant_config (ok dc)) results ≡ some n
      → MayWake world nodes (ok dc) c n (wake_route world nodes o (ok dc) c w e results)
  unfolding wake_route start_route
  wake_route-MayWake w e results dc n k = elim (Bool-cases (any_node_wakes c)) [
    | inl a ↦
        inl (
          a,
          (w, (results, (k, rw (may, a) refl, rw (may, a) (wake-StartsFirst w results dc n k)))),
        )
    | inr a ↦ inr (a, (e, rw (may, a, k) refl))
  ]

  wake_route-none :
      (w : Want) (e : SelectError) (results : List NodeResult) (dc : DeployConfig)
      → would_wake c (constant_config (ok dc)) results ≡ none
      → StartsNothing (wake_route world nodes o (ok dc) c w e results)
  unfolding wake_route start_route
  wake_route-none w e results dc k = elim (Bool-cases (any_node_wakes c)) [
    | inl a ↦ rw (may, a) (none_wakes world nodes (ok dc) c w results k)
    | inr a ↦ rw (may, a) (refl, tt)
  ]

  waking_preview-Foretold :
      (deploy : Resolved) (out : RoutedLaunch) (n : NodeConfig)
      → MayWake world nodes deploy c n out
      → Foretold world nodes deploy c (waking_preview c (some n)) out
  unfolding waking_preview
  waking_preview-Foretold deploy out n h = elim (Bool-cases (wakes c)) [
    | inl e ↦ rw e (e, h)
    | inr e ↦ rw e (e, h)
  ]

  waking_preview-wake_route :
      (w : Want) (e : SelectError) (results : List NodeResult) (dc : DeployConfig)
      (n : Option NodeConfig)
      → would_wake c (constant_config (ok dc)) results ≡ n
      → Foretold world nodes
          (ok dc)
          c
          (waking_preview c n)
          (wake_route world nodes o (ok dc) c w e results)
  unfolding waking_preview
  waking_preview-wake_route w e results dc none k = wake_route-none w e results dc k
  waking_preview-wake_route w e results dc (some n) k =
      waking_preview-Foretold (ok dc) _ n (wake_route-MayWake w e results dc n k)

  refused_wake_route :
      (w : Want) (e : SelectError) (results : List NodeResult) (d : String)
      → StartsNothing (wake_route world nodes o (err d) c w e results)
  unfolding wake_route start_route
  refused_wake_route w e results d = elim (Bool-cases (any_node_wakes c)) [
    | inl a ↦ rw (may, a) (refl, tt)
    | inr a ↦ rw (may, a) (refl, tt)
  ]

  wake_route-Foretold :
      (w : Want) (e : SelectError) (results : List NodeResult) (deploy : Resolved)
      → Foretold world nodes deploy c
          (preview_wake c results deploy)
          (wake_route world nodes o deploy c w e results)
  unfolding preview_wake
  wake_route-Foretold w e results (err d) = refused_wake_route w e results d
  wake_route-Foretold w e results (ok dc) = waking_preview-wake_route w e results dc _ refl

  select_route-Foretold :
      (sel : Worn) (w : Want) (r : Result SelectError Choice)
      → ForetoldBy world nodes sel.deploy c
          (preview_select sel c r)
          (select_route world nodes o sel c w r)
  unfolding preview_select select_route
  select_route-Foretold sel w (ok choice) = refl
  select_route-Foretold sel w (err (none_serving results v path)) =
      wake_route-Foretold w (none_serving results v path) results sel.deploy
  select_route-Foretold sel w (err e) = tt

module _ (world : World) (nodes : Nodes) (a : Addressing) (o : RouteOptions) (sel : Worn)
    (may : o.no_wake ≡ false) where
  section_route-Foretold :
      (c : Config) (section : Option GatewayConfig) (prefer : String)
      → preference c o.prefer ≡ ok prefer
      → ForetoldBy world nodes sel.deploy c
          (preview_section world a o sel c section prefer)
          (section_route world nodes a o sel c section)
  unfolding preview_section section_route prefer_route
  section_route-Foretold c (some g) prefer h = (_, (_, refl))
  section_route-Foretold c none prefer h =
      rw h (select_route-Foretold world nodes o c may sel (launch_want sel o.node prefer) _)

  -- The launch, once the file is read.
  abbrev after_reading : FleetFile → RoutedLaunch
  after_reading f =
      if not (is_empty sel.base_url)
      then ([], ok unrouted)
      else section_route world nodes a o sel f.config (gateway_section f)

  preview_at-Foretold :
      (f : FleetFile) (r : Result String String)
      → preference f.config o.prefer ≡ r
      → ForetoldBy world nodes sel.deploy f.config (preview_at world a o sel f r) (after_reading f)
  unfolding preview_at
  preview_at-Foretold f (err e) h = tt
  preview_at-Foretold f (ok prefer) h = elim (Bool-cases (is_empty sel.base_url)) [
    | inl e ↦ rw e (section_route-Foretold f.config (gateway_section f) prefer h)
    | inr e ↦ rw e refl
  ]

  preview_read :
      (s : Surroundings) (f : FleetFile)
      → is_empty (fleet_file s o) ≡ false
      → resolve_file s (fleet_file s o) ≡ ok f
      → preview_route world a s sel o ≡ preview_at world a o sel f (preference f.config o.prefer)
  unfolding preview_route preview_file
  preview_read s f named read = elim (Bool-cases (is_empty o.node)) [
    | inl e ↦ rw (e, named) (ap (preview_file world a o sel) (rw named at read))
    | inr e ↦ rw (e, named) (ap (preview_file world a o sel) (rw named at read))
  ]

  launch_read :
      (s : Surroundings) (f : FleetFile)
      → is_empty (fleet_file s o) ≡ false
      → resolve_file s (fleet_file s o) ≡ ok f
      → route_through_fleet world nodes a s sel o ≡ after_reading f
  unfolding route_through_fleet loaded_route
  launch_read s f named read = elim (Bool-cases (is_empty sel.base_url)) [
    | inl e ↦ rw (e, named) (ap (loaded_route world nodes a o sel) (rw named at read))
    | inr e ↦ rw (e, named) refl
  ]

  -- Of a fleet that is named or found and can be read, and a launch that may wake: the report says that
  -- the fleet is not used, or names a gateway or a node, exactly as the launch then does; where it says
  -- that no engine can be started the launch starts none. Where it says which node would be started, or
  -- that the launch would be refused, it has read the fleet's own setting. The launch is refused exactly
  -- where no node wakes. Otherwise it goes on to the wake for which that node is the first candidate,
  -- and if that node itself wakes, can be asked and has a key that can be told, the first engine that
  -- is started is on it, with the launch's config and that key.
  pub preview_route-Foretold :
      (s : Surroundings) (f : FleetFile) (p : Preview)
      → is_empty (fleet_file s o) ≡ false
      → resolve_file s (fleet_file s o) ≡ ok f
      → preview_route world a s sel o ≡ ok p
      → Foretold world nodes sel.deploy f.config p (route_through_fleet world nodes a s sel o)
  preview_route-Foretold s f p named read h =
      subst (Foretold world nodes sel.deploy f.config p) (sym (launch_read s f named read)) (
        subst (λ r. ForetoldBy world nodes sel.deploy f.config r (after_reading f))
          (sym (preview_read s f named read) ∙ h)
          (preview_at-Foretold f (preference f.config o.prefer) refl))
