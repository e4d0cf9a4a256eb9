-- ===== src/Fleet/Load/Limits.antt =====
-- The declared limits of a loaded fleet, as the gateway hands them over (handleTopology of
-- internal/gateway/gateway.go) and as the orchestrator asks them.
use spinloop.Prelude.{
  ◌≡◌, String, true, false, List, [], ◌∷◌, arith, All, Option, none, some, subst, sym,
}
use spinloop.Prelude.Int.{ℤ, pos, negsuc, lt_ℤ, reaches}
use spinloop.Prelude.Map.{Map, lookup}
use spinloop.Fleet.Answer.{Failure, NodeResult}
use spinloop.Fleet.Load.{FleetFile, DeclaredLimits, FleetText, text, absent, unreadable, load}
use spinloop.Fleet.Load.Valid.{AreLimits, IsTotal, IsPositiveLimit}
use spinloop.Fleet.Load.Loaded.{IsLoadable, load_iff}
use spinloop.Prelude.Result.{ok, err}
use spinloop.Orchestrator.Items.{Item}
use spinloop.Orchestrator.Topology.{Concurrency}
use spinloop.Orchestrator.Admit.{admits}
use spinloop.Orchestrator.Admit.Idle.{HasRoom, TotalHasRoom, idle-admits}
use spinloop.Gateway.Topology.{topology}

-- What the gateway reports of the section.
abbrev pub reported_limits : Option DeclaredLimits → Option Concurrency
reported_limits none = none
reported_limits (some c) = some (record { total = c.total; tags = c.tags })

positive_has_room : (limit : ℤ) → lt_ℤ (pos 0) limit ≡ true → reaches 0 limit ≡ false
positive_has_room (pos n) h = ground arith
positive_has_room (negsuc n) h = ground arith

lookup-All :
    (limits : Map ℤ)
    → All IsPositiveLimit limits
    → (tag : String) (limit : ℤ) → lookup tag limits ≡ some limit
    → reaches 0 limit ≡ false
unfolding lookup
lookup-All [] all tag limit h = ground arith
lookup-All ((k, n) ∷ limits) all tag limit h =
    ground (arith, positive_has_room n all.0.0, lookup-All limits all.1 tag limit)

IsTotal-room : (total : Option ℤ) → IsTotal total → TotalHasRoom total
IsTotal-room none h = tt
IsTotal-room (some n) h = positive_has_room n h

AreLimits-room : (c : Option DeclaredLimits) → AreLimits c → HasRoom (reported_limits c)
AreLimits-room none h = tt
AreLimits-room (some c) h = (IsTotal-room c.total h.0, lookup-All c.tags h.1)

IsLoadable-limits :
    (path dir : String) (t : FleetText) (g : FleetFile)
    → IsLoadable path dir t g
    → AreLimits g.concurrency
IsLoadable-limits path dir absent g h = ground arith
IsLoadable-limits path dir (unreadable e) g h = ground arith
IsLoadable-limits path dir (text raw (err e)) g h = ground arith
IsLoadable-limits path dir (text raw (ok f)) g (keys, (valid, same)) =
    subst (λ x. AreLimits x.concurrency) (sym same) valid.limits

-- The limits of a fleet that was loaded, as the gateway reports them, admit any work item while
-- nothing is in flight: no file that is accepted holds an item back for good by its limits.
pub load-admits :
    (path dir : String) (t : FleetText) (g : FleetFile)
    → (detail : Failure → String) (results : List NodeResult) (wakeable : Map String) (item : Item)
    → load path dir t ≡ ok g
    → admits (topology detail g.config (reported_limits g.concurrency) results wakeable) [] item
      ≡ true
unfolding topology
load-admits path dir t g detail results wakeable item h =
    idle-admits (topology detail g.config (reported_limits g.concurrency) results wakeable) item
      (AreLimits-room g.concurrency (IsLoadable-limits path dir t g ((load_iff path dir t g).0 h)))
