-- ===== src/Orchestrator/Admit/Idle.antt =====
-- Limits with room for one item (`Admits` of internal/orchestrator/admit.go).
use spinloop.Prelude.{
  String, true, false, ◌≡◌, refl, List, [], ◌∷◌, Option, none, some, arith, Option-cases, inl, inr,
}
use spinloop.Prelude.Int.{ℤ, reaches}
use spinloop.Prelude.Map.{Map, lookup}
use spinloop.Orchestrator.Items.{Item}
use spinloop.Orchestrator.Topology.{Topology, Concurrency}
use spinloop.Orchestrator.Admit.{count_carrying, tags_admit, total_admits, limits_admit, admits}

abbrev pub TotalHasRoom : Option ℤ → Type 0
TotalHasRoom none = Unit {0}
TotalHasRoom (some total) = reaches 0 total ≡ false

-- Every declared limit lets one item through where nothing is in flight.
abbrev pub HasRoom : Option Concurrency → Type 0
HasRoom none = Unit {0}
HasRoom (some c) =
    TotalHasRoom c.total
    × ((tag : String) (limit : ℤ) → lookup tag c.tags ≡ some limit → reaches 0 limit ≡ false)

tags_admit_idle :
    (limits : Map ℤ) (tags : List String)
    → ((tag : String) (limit : ℤ) → lookup tag limits ≡ some limit → reaches 0 limit ≡ false)
    → tags_admit limits [] tags ≡ true
unfolding count_carrying
tags_admit_idle limits [] room = refl
tags_admit_idle limits (tag ∷ tags) room = elim (Option-cases (lookup tag limits)) [
  | inl e ↦ rw (e, tags_admit) (tags_admit_idle limits tags room)
  | inr (limit, e) ↦ ground (arith, room tag limit, tags_admit_idle limits tags room)
]

total_admits_idle : (total : Option ℤ) → TotalHasRoom total → total_admits total [] ≡ true
total_admits_idle none room = refl
total_admits_idle (some n) room = ground (arith, room)

limits_admit_idle :
    (c : Option Concurrency) (item : Item) → HasRoom c → limits_admit c [] item ≡ true
limits_admit_idle none item room = refl
limits_admit_idle (some c) item room =
    rw (total_admits_idle c.total room.0) (tags_admit_idle c.tags item.tags room.1)

-- An item is admitted where nothing is in flight and the limits have room.
pub idle-admits :
    (topo : Topology) (item : Item) → HasRoom topo.concurrency → admits topo [] item ≡ true
unfolding admits
idle-admits topo item room = limits_admit_idle topo.concurrency item room
