-- ===== src/Orchestrator/WorkList/Admission.antt =====
-- What one pass admits (internal/orchestrator/worklist.go).
use spinloop.Prelude.{ℕ, String, true, false, ◌≡◌, refl, List, [], ◌∷◌, arith, Bool-cases, inl, inr}
use spinloop.Prelude.Map.{Map, put, has, delete_absent}
use spinloop.Prelude.Result.{Result, ok, err}
use spinloop.Orchestrator.Items.{Item}
use spinloop.Orchestrator.Topology.{Topology, Node}
use spinloop.Orchestrator.Admit.{match, admits}
use spinloop.Orchestrator.Admit.Limits.{Within, admits-Within}
use spinloop.Orchestrator.WorkList.{
  WorkList, Flight, World, flying_items, held_back, prune, started, place, admit_item, admit_all,
  pass, flight,
}

-- The items in flight after a launch.
pub flying_items-put :
    (id : String) (fl : Flight) (m : Map Flight)
    → has id m ≡ false
    → flying_items (put id fl m) ≡ fl.item ∷ flying_items m
unfolding put
flying_items-put id fl m h = rw (delete_absent id m (ground arith)) refl

started-Within :
    (world : World) (topo : Topology) (item : Item) (node : Node) (r : Result String ℕ)
    (w : WorkList)
    → has item.id w.inflight ≡ false
    → admits topo (flying_items w.inflight) item ≡ true
    → Within topo.concurrency (flying_items w.inflight)
    → Within topo.concurrency (flying_items (started world item node r w).inflight)
unfolding started
started-Within world topo item node (err why) w h a v = v
started-Within world topo item node (ok child) w h a v =
    rw (flying_items-put item.id (flight item node child) w.inflight h)
      (admits-Within topo (flying_items w.inflight) item v a)

place-Within :
    (world : World) (topo : Topology) (item : Item) (nodes : List Node) (w : WorkList)
    → has item.id w.inflight ≡ false
    → Within topo.concurrency (flying_items w.inflight)
    → Within topo.concurrency (flying_items (place world topo item nodes w).inflight)
unfolding place
place-Within world topo item [] w h v = v
place-Within world topo item (node ∷ nodes) w h v =
    elim (Bool-cases (admits topo (flying_items w.inflight) item)) [
      | inl e ↦ rw e (started-Within world topo item node (world.launch item node) w h e v)
      | inr e ↦ rw e v
    ]

admit_item-Within :
    (world : World) (topo : Topology) (suppressed : List String) (item : Item) (w : WorkList)
    → Within topo.concurrency (flying_items w.inflight)
    → Within topo.concurrency (flying_items (admit_item world topo suppressed item w).inflight)
unfolding admit_item
admit_item-Within world topo suppressed item w v =
    elim (Bool-cases (held_back suppressed w item.id)) [
      | inl e ↦ rw e v
      | inr e ↦
          rw e (place-Within world topo item (match world.parse_time item topo) w (ground arith) v)
    ]

admit_all-Within :
    (world : World) (topo : Topology) (suppressed : List String) (items : List Item) (w : WorkList)
    → Within topo.concurrency (flying_items w.inflight)
    → Within topo.concurrency (flying_items (admit_all world topo suppressed items w).inflight)
unfolding admit_all
admit_all-Within world topo suppressed [] w v = v
admit_all-Within world topo suppressed (item ∷ items) w v =
    admit_all-Within world topo suppressed items (admit_item world topo suppressed item w)
      (admit_item-Within world topo suppressed item w v)

-- A pass that finds the items in flight within every limit that the fleet declares, the total and
-- those of the tags, leaves them so, whatever it launches.
pub pass-Within :
    (world : World) (topo : Topology) (suppressed : List String) (w : WorkList)
    → Within topo.concurrency (flying_items w.inflight)
    → Within topo.concurrency (flying_items (pass world topo suppressed w).inflight)
unfolding pass prune
pass-Within world topo suppressed w v = admit_all-Within world topo suppressed _ (prune w) v
