-- ===== src/Orchestrator/WorkList/Shutdown.antt =====
-- The clean interrupt, and a start after it (internal/orchestrator/worklist.go, state.go).
use spinloop.Prelude.{
  String, true, false, not, ◌≡◌, refl, List, [], ◌∷◌, Option, none, some, arith, str_eq, eq_iff,
  any, is_some, if◌then◌else◌, ◌||◌,
}
use spinloop.Prelude.Map.{Map, lookup, has, retain, lookup-retain, lookup-delete}
use spinloop.Orchestrator.Store.{ItemState, recover}
use spinloop.Orchestrator.Store.Recovery.{running_record, recover_unchanged}
use spinloop.Orchestrator.WorkList.{WorkList, Flight, Finished, save, shut_down, drop_flight, drain}
use spinloop.Orchestrator.WorkList.Consistent.{IsConsistent, runs_on, flies_on}

not_running :
    (o : Option ItemState) (f : Option Flight)
    → runs_on o ≡ flies_on f
    → is_some f ≡ false
    → running_record o ≡ false
not_running o f e h = ground arith

-- The interrupt saves a record in which no item runs: an item in flight has no record, which puts it
-- back in the backlog, and the record of every other item is as it was. A start that recovers from
-- the saved record therefore changes none of it, and no item is failed for the interruption.
pub shut_down-stored :
    (now : String) (w : WorkList) (id : String)
    → IsConsistent w
    → (lookup id (shut_down true w).stored
        ≡ elim (lookup id w.inflight) [ none ↦ lookup id w.records | some fl ↦ none ])
      × (lookup id (recover now (shut_down true w).stored) ≡ lookup id (shut_down true w).stored)
unfolding shut_down save
shut_down-stored now w id c =
    (part, recover_unchanged now id (retain (λ k. not (has k w.inflight)) w.records) quiet)
  where
    part :
        lookup id (retain (λ k. not (has k w.inflight)) w.records)
        ≡ elim (lookup id w.inflight) [ none ↦ lookup id w.records | some fl ↦ none ]
    part = ground (arith, lookup-retain (λ k. not (has k w.inflight)) id w.records)

    quiet : running_record (lookup id (retain (λ k. not (has k w.inflight)) w.records)) ≡ false
    quiet = ground (
      arith,
      lookup-retain (λ k. not (has k w.inflight)) id w.records,
      not_running (lookup id w.records) (lookup id w.inflight) (c.agrees id),
    )

-- Every flight's item is among the results.
abbrev pub Reports : Map Flight → List Finished → Type 0
Reports m results = (id : String) → (not (has id m) || any (λ r. str_eq r.id id) results) ≡ true

drain-lookup :
    (results : List Finished) (w : WorkList) (id : String)
    → lookup id (drain results w).inflight
      ≡ (if any (λ r. str_eq r.id id) results then none else lookup id w.inflight)
unfolding drain drop_flight
drain-lookup [] w id = refl
drain-lookup (r ∷ results) w id =
    ground (arith, drain-lookup results (drop_flight r.id w) id, lookup-delete r.id id w.inflight)

no_entries : {V : Type 0} (m : Map V) → ((id : String) → lookup id m ≡ none) → m ≡ []
unfolding lookup
no_entries [] h = refl
no_entries ((k, v) ∷ m) h = ground (arith, h k, eq_iff k k)

-- Once every child in flight has reported, in any order and with any other results between, the
-- interrupt has no flight left to wait for.
pub drain-Reports :
    (w : WorkList) (results : List Finished)
    → Reports w.inflight results
    → (drain results w).inflight ≡ []
drain-Reports w results h =
    no_entries (drain results w).inflight λ id. ground (arith, drain-lookup results w id, h id)
