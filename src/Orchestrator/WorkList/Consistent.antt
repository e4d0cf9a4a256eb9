-- ===== src/Orchestrator/WorkList/Consistent.antt =====
-- The records and the flights of the work list agree (internal/orchestrator/worklist.go).
use spinloop.Prelude.{
  ℕ, String, Bool, true, false, ◌≡◌, List, [], ◌∷◌, Option, none, some, arith, subst, str_eq,
  eq_iff, Option-cases, Bool-cases, inl, inr, if◌then◌else◌, ◌||◌,
}
use spinloop.Prelude.Map.{Map, lookup, delete, has, lookup-delete, lookup-put, lookup-retain}
use spinloop.Prelude.Result.{Result, ok, err}
use spinloop.Orchestrator.Items.{Item, FileItem}
use spinloop.Orchestrator.Topology.{Topology, Node}
use spinloop.Orchestrator.Admit.{match, admits}
use spinloop.Orchestrator.Store.{ItemState, runs}
use spinloop.Orchestrator.Store.Recovery.{NoneRuns}
use spinloop.Orchestrator.WorkList.{
  WorkList, Flight, Finished, World, carries, held_back, save, new_work_list, refresh_items, prune,
  started, failed_launch, launched, flight, flying_items, outcome, place, admit_item, admit_all,
  pass, finish, finish_flight, reap, detach, detach_flight, consume_aborts,
}

-- The node that a record says an item runs on, and the node that its flight is on.
abbrev pub runs_on : Option ItemState → Option String
runs_on none = none
runs_on (some st) = if runs st.state then some st.node else none

abbrev pub flies_on : Option Flight → Option String
flies_on none = none
flies_on (some fl) = some fl.node.name

-- A flight that is filed under the id is the id's own.
abbrev pub is_filed : String → Option Flight → Bool
is_filed id none = true
is_filed id (some fl) = str_eq fl.item.id id

-- For every id: an item is recorded running, on a node, exactly when it is in flight there, and the
-- flight is that of the item.
pub record IsConsistent (w : WorkList) : Type 0 where
  pub agrees : (id : String) → runs_on (lookup id w.records) ≡ flies_on (lookup id w.inflight)
  pub named : (id : String) → is_filed id (lookup id w.inflight) ≡ true

pub save-IsConsistent : (saves : Bool) (w : WorkList) → IsConsistent w → IsConsistent (save saves w)
unfolding save
save-IsConsistent true w c = record { agrees = c.agrees; named = c.named }
save-IsConsistent false w c = c

prune-IsConsistent : (w : WorkList) → IsConsistent w → IsConsistent (prune w)
unfolding prune
prune-IsConsistent w c = record {
  agrees = λ id.
      ground (
        arith,
        lookup-retain (λ k. has k w.inflight || carries w.items k) id w.records,
        c.agrees id,
      );
  named = c.named;
}

pub new_work_list-IsConsistent :
    (items : List Item) (file : List FileItem) (records : Map ItemState) (modified size : ℕ)
    {w : WorkList}
    → NoneRuns records
    → new_work_list (ok items) file records modified size ≡ ok w
    → IsConsistent w
unfolding new_work_list lookup
new_work_list-IsConsistent items file records modified size n h = record {
  agrees = λ id. ground (arith, n id);
  named = λ id. ground arith;
}

pub refresh_items-IsConsistent :
    (stat : Option (ℕ × ℕ)) (file : List FileItem) (w : WorkList) {w' : WorkList}
    → IsConsistent w
    → refresh_items stat file w ≡ ok w'
    → IsConsistent w'
unfolding refresh_items
refresh_items-IsConsistent none file w c h = cc
refresh_items-IsConsistent (some (modified, size)) file w c h = record {
  agrees = λ id. ground (arith, c.agrees id);
  named = λ id. ground (arith, c.named id);
}

started-IsConsistent :
    (world : World) (item : Item) (node : Node) (r : Result String ℕ) (w : WorkList)
    → IsConsistent w
    → has item.id w.inflight ≡ false
    → IsConsistent (started world item node r w)
unfolding started
started-IsConsistent world item node (err why) w c h = record {
  agrees = λ id. ground (
    arith,
    c.agrees id,
    lookup-put item.id id (failed_launch world item node why) w.records,
    eq_iff item.id id,
  );
  named = c.named;
}
started-IsConsistent world item node (ok child) w c h = record {
  agrees = λ id. ground (
    arith,
    c.agrees id,
    lookup-put item.id id (launched world item node) w.records,
    lookup-put item.id id (flight item node child) w.inflight,
  );
  named = λ id. ground (
    arith,
    c.named id,
    eq_iff item.id id,
    lookup-put item.id id (flight item node child) w.inflight,
  );
}

place-IsConsistent :
    (world : World) (topo : Topology) (item : Item) (nodes : List Node) (w : WorkList)
    → IsConsistent w
    → has item.id w.inflight ≡ false
    → IsConsistent (place world topo item nodes w)
unfolding place
place-IsConsistent world topo item [] w c h = c
place-IsConsistent world topo item (node ∷ nodes) w c h =
    elim (Bool-cases (admits topo (flying_items w.inflight) item)) [
      | inl e ↦ rw e (started-IsConsistent world item node (world.launch item node) w c h)
      | inr e ↦ rw e c
    ]

admit_item-IsConsistent :
    (world : World) (topo : Topology) (suppressed : List String) (item : Item) (w : WorkList)
    → IsConsistent w
    → IsConsistent (admit_item world topo suppressed item w)
unfolding admit_item
admit_item-IsConsistent world topo suppressed item w c =
    elim (Bool-cases (held_back suppressed w item.id)) [
      | inl e ↦ rw e c
      | inr e ↦
          rw e (
            place-IsConsistent world topo item (match world.parse_time item topo) w c
              (ground arith))
    ]

admit_all-IsConsistent :
    (world : World) (topo : Topology) (suppressed : List String) (items : List Item) (w : WorkList)
    → IsConsistent w
    → IsConsistent (admit_all world topo suppressed items w)
unfolding admit_all
admit_all-IsConsistent world topo suppressed [] w c = c
admit_all-IsConsistent world topo suppressed (item ∷ items) w c =
    admit_all-IsConsistent world topo suppressed items (admit_item world topo suppressed item w)
      (admit_item-IsConsistent world topo suppressed item w c)

pub pass-IsConsistent :
    (world : World) (topo : Topology) (suppressed : List String) (w : WorkList)
    → IsConsistent w
    → IsConsistent (pass world topo suppressed w)
unfolding pass
pass-IsConsistent world topo suppressed w c =
    admit_all-IsConsistent world topo suppressed _ (prune w) (prune-IsConsistent w c)

finish_flight-IsConsistent :
    (now : String) (r : Finished) (o : Option Flight) (w : WorkList)
    → IsConsistent w
    → IsConsistent (finish_flight now r o w)
unfolding finish_flight
finish_flight-IsConsistent now r none w c = c
finish_flight-IsConsistent now r (some fl) w c = record {
  agrees = λ id. ground (
    arith,
    c.agrees id,
    lookup-put r.id id (outcome now fl.node r.failure) w.records,
    lookup-delete r.id id w.inflight,
  );
  named = λ id. ground (arith, c.named id, lookup-delete r.id id w.inflight);
}

pub finish-IsConsistent :
    (now : String) (r : Finished) (w : WorkList) → IsConsistent w → IsConsistent (finish now r w)
unfolding finish
finish-IsConsistent now r w c = finish_flight-IsConsistent now r (lookup r.id w.inflight) w c

pub reap-IsConsistent :
    (now : String) (results : List Finished) (w : WorkList)
    → IsConsistent w
    → IsConsistent (reap now results w)
unfolding reap
reap-IsConsistent now [] w c = c
reap-IsConsistent now (r ∷ results) w c =
    reap-IsConsistent now results (finish now r w) (finish-IsConsistent now r w c)

-- Taking an id out of the flights and out of the records.
pub forget-IsConsistent :
    (id : String) (w : WorkList)
    → IsConsistent w
    → IsConsistent (record w { inflight = delete id w.inflight; records = delete id w.records })
forget-IsConsistent id w c = record {
  agrees =
      λ k. ground (arith, c.agrees k, lookup-delete id k w.records, lookup-delete id k w.inflight);
  named = λ k. ground (arith, c.named k, lookup-delete id k w.inflight);
}

detach_flight-IsConsistent :
    (saves : Bool) (id : String) (o : Option Flight) (w : WorkList) {fl : Flight} {w' : WorkList}
    → IsConsistent w
    → detach_flight saves id o w ≡ some (fl, w')
    → IsConsistent w'
unfolding detach_flight
detach_flight-IsConsistent saves id none w c h = cc
detach_flight-IsConsistent saves id (some f) w {w' = w'} c h =
    subst IsConsistent (ground arith) (save-IsConsistent saves _ (forget-IsConsistent id w c))

pub detach-IsConsistent :
    (saves : Bool) (id : String) (w : WorkList) {fl : Flight} {w' : WorkList}
    → IsConsistent w
    → detach saves id w ≡ some (fl, w')
    → IsConsistent w'
unfolding detach
detach-IsConsistent saves id w c h =
    detach_flight-IsConsistent saves id (lookup id w.inflight) w c h

pub consume_aborts-IsConsistent :
    (saves : Bool) (ids : List String) (w : WorkList)
    → IsConsistent w
    → IsConsistent (consume_aborts saves ids w).0
unfolding consume_aborts
consume_aborts-IsConsistent saves [] w c = c
consume_aborts-IsConsistent saves (id ∷ ids) w c = elim (Option-cases (detach saves id w)) [
  | inl e ↦ rw (e, consume_aborts) (consume_aborts-IsConsistent saves ids w c)
  | inr ((fl, w'), e) ↦
      rw (e, consume_aborts)
        (consume_aborts-IsConsistent saves ids w' (detach-IsConsistent saves id w c e))
]
