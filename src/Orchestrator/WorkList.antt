-- ===== src/Orchestrator/WorkList.antt =====
-- The work list that a run works (internal/orchestrator/worklist.go): its state, and each part of an
-- operation that runs under the list's lock as one function. What an operation asks of the world
-- comes in as an argument: the launcher's answers, the clock, and whether a write succeeds. Logging
-- and the removal of an item's kept output are left out.
pub mod Api
pub mod Consistent
pub mod Steps
pub mod Finish
pub mod Admission
pub mod Settled
pub mod Shutdown
use spinloop.Prelude.{
  ℕ, String, Bool, true, false, not, List, [], ◌∷◌, ◌++◌, map, Option, none, some, if◌then◌else◌,
  str_eq, ◌||◌, ◌&&◌, any, keep_if, ◌==◌,
}
use spinloop.Prelude.Map.{Map, lookup, delete, put, has, values, retain}
use spinloop.Prelude.Result.{Result, ok, err}
use spinloop.Fleet.Tags.{contains}
use spinloop.Orchestrator.Items.{Item, FileItem, sorted_for_admission, parse_items, Fault}
use spinloop.Orchestrator.Topology.{Topology, Node}
use spinloop.Orchestrator.Admit.{match, admits}
use spinloop.Orchestrator.Store.{State, ItemState, running, done, failed, has_ended}

-- An item in flight. The child is the handle that the launcher gave; its `done` channel and its
-- waiting goroutine are events, below.
pub record Flight : Type 0 where
  pub item : Item
  pub node : Node
  pub child : ℕ

-- What one finished child reports: `some` text is the error of its wait.
pub record Finished : Type 0 where
  pub id : String
  pub failure : Option String

pub record WorkList : Type 0 where
  pub items : List Item
  pub records : Map ItemState
  pub inflight : Map Flight
  pub stopping : Map (Unit {0})
  -- What the items file and the store's state file hold.
  pub file : List FileItem
  pub stored : Map ItemState
  -- The items file's time and size as the last read saw them.
  pub last_mod : ℕ
  pub last_size : ℕ

-- The answers of the world during one pass.
pub record World : Type 0 where
  pub launch : Item → Node → Result String ℕ
  pub now : String → String
  pub parse_time : String → Option ℕ

abbrev pub carries : List Item → String → Bool
carries items id = any (λ it. str_eq it.id id) items

abbrev pub ended_record : Option ItemState → Bool
ended_record none = false
ended_record (some st) = has_ended st.state

-- `saveLocked`: a write that fails is logged, and the next save retries.
unfoldable pub save : Bool → WorkList → WorkList
save true w = record w { stored = w.records }
save false w = w

-- `NewWorkList` over the items and the records that were read.
unfoldable pub new_work_list :
    Result Fault (List Item) → List FileItem → Map ItemState → ℕ → ℕ → Result Fault WorkList
new_work_list (err e) file records modified size = err e
new_work_list (ok items) file records modified size = ok (record {
  items = items;
  records = records;
  inflight = [];
  stopping = [];
  file = file;
  stored = records;
  last_mod = modified;
  last_size = size;
})

-- `refreshItems`. `stat` is the file's time and size now, and `file` what it holds.
unfoldable pub refresh_items :
    Option (ℕ × ℕ) → List FileItem → WorkList → Result (Option Fault) WorkList
refresh_items none file w = err none
refresh_items (some (modified, size)) file w =
    if (modified == w.last_mod) && (size == w.last_size) then ok w else elim (parse_items file) [
      | err e ↦ err (some e)
      | ok items ↦
          ok (record w { items = items; file = file; last_mod = modified; last_size = size })
    ]

-- `pruneLocked`: a record of an item that is neither carried nor in flight is dropped.
unfoldable pub prune : WorkList → WorkList
prune w = record w { records = retain (λ id. has id w.inflight || carries w.items id) w.records }

abbrev pub flying_items : Map Flight → List Item
flying_items inflight = map (λ fl. fl.item) (values inflight)

abbrev pub failed_launch : World → Item → Node → String → ItemState
failed_launch world item node why = record {
  state = failed;
  why = why;
  node = node.name;
  started_at = "";
  ended_at = world.now item.id;
}

abbrev pub launched : World → Item → Node → ItemState
launched world item node = record {
  state = running;
  why = "";
  node = node.name;
  started_at = world.now item.id;
  ended_at = "";
}

abbrev pub flight : Item → Node → ℕ → Flight
flight item node child = record { item = item; node = node; child = child }

-- What the pass makes of the launcher's answer.
unfoldable pub started : World → Item → Node → Result String ℕ → WorkList → WorkList
started world item node (err why) w = record w {
  records = put item.id (failed_launch world item node why) w.records;
}
started world item node (ok child) w = record w {
  inflight = put item.id (flight item node child) w.inflight;
  records = put item.id (launched world item node) w.records;
}

-- The pass turns the item away before it looks at the fleet.
abbrev pub held_back : List String → WorkList → String → Bool
held_back suppressed w id =
    contains id suppressed
    || (ended_record (lookup id w.records) || (has id w.inflight || has id w.stopping))

-- The rest of the loop's body, over the nodes that match.
unfoldable pub place : World → Topology → Item → List Node → WorkList → WorkList
unfolding started
place world topo item [] w = w
place world topo item (node ∷ nodes) w =
    if admits topo (flying_items w.inflight) item
    then started world item node (world.launch item node) w
    else w

unfoldable pub admit_item : World → Topology → List String → Item → WorkList → WorkList
admit_item world topo suppressed item w =
    if held_back suppressed w item.id
    then w
    else place world topo item (match world.parse_time item topo) w

unfoldable pub admit_all : World → Topology → List String → List Item → WorkList → WorkList
admit_all world topo suppressed [] w = w
admit_all world topo suppressed (item ∷ items) w =
    admit_all world topo suppressed items (admit_item world topo suppressed item w)

unfoldable pub pass : World → Topology → List String → WorkList → WorkList
pass world topo suppressed w =
    admit_all world topo suppressed (sorted_for_admission (prune w).items) (prune w)

abbrev pub outcome : String → Node → Option String → ItemState
outcome now node none = record {
  state = done;
  why = "";
  node = node.name;
  started_at = "";
  ended_at = now;
}
outcome now node (some why) = record {
  state = failed;
  why = why;
  node = node.name;
  started_at = "";
  ended_at = now;
}

finish_flight : String → Finished → Option Flight → WorkList → WorkList
finish_flight now r none w = w
finish_flight now r (some fl) w = record w {
  inflight = delete r.id w.inflight;
  records = put r.id (outcome now fl.node r.failure) w.records;
}

-- `finish`: the result names its item, and frees the slot of the flight that the item has now.
unfoldable pub finish : String → Finished → WorkList → WorkList
unfolding finish_flight
finish now r w = finish_flight now r (lookup r.id w.inflight) w

-- `reap` takes the results that the waits have reported.
unfoldable pub reap : String → List Finished → WorkList → WorkList
reap now [] w = w
reap now (r ∷ results) w = reap now results (finish now r w)

detach_flight : Bool → String → Option Flight → WorkList → Option (Flight × WorkList)
unfolding save
detach_flight saves id none w = none
detach_flight saves id (some fl) w =
    some
      (fl, save saves (record w { inflight = delete id w.inflight; records = delete id w.records }))

-- `detachLocked`: the flight, with the list that it is gone from.
unfoldable pub detach : Bool → String → WorkList → Option (Flight × WorkList)
unfolding detach_flight
detach saves id w = detach_flight saves id (lookup id w.inflight) w

-- `consumeAborts` over the ids of the markers: the ids that it took out, which the pass leaves out.
-- The wait for each child ends before the next marker is taken up.
unfoldable pub consume_aborts : Bool → List String → WorkList → WorkList × List String
consume_aborts saves [] w = (w, [])
consume_aborts saves (id ∷ ids) w = elim (detach saves id w) [
  | none ↦ consume_aborts saves ids w
  | some (fl, w') ↦ let rest = consume_aborts saves ids w' in (rest.0, id ∷ rest.1)
]

-- The first part of `shutdown`: the items in flight go back to the backlog. The flights stay until
-- their children end.
unfoldable pub shut_down : Bool → WorkList → WorkList
unfolding save
shut_down saves w =
    save saves (record w { records = retain (λ id. not (has id w.inflight)) w.records })

-- `dropFlight`
unfoldable pub drop_flight : String → WorkList → WorkList
drop_flight id w = record w { inflight = delete id w.inflight }

-- The loops of `shutdown` that drain the results, until no flight is left or none reports.
unfoldable pub drain : List Finished → WorkList → WorkList
drain [] w = w
drain (r ∷ results) w = drain results (drop_flight r.id w)

-- The end of a turn: where the items file has a fault, the run ends behind a save.
refreshed :
    World
    → Bool
    → Topology
    → List String
    → WorkList
    → Result (Option Fault) WorkList
    → Result (Option Fault × WorkList) WorkList
refreshed world saves topo suppressed w (err e) = err (e, save saves w)
refreshed world saves topo suppressed w (ok w') = ok (save saves (pass world topo suppressed w'))

-- One turn of the run's loop, given the gateway's answer.
unfoldable pub turn :
    World
    → Bool
    → String
    → List Finished
    → List String
    → Topology
    → Option (ℕ × ℕ)
    → List FileItem
    → WorkList
    → Result (Option Fault × WorkList) WorkList
unfolding refreshed
turn world saves now results markers topo stat file w =
    let (w', suppressed) = consume_aborts saves markers (reap now results w) in
    refreshed world saves topo suppressed w' (refresh_items stat file w')
