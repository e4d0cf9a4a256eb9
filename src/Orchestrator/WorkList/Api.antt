-- ===== src/Orchestrator/WorkList/Api.antt =====
-- The operations of the work list API (internal/orchestrator/worklist.go, workfile.go).
pub mod Keeps
pub mod Outcomes
use spinloop.Prelude.{
  ℕ, String, Bool, true, false, not, List, [], ◌∷◌, ◌++◌, map, Option, none, some, if◌then◌else◌,
  str_eq, keep_if,
}
use spinloop.Prelude.Map.{Map, lookup, delete, put, has}
use spinloop.Prelude.Result.{Result, ok, err}
use spinloop.Fleet.Tags.{is_empty}
use spinloop.Orchestrator.Items.{Item, Fault, no_id, check_item, file_item_from_item}
use spinloop.Orchestrator.Store.{State, ItemState, backlog, failed, has_ended}
use spinloop.Orchestrator.WorkList.{
  WorkList, Flight, carries, ended_record, save, detach, detach_flight,
}

-- The refusals, by the kind that decides the API's status.
pub data Refusal : Type 0 where
  invalid : Option Fault → Refusal
  already_carried : String → Refusal
  already_ended : String → State → Refusal
  is_in_flight : String → Refusal
  is_not_running is_not_failed : String → State → Refusal
  missing : String → Refusal
  write_failed : Refusal

-- `apiStatus`: errInvalid, errConflict, errMissing, and any other error.
unfoldable pub api_status : Refusal → ℕ
api_status (invalid f) = 400
api_status (already_carried id) = 409
api_status (already_ended id s) = 409
api_status (is_in_flight id) = 409
api_status (is_not_running id s) = 409
api_status (is_not_failed id s) = 409
api_status (missing id) = 404
api_status write_failed = 500

abbrev pub state_of : Option ItemState → State
state_of none = backlog
state_of (some st) = st.state

add_checked : Bool → Item → Result Fault (Unit {0}) → WorkList → Result Refusal WorkList
add_checked writes item (err f) w = err (invalid (some f))
add_checked writes item (ok _) w =
    if carries w.items item.id
    then err (already_carried item.id)
    else if ended_record (lookup item.id w.records)
    then err (already_ended item.id (state_of (lookup item.id w.records)))
    else if writes
    then ok (record w {
      items = w.items ++ item ∷ [];
      file = map file_item_from_item w.items ++ file_item_from_item item ∷ [];
    })
    else err write_failed

-- `Add`; `writes` tells whether the items file could be written.
unfoldable pub add : Bool → Item → WorkList → Result Refusal WorkList
unfolding add_checked
add writes item w =
    if is_empty item.id
    then err (invalid none)
    else add_checked writes item (check_item (file_item_from_item item)) w

abbrev pub without : String → List Item → List Item
without id items = keep_if (λ it. not (str_eq it.id id)) items

unfoldable pub remove : Bool → Bool → String → WorkList → Result Refusal WorkList
remove writes saves id w =
    if has id w.inflight
    then err (is_in_flight id)
    else if not (carries w.items id)
    then err (missing id)
    else if writes
    then ok (
        save saves (record w {
          items = without id w.items;
          file = map file_item_from_item (without id w.items);
          records = delete id w.records;
        }))
    else err write_failed

-- The first critical section of `Abort`: the flight whose child it then stops and waits for.
abort_detached : String → WorkList → Option (Flight × WorkList) → Result Refusal (Flight × WorkList)
abort_detached id w (some (fl, w')) = ok (fl, record w' { stopping = put id tt w'.stopping })
abort_detached id w none = elim (lookup id w.records) [
  | some st ↦ err (is_not_running id st.state)
  | none ↦ if carries w.items id then err (is_not_running id backlog) else err (missing id)
]

unfoldable pub abort_begin : Bool → String → WorkList → Result Refusal (Flight × WorkList)
unfolding abort_detached
abort_begin saves id w = abort_detached id w (detach saves id w)

-- The second one, once the child has ended.
unfoldable pub abort_end : String → WorkList → WorkList
abort_end id w = record w { stopping = delete id w.stopping }

abbrev is_failed : State → Bool
is_failed failed = true
is_failed _ = false

unfoldable pub retry : Bool → String → WorkList → Result Refusal WorkList
retry saves id w =
    if not (carries w.items id)
    then err (missing id)
    else if is_failed (state_of (lookup id w.records))
    then ok (save saves (record w { records = delete id w.records }))
    else err (is_not_failed id (state_of (lookup id w.records)))

-- One item as the work list shows it.
pub record ItemView : Type 0 where
  pub item : Item
  pub state : State
  pub node : String
  pub why : String
  pub started_at : String
  pub ended_at : String

abbrev view : Item → Option ItemState → ItemView
view it none = record {
  item = it;
  state = backlog;
  node = "";
  why = "";
  started_at = "";
  ended_at = "";
}
view it (some st) = record {
  item = it;
  state = st.state;
  node = st.node;
  why = st.why;
  started_at = st.started_at;
  ended_at = st.ended_at;
}

unfoldable pub join : List Item → Map ItemState → List ItemView
join [] records = []
join (it ∷ items) records = view it (lookup it.id records) ∷ join items records
