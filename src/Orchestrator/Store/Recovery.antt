-- ===== src/Orchestrator/Store/Recovery.antt =====
-- What a start makes of the state that it finds (internal/orchestrator/state.go).
use spinloop.Prelude.{
  ℕ, String, Bool, true, false, ◌≡◌, Option, none, some, arith, ◌⊎◌, if◌then◌else◌,
}
use spinloop.Prelude.Map.{Map, lookup, lookup-map_values}
use spinloop.Prelude.Result.{Result, ok, err}
use spinloop.Orchestrator.Store.{
  failed, ItemState, StateFile, absent, garbled, holds, Beside, StoreError, held_by, Io, runs,
  interrupt, recover, open_store,
}

abbrev pub running_record : Option ItemState → Bool
running_record none = false
running_record (some st) = runs st.state

pub recover_quiet :
    (now id : String) (items : Map ItemState)
    → running_record (lookup id (recover now items)) ≡ false
unfolding recover
recover_quiet now id items = ground (arith, lookup-map_values (interrupt now) id items)

pub recover_unchanged :
    (now id : String) (items : Map ItemState)
    → running_record (lookup id items) ≡ false
    → lookup id (recover now items) ≡ lookup id items
unfolding recover
recover_unchanged now id items h = ground (arith, lookup-map_values (interrupt now) id items)

-- The record that recovery leaves of the one that it found.
abbrev pub recovered : String → ItemState → ItemState
recovered now st = record {
  state = if runs st.state then failed else st.state;
  why = if runs st.state then "the orchestrator stopped while it was running" else st.why;
  node = st.node;
  started_at = st.started_at;
  ended_at = if runs st.state then now else st.ended_at;
}

-- Recovery leaves no item running: one that was is failed with the reason, its node and its start
-- kept and its end now; every other record, and every absence of one, stands as it was.
pub recover-records :
    (now id : String) (items : Map ItemState)
    → (lookup id (recover now items)
        ≡ elim (lookup id items) [ none ↦ none | some st ↦ some (recovered now st) ])
      × (running_record (lookup id (recover now items)) ≡ false)
unfolding recover
recover-records now id items =
    (ground (arith, lookup-map_values (interrupt now) id items), recover_quiet now id items)

-- None of the records runs.
abbrev pub NoneRuns : Map ItemState → Type 0
NoneRuns items = (id : String) → running_record (lookup id items) ≡ false

abbrev pub ReadsWithNoneRunning : StateFile → Type 0
ReadsWithNoneRunning absent = Unit {0}
ReadsWithNoneRunning garbled = ⊥
ReadsWithNoneRunning (holds items) = NoneRuns items

-- What holds of the files beside the items file after an attempt to open the store.
abbrev pub Opened : (ℕ → Bool) → ℕ → Beside → Result StoreError (Unit {0}) × Beside → Type 0
Opened alive pid before (ok _, after) =
    (after.lock ≡ some (some pid)) × ReadsWithNoneRunning after.state
Opened alive pid before (err (held_by holder), after) =
    (after ≡ before) × (before.lock ≡ some (some holder)) × (alive holder ≡ true)
Opened alive pid before (err e, after) =
    (after.state ≡ before.state) × ((after.lock ≡ none) ⊎ (after.lock ≡ before.lock))

-- What taking the lock leaves.
abbrev Locked : (ℕ → Bool) → ℕ → Beside → Result StoreError (Unit {0}) × Beside → Type 0
Locked alive pid before (ok _, after) =
    (after.lock ≡ some (some pid)) × (after.state ≡ before.state)
Locked alive pid before (err e, after) = Opened alive pid before (err e, after)

-- Over a working file system a lock whose holder is alive is always refused, naming the holder, and
-- nothing changes.
pub open_store_refused :
    (io : Io) (alive : ℕ → Bool) (pid : ℕ) (now : String) (before : Beside) (holder : ℕ)
    → io.reads ≡ true
    → before.lock ≡ some (some holder)
    → alive holder ≡ true
    → open_store io alive pid now before ≡ (err (held_by holder), before)
unfolding open_store
open_store_refused io alive pid now before holder r l a = rw (l, r, a)
