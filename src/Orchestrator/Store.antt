-- ===== src/Orchestrator/Store.antt =====
-- The state beside the items file (internal/orchestrator/state.go): the records of the items, the
-- lock that keeps a second orchestrator off the file, and the recovery that a start performs.
pub mod Recovery
use spinloop.Prelude.{
  ℕ, String, Bool, true, false, not, List, [], ◌∷◌, Option, none, some, if◌then◌else◌, any, is_some,
}
use spinloop.Prelude.Map.{Map, map_values, values}
use spinloop.Prelude.Result.{Result, ok, err}

pub data State : Type 0 where
  backlog running done failed : State

pub record ItemState : Type 0 where
  pub state : State
  pub why : String
  pub node : String
  pub started_at : String
  pub ended_at : String

abbrev pub runs : State → Bool
runs running = true
runs _ = false

abbrev pub has_ended : State → Bool
has_ended done = true
has_ended failed = true
has_ended _ = false

-- The state file: absent, unreadable or not a record (`garbled`), or the record that it holds.
pub data StateFile : Type 0 where
  absent garbled : StateFile
  holds : Map ItemState → StateFile

-- What stands beside the items file. The lock file holds a pid, or a text that is none.
pub record Beside : Type 0 where
  pub lock : Option (Option ℕ)
  pub state : StateFile

pub data StoreError : Type 0 where
  lock_failed lock_unreadable stale_lock_kept not_a_record save_failed log_dir_failed : StoreError
  held_by : ℕ → StoreError

-- Which of the file system's calls succeed; `exists` is not among them, the lock file decides it.
pub record Io : Type 0 where
  pub create : Bool
  pub reads : Bool
  pub remove : Bool
  pub recreate : Bool
  pub make_log_dir : Bool
  pub save : Bool

-- The pid in the lock file, where it has one that is alive.
abbrev pub live_holder : (ℕ → Bool) → Option ℕ → Option ℕ
live_holder alive none = none
live_holder alive (some pid) = if alive pid then some pid else none

take_over : Io → ℕ → Option ℕ → Beside → Result StoreError (Unit {0}) × Beside
take_over io pid (some holder) b = (err (held_by holder), b)
take_over io pid none b =
    if not io.remove
    then (err stale_lock_kept, b)
    else if not io.recreate
    then (err lock_failed, record b { lock = none })
    else (ok tt, record b { lock = some (some pid) })

claim : Io → (ℕ → Bool) → ℕ → Option (Option ℕ) → Beside → Result StoreError (Unit {0}) × Beside
unfolding take_over
claim io alive pid none b =
    if io.create then (ok tt, record b { lock = some (some pid) }) else (err lock_failed, b)
claim io alive pid (some content) b =
    if not io.reads
    then (err lock_unreadable, b)
    else take_over io pid (live_holder alive content) b

unfoldable pub take_lock : Io → (ℕ → Bool) → ℕ → Beside → Result StoreError (Unit {0}) × Beside
unfolding claim
take_lock io alive pid b = claim io alive pid b.lock b

unfoldable pub drop_lock : Beside → Beside
drop_lock b = record b { lock = none }

unfoldable pub read_state_file : StateFile → Result StoreError (Map ItemState)
read_state_file absent = ok []
read_state_file garbled = err not_a_record
read_state_file (holds items) = ok items

-- An item that the record left running is failed now, and the rest stand.
abbrev pub interrupt : String → ItemState → ItemState
interrupt now st =
    if runs st.state
    then record st {
      state = failed;
      why = "the orchestrator stopped while it was running";
      ended_at = now;
    }
    else st

unfoldable pub recover : String → Map ItemState → Map ItemState
recover now items = map_values (interrupt now) items

-- The part of `OpenStore` behind the lock.
load_and_recover :
    Io → String → Beside → Result StoreError (Map ItemState) → Result StoreError (Unit {0}) × Beside
unfolding recover drop_lock
load_and_recover io now b (err e) = (err e, drop_lock b)
load_and_recover io now b (ok items) =
    if any (λ st. runs st.state) (values items)
    then (if io.save
        then (ok tt, record b { state = holds (recover now items) })
        else (err save_failed, drop_lock b))
    else (ok tt, b)

opened : Io → String → Result StoreError (Unit {0}) × Beside → Result StoreError (Unit {0}) × Beside
unfolding load_and_recover read_state_file
opened io now (err e, b) = (err e, b)
opened io now (ok _, b) =
    if io.make_log_dir
    then load_and_recover io now b (read_state_file b.state)
    else (err log_dir_failed, drop_lock b)

-- `alive` tells whether a process of that pid is there.
unfoldable pub open_store :
    Io → (ℕ → Bool) → ℕ → String → Beside → Result StoreError (Unit {0}) × Beside
unfolding opened take_lock
open_store io alive pid now b = opened io now (take_lock io alive pid b)

-- `LockStatus`: the holder, and whether it lives; `none` where the lock is no pid.
unfoldable pub lock_status : (ℕ → Bool) → Option (Option ℕ) → Option (ℕ × Bool)
lock_status alive none = some (0, false)
lock_status alive (some none) = none
lock_status alive (some (some pid)) = some (pid, alive pid)
